-- ===== src/Handling/Closing.antt =====
-- Closing a connection keeps the server well formed.
use bigblackhardware.Base.{
  ℕ, ◌≡◌, ◌∙◌, refl, inl, inr, Option, none, some, List, [], ◌∷◌, ◌>>=◌, ℤ, negative, write?, arith,
  Bool-cases, Holds, just, Holds-bind, Holds-if,
}
use bigblackhardware.Protocol.{PacketGroup, control_group}
use bigblackhardware.Pool.{Pool, pool_release}
use bigblackhardware.Pool.Refines.{pool_release-put}
use bigblackhardware.PacketManager.{Os}
use bigblackhardware.Handling.{
  Connections, Sockets, Server, group_index, disable_connection, close_conn,
}
use bigblackhardware.Handling.Serve.{set_out_queue, set_handed_queue}
use bigblackhardware.Handling.Invariant.{
  Entries, IsServer, IsServer-kept, Regroups-Entries, put_connection-Regroups,
}

pool_release-constructor :
    {M : Type 0} (obj : ℕ) (p : Pool M) (r : ℤ × Pool M)
    → pool_release obj p ≡ some r
    → r.1.obj_constructor ≡ p.obj_constructor
unfolding pool_release
pool_release-constructor obj p r e = ground (arith, e)

-- Another queue changes no entry.
pub queue-Entries :
    {Q : Type 0} (c : ℕ) (q : Q) (conns : Connections Q) (infos : List (Option ℕ))
    → Entries conns infos
    → Entries (set_out_queue c q conns) infos
queue-Entries c q conns infos v =
    Regroups-Entries conns _ infos (put_connection-Regroups c _ conns (inl refl)) v

pub handed-Entries :
    {Q : Type 0} (os : Os Q) (c : ℕ) (q : Q) (conns : Connections Q) (infos : List (Option ℕ))
    → Entries conns infos
    → Entries (set_handed_queue os c q conns) infos
handed-Entries os c q conns infos v =
    Regroups-Entries conns _ infos (put_connection-Regroups c _ conns (inl refl)) v

-- Writing the entry of the control group.
pub write_entry :
    {Q : Type 0} (conns : Connections Q) (infos : List (Option ℕ)) (group : PacketGroup)
    (entry : Option ℕ)
    → Entries conns infos
    → group ≡ control_group
    → Holds
        (λ (r : List (Option ℕ)). r ≡ entry ∷ none ∷ none ∷ [])
        (write? infos (group_index group) entry)
write_entry conns infos group entry v g = rw (g, v.entries) (just refl)

module _ {Q D S : Type 0} (host : Sockets S) where
  pub disable_connection-IsServer :
      (c : ℕ) (srv : Server Q D S) → IsServer srv → IsServer (disable_connection host c srv).1
  unfolding disable_connection
  disable_connection-IsServer c srv v =
      elim (Bool-cases (negative (host.close (srv.conns c).hndl srv.sockets).0)) [
        | inl failed ↦ rw failed (IsServer-kept v refl v.packets v.entries)
        | inr closed ↦ rw closed (
            IsServer-kept v refl v.packets (
              Regroups-Entries srv.conns _ srv.conn_info
                (put_connection-Regroups c _ srv.conns (inl refl)) v.entries))
      ]

  -- Releasing a connection keeps its pool well formed.
  release-IsServer :
      (c : ℕ) (srv : Server Q D S)
      → IsServer srv
      → Holds
          (λ (r : ℤ × Server Q D S). IsServer r.1)
          (pool_release c srv.connections_pool
            >>= (λ r. some (r.0, record srv { connections_pool = r.1 })))
  release-IsServer c srv v =
      let (status, q, released, w, _, _) = pool_release-put c srv.connections_pool v.connections in
      rw released (
        just (record {
          packets = v.packets;
          connections = w;
          created = v.created;
          constructor =
              pool_release-constructor c srv.connections_pool (status, q) released ∙ v.constructor;
          entries = v.entries;
        }))

  cleared-IsServer :
      (infos : List (Option ℕ)) (srv : Server Q D S)
      → IsServer srv
      → infos ≡ none ∷ none ∷ none ∷ []
      → IsServer (record srv { conn_info = infos })
  cleared-IsServer infos srv v e =
      IsServer-kept v refl v.packets
        (record { control = none; entries = e; group = λ c absent. absurd cc })

  pub close_conn-IsServer :
      (c p : ℕ) (srv : Server Q D S)
      → IsServer srv
      → (srv.conns c).group ≡ control_group
      → Holds (λ (r : ℤ × Server Q D S). IsServer r.1) (close_conn host c (some p) srv)
  unfolding close_conn
  close_conn-IsServer c p srv v g =
      Holds-bind _ (write_entry srv.conns srv.conn_info (srv.conns c).group none v.entries g)
        (λ infos e.
          let srv1 = record srv { conn_info = infos } in
          let w = disable_connection-IsServer c srv1 (cleared-IsServer infos srv v e) in
          Holds-if (negative (disable_connection host c srv1).0) (just w)
            (release-IsServer c (disable_connection host c srv1).1 w))
