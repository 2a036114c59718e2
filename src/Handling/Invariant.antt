-- ===== src/Handling/Invariant.antt =====
-- What stays true of the server: its pools, and the connections that it can serve.
use bigblackhardware.Base.{
  ℕ, ◌≡◌, ◌∙◌, refl, ◌⊎◌, inl, inr, true, ◌==◌, ==_iff, arith, Bool-cases, Option, none, some, List,
  [], ◌∷◌, zero, suc, get_elem?, Holds, just, nothing,
}
use bigblackhardware.Protocol.{control_group}
use bigblackhardware.Pool.{Pool, Got, pool_get, construct}
use bigblackhardware.Pool.Refines.{IsPool}
use bigblackhardware.PacketManager.Pools.{IsPacketPool}
use bigblackhardware.Handling.{
  ConnectionInfo, Connections, put_connection, Server, conn_constructor,
}

-- Only the entry of the control group is ever used, by connections of that group.
pub record Entries {Q : Type 0} (conns : Connections Q) (conn_info : List (Option ℕ)) : Type 0 where
  pub control : Option ℕ
  pub entries : conn_info ≡ control ∷ none ∷ none ∷ []
  pub group : (c : ℕ) → control ≡ some c → (conns c).group ≡ control_group

pub record IsServer {Q D S : Type 0} (srv : Server Q D S) : Type 0 where
  pub packets : IsPacketPool srv.board.packets.pool
  pub connections : IsPool srv.connections_pool
  pub created : Q
  pub constructor : srv.connections_pool.obj_constructor ≡ some (conn_constructor created)
  pub entries : Entries srv.conns srv.conn_info

-- Where the connections' pool is as before.
pub IsServer-kept :
    {Q D S : Type 0} {srv srv' : Server Q D S}
    → IsServer srv
    → srv'.connections_pool ≡ srv.connections_pool
    → IsPacketPool srv'.board.packets.pool
    → Entries srv'.conns srv'.conn_info
    → IsServer srv'
IsServer-kept v e packets entries = record {
  packets = packets;
  connections = rw e v.connections;
  created = v.created;
  constructor = rw e v.constructor;
  entries = entries;
}

-- An entry is NULL, or a connection of the control group.
pub data Entry {Q : Type 0} (conns : Connections Q) : Option ℕ → Type 0 where
  no_entry : Entry conns none
  control_entry : {c : ℕ} → (conns c).group ≡ control_group → Entry conns (some c)

pub get_elem?-Entry :
    {Q : Type 0} (conns : Connections Q) (infos : List (Option ℕ)) (i : ℕ)
    → Entries conns infos
    → Holds (Entry conns) (get_elem? infos i)
get_elem?-Entry conns infos i v = rw v.entries (by_index i v.control v.group)
  where
    by_index :
        (i : ℕ) (control : Option ℕ)
        → ((c : ℕ) → control ≡ some c → (conns c).group ≡ control_group)
        → Holds (Entry conns) (get_elem? (control ∷ none ∷ none ∷ []) i)
    by_index zero none g = just no_entry
    by_index zero (some c) g = just (control_entry (g c refl))
    by_index (suc zero) control g = just no_entry
    by_index (suc (suc zero)) control g = just no_entry
    by_index (suc (suc (suc i))) control g = nothing

-- Behind the registration of a connection.
pub register-Entries :
    {Q : Type 0} (c : ℕ) (conns : Connections Q) (infos : List (Option ℕ))
    → infos ≡ some c ∷ none ∷ none ∷ []
    → Entries (put_connection c (record (conns c) { group = control_group }) conns) infos
register-Entries c conns infos e = record {
  control = some c;
  entries = e;
  group = λ c' same. let here : (c' == c) ≡ true = (==_iff c' c).1 cc in rw here refl;
}

-- A connection keeps its group or joins the control group.
abbrev pub Regroups : {Q : Type 0} → Connections Q → Connections Q → Type 0
Regroups conns conns' =
    (a : ℕ) → ((conns' a).group ≡ (conns a).group) ⊎ ((conns' a).group ≡ control_group)

pub Regroups-Entries :
    {Q : Type 0} (conns conns' : Connections Q) (conn_info : List (Option ℕ))
    → Regroups conns conns'
    → Entries conns conn_info
    → Entries conns' conn_info
Regroups-Entries conns conns' conn_info g v = record {
  control = v.control;
  entries = v.entries;
  group = λ c e. elim (g c) [ inl same ↦ same ∙ v.group c e | inr joined ↦ joined ];
}

pub put_connection-Regroups :
    {Q : Type 0} (ptr : ℕ) (info : ConnectionInfo Q) (conns : Connections Q)
    → (info.group ≡ (conns ptr).group) ⊎ (info.group ≡ control_group)
    → Regroups conns (put_connection ptr info conns)
put_connection-Regroups ptr info conns g a = elim (Bool-cases (a == ptr)) [
  | inl here ↦ let same : a ≡ ptr = (==_iff a ptr).0 here in rw (here, same) g
  | inr other ↦ inl (rw other refl)
]

pub pool_get-construct :
    {M : Type 0} (fresh : ℕ) (p : Pool M) (m : M) (r : Got M)
    → pool_get fresh true p m ≡ some r
    → ((r.memory ≡ m) ⊎ (r.memory ≡ construct p.obj_constructor fresh m))
      × (r.pool.obj_constructor ≡ p.obj_constructor)
unfolding pool_get
pool_get-construct fresh p m r e = ground (arith, e)

-- What a new connection is made of keeps its group.
pub construct-Regroups :
    {Q : Type 0} (created : Q) (ptr : ℕ) (conns : Connections Q)
    → Regroups conns (construct (some (conn_constructor created)) ptr conns)
unfolding conn_constructor
construct-Regroups created ptr conns = put_connection-Regroups ptr _ conns (inl refl)
