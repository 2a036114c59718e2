-- ===== src/PacketManager/Pools.antt =====
-- The packets' pool stays well formed through every function that takes or returns packets.
use bigblackhardware.Base.{
  ℕ, ◌<◌, ◌≡◌, ◌∙◌, true, Option, none, some, List, ℤ, negative, length, arith, Holds, just,
  Holds-bind, Holds-any, Holds-if,
}
use bigblackhardware.Protocol.{PacketType, ack, error, cmd}
use bigblackhardware.Packet.{Packet}
use bigblackhardware.Pool.{Pool, Got, pool_get, pool_release}
use bigblackhardware.Pool.Refines.{IsPool, pool_get-take, pool_release-put}
use bigblackhardware.PacketManager.{
  Heap, Os, Packets, get_packet_from_pool, release_packet, write_packet, create_send_packet,
  send_packet, send_ack, send_error, send_avr_cmd,
}

-- The packets' pool is well formed, has no constructor, and is made for at least one packet.
pub record IsPacketPool (p : Pool Heap) : Type 0 where
  pub pool : IsPool p
  pub no_constructor : p.obj_constructor ≡ none
  pub some_size : 0 < p.max_pool_size

-- A pool of which a packet is out is made for at least one.
pub lent-IsPacketPool :
    (p : Pool Heap)
    → IsPool p
    → p.obj_constructor ≡ none
    → p.free_items < p.pool_size
    → IsPacketPool p
lent-IsPacketPool p v plain lent = record {
  pool = v;
  no_constructor = plain;
  some_size = omega (arith, v.size);
}

pool_get-kept :
    {M : Type 0} (fresh : ℕ) (p : Pool M) (m : M) (r : Got M)
    → pool_get fresh true p m ≡ some r
    → (r.pool.max_pool_size ≡ p.max_pool_size) × (r.pool.obj_constructor ≡ p.obj_constructor)
unfolding pool_get
pool_get-kept fresh p m r e = ground (arith, e)

pool_release-kept :
    {M : Type 0} (obj : ℕ) (p : Pool M) (r : ℤ × Pool M)
    → pool_release obj p ≡ some r
    → (r.1.max_pool_size ≡ p.max_pool_size) × (r.1.obj_constructor ≡ p.obj_constructor)
unfolding pool_release
pool_release-kept obj p r e = ground (arith, e)

pub pool_get-IsPacketPool :
    (fresh : ℕ) (p : Pool Heap) (m : Heap)
    → IsPacketPool p
    → Holds (λ got. IsPacketPool got.pool) (pool_get fresh true p m)
pool_get-IsPacketPool fresh p m v =
    let (r, taken, w, _, _, _) = pool_get-take fresh p m v.pool in
    let (size, made) = pool_get-kept fresh p m r taken in
    rw taken (
      just (record {
        pool = w;
        no_constructor = made ∙ v.no_constructor;
        some_size = let s = v.some_size in omega arith;
      }))

pub pool_release-IsPacketPool :
    (obj : ℕ) (p : Pool Heap) → IsPacketPool p → Holds (λ r. IsPacketPool r.1) (pool_release obj p)
pool_release-IsPacketPool obj p v =
    let (status, q, released, w, _, _) = pool_release-put obj p v.pool in
    let (size, made) = pool_release-kept obj p (status, q) released in
    rw released (
      just (record {
        pool = w;
        no_constructor = made ∙ v.no_constructor;
        some_size = let s = v.some_size in omega arith;
      }))

module _ {Q : Type 0} (os : Os Q) where
  -- What the functions that send return.
  abbrev pub Sound : Option (ℤ × Packets Q) → Type 0
  Sound = Holds (λ r. IsPacketPool r.1.pool)

  pub get_packet_from_pool-IsPacketPool :
      (s : Packets Q)
      → IsPacketPool s.pool
      → Holds (λ got. IsPacketPool got.pool) (get_packet_from_pool os s)
  unfolding get_packet_from_pool
  get_packet_from_pool-IsPacketPool s v = pool_get-IsPacketPool _ s.pool s.heap v

  pub release_packet-Sound :
      (ptr : ℕ) (s : Packets Q) → IsPacketPool s.pool → Sound (release_packet os ptr s)
  unfolding release_packet
  release_packet-Sound ptr s v =
      Holds-bind _ (pool_release-IsPacketPool ptr s.pool v) (λ r w. just w)

  pub create_send_packet-Sound :
      (type : PacketType) (bytes : List ℕ) (n : ℕ) (s : Packets Q)
      → IsPacketPool s.pool
      → Sound (create_send_packet os type bytes n s)
  unfolding create_send_packet write_packet
  create_send_packet-Sound type bytes n s v =
      Holds-bind _ (get_packet_from_pool-IsPacketPool s v) (λ got w.
        Holds-if (negative got.status) (just w) (
          Holds-any got.item _
            (λ ptr. Holds-any _ _ (λ (r : ℤ × Packet). Holds-if (negative r.0) (just w) (just w)))))

  pub send_packet-Sound :
      (ptr : ℕ) (type : PacketType) (n : ℕ) (s : Packets Q)
      → IsPacketPool s.pool
      → Sound (send_packet os ptr type n s)
  unfolding send_packet write_packet
  send_packet-Sound ptr type n s v =
      Holds-any _ _ (λ (r : ℤ × Packet). Holds-if (negative r.0) (just v) (just v))

  pub send_ack-Sound :
      (status : ℤ) (s : Packets Q) → IsPacketPool s.pool → Sound (send_ack os status s)
  unfolding send_ack
  send_ack-Sound status s v = create_send_packet-Sound ack _ 1 s v

  pub send_error-Sound :
      (msg : List ℕ) (s : Packets Q) → IsPacketPool s.pool → Sound (send_error os msg s)
  unfolding send_error
  send_error-Sound msg s v = create_send_packet-Sound error msg (length msg) s v

  pub send_avr_cmd-Sound :
      (bytes : List ℕ) (s : Packets Q) → IsPacketPool s.pool → Sound (send_avr_cmd os bytes s)
  unfolding send_avr_cmd
  send_avr_cmd-Sound bytes s v = create_send_packet-Sound cmd bytes _ s v
