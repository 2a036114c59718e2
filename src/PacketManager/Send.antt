-- ===== src/PacketManager/Send.antt =====
-- Packets that are made and queued: which packet, with which contents, and what happens to the pool.
use bigblackhardware.Base.{
  ℕ, ◌<◌, ◌≤◌, ◌≡◌, refl, ap, sym, ◌∙◌, true, ◌==◌, if◌then◌else◌, Option, none, some, List, [],
  ◌∷◌, ◌++◌, ℤ, pos, negsuc, negative, take, drop, length, arith, length-append, length-take_le,
  length-drop, Option-cases, Bool-cases, inl, inr,
}
use bigblackhardware.Protocol.{PacketType, ack}
use bigblackhardware.Packet.{Packet, packet_data_size}
use bigblackhardware.Packet.Wire.{WireHeader, bytes}
use bigblackhardware.Packet.Frame.{framed, filled, sent, create_packet-sent}
use bigblackhardware.Pool.{Pool, Got, pool_get}
use bigblackhardware.Pool.Refines.{
  IsPool, view, take_item, status_of, pool_get-take, take_item-lent,
}
use bigblackhardware.PacketManager.{
  Heap, Os, Packets, store, get_packet_from_pool, write_packet, create_send_packet, send_ack,
}

-- A packet's raw header has five bytes and its data field 1024.
pub record IsPacket (p : Packet) : Type 0 where
  pub wire : WireHeader
  pub raw : p.raw_header ≡ bytes wire []
  pub size : length p.packet_data ≡ packet_data_size

pub record IsPackets {Q : Type 0} (s : Packets Q) : Type 0 where
  pub pool : IsPool s.pool
  pub no_constructor : s.pool.obj_constructor ≡ none
  pub heap : (ptr : ℕ) → IsPacket (s.heap ptr)

-- A packet that holds `n` bytes of `xs` in front of its old contents, without flags.
abbrev pub packed : (p : Packet) → IsPacket p → List ℕ → ℕ → Packet
packed p v xs n = sent p v.wire (filled p 0 0 0 n) (take n xs ++ drop n p.packet_data)

packed-IsPacket :
    (p : Packet) (v : IsPacket p) (xs : List ℕ) (n : ℕ)
    → n ≤ length xs
    → n ≤ packet_data_size
    → IsPacket (packed p v xs n)
packed-IsPacket p v xs n enough fits = record {
  wire = framed v.wire (filled p 0 0 0 n);
  raw = refl;
  size = omega (
    arith,
    v.size,
    length-append (take n xs) (drop n p.packet_data),
    length-take_le n xs enough,
    length-drop n p.packet_data,
  );
}

pub store-IsPacket :
    (heap : Heap) (ptr : ℕ) (p : Packet)
    → IsPacket p
    → ((a : ℕ) → IsPacket (heap a))
    → (a : ℕ) → IsPacket (store ptr p heap a)
store-IsPacket heap ptr p v h a = elim (Bool-cases (a == ptr)) [
  | inl here ↦ rw here v
  | inr other ↦ rw other (h a)
]

-- Without a constructor the pool leaves the packets alone.
pub pool_get-memory :
    {M : Type 0} (fresh : ℕ) (p : Pool M) (m : M) (r : Got M)
    → p.obj_constructor ≡ none
    → pool_get fresh true p m ≡ some r
    → (r.memory ≡ m) × (r.pool.obj_constructor ≡ none)
unfolding pool_get
pool_get-memory fresh p m r e run = ground (arith, e)

module _ {Q : Type 0} (os : Os Q) where
  -- The packet that the pool gives.
  abbrev pub next_packet : Packets Q → Option ℕ
  next_packet s = (take_item (os.packet_address s.pool.pool_size) (view s.pool)).0

  -- The status, the heap and the queue behind a packet with `n` bytes of `xs`.
  abbrev pub queued : (s : Packets Q) → IsPackets s → List ℕ → ℕ → Option ℕ → ℤ × Heap × Q
  queued s v xs n none = (negsuc 0, s.heap, s.queue)
  queued s v xs n (some ptr) = (
    pos 0,
    store ptr (packed (s.heap ptr) (v.heap ptr) xs n) s.heap,
    (os.queue_write ptr s.queue).1,
  )

  -- Well-formed packets, of which the pool has given its next one away.
  pub record Given (s t : Packets Q) : Type 0 where
    pub packets : IsPackets t
    pub rest : view t.pool ≡ (take_item (os.packet_address s.pool.pool_size) (view s.pool)).1

  pub Given-lent :
      (s t : Packets Q) (ptr : ℕ)
      → IsPool s.pool
      → next_packet s ≡ some ptr
      → Given s t
      → t.pool.free_items < t.pool.pool_size
  Given-lent s t ptr v free g =
      take_item-lent (os.packet_address s.pool.pool_size) s.pool t.pool ptr v free g.rest

  -- A packet that is made for sending: where the pool has none the status is -1 and neither the
  -- heap nor the queue changes. Otherwise the pool's next packet is filled with `n` bytes, at most
  -- 1024, without flags, and its address is written to the queue; the status is 0 whatever the
  -- queue says. The pool gives exactly this packet away, and all packets stay well formed.
  pub create_send_packet-queued :
      (s : Packets Q) (type : PacketType) (xs : List ℕ) (n : ℕ) (v : IsPackets s)
      → n ≤ length xs
      → n ≤ packet_data_size
      → (status : ℤ) × (t : Packets Q) × (create_send_packet os type xs n s ≡ some (status, t))
        × IsPackets t
        × (view t.pool ≡ (take_item (os.packet_address s.pool.pool_size) (view s.pool)).1)
        × ((status, t.heap, t.queue) ≡ queued s v xs n (next_packet s))
  unfolding create_send_packet get_packet_from_pool write_packet
  create_send_packet-queued s type xs n v enough fits =
      let fresh = os.packet_address s.pool.pool_size in
      let (r, run, w, item, rest, status) = pool_get-take fresh s.pool s.heap v.pool in
      let (heap, plain) = pool_get-memory fresh s.pool s.heap r v.no_constructor run in
      elim (Option-cases r.item) [
        | inl no_item ↦
            let refused : r.status ≡ negsuc 0 = status ∙ ap status_of no_item in
            (
              negsuc 0,
              record { pool = r.pool; heap = s.heap; queue = s.queue },
              rw (run, refused, heap) refl,
              record { pool = w; no_constructor = plain; heap = v.heap },
              rest,
              rw (sym item ∙ no_item) refl,
            )
        | inr (ptr, found) ↦
            let given : r.status ≡ pos 0 = status ∙ ap status_of found in
            let p = v.heap ptr in
            (
              pos 0,
              record {
                pool = r.pool;
                heap = store ptr (packed (s.heap ptr) p xs n) s.heap;
                queue = (os.queue_write ptr s.queue).1;
              },
              rw
                  (
                    run,
                    given,
                    heap,
                    found,
                    create_packet-sent (s.heap ptr) p.wire type 0 0 0 xs n p.raw p.size fits enough,
                  )
                  refl,
              record {
                pool = w;
                no_constructor = plain;
                heap =
                    store-IsPacket s.heap ptr _ (packed-IsPacket (s.heap ptr) p xs n enough fits)
                      v.heap;
              },
              rest,
              rw (sym item ∙ found) refl,
            )
      ]

  -- Where the pool has a packet, an acknowledgement for a status that is not negative is queued
  -- with the data byte 1. For a negative status the byte is what the stack happened to hold: it is
  -- never cleared, and may be 1 as well. Without a packet the status is -1 and nothing is queued.
  pub send_ack-queued :
      (s : Packets Q) (status : ℤ) (v : IsPackets s)
      → (sent_status : ℤ) × (t : Packets Q) × (send_ack os status s ≡ some (sent_status, t))
        × IsPackets t
        × (view t.pool ≡ (take_item (os.packet_address s.pool.pool_size) (view s.pool)).1)
        × ((sent_status, t.heap, t.queue)
            ≡ queued s v ((if negative status then os.stack_byte else 1) ∷ []) 1 (next_packet s))
  unfolding send_ack
  send_ack-queued s (pos k) v =
      create_send_packet-queued s ack (1 ∷ []) 1 v (omega arith) (omega arith)
  send_ack-queued s (negsuc k) v =
      create_send_packet-queued s ack (os.stack_byte ∷ []) 1 v (omega arith) (omega arith)
