-- ===== src/Handling/Room.antt =====
-- How many packets can be taken from the pool, before and behind its calls.
use bigblackhardware.Base.{
  none, false, ◌==◌, if◌then◌else◌, negative, ℕ, ◌+◌, ◌-◌, ◌<◌, ◌≤◌, ◌≡◌, refl, ap, true, some,
  List, [], ◌∷◌, length, Holds-some, ℤ, pos, arith,
}
use bigblackhardware.Pool.{Pool, Got, pool_get, pool_release}
use bigblackhardware.Pool.Refines.{
  put_item, IsPool, Store, view, stack, length-stack, take_item, pool_get-take, pool_release-put,
}
use bigblackhardware.PacketManager.{Heap, Os, Packets, get_packet_from_pool, release_packet}
use bigblackhardware.PacketManager.Pools.{
  IsPacketPool, pool_get-IsPacketPool, pool_release-IsPacketPool,
}
use bigblackhardware.PacketManager.Send.{pool_get-memory}

-- How many objects can still be taken.
abbrev pub room : {M : Type 0} → Pool M → ℕ
room p = p.max_pool_size - (p.pool_size - p.free_items)

-- The same of the stack that the pool refines.
abbrev store_room : Store → ℕ
store_room s = s.capacity - (s.made - length s.idle)

store_room-take :
    (fresh : ℕ) (idle : List ℕ) (made capacity : ℕ) (s : Store) (obj : ℕ)
    → let before : Store = record { idle = idle; made = made; capacity = capacity } in
      length idle ≤ made
      → made ≤ capacity
      → (take_item fresh before).0 ≡ some obj
      → s ≡ (take_item fresh before).1
      → store_room s ≡ store_room before - 1
store_room-take fresh [] made capacity s obj h k given e =
    ground (arith, ap Store.idle e, ap Store.made e, ap Store.capacity e)
store_room-take fresh (x ∷ rest) made capacity s obj h k given e =
    rw (ap Store.idle e, ap Store.made e, ap Store.capacity e) (omega arith)

-- A pool that has given an object away has room for one less.
pub take_item-room :
    {M : Type 0} (fresh : ℕ) (p q : Pool M) (obj : ℕ)
    → IsPool p
    → (take_item fresh (view p)).0 ≡ some obj
    → view q ≡ (take_item fresh (view p)).1
    → room q ≡ room p - 1
take_item-room fresh p q obj v given rest =
    let size = length-stack p.free_items p.slots in
    let less =
      store_room-take fresh (stack p.free_items p.slots) p.pool_size p.max_pool_size (view q) obj
        (rw size v.free) v.size given rest in
    rw (length-stack q.free_items q.slots, size) at less

-- The stack behind its next packet.
abbrev pub behind_next : {Q : Type 0} (os : Os Q) → Store → Store
behind_next os st = (take_item (os.packet_address st.made) st).1

-- A stack with an object on top.
abbrev pub topped : ℕ → Store → Store
topped obj st = record st { idle = obj ∷ st.idle }

-- Behind the object on top is what was below it.
pub behind_topped :
    {Q : Type 0} (os : Os Q) (obj : ℕ) (st : Store) → behind_next os (topped obj st) ≡ st
behind_topped os obj st = refl

-- An object that is put back while one is out is on top.
pub put_item-topped :
    {M : Type 0} (obj : ℕ) (p q : Pool M) (status : ℤ)
    → p.free_items < p.pool_size
    → status ≡ pos 0
    → put_item obj (view p) ≡ (if negative status then none else some (view q))
    → view q ≡ topped obj (view p)
put_item-topped obj p q status lent fine e =
    let size = length-stack p.free_items p.slots in
    let some_out : (length (stack p.free_items p.slots) == p.pool_size) ≡ false =
      ground (arith, size) in
    let same : some (topped obj (view p)) ≡ some (view q) = rw (fine, some_out) at e in cc

pool_get-room :
    {M : Type 0} (fresh : ℕ) (p : Pool M) (m : M) (r : Got M)
    → IsPool p
    → 0 < p.max_pool_size
    → pool_get fresh true p m ≡ some r
    → (room r.pool ≡ room p - 1)
      × (r.pool.free_items < r.pool.pool_size)
      × (r.pool.max_pool_size ≡ p.max_pool_size)
unfolding pool_get
pool_get-room fresh p m r v some_size e = ground (arith, v.free, v.size, v.bound, e)

pub pool_release-room :
    {M : Type 0} (obj : ℕ) (p : Pool M) (status : ℤ) (q : Pool M)
    → IsPool p
    → p.free_items < p.pool_size
    → pool_release obj p ≡ some (status, q)
    → (status ≡ pos 0) × (room q ≡ room p + 1)
unfolding pool_release
pool_release-room obj p status q v lent e = ground (arith, v.free, v.size, v.bound, e)

-- A packet is taken: the pool has room for one less, and one is out.
pub record Taken {Q : Type 0} (os : Os Q) (p : Packets Q) (got : Got Heap) : Type 0 where
  pub pool : IsPacketPool got.pool
  pub less : room got.pool ≡ room p.pool - 1
  pub lent : got.pool.free_items < got.pool.pool_size
  pub memory : got.memory ≡ p.heap
  pub rest : view got.pool ≡ behind_next os (view p.pool)

pub get_packet_from_pool-Taken :
    {Q : Type 0} (os : Os Q) (p : Packets Q)
    → IsPacketPool p.pool
    → (got : Got Heap) × (get_packet_from_pool os p ≡ some got) × Taken os p got
unfolding get_packet_from_pool
get_packet_from_pool-Taken os p v =
    let fresh = os.packet_address p.pool.pool_size in
    let (got, taken, _, _, rest, _) = pool_get-take fresh p.pool p.heap v.pool in
    let (less, lent, _) = pool_get-room fresh p.pool p.heap got v.pool v.some_size taken in
    (
      got,
      taken,
      record {
        pool = Holds-some (rw taken at (pool_get-IsPacketPool fresh p.pool p.heap v));
        less = less;
        lent = lent;
        memory = (pool_get-memory fresh p.pool p.heap got v.no_constructor taken).0;
        rest = rest;
      },
    )

-- A packet goes back while one is out.
pub release_packet-room :
    {Q : Type 0} (os : Os Q) (ptr : ℕ) (p : Packets Q)
    → IsPacketPool p.pool
    → p.pool.free_items < p.pool.pool_size
    → (status : ℤ) × (pool : Pool Heap) × (release_packet os ptr p
        ≡ some (status, record p { pool = pool }))
      × IsPacketPool pool
      × (status ≡ pos 0)
      × (room pool ≡ room p.pool + 1)
      × (view pool ≡ topped ptr (view p.pool))
unfolding release_packet
release_packet-room os ptr p v lent =
    let (status, pool, released, _, _, put) = pool_release-put ptr p.pool v.pool in
    let (fine, more) = pool_release-room ptr p.pool status pool v.pool lent released in
    (
      status,
      pool,
      rw released refl,
      Holds-some (rw released at (pool_release-IsPacketPool ptr p.pool v)),
      fine,
      more,
      put_item-topped ptr p.pool pool status lent fine put,
    )
