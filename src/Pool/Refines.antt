-- ===== src/Pool/Refines.antt =====
-- The pool refines a stack of idle objects with a count of those made.
use bigblackhardware.Base.{
  ℕ, zero, suc, ◌+◌, ◌^◌, ◌<◌, ◌≤◌, ◌≡◌, ◌⊎◌, refl, ap, true, Option, none, some, List, [], ◌∷◌,
  ◌==◌, if◌then◌else◌, ℤ, negative, pos, negsuc, get_or, set, length, arith, get_elem?-eq-get_or,
  get_or-set_ne, get_or-set_self, length-set, Bool-cases, inl, inr,
}
use native.Mathlib.Numerals.{add-one}
use bigblackhardware.Pool.{Pool, Got, pool_get, pool_release, pool_delete, construct, delete_loop}

pub record IsPool {M : Type 0} (p : Pool M) : Type 0 where
  pub slots : length p.slots ≡ p.max_pool_size
  pub free : p.free_items ≤ p.pool_size
  pub size : p.pool_size ≤ p.max_pool_size
  pub bound : p.max_pool_size < 2 ^ 32

-- The first `n` entries of the array, the last one on top.
abbrev pub stack : ℕ → List ℕ → List ℕ
stack zero xs = []
stack (suc n) xs = get_or xs n 0 ∷ stack n xs

pub record Store : Type 0 where
  pub idle : List ℕ
  pub made : ℕ
  pub capacity : ℕ

abbrev pub view : {M : Type 0} → Pool M → Store
view p = record {
  idle = stack p.free_items p.slots;
  made = p.pool_size;
  capacity = p.max_pool_size;
}

-- The specification: the object that was put back last, a new one, or none.
abbrev pub take_item : ℕ → Store → Option ℕ × Store
take_item fresh s = elim s.idle [
  | x ∷ rest ↦ (some x, record s { idle = rest })
  | [] ↦ if s.made == s.capacity then (none, s) else (some fresh, record s { made = s.made + 1 })
]

abbrev pub put_item : ℕ → Store → Option Store
put_item obj s = if length s.idle == s.made then none else some (record s { idle = obj ∷ s.idle })

abbrev pub status_of : {A : Type 0} → Option A → ℤ
status_of (some a) = pos 0
status_of none = negsuc 0

pub length-stack : (n : ℕ) (xs : List ℕ) → length (stack n xs) ≡ n
length-stack zero xs = refl
length-stack (suc n) xs = ap suc (length-stack n xs)

-- A write above the top leaves the stack as it is.
stack-set : (n i : ℕ) (xs : List ℕ) (v : ℕ) → n ≤ i → stack n (set xs i v) ≡ stack n xs
stack-set zero i xs v h = refl
stack-set (suc n) i xs v h =
    rw (get_or-set_ne xs i n v 0 (λ e. omega arith), stack-set n i xs v (omega arith))

stack-push :
    (n : ℕ) (xs : List ℕ) (v : ℕ) → n < length xs → stack (n + 1) (set xs n v) ≡ v ∷ stack n xs
stack-push n xs v h = rw add-one (
    rw (get_or-set_self xs n v 0 h) (ap (λ (l : List ℕ). v ∷ l) (stack-set n n xs v (omega arith))))

store-lent :
    (fresh : ℕ) (idle : List ℕ) (made capacity : ℕ) (s : Store) (obj : ℕ)
    → let before : Store = record { idle = idle; made = made; capacity = capacity } in
      length idle ≤ made
      → (take_item fresh before).0 ≡ some obj
      → s ≡ (take_item fresh before).1
      → length s.idle < s.made
store-lent fresh [] made capacity s obj h given e = ground (arith, ap Store.idle e, ap Store.made e)
store-lent fresh (x ∷ rest) made capacity s obj h given e =
    rw (ap Store.idle e, ap Store.made e) (omega arith)

-- Where an object has been taken, fewer are idle than were made.
pub take_item-lent :
    {M : Type 0} (fresh : ℕ) (p q : Pool M) (obj : ℕ)
    → IsPool p
    → (take_item fresh (view p)).0 ≡ some obj
    → view q ≡ (take_item fresh (view p)).1
    → q.free_items < q.pool_size
take_item-lent fresh p q obj v given rest =
    let fewer =
      store-lent fresh (stack p.free_items p.slots) p.pool_size p.max_pool_size (view q) obj
        (rw (length-stack p.free_items p.slots) v.free) given rest in
    rw (length-stack q.free_items q.slots) at fewer

module _ {M : Type 0} (fresh : ℕ) (p : Pool M) (m : M) (v : IsPool p) where
  -- What a call to pool_get with a valid pointer does.
  abbrev Gets : Option (Got M) → Type 0
  Gets o =
      (r : Got M) × (o ≡ some r)
      × IsPool r.pool
      × (r.item ≡ (take_item fresh (view p)).0)
      × (view r.pool ≡ (take_item fresh (view p)).1)
      × (r.status ≡ status_of r.item)

  get_pop : (k : ℕ) → p.free_items ≡ suc k → Gets (pool_get fresh true p m)
  unfolding pool_get
  get_pop k e = (
    record {
      status = pos 0;
      item = some (get_or p.slots k 0);
      pool = record p { free_items = k };
      memory = m;
    },
    ground (arith, get_elem?-eq-get_or p.slots k 0),
    ground arith,
    rw e,
    rw e,
    refl,
  )

  get_empty : p.free_items ≡ zero → Gets (pool_get fresh true p m)
  unfolding pool_get
  get_empty e = elim (Bool-cases (p.pool_size == p.max_pool_size)) [
    | inl full ↦ (
      record { status = negsuc 0; item = none; pool = p; memory = m },
      ground arith,
      v,
      rw e (rw full),
      rw e (rw full),
      refl,
    )
    | inr room ↦ (
      record {
        status = pos 0;
        item = some fresh;
        pool = record p { pool_size = p.pool_size + 1 };
        memory = construct p.obj_constructor fresh m;
      },
      ground arith,
      ground arith,
      rw e (rw room),
      rw e (rw room),
      refl,
    )
  ]

free-cases : (n : ℕ) → (n ≡ zero) ⊎ ((k : ℕ) × (n ≡ suc k))
free-cases zero = inl refl
free-cases (suc k) = inr (k, refl)

-- On a well-formed pool `pool_get` never faults and keeps it well formed; it hands out the object
-- released last, makes a new one where none is idle, and returns -1 with nothing stored exactly
-- when the specification has none to give.
pub pool_get-take :
    {M : Type 0} (fresh : ℕ) (p : Pool M) (m : M)
    → IsPool p
    → (r : Got M) × (pool_get fresh true p m ≡ some r)
      × IsPool r.pool
      × (r.item ≡ (take_item fresh (view p)).0)
      × (view r.pool ≡ (take_item fresh (view p)).1)
      × (r.status ≡ status_of r.item)
pool_get-take fresh p m v = elim (free-cases p.free_items) [
  | inl e ↦ get_empty fresh p m v e
  | inr (k, e) ↦ get_pop fresh p m v k e
]

-- On a well-formed pool `pool_release` never faults and keeps it well formed; it puts the object
-- on top of the idle ones, and returns -1 and changes nothing where as many are idle as were made.
pub pool_release-put :
    {M : Type 0} (obj : ℕ) (p : Pool M)
    → IsPool p
    → (status : ℤ) × (q : Pool M) × (pool_release obj p ≡ some (status, q))
      × IsPool q
      × (status ≡ status_of (put_item obj (view p)))
      × (put_item obj (view p) ≡ (if negative status then none else some (view q)))
unfolding pool_release
pool_release-put obj p v = elim (Bool-cases (p.free_items == p.pool_size)) [
  | inl all_idle ↦ (
    negsuc 0,
    p,
    ground arith,
    v,
    ground (arith, length-stack p.free_items p.slots),
    ground (arith, length-stack p.free_items p.slots),
  )
  | inr lent ↦ (
    pos 0,
    record p { slots = set p.slots p.free_items obj; free_items = p.free_items + 1 },
    ground arith,
    ground (arith, length-set p.slots p.free_items obj),
    ground (arith, length-stack p.free_items p.slots),
    ground (
      arith,
      length-stack p.free_items p.slots,
      stack-push p.free_items p.slots obj (ground arith),
    ),
  )
]

-- `pool_delete` refuses while objects are out, succeeds on a pool that never made one, and faults
-- on every other: it hands NULL to `pool_get`, which stores the object there.
pub pool_delete_lem :
    {M : Type 0} (fresh : ℕ) (p : Pool M) (m : M)
    → IsPool p
    → pool_delete fresh p m ≡ (
        if p.free_items == p.pool_size
        then if p.pool_size == 0 then some (pos 0, p) else none
        else some (negsuc 0, p))
unfolding pool_delete pool_get
pool_delete_lem fresh p m v = elim (free-cases p.pool_size) [
  | inl e ↦ rw (e, delete_loop) (ground arith)
  | inr (k, e) ↦ rw (e, delete_loop) (ground arith)
]
