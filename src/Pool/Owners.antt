-- ===== src/Pool/Owners.antt =====
-- Histories of a pool whose clients give back what they hold: who has which object.
use mathlib.Core.List.{Mem, Nodup, perm_middle, Nodup-cons, Nodup-nil}
use mathlib.Core.List.Perm
use mathlib.Core.Path.{subst, subst₂}
use bigblackhardware.Base.{
  ℕ, suc, ◌+◌, ◌<◌, ◌≤◌, ◌^◌, ◌≡◌, ◌↔◌, refl, ap, sym, ◌∙◌, true, Option, none, some, List, [], ◌∷◌,
  ◌++◌, ◌==◌, if◌then◌else◌, ℤ, pos, negative, length, length-append, arith, Bool-cases, inl, inr,
}
use bigblackhardware.Pool.{Pool, Got, pool_create, pool_get, pool_release}
use bigblackhardware.Pool.Refines.{
  IsPool, Store, view, take_item, put_item, status_of, pool_get-take, pool_release-put,
}

-- A pool and the objects that its clients hold.
pub record Lent (M : Type 0) : Type 0 where
  pub pool : Pool M
  pub held : List ℕ

abbrev pub hold : Option ℕ → List ℕ → List ℕ
hold none held = held
hold (some x) held = x ∷ held

abbrev pub owned : {M : Type 0} → Lent M → List ℕ
owned s = (view s.pool).idle ++ s.held

-- A client takes an object, for which the allocator may return an address not in use, or gives one
-- back that it holds.
pub data Step {M : Type 0} (s t : Lent M) : Type 0 where
  gets :
      (fresh : ℕ) (m : M) (r : Got M)
      → ¬ Mem fresh (owned s)
      → pool_get fresh true s.pool m ≡ some r
      → t ≡ record { pool = r.pool; held = hold r.item s.held }
      → Step s t
  releases :
      (obj : ℕ) (before after : List ℕ) (status : ℤ) (q : Pool M)
      → s.held ≡ before ++ (obj ∷ after)
      → pool_release obj s.pool ≡ some (status, q)
      → t ≡ record { pool = q; held = before ++ after }
      → Step s t

pub data Reach {M : Type 0} (s : Lent M) : Lent M → Type 0 where
  here : Reach s s
  next : {t u : Lent M} → Reach s t → Step t u → Reach s u

pub record IsLent {M : Type 0} (s : Lent M) : Type 0 where
  pub pool : IsPool s.pool
  pub apart : Nodup (owned s)
  pub counted : length (view s.pool).idle + length s.held ≡ s.pool.pool_size

-- Taking an item from the specification's store.
take_apart :
    (fresh made capacity : ℕ) (idle held : List ℕ)
    → Nodup (idle ++ held)
    → ¬ Mem fresh (idle ++ held)
    → let r = take_item fresh (record { idle = idle; made = made; capacity = capacity }) in
      Nodup (r.1.idle ++ hold r.0 held)
take_apart fresh made capacity [] held d new = elim (Bool-cases (made == capacity)) [
  | inl full ↦ rw full d
  | inr room ↦ rw room (Nodup-cons.1 (new, d))
]
take_apart fresh made capacity (x ∷ rest) held d new =
    Perm.nodup (Perm.symm (perm_middle rest held)) d

take_counted :
    (fresh made capacity : ℕ) (idle held : List ℕ)
    → length idle + length held ≡ made
    → let r = take_item fresh (record { idle = idle; made = made; capacity = capacity }) in
      length r.1.idle + length (hold r.0 held) ≡ r.1.made
take_counted fresh made capacity [] held e = ground arith
take_counted fresh made capacity (x ∷ rest) held e = omega arith

-- The refinement, for the result at hand.
got_lem :
    {M : Type 0} (fresh : ℕ) (p : Pool M) (m : M) (r : Got M)
    → IsPool p
    → pool_get fresh true p m ≡ some r
    → IsPool r.pool
      × (r.item ≡ (take_item fresh (view p)).0)
      × (view r.pool ≡ (take_item fresh (view p)).1)
      × (r.status ≡ status_of r.item)
got_lem {M} fresh p m r v e =
    let (g, e', w, item, store, status) = pool_get-take fresh p m v in
    let same : g ≡ r = cc in
    subst
      (λ (g : Got M).
        IsPool g.pool
        × (g.item ≡ (take_item fresh (view p)).0)
        × (view g.pool ≡ (take_item fresh (view p)).1)
        × (g.status ≡ status_of g.item))
      same (w, item, store, status)

gets-IsLent :
    {M : Type 0} (s : Lent M) (fresh : ℕ) (m : M) (r : Got M)
    → ¬ Mem fresh (owned s)
    → pool_get fresh true s.pool m ≡ some r
    → IsLent s
    → IsLent (record { pool = r.pool; held = hold r.item s.held })
gets-IsLent s fresh m r new e v =
    let (w, item, store, _) = got_lem fresh s.pool m r v.pool e in
    let before : Store = view s.pool in
    record {
      pool = w;
      apart =
          subst₂ (λ (st : Store) (i : Option ℕ). Nodup (st.idle ++ hold i s.held)) (sym store)
            (sym item)
            (take_apart fresh before.made before.capacity before.idle s.held v.apart new);
      counted =
          subst₂ (λ (st : Store) (i : Option ℕ). length st.idle + length (hold i s.held) ≡ st.made)
            (sym store) (sym item)
            (take_counted fresh before.made before.capacity before.idle s.held v.counted);
    }

some_eq : {a b : Store} → some a ≡ some b → a ≡ b
some_eq e = cc

-- The same for a release of an object that is out: it succeeds and puts the object back.
released_lem :
    {M : Type 0} (obj : ℕ) (p : Pool M) (status : ℤ) (q : Pool M)
    → IsPool p
    → length (view p).idle < p.pool_size
    → pool_release obj p ≡ some (status, q)
    → IsPool q × (status ≡ pos 0) × (view q ≡ record (view p) { idle = obj ∷ (view p).idle })
released_lem {M} obj p status q v out e =
    let (status', q', e', w, st, put) = pool_release-put obj p v in
    let same : q' ≡ q = cc in
    let room : put_item obj (view p) ≡ some (record (view p) { idle = obj ∷ (view p).idle }) =
      ground arith in
    let ok : status' ≡ pos 0 = st ∙ ap status_of room in
    let stored : put_item obj (view p) ≡ some (view q') =
      put ∙ ap (λ (z : ℤ). if negative z then none else some (view q')) ok in
    let found : some (view q') ≡ some (record (view p) { idle = obj ∷ (view p).idle }) =
      sym stored ∙ room in
    subst
      (λ (q : Pool M).
        IsPool q × (status ≡ pos 0) × (view q ≡ record (view p) { idle = obj ∷ (view p).idle }))
      same (w, cc, some_eq found)

removed :
    (before after idle : List ℕ) (obj : ℕ)
    → Nodup (idle ++ (before ++ (obj ∷ after)))
    → Nodup ((obj ∷ idle) ++ (before ++ after))
removed before after idle obj d =
    Perm.nodup
      (Perm.trans (Perm.append (Perm.refl idle) (perm_middle before after))
        (perm_middle idle (before ++ after)))
      d

releases-IsLent :
    {M : Type 0} (s : Lent M) (obj : ℕ) (before after : List ℕ) (status : ℤ) (q : Pool M)
    → s.held ≡ before ++ (obj ∷ after)
    → pool_release obj s.pool ≡ some (status, q)
    → IsLent s
    → IsLent (record { pool = q; held = before ++ after }) × (status ≡ pos 0)
releases-IsLent s obj before after status q split e v =
    let size : length s.held ≡ length before + suc (length after) =
      ap length split ∙ length-append before (obj ∷ after) in
    let (w, ok, put) = released_lem obj s.pool status q v.pool (omega arith) e in
    (
      record {
        pool = w;
        apart =
            subst (λ (st : Store). Nodup (st.idle ++ (before ++ after))) (sym put)
              (removed before after _ obj (rw split at v.apart));
        counted =
            subst (λ (st : Store). length st.idle + length (before ++ after) ≡ st.made) (sym put)
              (omega (arith, length-append before after));
      },
      ok,
    )

Step-IsLent : {M : Type 0} {s t : Lent M} → Step s t → IsLent s → IsLent t
Step-IsLent {s = s} (gets fresh m r new e eq) v = rw eq (gets-IsLent s fresh m r new e v)
Step-IsLent {s = s} (releases obj before after status q split e eq) v =
    rw eq (releases-IsLent s obj before after status q split e v).0

Reach-IsLent : {M : Type 0} {s t : Lent M} → IsLent s → Reach s t → IsLent t
Reach-IsLent v here = v
Reach-IsLent v (next r st) = Step-IsLent st (Reach-IsLent v r)

-- A new pool, with nothing lent.
abbrev pub fresh_pool : {M : Type 0} → Option (ℕ → M → M) → List ℕ → ℕ → Lent M
fresh_pool constructor slots max = record { pool = pool_create constructor slots max; held = [] }

created :
    {M : Type 0} (constructor : Option (ℕ → M → M)) (slots : List ℕ) (max : ℕ)
    → length slots ≡ max
    → max < 2 ^ 32
    → IsLent (fresh_pool constructor slots max)
unfolding pool_create
created constructor slots max size small = record {
  pool = record { slots = size; free = omega arith; size = omega arith; bound = small };
  apart = Nodup-nil;
  counted = refl;
}

-- From the creation of a pool on, whatever its clients' history of gets and releases is, if they
-- release only what they hold: no object is held twice or held while it is idle, the objects out
-- and the idle ones are as many as were made, and at most `max_pool_size` are made.
pub Reach-apart :
    {M : Type 0} (constructor : Option (ℕ → M → M)) (slots : List ℕ) (max : ℕ) (t : Lent M)
    → length slots ≡ max
    → max < 2 ^ 32
    → Reach (fresh_pool constructor slots max) t
    → Nodup (owned t)
      × (length (view t.pool).idle + length t.held ≡ t.pool.pool_size)
      × (t.pool.pool_size ≤ t.pool.max_pool_size)
Reach-apart constructor slots max t size small r =
    let v = Reach-IsLent (created constructor slots max size small) r in
    (v.apart, v.counted, v.pool.size)

take_none_iff :
    (fresh made capacity : ℕ) (idle held : List ℕ)
    → length idle + length held ≡ made
    → made ≤ capacity
    → ((take_item fresh (record { idle = idle; made = made; capacity = capacity })).0 ≡ none)
      ↔ (length held ≡ capacity)
take_none_iff fresh made capacity [] held e h = ground arith
take_none_iff fresh made capacity (x ∷ idle) held e h = ((λ e'. cc), λ e'. absurd (omega arith))

-- Where the pool is well formed and the objects out and the idle ones are different and are the
-- ones made, a get hands nothing out exactly when `max_pool_size` objects are out.
pub pool_get-none_iff :
    {M : Type 0} (s : Lent M) (fresh : ℕ) (m : M) (r : Got M)
    → IsLent s
    → pool_get fresh true s.pool m ≡ some r
    → (r.item ≡ none) ↔ (length s.held ≡ s.pool.max_pool_size)
pool_get-none_iff s fresh m r v e =
    let (w, item, _, _) = got_lem fresh s.pool m r v.pool e in
    let before : Store = view s.pool in
    rw item
      (take_none_iff fresh before.made before.capacity before.idle s.held v.counted v.pool.size)
