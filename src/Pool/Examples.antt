-- ===== src/Pool/Examples.antt =====
-- Runs of pool.c on small pools.
use mathlib.Core.List.{Mem, Nodup, Nodup-cons, Nodup-nil, not-mem-nil, eq-or-mem_of_mem-cons}
use mathlib.Core.HLevel.{⊥_prop}
use mathlib.Core.Logic.Or
use bigblackhardware.Base.{
  ℕ, ◌+◌, ◌≤◌, ◌≡◌, ◌↔◌, ◌≢◌, refl, true, none, some, List, [], ◌∷◌, ℤ, pos, negsuc, length, arith,
  negative, if◌then◌else◌,
}
use bigblackhardware.Pool.{Pool, Got, pool_create, pool_get, pool_release, pool_delete}
use bigblackhardware.Pool.Refines.{
  IsPool, view, status_of, pool_get-take, pool_release-put, pool_delete_lem,
}
use bigblackhardware.Pool.Owners.{
  Lent, owned, gets, releases, Reach, here, next, IsLent, fresh_pool, Reach-apart,
  pool_get-none_iff,
}

not_mem-cons : (a b : ℕ) (l : List ℕ) → a ≢ b → ¬ Mem a l → ¬ Mem a (b ∷ l)
not_mem-cons a b l n h m = Or.elim ⊥_prop (eq-or-mem_of_mem-cons m) n h

-- The constructor notes the objects it was called on.
abbrev note : ℕ → List ℕ → List ℕ
note obj m = obj ∷ m

abbrev one_out : Pool (List ℕ)
one_out = record {
  obj_constructor = some note;
  slots = 0 ∷ 0 ∷ [];
  pool_size = 1;
  free_items = 0;
  max_pool_size = 2;
}

abbrev both_idle : Pool (List ℕ)
both_idle = record one_out { slots = 40 ∷ 80 ∷ []; pool_size = 2; free_items = 2 }

one_out-IsPool : IsPool one_out
one_out-IsPool = record {
  slots = refl;
  free = omega arith;
  size = omega arith;
  bound = omega arith;
}

both_idle-IsPool : IsPool both_idle
both_idle-IsPool = record {
  slots = refl;
  free = omega arith;
  size = omega arith;
  bound = omega arith;
}

pool_get-take_example :
    (r : Got (List ℕ)) × (pool_get 80 true one_out [] ≡ some r)
    × IsPool r.pool
    × (r.item ≡ some 80)
    × (view r.pool ≡ record { idle = []; made = 2; capacity = 2 })
    × (r.status ≡ status_of r.item)
pool_get-take_example = pool_get-take 80 one_out [] one_out-IsPool

pool_release-put_example :
    (status : ℤ) × (q : Pool (List ℕ)) × (pool_release 40 one_out ≡ some (status, q))
    × IsPool q
    × (status ≡ pos 0)
    × (some (record { idle = 40 ∷ []; made = 1; capacity = 2 })
        ≡ (if negative status then none else some (view q)))
pool_release-put_example = pool_release-put 40 one_out one_out-IsPool

pool_delete_lem_example : pool_delete 0 both_idle [] ≡ none
pool_delete_lem_example = pool_delete_lem 0 both_idle [] both_idle-IsPool

abbrev start : Lent (List ℕ)
start = fresh_pool (some note) (0 ∷ 0 ∷ []) 2

abbrev first_out : Lent (List ℕ)
first_out = record { pool = one_out; held = 40 ∷ [] }

abbrev both_out : Lent (List ℕ)
both_out = record { pool = record one_out { pool_size = 2 }; held = 80 ∷ 40 ∷ [] }

abbrev one_back : Lent (List ℕ)
one_back = record {
  pool = record one_out { slots = 40 ∷ 0 ∷ []; pool_size = 2; free_items = 1 };
  held = 80 ∷ [];
}

history : Reach start one_back
unfolding pool_create pool_get pool_release
history =
    next
      (next
        (next here (
          gets 40 [] (record { status = pos 0; item = some 40; pool = one_out; memory = 40 ∷ [] })
            (λ t. not-mem-nil t) refl refl))
        (gets 80 []
          (record { status = pos 0; item = some 80; pool = both_out.pool; memory = 80 ∷ [] })
          (not_mem-cons 80 40 [] (ground arith) (λ t. not-mem-nil t)) refl refl))
      (releases 40 (80 ∷ []) [] (pos 0) one_back.pool refl refl refl)

Reach-apart_example :
    Nodup (owned one_back) × (length (view one_back.pool).idle + length one_back.held ≡ 2) × (2 ≤ 2)
Reach-apart_example = Reach-apart (some note) (0 ∷ 0 ∷ []) 2 one_back refl (omega arith) history

both_out-IsLent : IsLent both_out
both_out-IsLent = record {
  pool = record { slots = refl; free = omega arith; size = omega arith; bound = omega arith };
  apart = Nodup-cons.1 (
    not_mem-cons 80 40 [] (ground arith) (λ t. not-mem-nil t),
    Nodup-cons.1 ((λ t. not-mem-nil t), Nodup-nil),
  );
  counted = refl;
}

abbrev full_result : Got (List ℕ)
full_result = record { status = negsuc 0; item = none; pool = both_out.pool; memory = [] }

full_pool : pool_get 99 true both_out.pool [] ≡ some full_result
unfolding pool_get
full_pool = refl

pool_get-none_iff_example : (full_result.item ≡ none) ↔ (length both_out.held ≡ 2)
pool_get-none_iff_example = pool_get-none_iff both_out 99 [] full_result both_out-IsLent full_pool
