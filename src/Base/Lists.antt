-- ===== src/Base/Lists.antt =====
-- C arrays as lists, measured and indexed by native numbers.
use Prim.Native.Nat.{ℕ, zero, suc, ◌+◌, ◌-◌, ◌<◌, ◌≤◌, min}
use mathlib.Core.Path.{◌≡◌, refl, ap}
use mathlib.Core.Logic.{◌≢◌}
use mathlib.Core.List.{List, [], ◌∷◌, ◌++◌, append-nil}
use mathlib.Core.Option.{Option, none, some}
use native.Mathlib.Omega.{arith}
use bigblackhardware.Base.Tests.{ltb, leb, if◌then◌else◌}

module _ {ℓ} {A : Type ℓ} where
  abbrev pub length : List A → ℕ
  length [] = 0
  length (x ∷ xs) = suc (length xs)

  abbrev pub get_elem? : List A → ℕ → Option A
  get_elem? [] i = none
  get_elem? (x ∷ xs) zero = some x
  get_elem? (x ∷ xs) (suc i) = get_elem? xs i

  abbrev pub get_or : List A → ℕ → A → A
  get_or [] i d = d
  get_or (x ∷ xs) zero d = x
  get_or (x ∷ xs) (suc i) d = get_or xs i d

  -- A write out of bounds changes nothing here; where it can happen, `write?` is used.
  abbrev pub set : List A → ℕ → A → List A
  set [] i v = []
  set (x ∷ xs) zero v = v ∷ xs
  set (x ∷ xs) (suc i) v = x ∷ set xs i v

  -- A write that is undefined behaviour out of bounds.
  abbrev pub write? : List A → ℕ → A → Option (List A)
  write? xs i v = if ltb i (length xs) then some (set xs i v) else none

  abbrev pub take : ℕ → List A → List A
  take zero xs = []
  take (suc n) [] = []
  take (suc n) (x ∷ xs) = x ∷ take n xs

  abbrev pub drop : ℕ → List A → List A
  drop zero xs = xs
  drop (suc n) [] = []
  drop (suc n) (x ∷ xs) = drop n xs

  abbrev pub replicate : ℕ → A → List A
  replicate zero a = []
  replicate (suc n) a = a ∷ replicate n a

  -- `n` bytes from `src`; undefined where `src` has fewer.
  abbrev pub read? : ℕ → List A → Option (List A)
  read? n src = if leb n (length src) then some (take n src) else none

  -- memcpy(dst, src, n) for the `n` bytes `src`, which must fit.
  abbrev pub copy? : List A → List A → Option (List A)
  copy? dst src =
      if leb (length src) (length dst) then some (src ++ drop (length src) dst) else none

  pub length-append : (xs ys : List A) → length (xs ++ ys) ≡ length xs + length ys
  length-append [] ys = omega arith
  length-append (x ∷ xs) ys = omega (arith, length-append xs ys)

  pub length-set : (xs : List A) (i : ℕ) (v : A) → length (set xs i v) ≡ length xs
  length-set [] i v = refl
  length-set (x ∷ xs) zero v = refl
  length-set (x ∷ xs) (suc i) v = ap suc (length-set xs i v)

  pub get_or-set_self :
      (xs : List A) (i : ℕ) (v d : A) → i < length xs → get_or (set xs i v) i d ≡ v
  get_or-set_self [] i v d h = absurd (omega arith)
  get_or-set_self (x ∷ xs) zero v d h = refl
  get_or-set_self (x ∷ xs) (suc i) v d h = get_or-set_self xs i v d (omega arith)

  pub get_or-set_ne :
      (xs : List A) (i j : ℕ) (v d : A) → i ≢ j → get_or (set xs i v) j d ≡ get_or xs j d
  get_or-set_ne [] i j v d ne = refl
  get_or-set_ne (x ∷ xs) zero zero v d ne = absurd (ne refl)
  get_or-set_ne (x ∷ xs) zero (suc j) v d ne = refl
  get_or-set_ne (x ∷ xs) (suc i) zero v d ne = refl
  get_or-set_ne (x ∷ xs) (suc i) (suc j) v d ne = get_or-set_ne xs i j v d (λ e. ne (ap suc e))

  pub get_elem?-eq-get_or :
      (xs : List A) (i : ℕ) (d : A) → i < length xs → get_elem? xs i ≡ some (get_or xs i d)
  get_elem?-eq-get_or [] i d h = absurd (omega arith)
  get_elem?-eq-get_or (x ∷ xs) zero d h = refl
  get_elem?-eq-get_or (x ∷ xs) (suc i) d h = get_elem?-eq-get_or xs i d (omega arith)

  -- The element behind a prefix.
  pub get_elem?-append :
      (pre : List A) (x : A) (xs : List A) (i : ℕ)
      → i ≡ length pre
      → get_elem? (pre ++ (x ∷ xs)) i ≡ some x
  get_elem?-append [] x xs zero e = refl
  get_elem?-append [] x xs (suc i) e = absurd (omega arith)
  get_elem?-append (y ∷ pre) x xs zero e = absurd (omega arith)
  get_elem?-append (y ∷ pre) x xs (suc i) e = get_elem?-append pre x xs i (omega arith)

  pub get_elem?-behind :
      (pre xs : List A) (i j : ℕ) → j ≡ length pre + i → get_elem? (pre ++ xs) j ≡ get_elem? xs i
  get_elem?-behind [] xs i j e = let e' : j ≡ i = omega arith in rw e'
  get_elem?-behind (y ∷ pre) xs i zero e = absurd (omega arith)
  get_elem?-behind (y ∷ pre) xs i (suc j) e = get_elem?-behind pre xs i j (omega arith)

  -- Facts about what stands from index `k` on.
  pub get_elem?-of_drop :
      (buf : List A) (k : ℕ) (x : A) (xs : List A) → drop k buf ≡ x ∷ xs → get_elem? buf k ≡ some x
  get_elem?-of_drop [] zero x xs e = absurd (omega (arith, ap length e))
  get_elem?-of_drop [] (suc k) x xs e = absurd (omega (arith, ap length e))
  get_elem?-of_drop (y ∷ buf) zero x xs e = cc
  get_elem?-of_drop (y ∷ buf) (suc k) x xs e = get_elem?-of_drop buf k x xs e

  pub drop-suc :
      (buf : List A) (k : ℕ) (x : A) (xs : List A) → drop k buf ≡ x ∷ xs → drop (suc k) buf ≡ xs
  drop-suc [] zero x xs e = absurd (omega (arith, ap length e))
  drop-suc [] (suc k) x xs e = absurd (omega (arith, ap length e))
  drop-suc (y ∷ buf) zero x xs e = cc
  drop-suc (y ∷ buf) (suc k) x xs e = drop-suc buf k x xs e

  pub drop-add :
      (buf : List A) (k : ℕ) (xs ys : List A) (m : ℕ)
      → drop k buf ≡ xs ++ ys
      → m ≡ k + length xs
      → drop m buf ≡ ys
  drop-add buf k [] ys m e q = let same : m ≡ k = omega arith in rw same e
  drop-add buf k (x ∷ xs) ys m e q =
      drop-add buf (suc k) xs ys m (drop-suc buf k x (xs ++ ys) e) (omega arith)

  pub take-append : (xs ys : List A) (n : ℕ) → n ≡ length xs → take n (xs ++ ys) ≡ xs
  take-append [] ys zero e = refl
  take-append [] ys (suc n) e = absurd (omega arith)
  take-append (x ∷ xs) ys zero e = absurd (omega arith)
  take-append (x ∷ xs) ys (suc n) e = ap (λ (l : List A). x ∷ l) (take-append xs ys n (omega arith))

  pub length-take : (n : ℕ) (xs : List A) → length (take n xs) ≡ min n (length xs)
  length-take zero xs = omega arith
  length-take (suc n) [] = omega arith
  length-take (suc n) (x ∷ xs) = omega (arith, length-take n xs)

  pub length-take_le : (n : ℕ) (xs : List A) → n ≤ length xs → length (take n xs) ≡ n
  length-take_le n xs h = omega (arith, length-take n xs)

  pub read?-take : (n : ℕ) (xs : List A) → n ≤ length xs → read? n xs ≡ some (take n xs)
  read?-take n xs h = ground arith

  pub copy?-fits :
      (dst src : List A) (n : ℕ)
      → length src ≡ n
      → n ≤ length dst
      → copy? dst src ≡ some (src ++ drop n dst)
  copy?-fits dst src n e h = rw (e) (ground arith)

  pub copy?-overflow : (dst src : List A) → length dst < length src → copy? dst src ≡ none
  copy?-overflow dst src h = ground arith

  pub length-drop : (n : ℕ) (xs : List A) → length (drop n xs) ≡ length xs - n
  length-drop zero xs = omega arith
  length-drop (suc n) [] = omega arith
  length-drop (suc n) (x ∷ xs) = omega (arith, length-drop n xs)

pub drop-all {ℓ} : {A : Type ℓ} (n : ℕ) (xs : List A) → length xs ≤ n → drop n xs ≡ []
drop-all zero [] h = refl
drop-all zero (x ∷ xs) h = absurd (omega arith)
drop-all (suc n) [] h = refl
drop-all (suc n) (x ∷ xs) h = drop-all n xs (omega arith)

-- The whole of a buffer is replaced by as many elements.
pub copy?-whole {ℓ} :
    {A : Type ℓ} (dst src : List A) → length src ≡ length dst → copy? dst src ≡ some src
copy?-whole dst src e =
    let fits = copy?-fits dst src (length src) refl (omega arith) in
    let gone = drop-all (length src) dst (omega arith) in rw (fits, gone, append-nil src) refl

pub set_behind {ℓ} :
    {A : Type ℓ} (done rest : List A) (x v : A) (i : ℕ)
    → i ≡ length done
    → set (done ++ (x ∷ rest)) i v ≡ (done ++ (v ∷ [])) ++ rest
set_behind [] rest x v zero e = refl
set_behind [] rest x v (suc i) e = absurd (omega arith)
set_behind (y ∷ done) rest x v zero e = absurd (omega arith)
set_behind (y ∷ done) rest x v (suc i) e =
    ap (λ l. y ∷ l) (set_behind done rest x v i (omega arith))

-- Every element has a property.
abbrev pub All {ℓ κ} : {A : Type ℓ} → (A → Type κ) → List A → Type κ
All P [] = Unit
All P (x ∷ xs) = P x × All P xs
