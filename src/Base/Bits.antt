-- ===== src/Base/Bits.antt =====
-- Laws of `|` and `&` at variables: digit by digit, and for disjoint fields.
use Prim.Native.Nat.{
  ℕ, zero, suc, ◌+◌, ◌-◌, ◌*◌, ◌/◌, ◌%◌, ◌^◌, ◌≤◌, ◌<◌, min, max, bit_and, bit_or, digits, bitwise,
  bit_and-bitwise, bit_or-bitwise,
}
use mathlib.Core.Path.{◌≡◌, refl, ap, ◌∙◌}
use native.Mathlib.Omega.{arith}
use native.Mathlib.Nat.{pow-suc}
use bigblackhardware.Base.Tests.{◌==◌, if◌then◌else◌}

-- `bitwise` recurs on fuel; a round more than there are digits changes nothing.
module _ (z : ℕ → ℕ) (f : ℕ → ℕ → ℕ) where
  one_round : (x y fuel : ℕ) → x ≤ fuel → digits z f (suc fuel) x y ≡ digits z f fuel x y
  one_round zero y zero h = refl
  one_round zero y (suc fuel) h = refl
  one_round (suc x) y zero h = absurd (omega arith)
  one_round (suc x) y (suc fuel) h = rw (one_round (suc x / 2) (y / 2) fuel (omega arith))

  spare_rounds :
      (spare fuel total x y : ℕ)
      → total ≡ fuel + spare
      → x ≤ fuel
      → digits z f total x y ≡ digits z f fuel x y
  spare_rounds zero fuel total x y e h = let same : total ≡ fuel = omega arith in rw same
  spare_rounds (suc spare) fuel total x y e h =
      let next : total ≡ suc (fuel + spare) = omega arith in
      rw next (
        one_round x y (fuel + spare) (omega arith)
        ∙ spare_rounds spare fuel (fuel + spare) x y refl h)

  low_digit :
      (x y : ℕ)
      → bitwise z f (suc x) y ≡ bitwise z f (suc x / 2) (y / 2) * 2 + f (suc x % 2) (y % 2)
  low_digit x y = omega (
    arith,
    spare_rounds (x - suc x / 2) (suc x / 2) x (suc x / 2) (y / 2) (omega arith) (omega arith),
  )

pub bit_or_digit : (x y : ℕ) → bit_or x y ≡ max (x % 2) (y % 2) + 2 * bit_or (x / 2) (y / 2)
bit_or_digit zero y = simp bit_or-bitwise (omega arith)
bit_or_digit (suc x) y = simp bit_or-bitwise (omega (arith, low_digit (λ d. d) max x y))

pub bit_and_digit : (x y : ℕ) → bit_and x y ≡ min (x % 2) (y % 2) + 2 * bit_and (x / 2) (y / 2)
bit_and_digit zero y = simp bit_and-bitwise (omega arith)
bit_and_digit (suc x) y = simp bit_and-bitwise (omega (arith, low_digit (λ d. 0) min x y))

-- Bit `j` of a number.
abbrev pub bit : ℕ → ℕ → ℕ
bit zero x = x % 2
bit (suc j) x = bit j (x / 2)

pub bit-bit_or : (j x y : ℕ) → bit j (bit_or x y) ≡ max (bit j x) (bit j y)
bit-bit_or zero x y = omega (arith, bit_or_digit x y)
bit-bit_or (suc j) x y =
    let half : bit_or x y / 2 ≡ bit_or (x / 2) (y / 2) = omega (arith, bit_or_digit x y) in
    rw half (bit-bit_or j (x / 2) (y / 2))

pub bit-zero : (j : ℕ) → bit j 0 ≡ 0
bit-zero zero = refl
bit-zero (suc j) = bit-zero j

-- A single bit `b`, shifted to place `k`.
pub bit-shifted : (j k b : ℕ) → b < 2 → bit j (b * 2 ^ k) ≡ (if j == k then b else 0)
bit-shifted zero zero b h = omega arith
bit-shifted zero (suc k) b h = ground (arith, ap (λ (t : ℕ). b * t) (pow-suc 2 k))
bit-shifted (suc j) zero b h =
    let e : b * 2 ^ 0 / 2 ≡ 0 = omega arith in rw e (ground (arith, bit-zero j))
bit-shifted (suc j) (suc k) b h =
    let e : b * 2 ^ suc k / 2 ≡ b * 2 ^ k = omega (arith, ap (λ (t : ℕ). b * t) (pow-suc 2 k)) in
    rw e (ground (arith, bit-shifted j k b h))

pub zero-bit_or : (a : ℕ) → bit_or 0 a ≡ a
zero-bit_or a = bit_or-bitwise 0 a

bit_or-zero_up_to : (x bound : ℕ) → x ≤ bound → bit_or x 0 ≡ x
bit_or-zero_up_to zero bound h = refl
bit_or-zero_up_to (suc x) (suc bound) h =
    let half = bit_or-zero_up_to (suc x / 2) bound (omega arith) in
    omega (arith, half, bit_or_digit (suc x) 0)
bit_or-zero_up_to (suc x) zero h = absurd (omega arith)

pub bit_or-zero : (x : ℕ) → bit_or x 0 ≡ x
bit_or-zero x = bit_or-zero_up_to x x (omega arith)

-- `(q << k) | r` is a sum where `r` fits in `k` bits.
pub bit_or-add : (k q r : ℕ) → r < 2 ^ k → bit_or (q * 2 ^ k) r ≡ q * 2 ^ k + r
bit_or-add zero q r h = let e : r ≡ 0 = omega arith in rw e (omega (arith, bit_or-zero (q * 2 ^ 0)))
bit_or-add (suc k) q r h = omega (
  arith,
  bit_or_digit (q * 2 ^ suc k) r,
  ap (λ (t : ℕ). q * t) (pow-suc 2 k),
  ap (λ (t : ℕ). bit_or t (r / 2)) (half q k),
  pow-suc 2 k,
  bit_or-add k q (r / 2) (omega (arith, pow-suc 2 k)),
)
  where
    half : (q k : ℕ) → q * 2 ^ suc k / 2 ≡ q * 2 ^ k
    half q k = omega (arith, ap (λ (t : ℕ). q * t) (pow-suc 2 k))

bit_and-zero_up_to : (x bound : ℕ) → x ≤ bound → bit_and x 0 ≡ 0
bit_and-zero_up_to zero bound h = refl
bit_and-zero_up_to (suc x) (suc bound) h =
    let half = bit_and-zero_up_to (suc x / 2) bound (omega arith) in
    omega (arith, half, bit_and_digit (suc x) 0)
bit_and-zero_up_to (suc x) zero h = absurd (omega arith)

pub bit_and-one : (x : ℕ) → bit_and x 1 ≡ x % 2
bit_and-one x = omega (arith, bit_and-zero_up_to (x / 2) (x / 2) (omega arith), bit_and_digit x 1)

low_nibble : (a : ℕ) → bit_and a 15 ≡ a % 16
low_nibble a = omega (
  arith,
  bit_and_digit a 15,
  bit_and_digit (a / 2) 7,
  bit_and_digit (a / 4) 3,
  bit_and-one (a / 8),
  ap (λ (t : ℕ). bit_and t 3) (let e : a / 2 / 2 ≡ a / 4 = omega arith in e),
  ap (λ (t : ℕ). bit_and t 1) (let e : a / 4 / 2 ≡ a / 8 = omega arith in e),
)

-- `a & 0xFF`
pub bit_and_byte : (a : ℕ) → bit_and a 255 ≡ a % 256
bit_and_byte a = omega (
  arith,
  bit_and_digit a 255,
  bit_and_digit (a / 2) 127,
  bit_and_digit (a / 4) 63,
  bit_and_digit (a / 8) 31,
  low_nibble (a / 16),
  ap (λ (t : ℕ). bit_and t 63) (let e : a / 2 / 2 ≡ a / 4 = omega arith in e),
  ap (λ (t : ℕ). bit_and t 31) (let e : a / 4 / 2 ≡ a / 8 = omega arith in e),
  ap (λ (t : ℕ). bit_and t 15) (let e : a / 8 / 2 ≡ a / 16 = omega arith in e),
)

-- `a & 0x10`
pub bit_and_sixteen : (a : ℕ) → bit_and a 16 ≡ a / 16 % 2 * 16
bit_and_sixteen a = omega (
  arith,
  bit_and_digit a 16,
  bit_and_digit (a / 2) 8,
  bit_and_digit (a / 4) 4,
  bit_and_digit (a / 8) 2,
  bit_and-one (a / 16),
  ap (λ (t : ℕ). bit_and t 4) (let e : a / 2 / 2 ≡ a / 4 = omega arith in e),
  ap (λ (t : ℕ). bit_and t 2) (let e : a / 4 / 2 ≡ a / 8 = omega arith in e),
  ap (λ (t : ℕ). bit_and t 1) (let e : a / 8 / 2 ≡ a / 16 = omega arith in e),
)

-- `a & 0x20`
pub bit_and_thirty_two : (a : ℕ) → bit_and a 32 ≡ a / 32 % 2 * 32
bit_and_thirty_two a = omega (
  arith,
  bit_and_digit a 32,
  bit_and_sixteen (a / 2),
  (let e : a / 2 / 16 ≡ a / 32 = omega arith in e),
)

-- `a & 0x30`
pub bit_and_forty_eight : (a : ℕ) → bit_and a 48 ≡ a / 16 % 4 * 16
bit_and_forty_eight a = omega (
  arith,
  bit_and_digit a 48,
  bit_and_digit (a / 2) 24,
  bit_and_digit (a / 4) 12,
  bit_and_digit (a / 8) 6,
  bit_and_digit (a / 16) 3,
  bit_and-one (a / 32),
  ap (λ (t : ℕ). bit_and t 12) (let e : a / 2 / 2 ≡ a / 4 = omega arith in e),
  ap (λ (t : ℕ). bit_and t 6) (let e : a / 4 / 2 ≡ a / 8 = omega arith in e),
  ap (λ (t : ℕ). bit_and t 3) (let e : a / 8 / 2 ≡ a / 16 = omega arith in e),
  ap (λ (t : ℕ). bit_and t 1) (let e : a / 16 / 2 ≡ a / 32 = omega arith in e),
)

-- The low byte of a number has its first eight bits.
pub bit-byte : (j x : ℕ) → j < 8 → bit j (x % 256) ≡ bit j x
bit-byte zero x h = omega arith
bit-byte (suc zero) x h = omega arith
bit-byte (suc (suc zero)) x h = omega arith
bit-byte (suc (suc (suc zero))) x h = omega arith
bit-byte (suc (suc (suc (suc zero)))) x h = omega arith
bit-byte (suc (suc (suc (suc (suc zero))))) x h = omega arith
bit-byte (suc (suc (suc (suc (suc (suc zero)))))) x h = omega arith
bit-byte (suc (suc (suc (suc (suc (suc (suc zero))))))) x h = omega arith
bit-byte (suc (suc (suc (suc (suc (suc (suc (suc j)))))))) x h = absurd (omega arith)
