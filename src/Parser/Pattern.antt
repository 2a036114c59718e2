-- ===== src/Parser/Pattern.antt =====
-- Command patterns as tokens, and the bits that a pattern stands for.
use bigblackhardware.Base.{
  ℕ, suc, ◌+◌, ◌-◌, ◌/◌, ◌%◌, ◌^◌, ◌<◌, ◌≢◌, ◌≡◌, List, [], ◌∷◌, ◌++◌, ltb, if◌then◌else◌, bit,
  get_or, false,
}
use bigblackhardware.Parser.{is_digit}

-- `1`, `0`, a bit of the address, the next bit of the input, or a placeholder such as `x` and `o`.
pub data Token : Type 0 where
  one zeros input : Token
  addr : ℕ → Token
  other : ℕ → Token

-- An address bit is written in decimal.
abbrev pub print : Token → List ℕ
print one = b'1' ∷ []
print zeros = b'0' ∷ []
print input = b'i' ∷ []
print (addr n) =
    b'a' ∷ (if ltb n 10 then (b'0' + n) ∷ [] else (b'0' + n / 10) ∷ (b'0' + n % 10) ∷ [])
print (other c) = c ∷ []

abbrev pub print_all : List Token → List ℕ
print_all [] = []
print_all (t ∷ ts) = print t ++ print_all ts

-- A digit behind an address bit would be read as part of its number.
abbrev pub Follows : Token → List Token → Type 0
Follows (addr n) (one ∷ ts) = ⊥
Follows (addr n) (zeros ∷ ts) = ⊥
Follows t ts = Unit {0}

abbrev pub IsToken : Token → Type 0
IsToken (addr n) = n < 32
IsToken (other c) = (is_digit c ≡ false) × (c ≢ b'a') × (c ≢ b'i')
IsToken t = Unit {0}

abbrev pub IsPattern : List Token → Type 0
IsPattern [] = Unit {0}
IsPattern (t ∷ ts) = IsToken t × Follows t ts × IsPattern ts

abbrev pub inputs : List Token → ℕ
inputs [] = 0
inputs (input ∷ ts) = suc (inputs ts)
inputs (t ∷ ts) = inputs ts

-- The number of inputs after a token.
abbrev pub after : Token → ℕ → ℕ
after input k = k + 1
after t k = k

-- The bit of a token, behind `k` input bits; those are taken from the highest one down.
abbrev pub value : (address data_byte k : ℕ) → Token → ℕ
value address data_byte k one = 1
value address data_byte k zeros = 0
value address data_byte k input = data_byte / 2 ^ (7 - k) % 2
value address data_byte k (addr n) = address / 2 ^ n % 2
value address data_byte k (other c) = 0

abbrev pub bits : (address data_byte k : ℕ) → List Token → List ℕ
bits address data_byte k [] = []
bits address data_byte k (t ∷ ts) =
    value address data_byte k t ∷ bits address data_byte (after t k) ts

-- Bit `m` of a command, the highest bit of the first byte being bit 0.
abbrev pub bit_at : List ℕ → ℕ → ℕ
bit_at cmd m = bit (7 - m % 8) (get_or cmd (m / 8) 0)
