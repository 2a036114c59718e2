-- ===== src/Parser/Tokens.antt =====
-- One token of a pattern is one round of the loop in create_memory_cmd.
use bigblackhardware.Base.{
  ℕ, ◌+◌, ◌-◌, ◌*◌, ◌/◌, ◌%◌, ◌^◌, ◌<◌, ◌≤◌, ◌≡◌, ap, inl, inr, Bool-cases, true, false, some, List,
  [], ◌∷◌, ◌++◌, max, arith, ◌==◌, ltb, if◌then◌else◌, bit_or, bit_and, u8, shr, get_or, set,
  length, length-set, get_elem?, get_elem?-behind, bit_and-one, ◌∙◌,
}
use mathlib.Core.Path.{ap₂}
use bigblackhardware.Parser.{CmdState, use_char, read_digits, address_shift, is_digit}
use bigblackhardware.Parser.Pattern.{
  Token, one, zeros, input, addr, other, print, IsToken, after, value, bit_at,
}
use bigblackhardware.Parser.PutBit.{
  At, marked, put_bit-marked, bit_at-marked, keep_bits-id, bit_at-kept,
}

-- `t` has bit `n` or-ed with `b`, and is otherwise `s`.
pub record Emits (n k b : ℕ) (s t : CmdState) : Type 0 where
  pub at : At n k t
  pub bits : (m : ℕ) → bit_at t.cmd m ≡ (if m == n then max (bit_at s.cmd m) b else bit_at s.cmd m)

-- What stands behind an address bit is no digit.
abbrev pub Stops : Token → List ℕ → Type 0
Stops (addr n) [] = ⊥
Stops (addr n) (c ∷ cs) = is_digit c ≡ false
Stops t cs = Unit {0}

marked-Emits : (n k b : ℕ) (s : CmdState) → At n k s → n < 32 → b < 2 → Emits n k b s (marked n b s)
marked-Emits n k b s v h small = record {
  at = ground (
    arith,
    length-set s.cmd (n / 8) (u8 (bit_or (get_or s.cmd (n / 8) 0) (b * 2 ^ (7 - n % 8)))),
  );
  bits = λ m. bit_at-marked n k b m s v h small;
}

read_one :
    (pattern : List ℕ) (j d e : ℕ)
    → j + 1 < 256
    → get_elem? pattern j ≡ some d
    → get_elem? pattern (j + 1) ≡ some e
    → is_digit d ≡ true
    → is_digit e ≡ false
    → read_digits 3 pattern j [] ≡ some (j + 1, d ∷ [])
unfolding read_digits
read_one pattern j d e small pd pe hd he =
    let next : u8 (j + 1) ≡ j + 1 = omega arith in rw (pd, hd, next, pe, he)

read_two :
    (pattern : List ℕ) (j d e f : ℕ)
    → j + 2 < 256
    → get_elem? pattern j ≡ some d
    → get_elem? pattern (j + 1) ≡ some e
    → get_elem? pattern (j + 2) ≡ some f
    → is_digit d ≡ true
    → is_digit e ≡ true
    → is_digit f ≡ false
    → read_digits 3 pattern j [] ≡ some (j + 2, d ∷ e ∷ [])
unfolding read_digits
read_two pattern j d e f small pd pe pf hd he hf =
    let next : u8 (j + 1) ≡ j + 1 = omega arith in
    let last : u8 (j + 1 + 1) ≡ j + 2 = omega arith in rw (pd, hd, next, pe, he, last, pf, hf)

abbrev pub digits : ℕ → List ℕ
digits n = if ltb n 10 then (b'0' + n) ∷ [] else (b'0' + n / 10) ∷ (b'0' + n % 10) ∷ []

-- The digits of a number below 32 read back, from behind the `a`.
read_number :
    (pre : List ℕ) (n c : ℕ) (post : List ℕ) (j : ℕ)
    → j ≡ length pre
    → j + 1 + length (digits n) < 256
    → n < 32
    → is_digit c ≡ false
    → read_digits 3 (pre ++ (b'a' ∷ (digits n ++ (c ∷ post)))) (u8 (j + 1)) []
      ≡ some (j + 1 + length (digits n), digits n)
read_number pre n c post j e small h stop = elim (Bool-cases (ltb n 10)) [
  | inl low ↦
      let at : u8 (j + 1) ≡ j + 1 = ground arith in
      rw (low, at)
        (read_one _ (j + 1) (b'0' + n) c (ground arith)
          (get_elem?-behind pre (b'a' ∷ (b'0' + n) ∷ c ∷ post) 1 (j + 1) (omega arith))
          (get_elem?-behind pre (b'a' ∷ (b'0' + n) ∷ c ∷ post) 2 (j + 1 + 1) (omega arith))
          (ground arith) stop)
  | inr high ↦
      let at : u8 (j + 1) ≡ j + 1 = ground arith in
      let text : List ℕ = b'a' ∷ (b'0' + n / 10) ∷ (b'0' + n % 10) ∷ c ∷ post in
      rw (high, at)
        (read_two _ (j + 1) (b'0' + n / 10) (b'0' + n % 10) c (ground arith)
          (get_elem?-behind pre text 1 (j + 1) (omega arith))
          (get_elem?-behind pre text 2 (j + 1 + 1) (omega arith))
          (get_elem?-behind pre text 3 (j + 1 + 2) (omega arith)) (ground arith) (ground arith)
          stop)
]

shift_number : (n : ℕ) → n < 32 → address_shift (digits n) ≡ some n
unfolding address_shift
shift_number n h = ground arith

-- What a round does with a token: it finds its first character, uses its text and emits its bit.
abbrev pub Round : (address data_byte : ℕ) → Token → List ℕ → (j n k : ℕ) → CmdState → Type 0
Round address data_byte t pattern j n k s =
    (c : ℕ) × (s' : CmdState) × (get_elem? pattern j ≡ some c)
    × (use_char pattern address data_byte c j s ≡ some (j + length (print t) - 1, s'))
    × Emits n (after t k) (value address data_byte k t) s s'

use_input :
    (address data_byte : ℕ) (pattern : List ℕ) (j n k : ℕ) (s : CmdState)
    → n < 32
    → k + 1 ≤ 8
    → At n k s
    → use_char pattern address data_byte b'i' j s
      ≡ some (
        j + 1 - 1,
        record (marked n (data_byte / 2 ^ (7 - k) % 2) s) { input_offset = (262 - k) % 256 },
      )
unfolding use_char
use_input address data_byte pattern j n k s h room v =
    let b : ℕ = data_byte / 2 ^ (7 - k) % 2 in
    let place : s.input_offset ≡ 7 - k = omega arith in
    let small : ltb s.input_offset 32 ≡ true = ground arith in
    let read : bit_and (shr data_byte s.input_offset) 1 ≡ b =
      bit_and-one (shr data_byte s.input_offset) ∙ ap (λ (t : ℕ). data_byte / 2 ^ t % 2) place in
    let back : j ≡ j + 1 - 1 = omega arith in
    let next : u8 (s.input_offset + 255) ≡ (262 - k) % 256 = omega arith in
    rw (small, read, put_bit-marked n k b s v h)
      (ap₂ (λ (i t : ℕ). some (i, record (marked n b s) { input_offset = t })) back next)

pub token-Round :
    (address data_byte : ℕ) (t : Token) (pre post : List ℕ) (j n k : ℕ) (s : CmdState)
    → j ≡ length pre
    → j + length (print t) < 256
    → IsToken t
    → Stops t post
    → n < 32
    → after t k ≤ 8
    → At n k s
    → Round address data_byte t (pre ++ (print t ++ post)) j n k s
unfolding use_char
token-Round address data_byte one pre post j n k s e small wf stop h room v = (
  b'1',
  marked n 1 s,
  get_elem?-behind pre (b'1' ∷ post) 0 j (omega arith),
  rw (put_bit-marked n k 1 s v h) (ground arith),
  marked-Emits n k 1 s v h (omega arith),
)
token-Round address data_byte zeros pre post j n k s e small wf stop h room v = (
  b'0',
  record s { cmd = set s.cmd (n / 8) (bit_and (get_or s.cmd (n / 8) 0) 255) },
  get_elem?-behind pre (b'0' ∷ post) 0 j (omega arith),
  rw (keep_bits-id n k s v h) (ground arith),
  record {
    at = ground (arith, length-set s.cmd (n / 8) (bit_and (get_or s.cmd (n / 8) 0) 255));
    bits = λ m. ground (arith, bit_at-kept n k m s v h);
  },
)
token-Round address data_byte input pre post j n k s e small wf stop h room v = (
  b'i',
  record (marked n (data_byte / 2 ^ (7 - k) % 2) s) { input_offset = (262 - k) % 256 },
  get_elem?-behind pre (b'i' ∷ post) 0 j (omega arith),
  use_input address data_byte (pre ++ (b'i' ∷ post)) j n k s h room v,
  record {
    at = ground (
      arith,
      length-set s.cmd (n / 8)
          (u8 (bit_or (get_or s.cmd (n / 8) 0) (data_byte / 2 ^ (7 - k) % 2 * 2 ^ (7 - n % 8)))),
    );
    bits = λ m. bit_at-marked n k (data_byte / 2 ^ (7 - k) % 2) m s v h (omega arith);
  },
)
token-Round address data_byte (addr i) pre [] j n k s e small wf stop h room v = absurd stop
token-Round address data_byte (addr i) pre (c ∷ post) j n k s e small wf stop h room v = (
  b'a',
  marked n (address / 2 ^ i % 2) s,
  get_elem?-behind pre (print (addr i) ++ (c ∷ post)) 0 j (omega arith),
  rw
      (
        read_number pre i c post j e (omega arith) wf stop,
        shift_number i wf,
        bit_and-one (address / 2 ^ i),
        put_bit-marked n k (address / 2 ^ i % 2) s v h,
      )
      (ap (λ (t : ℕ). some (t, marked n (address / 2 ^ i % 2) s)) (omega arith)),
  marked-Emits n k (address / 2 ^ i % 2) s v h (omega arith),
)
token-Round address data_byte (other c) pre post j n k s e small wf stop h room v = (
  c,
  s,
  get_elem?-behind pre (c ∷ post) 0 j (omega arith),
  ground arith,
  record { at = v; bits = λ m. ground arith },
)
