-- ===== src/Parser/Command.antt =====
-- create_memory_cmd builds the command that a pattern describes.
use mathlib.Core.List.{append_assoc}
use mathlib.Core.Path.{subst}
use bigblackhardware.Base.{
  ℕ, zero, suc, ◌+◌, ◌-◌, ◌/◌, ◌%◌, ◌<◌, ◌≤◌, ◌≡◌, refl, sym, inl, inr, Bool-cases, true, some,
  List, [], ◌∷◌, ◌++◌, max, arith, ◌==◌, ltb, if◌then◌else◌, u8, get_or, length, length-append,
  get_elem?, bit-zero,
}
use bigblackhardware.Parser.{
  CmdState, next_bit, use_char, pattern_loop, start_state, create_memory_cmd,
}
use bigblackhardware.Parser.Pattern.{
  Token, one, zeros, input, addr, other, print, print_all, Follows, IsPattern, inputs, after, value,
  bits, bit_at,
}
use bigblackhardware.Parser.PutBit.{At, next_bit-At}
use bigblackhardware.Parser.Tokens.{Emits, Stops, token-Round}

stops :
    (t : Token) (ts : List Token) → Follows t ts → IsPattern ts → Stops t (print_all ts ++ (0 ∷ []))
stops one ts f p = tt
stops zeros ts f p = tt
stops input ts f p = tt
stops (other c) ts f p = tt
stops (addr n) [] f p = refl
stops (addr n) (one ∷ ts) f p = absurd f
stops (addr n) (zeros ∷ ts) f p = absurd f
stops (addr n) (input ∷ ts) f p = refl
stops (addr n) (addr m ∷ ts) f p = refl
stops (addr n) (other c ∷ ts) f p = p.0.0

after-inputs : (t : Token) (ts : List Token) (k : ℕ) → after t k + inputs ts ≡ k + inputs (t ∷ ts)
after-inputs one ts k = refl
after-inputs zeros ts k = refl
after-inputs input ts k = omega arith
after-inputs (other c) ts k = refl
after-inputs (addr n) ts k = refl

print_pos : (t : Token) → 0 < length (print t)
print_pos one = omega arith
print_pos zeros = omega arith
print_pos input = omega arith
print_pos (other c) = omega arith
print_pos (addr n) = omega arith

-- The bits that a run over the tokens `ts`, from bit `n` on, leaves in the command.
abbrev Writes : (address data_byte n k : ℕ) → List Token → CmdState → CmdState → Type 0
Writes address data_byte n k ts s s' =
    (m : ℕ)
    → bit_at s'.cmd m ≡ (
        if ltb m n
        then bit_at s.cmd m
        else max (bit_at s.cmd m) (get_or (bits address data_byte k ts) (m - n) 0))

Writes-cons :
    (address data_byte n k : ℕ) (t : Token) (ts : List Token) (s s₁ s₂ : CmdState)
    → Emits n (after t k) (value address data_byte k t) s s₁
    → Writes address data_byte (n + 1) (after t k) ts (next_bit s₁) s₂
    → Writes address data_byte n k (t ∷ ts) s s₂
unfolding next_bit
Writes-cons address data_byte n k t ts s s₁ s₂ e w m = elim (Bool-cases (ltb n m)) [
  | inl behind ↦
      let step : m - n ≡ suc (m - (n + 1)) = ground arith in rw step (ground (arith, e.bits m, w m))
  | inr upto ↦ elim (Bool-cases (m == n)) [
    | inl here ↦ let step : m - n ≡ 0 = ground arith in rw step (ground (arith, e.bits m, w m))
    | inr before ↦ ground (arith, e.bits m, w m)
  ]
]

loop_step :
    (pattern : List ℕ) (len address data_byte r j size c : ℕ) (s s₁ s₂ : CmdState)
    → j < len
    → get_elem? pattern j ≡ some c
    → use_char pattern address data_byte c j s ≡ some (j + size - 1, s₁)
    → 0 < size
    → j + size < 256
    → pattern_loop r pattern len address data_byte (j + size) (next_bit s₁) ≡ some s₂
    → pattern_loop (suc r) pattern len address data_byte j s ≡ some s₂
unfolding pattern_loop
loop_step pattern len address data_byte r j size c s s₁ s₂ more found used some_text small rest =
    let on : ltb j len ≡ true = ground arith in
    let next : u8 (j + size - 1 + 1) ≡ j + size = omega arith in rw (on, found, used, next) rest

loop_tokens :
    (address data_byte len : ℕ) (ts : List Token) (pre : List ℕ) (rounds j n k : ℕ) (s : CmdState)
    → j ≡ length pre
    → n + length ts ≤ 32
    → k + inputs ts ≤ 8
    → IsPattern ts
    → length ts ≤ rounds
    → len ≡ length pre + length (print_all ts)
    → len < 256
    → At n k s
    → (s' : CmdState) × (pattern_loop rounds
          (pre ++ (print_all ts ++ (0 ∷ [])))
          len
          address
          data_byte
          j
          s
        ≡ some s')
      × (length s'.cmd ≡ 4)
      × Writes address data_byte n k ts s s'
unfolding pattern_loop
loop_tokens address data_byte len [] pre zero j n k s e room ins p r l small v =
    (s, refl, v.size, λ m. ground arith)
loop_tokens address data_byte len [] pre (suc r) j n k s e room ins p rs l small v =
    (s, ground arith, v.size, λ m. ground arith)
loop_tokens address data_byte len (t ∷ ts) pre zero j n k s e room ins p rs l small v =
    absurd (omega arith)
loop_tokens address data_byte len (t ∷ ts) pre (suc r) j n k s e room ins p rs l small v =
    let size = length-append (print t) (print_all ts) in
    let size' = length-append pre (print t) in
    let taken = after-inputs t ts k in
    let (c, s₁, found, used, emits) =
      token-Round address data_byte t pre (print_all ts ++ (0 ∷ [])) j n k s e (omega arith) p.0
        (stops t ts p.1 p.2) (omega arith) (omega arith) v in
    let (s₂, run, size₂, w) =
      loop_tokens address data_byte len ts (pre ++ print t) r (j + length (print t)) (n + 1)
        (after t k) (next_bit s₁) (omega arith) (omega arith) (omega arith) p.2 (omega arith)
        (omega arith) small (next_bit-At n (after t k) s₁ emits.at (omega arith)) in
    (
      s₂,
      subst (λ (q : List ℕ). pattern_loop (suc r) (pre ++ q) len address data_byte j s ≡ some s₂)
          (sym (append_assoc (print t) (print_all ts) (0 ∷ [])))
          (loop_step _ len address data_byte r j (length (print t)) c s s₁ s₂
            (omega (arith, print_pos t)) found used (print_pos t) (omega arith)
            (rw (append_assoc pre (print t) (print_all ts ++ (0 ∷ []))) at run)),
      size₂,
      Writes-cons address data_byte n k t ts s s₁ s₂ emits w,
    )

tokens_le_text : (ts : List Token) → length ts ≤ length (print_all ts)
tokens_le_text [] = omega arith
tokens_le_text (t ∷ ts) =
    omega (arith, print_pos t, length-append (print t) (print_all ts), tokens_le_text ts)

start_At : At 0 0 start_state
start_At = omega arith

zero_cmd : (i : ℕ) → get_or start_state.cmd i 0 ≡ 0
zero_cmd zero = refl
zero_cmd (suc zero) = refl
zero_cmd (suc (suc zero)) = refl
zero_cmd (suc (suc (suc zero))) = refl
zero_cmd (suc (suc (suc (suc i)))) = refl

start_bits : (m : ℕ) → bit_at start_state.cmd m ≡ 0
start_bits m = rw (zero_cmd (m / 8)) (bit-zero (7 - m % 8))

from_zero :
    (bs : List ℕ) (old new m : ℕ)
    → old ≡ 0
    → new ≡ (if ltb m 0 then old else max old (get_or bs (m - 0) 0))
    → new ≡ get_or bs m 0
from_zero bs old new m zero_old e =
    let same : m - 0 ≡ m = omega arith in ground (arith, rw same at e)

-- A pattern of at most 32 tokens, with at most eight input bits, addresses below 32 and no `1` or
-- `0` right behind an address bit, gives a command of four bytes: its bits, from the highest one of
-- the first byte on, are the bits of the tokens in order, and the bits behind the pattern are 0.
pub create_memory_cmd-bits :
    (address data_byte : ℕ) (ts : List Token)
    → length ts ≤ 32
    → inputs ts ≤ 8
    → IsPattern ts
    → length (print_all ts) < 256
    → (cmd : List ℕ) × (create_memory_cmd
          (print_all ts ++ (0 ∷ []))
          (length (print_all ts))
          address
          data_byte
        ≡ some cmd)
      × (length cmd ≡ 4)
      × ((m : ℕ) → bit_at cmd m ≡ get_or (bits address data_byte 0 ts) m 0)
unfolding create_memory_cmd
create_memory_cmd-bits address data_byte ts room ins p small =
    let (s, run, size, w) =
      loop_tokens address data_byte (length (print_all ts)) ts [] (length (print_all ts)) 0 0 0
        start_state refl (omega arith) (omega arith) p (tokens_le_text ts) (omega arith) small
        start_At in
    (s.cmd, rw run, size, λ m. from_zero _ (bit_at start_state.cmd m) _ m (start_bits m) (w m))
