-- ===== src/Parser/PutBit.antt =====
-- One round of the loop in create_memory_cmd: where a bit goes, and what stays.
use bigblackhardware.Base.{
  ℕ, ◌+◌, ◌-◌, ◌*◌, ◌/◌, ◌%◌, ◌^◌, ◌<◌, ◌≡◌, inl, inr, Bool-cases, some, List, max, arith, ◌==◌,
  if◌then◌else◌, bit, bit_or, bit_and, u8, get_or, set, length, get_elem?-eq-get_or,
  get_or-set_self, get_or-set_ne, bit-bit_or, bit-shifted, bit-byte, bit_and_byte,
}
use bigblackhardware.Parser.{CmdState, put_bit, keep_bits, next_bit}
use bigblackhardware.Parser.Pattern.{bit_at}

-- The state in front of bit `n` of the command and behind `k` input bits.
pub record At (n k : ℕ) (s : CmdState) : Type 0 where
  pub size : length s.cmd ≡ 4
  pub byte : s.byte_offset ≡ n / 8
  pub place : s.bit_offset ≡ 7 - n % 8
  pub taken : s.input_offset ≡ (263 - k) % 256

-- What a write of `v` at byte `n / 8` means for all bits.
written :
    (cmd : List ℕ) (n v m : ℕ)
    → length cmd ≡ 4
    → n < 32
    → bit_at (set cmd (n / 8) v) m ≡ (if m / 8 == n / 8 then bit (7 - m % 8) v else bit_at cmd m)
written cmd n v m size h = elim (Bool-cases (m / 8 == n / 8)) [
  | inl same ↦
      let e : m / 8 ≡ n / 8 = ground arith in
      rw (same, e, get_or-set_self cmd (n / 8) v 0 (omega arith))
  | inr apart ↦ rw (apart, get_or-set_ne cmd (n / 8) (m / 8) v 0 (ground arith))
]

abbrev pub marked : ℕ → ℕ → CmdState → CmdState
marked n b s = record s {
  cmd = set s.cmd (n / 8) (u8 (bit_or (get_or s.cmd (n / 8) 0) (b * 2 ^ (7 - n % 8))));
}

pub put_bit-marked :
    (n k b : ℕ) (s : CmdState) → At n k s → n < 32 → put_bit b s ≡ some (marked n b s)
unfolding put_bit
put_bit-marked n k b s v h = rw (v.byte, v.place, get_elem?-eq-get_or s.cmd (n / 8) 0 (omega arith))

pub bit_at-marked :
    (n k b m : ℕ) (s : CmdState)
    → At n k s
    → n < 32
    → b < 2
    → bit_at (marked n b s).cmd m ≡ (if m == n then max (bit_at s.cmd m) b else bit_at s.cmd m)
bit_at-marked n k b m s v h small =
    let old = get_or s.cmd (n / 8) 0 in
    rw
      (
        written s.cmd n _ m v.size h,
        bit-byte (7 - m % 8) (bit_or old (b * 2 ^ (7 - n % 8))) (omega arith),
        bit-bit_or (7 - m % 8) old (b * 2 ^ (7 - n % 8)),
        bit-shifted (7 - m % 8) (7 - n % 8) b small,
      )
      (ground arith)

pub keep_bits-id :
    (n k : ℕ) (s : CmdState)
    → At n k s
    → n < 32
    → keep_bits s
      ≡ some (record s { cmd = set s.cmd (n / 8) (bit_and (get_or s.cmd (n / 8) 0) 255) })
unfolding keep_bits
keep_bits-id n k s v h = rw (v.byte, get_elem?-eq-get_or s.cmd (n / 8) 0 (omega arith))

pub bit_at-kept :
    (n k m : ℕ) (s : CmdState)
    → At n k s
    → n < 32
    → bit_at (set s.cmd (n / 8) (bit_and (get_or s.cmd (n / 8) 0) 255)) m ≡ bit_at s.cmd m
bit_at-kept n k m s v h =
    rw
      (
        written s.cmd n _ m v.size h,
        bit_and_byte (get_or s.cmd (n / 8) 0),
        bit-byte (7 - m % 8) (get_or s.cmd (n / 8) 0) (omega arith),
      )
      (ground arith)

pub next_bit-At : (n k : ℕ) (s : CmdState) → At n k s → n < 32 → At (n + 1) k (next_bit s)
unfolding next_bit
next_bit-At n k s v h = ground arith
