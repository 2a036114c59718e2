-- ===== src/Parser.antt =====
-- programmer_parser.c: commands for the AVR microcontroller built from patterns, and the payloads
-- of the programmer packets. An access out of bounds or a shift by 32 or more is `none`.
pub mod Pattern
mod PutBit
mod Tokens
pub mod Command
mod Examples
use bigblackhardware.Base.{
  ℕ, zero, suc, ◌+◌, ◌-◌, ◌*◌, Bool, ◌&&◌, not, Option, none, some, List, [], ◌∷◌, ◌++◌, ◌==◌, ltb,
  leb, if◌then◌else◌, ◌>>=◌, ℤ, pos, negsuc, u8, u32, shl, shr, bit_and, bit_or, get_elem?, set,
  get_or, length, drop, read?, replicate, write?, for_range,
}
use bigblackhardware.Packet.{Packet}

abbrev pub avr_cmd_size : ℕ
avr_cmd_size = 4

-- `bit_offset` is an _i8 that is 0 to 7 between two rounds.
pub record CmdState : Type 0 where
  pub cmd : List ℕ
  pub byte_offset : ℕ
  pub bit_offset : ℕ
  pub input_offset : ℕ

-- cmd[cmd_byte_offset] |= (b << cmd_bit_offset)
pub put_bit : ℕ → CmdState → Option CmdState
put_bit b s = do
  old ← get_elem? s.cmd s.byte_offset
  some (record s { cmd = set s.cmd s.byte_offset (u8 (bit_or old (shl b s.bit_offset))) })

-- cmd[cmd_byte_offset] &= ~(0 << cmd_bit_offset)
pub keep_bits : CmdState → Option CmdState
keep_bits s = do
  old ← get_elem? s.cmd s.byte_offset
  some (record s { cmd = set s.cmd s.byte_offset (bit_and old 0xFF) })

abbrev pub is_digit : ℕ → Bool
is_digit c = leb b'0' c && leb c b'9'

-- The digits from index `j` on, copied into a buffer with `room` bytes left.
pub read_digits : (room : ℕ) → List ℕ → ℕ → List ℕ → Option (ℕ × List ℕ)
read_digits zero pattern j digits = do
  c ← get_elem? pattern j
  if is_digit c then none else some (j, digits)
read_digits (suc room) pattern j digits = do
  c ← get_elem? pattern j
  let rest = read_digits room pattern (u8 (j + 1)) (digits ++ (c ∷ []))
  if is_digit c then rest else some (j, digits)

-- atoi on a string of digits
abbrev pub atoi : ℕ → List ℕ → ℕ
atoi n [] = n
atoi n (c ∷ cs) = atoi (10 * n + (c - b'0')) cs

-- ch_address_shift has 3 bytes, the last for the terminator.
pub address_shift : List ℕ → Option ℕ
address_shift digits =
    if ltb (length digits) 3 && ltb (atoi 0 digits) 32 then some (atoi 0 digits) else none

-- The branch on pattern[j]; the result has the index of the last character that was used.
pub use_char : (pattern : List ℕ) (addr input c : ℕ) → ℕ → CmdState → Option (ℕ × CmdState)
use_char pattern addr input c j s =
    if c == b'1'
    then (do s' ← put_bit 1 s; some (j, s'))
    else if c == b'0'
    then (do s' ← keep_bits s; some (j, s'))
    else if c == b'a'
    then (do
      (j', digits) ← read_digits 3 pattern (u8 (j + 1)) []
      shift ← address_shift digits
      s' ← put_bit (bit_and (shr addr shift) 0x01) s
      some (u8 (j' + 255), s'))
    else if c == b'i'
    then (if ltb s.input_offset 32
        then (do
          s' ← put_bit (bit_and (shr input s.input_offset) 0x01) s
          some (j, record s' { input_offset = u8 (s.input_offset + 255) }))
        else none)
    else some (j, s)

-- if(--cmd_bit_offset < 0) { cmd_bit_offset = 7; cmd_byte_offset += 1; }
pub next_bit : CmdState → CmdState
next_bit s =
    if s.bit_offset == 0
    then record s { bit_offset = 7; byte_offset = u8 (s.byte_offset + 1) }
    else record s { bit_offset = s.bit_offset - 1 }

-- for(_u8 j=0; j<pattern_len; j++); each round moves `j` on, so `pattern_len` rounds are enough.
pub pattern_loop :
    (rounds : ℕ) (pattern : List ℕ) (pattern_len addr input : ℕ) → ℕ → CmdState → Option CmdState
pattern_loop zero pattern pattern_len addr input j s = some s
pattern_loop (suc rounds) pattern pattern_len addr input j s =
    let round = (do
      c ← get_elem? pattern j
      (j', s') ← use_char pattern addr input c j s
      pattern_loop rounds pattern pattern_len addr input (u8 (j' + 1)) (next_bit s')) in
    if ltb j pattern_len then round else some s

abbrev pub start_state : CmdState
start_state = record {
  cmd = replicate avr_cmd_size 0;
  byte_offset = 0;
  bit_offset = 7;
  input_offset = 7;
}

-- `pattern` is the whole buffer, with the terminator behind the `pattern_len` characters.
unfoldable pub create_memory_cmd : List ℕ → (pattern_len addr input : ℕ) → Option (List ℕ)
unfolding pattern_loop use_char next_bit put_bit keep_bits read_digits address_shift
create_memory_cmd pattern pattern_len addr input = do
  s ← pattern_loop pattern_len pattern pattern_len addr input 0 start_state
  some s.cmd
