-- ===== src/Programmer/ReadScript.antt =====
-- Reading memory as a list of commands, whose answers fill the buffer from its start.
use bigblackhardware.Base.{
  ℕ, zero, suc, ◌+◌, ◌-◌, ◌/◌, ◌%◌, ◌^◌, ◌<◌, ◌≤◌, ◌≡◌, refl, Bool, true, false, Option, some, List,
  [], ◌∷◌, ltb, if◌then◌else◌, negsuc, negative, i16, u8, u16, u32, get_or, set, length, length-set,
  arith, Bool-cases, inl, inr,
}
use bigblackhardware.Payload.{AvrMcuInfo, Pattern, check_cmd_status}
use bigblackhardware.Programmer.{Device, programmer_write_raw_cmd}
use bigblackhardware.Programmer.Script.{IsCommand, command_for, command_for-some, status_cases}
use bigblackhardware.Programmer.Read.{ReadResult, read_byte, read_flash_loop, read_eeprom_loop}

-- Two commands for each word, the high byte first.
abbrev pub read_flash_script : AvrMcuInfo → (address words : ℕ) → List (List ℕ)
read_flash_script info address zero = []
read_flash_script info address (suc words) =
    command_for info.flash_read_hi address 0
    ∷ command_for info.flash_read_lo address 0
    ∷ read_flash_script info (u32 (address + 1)) words

abbrev pub read_eeprom_script : AvrMcuInfo → (address count : ℕ) → List (List ℕ)
read_eeprom_script info address zero = []
read_eeprom_script info address (suc count) =
    command_for info.eeprom_read address 0 ∷ read_eeprom_script info (u32 (address + 1)) count

-- Bytes written one by one from index `k` on.
abbrev pub place : List ℕ → ℕ → List ℕ → List ℕ
place [] k buf = buf
place (b ∷ bs) k buf = place bs (k + 1) (set buf k b)

module _ {D : Type 0} (dev : Device D) where
  -- The last bytes of the answers, up to the first command that is not echoed, whether all were
  -- echoed, and the device.
  abbrev pub read_all : List (List ℕ) → D → Bool × List ℕ × D
  read_all [] d = (true, [], d)
  read_all (c ∷ cs) d =
      let (answer, d') = dev.transfer c d in
      let rest = read_all cs d' in
      if negative (check_cmd_status c answer)
      then (false, [], d')
      else (rest.0, get_or answer 3 0 ∷ rest.1, rest.2)

  -- The status is `n` where all were echoed.
  abbrev pub answered : (n : ℕ) → Bool × List ℕ × D → ℕ → List ℕ → ReadResult D
  answered n (ok, bs, d) k buf = record {
    status = if ok then i16 n else negsuc 0;
    buf = place bs k buf;
    device = d;
  }

  read_byte_lem :
      (p : Pattern) (n address k counter : ℕ) (buf : List ℕ)
      (rest : List ℕ → D → Option (ReadResult D)) (cs : List (List ℕ)) (d : D)
      → IsCommand p
      → counter ≡ k
      → k < length buf
      → ((buf' : List ℕ) (d' : D)
          → length buf' ≡ length buf
          → rest buf' d' ≡ some (answered n (read_all cs d') (k + 1) buf'))
      → read_byte dev p address counter buf rest d
        ≡ some (answered n (read_all (command_for p address 0 ∷ cs) d) k buf)
  unfolding read_byte programmer_write_raw_cmd
  read_byte_lem p n address k counter buf rest cs d v same room next =
      let fits : ltb k (length buf) ≡ true = ground arith in
      rw (command_for-some p address 0 v, same, fits)
        (elim (Bool-cases (negative (check_cmd_status c (dev.transfer c d).0))) [
          | inl bad ↦ rw (bad, (status_cases c (dev.transfer c d).0).1 bad) refl
          | inr good ↦ rw good (next _ _ (length-set buf k _))
        ])
    where
      c : List ℕ
      c = command_for p address 0

  module _ (info : AvrMcuInfo) (n : ℕ) where
    pub read_eeprom_loop_lem :
        (rounds i address k : ℕ) (left : ℕ) (buf : List ℕ) (d : D)
        → IsCommand info.eeprom_read
        → i + left ≡ n
        → k ≡ i
        → left < rounds
        → n ≤ length buf
        → n < 2 ^ 16
        → read_eeprom_loop dev rounds info n i address (u16 k) buf d
          ≡ some (answered n (read_all (read_eeprom_script info address left) d) k buf)
    unfolding read_eeprom_loop
    read_eeprom_loop_lem zero i address k left buf d v size at enough room small =
        absurd (omega arith)
    read_eeprom_loop_lem (suc rounds) i address k zero buf d v size at enough room small =
        let ended : ltb i n ≡ false = ground arith in rw ended refl
    read_eeprom_loop_lem (suc rounds) i address k (suc left) buf d v size at enough room small =
        let going : ltb i n ≡ true = ground arith in
        let no_overflow : ltb (i + 1) (2 ^ 31) ≡ true = ground arith in
        let next : u16 (u16 k + 1) ≡ u16 (k + 1) = omega arith in
        rw (going, no_overflow, next)
          (read_byte_lem info.eeprom_read n address k (u16 k) buf _
            (read_eeprom_script info (u32 (address + 1)) left) d v (omega arith) (omega arith)
            (λ buf' d' same.
              read_eeprom_loop_lem rounds (i + 1) (u32 (address + 1)) (k + 1) left buf' d' v
                (omega arith) (omega arith) (omega arith) (omega arith) small))

    pub read_flash_loop_lem :
        (rounds i address k : ℕ) (words : ℕ) (buf : List ℕ) (d : D)
        → IsCommand info.flash_read_hi
        → IsCommand info.flash_read_lo
        → words ≡ (n - i + 1) / 2
        → k ≡ i
        → words < rounds
        → n + 1 ≤ length buf
        → n ≤ 256
        → i % 2 ≡ 0
        → read_flash_loop dev rounds info n i address (u8 k) buf d
          ≡ some (answered n (read_all (read_flash_script info address words) d) k buf)
    unfolding read_flash_loop
    read_flash_loop_lem zero i address k words buf d v w size at enough room small even =
        absurd (omega arith)
    read_flash_loop_lem (suc rounds) i address k zero buf d v w size at enough room small even =
        let ended : ltb i n ≡ false = ground arith in rw ended refl
    read_flash_loop_lem (suc rounds) i address k (suc words) buf d v w size at enough room small
          even =
        let going : ltb i n ≡ true = ground arith in
        let no_overflow : ltb (i + 2) (2 ^ 31) ≡ true = ground arith in
        let low_index : u8 (u8 k + 1) ≡ u8 (k + 1) = omega arith in
        let next : u8 (u8 k + 2) ≡ u8 (k + 2) = omega arith in
        let two : k + 1 + 1 ≡ k + 2 = omega arith in
        rw (going, no_overflow, next, low_index)
          (read_byte_lem info.flash_read_hi n address k (u8 k) buf _
            (command_for info.flash_read_lo address 0
              ∷ read_flash_script info (u32 (address + 1)) words)
            d v (omega arith) (omega arith)
            (λ buf1 d1 same1.
              read_byte_lem info.flash_read_lo n address (k + 1) (u8 (k + 1)) buf1 _
                (read_flash_script info (u32 (address + 1)) words) d1 w (omega arith) (omega arith)
                (λ buf2 d2 same2. rw two (
                  read_flash_loop_lem rounds (i + 2) (u32 (address + 1)) (k + 2) words buf2 d2 v w
                    (omega arith) (omega arith) (omega arith) (omega arith) small (omega arith)))))
