-- ===== src/Programmer/Readout.antt =====
-- What reading memory does as a whole: the answers in front of the buffer's old contents.
use mathlib.Core.List.{append_assoc}
use bigblackhardware.Base.{
  ℕ, zero, suc, ◌+◌, ◌-◌, ◌*◌, ◌/◌, ◌^◌, ◌<◌, ◌≤◌, ◌≡◌, refl, ◌∙◌, Bool, some, List, [], ◌∷◌, ◌++◌,
  if◌then◌else◌, negsuc, negative, i16, u32, length, length-append, set_behind, drop, arith,
  Bool-cases, inl, inr,
}
use bigblackhardware.Payload.{
  AvrMemoryType, memory_flash, memory_eeprom, memory_err, AvrReadMemData, AvrMcuInfo,
  check_cmd_status,
}
use bigblackhardware.Programmer.{Device}
use bigblackhardware.Programmer.Script.{IsCommand}
use bigblackhardware.Programmer.Read.{
  ReadResult, read_flash_memory, read_eeprom_memory, programmer_read_memory,
}
use bigblackhardware.Programmer.ReadScript.{
  read_flash_script, read_eeprom_script, place, read_all, answered, read_eeprom_loop_lem,
  read_flash_loop_lem,
}

place-overlay :
    (bs done rest : List ℕ) (k : ℕ)
    → k ≡ length done
    → length bs ≤ length rest
    → place bs k (done ++ rest) ≡ done ++ (bs ++ drop (length bs) rest)
place-overlay [] done rest k e h = refl
place-overlay (b ∷ bs) done [] k e h = absurd (omega arith)
place-overlay (b ∷ bs) done (x ∷ rest) k e h = rw (set_behind done rest x b k e) (
    place-overlay bs (done ++ (b ∷ [])) rest (k + 1) (omega (arith, length-append done (b ∷ [])))
      (omega arith)
    ∙ append_assoc done (b ∷ []) (bs ++ drop (length bs) rest))

length-read_all :
    {D : Type 0} (dev : Device D) (cs : List (List ℕ)) (d : D)
    → length (read_all dev cs d).1 ≤ length cs
length-read_all dev [] d = omega arith
length-read_all dev (c ∷ cs) d =
    let (answer, d') = dev.transfer c d in
    elim (Bool-cases (negative (check_cmd_status c answer))) [
      | inl bad ↦ rw bad (omega arith)
      | inr good ↦ rw good (omega (arith, length-read_all dev cs d'))
    ]

length-read_flash_script :
    (info : AvrMcuInfo) (address words : ℕ)
    → length (read_flash_script info address words) ≡ 2 * words
length-read_flash_script info address zero = refl
length-read_flash_script info address (suc words) =
    omega (arith, length-read_flash_script info (u32 (address + 1)) words)

length-read_eeprom_script :
    (info : AvrMcuInfo) (address count : ℕ) → length (read_eeprom_script info address count) ≡ count
length-read_eeprom_script info address zero = refl
length-read_eeprom_script info address (suc count) =
    omega (arith, length-read_eeprom_script info (u32 (address + 1)) count)

-- The patterns that reading uses.
pub record IsReader (info : AvrMcuInfo) : Type 0 where
  pub read_hi : IsCommand info.flash_read_hi
  pub read_lo : IsCommand info.flash_read_lo
  pub read : IsCommand info.eeprom_read

-- The bytes that came back, in front of what was in the buffer.
abbrev pub overlaid : {D : Type 0} → (n : ℕ) → List ℕ → Bool × List ℕ × D → ReadResult D
overlaid n buf (ok, bs, d) = record {
  status = if ok then i16 n else negsuc 0;
  buf = bs ++ drop (length bs) buf;
  device = d;
}

-- What reading should do: flash memory by whole words, the EEPROM byte by byte.
abbrev pub readout :
    {D : Type 0} → Device D → AvrMcuInfo → AvrReadMemData → List ℕ → D → ReadResult D
readout dev info mem buf d = elim mem.mem_t [
  | memory_flash ↦
      overlaid mem.bytes_to_read buf
        (read_all dev (read_flash_script info mem.start_address ((mem.bytes_to_read + 1) / 2)) d)
  | memory_eeprom ↦
      overlaid mem.bytes_to_read buf
        (read_all dev (read_eeprom_script info mem.start_address mem.bytes_to_read) d)
  | memory_err ↦ record { status = negsuc 0; buf = buf; device = d }
]

-- More than 256 bytes of flash memory wrap the eight-bit counter of answers.
abbrev pub counted : AvrMemoryType → ℕ
counted memory_flash = 256
counted memory_eeprom = 2 ^ 16 - 1
counted memory_err = 2 ^ 32 - 1

-- With well-formed patterns, a buffer with a byte to spare and at most 256 bytes of flash memory,
-- reading ends, and sends the commands of all words (the high byte first) or bytes in order, up to
-- the first one that is not echoed. The answers fill the buffer from its start and leave the rest
-- of it alone; the status is the number of bytes that was asked for, as an _i16, where all were echoed, and -1
-- otherwise. An odd number of flash bytes reads one byte more.
pub programmer_read_memory-readout :
    {D : Type 0} (dev : Device D) (info : AvrMcuInfo) (mem : AvrReadMemData) (buf : List ℕ) (d : D)
    → IsReader info
    → mem.bytes_to_read < length buf
    → mem.bytes_to_read ≤ counted mem.mem_t
    → programmer_read_memory dev (some info) mem buf d ≡ some (readout dev info mem buf d)
unfolding programmer_read_memory read_flash_memory read_eeprom_memory
programmer_read_memory-readout {D} dev info mem buf d v room small = by_type mem.mem_t refl
  where
    n : ℕ
    n = mem.bytes_to_read

    overlay :
        (cs : List (List ℕ))
        → length cs ≤ length buf
        → some (answered dev n (read_all dev cs d) 0 buf)
          ≡ some (overlaid n buf (read_all dev cs d))
    overlay cs h =
        let fits = length-read_all dev cs d in
        rw (place-overlay (read_all dev cs d).1 [] buf 0 refl (omega arith)) refl

    by_type :
        (t : AvrMemoryType)
        → mem.mem_t ≡ t
        → programmer_read_memory dev (some info) mem buf d ≡ some (readout dev info mem buf d)
    by_type memory_flash e =
        let words = (n + 1) / 2 in
        rw e (
          read_flash_loop_lem dev info n (suc n) 0 mem.start_address 0 words buf d v.read_hi
            v.read_lo (omega arith) refl (omega arith) (omega arith) (rw e at small) refl
          ∙ overlay (read_flash_script info mem.start_address words)
              (omega (arith, length-read_flash_script info mem.start_address words)))
    by_type memory_eeprom e =
        let small' = rw e at small in
        rw e (
          read_eeprom_loop_lem dev info n (suc n) 0 mem.start_address 0 n buf d v.read (omega arith)
            refl (omega arith) (omega arith) (omega arith)
          ∙ overlay (read_eeprom_script info mem.start_address n)
              (omega (arith, length-read_eeprom_script info mem.start_address n)))
    by_type memory_err e = rw e refl
