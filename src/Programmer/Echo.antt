-- ===== src/Programmer/Echo.antt =====
-- The echo check of programmer_write_raw_cmd covers the byte that reading memory returns.
use mathlib.Core.List.{map}
use bigblackhardware.Base.{
  ℕ, ◌+◌, ◌/◌, ◌<◌, ◌≤◌, ◌≡◌, refl, ap, sym, ◌∙◌, true, false, some, List, [], ◌∷◌, ◌++◌, negative,
  get_or, length, drop, arith, Bool-cases, inl, inr,
}
use bigblackhardware.Payload.{
  AvrMemoryType, memory_flash, memory_eeprom, memory_err, AvrReadMemData, AvrMcuInfo,
  check_cmd_status,
}
use bigblackhardware.Programmer.{Device}
use bigblackhardware.Programmer.Read.{ReadResult, programmer_read_memory}
use bigblackhardware.Programmer.ReadScript.{read_flash_script, read_eeprom_script, read_all}
use bigblackhardware.Programmer.Readout.{
  overlaid, readout, IsReader, counted, programmer_read_memory-readout,
}

abbrev pub third : List ℕ → ℕ
third c = get_or c 2 0

-- The third bytes of the commands that reading sends.
abbrev pub third_bytes : AvrMcuInfo → AvrReadMemData → List ℕ
third_bytes info mem = elim mem.mem_t [
  | memory_flash ↦
      map third (read_flash_script info mem.start_address ((mem.bytes_to_read + 1) / 2))
  | memory_eeprom ↦ map third (read_eeprom_script info mem.start_address mem.bytes_to_read)
  | memory_err ↦ []
]

echo_last :
    (c answer : List ℕ) → negative (check_cmd_status c answer) ≡ false → get_or answer 3 0 ≡ third c
unfolding check_cmd_status
echo_last c answer e = ground arith

read_all-third :
    {D : Type 0} (dev : Device D) (cs : List (List ℕ)) (d : D)
    → (read_all dev cs d).0 ≡ true
    → (read_all dev cs d).1 ≡ map third cs
read_all-third dev [] d e = refl
read_all-third dev (c ∷ cs) d e =
    let (answer, d') = dev.transfer c d in
    elim (Bool-cases (negative (check_cmd_status c answer))) [
      | inl bad ↦ absurd (let e' = rw bad at e in cc)
      | inr good ↦
          rw (good, echo_last c answer good)
            (ap (λ (bs : List ℕ). third c ∷ bs) (read_all-third dev cs d' (rw good at e)))
    ]

overlaid-third :
    {D : Type 0} (n : ℕ) (buf : List ℕ) (dev : Device D) (cs : List (List ℕ)) (d : D)
    → negative (overlaid n buf (read_all dev cs d)).status ≡ false
    → (overlaid n buf (read_all dev cs d)).buf ≡ map third cs ++ drop (length (map third cs)) buf
overlaid-third n buf dev cs d e = elim (Bool-cases (read_all dev cs d).0) [
  | inl ok ↦ rw (read_all-third dev cs d ok) refl
  | inr failed ↦ absurd (let e' = rw failed at e in cc)
]

-- A read that reports success has not read the memory: whatever the microcontroller holds, the
-- buffer starts with the third byte of each command. This is for well-formed patterns, a buffer
-- with a byte to spare, and at most 256 bytes of flash memory.
pub programmer_read_memory-third_bytes :
    {D : Type 0} (dev : Device D) (info : AvrMcuInfo) (mem : AvrReadMemData) (buf : List ℕ) (d : D)
    (r : ReadResult D)
    → IsReader info
    → mem.bytes_to_read < length buf
    → mem.bytes_to_read ≤ counted mem.mem_t
    → programmer_read_memory dev (some info) mem buf d ≡ some r
    → negative r.status ≡ false
    → r.buf ≡ third_bytes info mem ++ drop (length (third_bytes info mem)) buf
programmer_read_memory-third_bytes dev info mem buf d r v room small run ok =
    let same : readout dev info mem buf d ≡ r =
      let e = programmer_read_memory-readout dev info mem buf d v room small in cc in
    let ok' : negative (readout dev info mem buf d).status ≡ false = rw same ok in
    ap (λ (r : ReadResult _). r.buf) (sym same) ∙ by_type mem.mem_t refl ok'
  where
    by_type :
        (t : AvrMemoryType)
        → mem.mem_t ≡ t
        → negative (readout dev info mem buf d).status ≡ false
        → (readout dev info mem buf d).buf
          ≡ third_bytes info mem ++ drop (length (third_bytes info mem)) buf
    by_type memory_flash e ok' = rw e (overlaid-third mem.bytes_to_read buf dev _ d (rw e at ok'))
    by_type memory_eeprom e ok' = rw e (overlaid-third mem.bytes_to_read buf dev _ d (rw e at ok'))
    by_type memory_err e ok' = absurd (let e' = rw e at ok' in cc)
