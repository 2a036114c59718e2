-- ===== src/Programmer/Script.antt =====
-- Programming memory as a list of commands that is sent until one is not echoed.
use bigblackhardware.Base.{
  ℕ, zero, suc, ◌+◌, ◌%◌, ◌<◌, ◌≤◌, ◌≡◌, ◌≢◌, refl, true, false, Option, none, some, List, [], ◌∷◌,
  ◌++◌, ◌==◌, ltb, if◌then◌else◌, ℤ, pos, negsuc, negative, u8, u32, length, drop, arith,
  Bool-cases, inl, inr, get_elem?-of_drop, drop-suc,
}
use bigblackhardware.Parser.{create_memory_cmd}
use bigblackhardware.Parser.Pattern.{Token, print_all, inputs, IsPattern}
use bigblackhardware.Parser.Command.{create_memory_cmd-bits}
use bigblackhardware.Payload.{
  AvrMemoryType, memory_flash, memory_eeprom, memory_err, AvrProgMemData, AvrMcuInfo, Pattern,
  check_cmd_status,
}
use bigblackhardware.Programmer.{
  Device, sleep, programmer_write_raw_cmd, load_memory_cmd, load_byte, flash_loop,
  program_flash_memory, eeprom_loop, program_eeprom_memory, programmer_program_memory,
}

-- The command that a pattern gives, or the empty list where it gives none.
abbrev pub command_of : Option (List ℕ) → List ℕ
command_of (some c) = c
command_of none = []

abbrev pub command_for : Pattern → (address data_byte : ℕ) → List ℕ
command_for p address data_byte = command_of (create_memory_cmd p.text p.len address data_byte)

-- A pattern that is made of tokens and ends in a terminator.
pub record IsCommand (p : Pattern) : Type 0 where
  pub tokens : List Token
  pub size : length tokens ≤ 32
  pub inputs : inputs tokens ≤ 8
  pub pattern : IsPattern tokens
  pub small : length (print_all tokens) < 256
  pub text : p.text ≡ print_all tokens ++ (0 ∷ [])
  pub len : p.len ≡ length (print_all tokens)

-- Such a pattern gives a command for every address and byte.
pub command_for-some :
    (p : Pattern) (address data_byte : ℕ)
    → IsCommand p
    → create_memory_cmd p.text p.len address data_byte ≡ some (command_for p address data_byte)
command_for-some p address data_byte v =
    let (c, e, _, _) =
      create_memory_cmd-bits address data_byte v.tokens v.size v.inputs v.pattern v.small in
    let e' : create_memory_cmd p.text p.len address data_byte ≡ some c = rw (v.text, v.len) e in
    rw e' refl

-- Two commands for each word, the low byte first.
abbrev pub flash_script : AvrMcuInfo → ℕ → List ℕ → List (List ℕ)
flash_script info address [] = []
flash_script info address (lo ∷ []) = []
flash_script info address (lo ∷ hi ∷ rest) =
    command_for info.flash_load_lo address lo
    ∷ command_for info.flash_load_hi address hi
    ∷ flash_script info (u32 (address + 1)) rest

-- One command for each byte.
abbrev pub eeprom_script : AvrMcuInfo → ℕ → List ℕ → List (List ℕ)
eeprom_script info address [] = []
eeprom_script info address (b ∷ rest) =
    command_for info.eeprom_write address b ∷ eeprom_script info (u32 (address + 1)) rest

-- An answer's status is 0 or -1.
pub status_cases :
    (c answer : List ℕ)
    → (negative (check_cmd_status c answer) ≡ false → check_cmd_status c answer ≡ pos 0)
      × (negative (check_cmd_status c answer) ≡ true → check_cmd_status c answer ≡ negsuc 0)
unfolding check_cmd_status
status_cases c answer = ground arith

module _ {D : Type 0} (dev : Device D) where
  -- Send commands with a pause behind each, up to the first one that is not echoed.
  abbrev pub send_all : (wait : ℕ) → List (List ℕ) → D → ℤ × D
  send_all wait [] d = (pos 0, d)
  send_all wait (c ∷ cs) d =
      let (answer, d') = dev.transfer c d in
      let rest = send_all wait cs (dev.act (sleep wait) d') in
      if negative (check_cmd_status c answer) then (negsuc 0, d') else rest

  load_byte_lem :
      (p : Pattern) (wait address b : ℕ) (rest : ℤ → D → Option (ℤ × D)) (cs : List (List ℕ))
      (d : D)
      → IsCommand p
      → ((d' : D) → rest (pos 0) d' ≡ some (send_all wait cs d'))
      → load_byte dev p wait address b rest d
        ≡ some (send_all wait (command_for p address b ∷ cs) d)
  unfolding load_byte load_memory_cmd programmer_write_raw_cmd
  load_byte_lem p wait address b rest cs d v next =
      rw (command_for-some p address b v)
        (elim (Bool-cases (negative (check_cmd_status c (dev.transfer c d).0))) [
          | inl bad ↦ rw (bad, (status_cases c (dev.transfer c d).0).1 bad) refl
          | inr good ↦ rw (good, (status_cases c (dev.transfer c d).0).0 good) (next _)
        ])
    where
      c : List ℕ
      c = command_for p address b

  module _ (info : AvrMcuInfo) (mem : AvrProgMemData) where
    eeprom_loop_lem :
        (rounds i address : ℕ) (left : List ℕ) (status : Option ℤ) (d : D)
        → IsCommand info.eeprom_write
        → drop i mem.contents ≡ left
        → i + length left ≡ mem.data_len
        → length left < rounds
        → (left ≡ [] → status ≡ some (pos 0))
        → eeprom_loop dev rounds info mem i address status d
          ≡ some (send_all info.eeprom_wait_ms (eeprom_script info address left) d)
    unfolding eeprom_loop
    eeprom_loop_lem zero i address left status d v e size enough known = absurd (omega arith)
    eeprom_loop_lem (suc rounds) i address [] status d v e size enough known =
        let ended : ltb i mem.data_len ≡ false = ground arith in rw (ended, known refl) refl
    eeprom_loop_lem (suc rounds) i address (b ∷ left) status d v e size enough known =
        let going : ltb i mem.data_len ≡ true = ground arith in
        let next : suc i ≡ i + 1 = omega arith in
        rw (going, get_elem?-of_drop mem.contents i b left e)
          (load_byte_lem info.eeprom_write info.eeprom_wait_ms address b _
            (eeprom_script info (u32 (address + 1)) left) d v
            (λ d'.
              eeprom_loop_lem rounds (i + 1) (u32 (address + 1)) left (some (pos 0)) d' v
                (rw next at (drop-suc mem.contents i b left e)) (omega arith) (omega arith)
                (λ _. refl)))

    flash_loop_lem :
        (rounds i address : ℕ) (left : List ℕ) (status : Option ℤ) (d : D)
        → IsCommand info.flash_load_lo
        → IsCommand info.flash_load_hi
        → drop i mem.contents ≡ left
        → i + length left ≡ mem.data_len
        → length left % 2 ≡ 0
        → mem.data_len < 255
        → length left < rounds
        → (left ≡ [] → status ≡ some (pos 0))
        → flash_loop dev rounds info mem i address status d
          ≡ some (send_all info.flash_wait_ms (flash_script info address left) d)
    unfolding flash_loop
    flash_loop_lem zero i address left status d v w e size even small enough known =
        absurd (omega arith)
    flash_loop_lem (suc rounds) i address [] status d v w e size even small enough known =
        let ended : ltb i mem.data_len ≡ false = ground arith in rw (ended, known refl) refl
    flash_loop_lem (suc rounds) i address (lo ∷ []) status d v w e size even small enough known =
        absurd (omega arith)
    flash_loop_lem (suc rounds) i address (lo ∷ hi ∷ left) status d v w e size even small enough
          known =
        let going : ltb i mem.data_len ≡ true = ground arith in
        let next : suc i ≡ i + 1 = omega arith in
        let next' : suc (i + 1) ≡ u8 (i + 2) = omega arith in
        let e1 = rw next at (drop-suc mem.contents i lo (hi ∷ left) e) in
        let e2 = rw next' at (drop-suc mem.contents (i + 1) hi left e1) in
        rw (going, get_elem?-of_drop mem.contents i lo (hi ∷ left) e)
          (load_byte_lem info.flash_load_lo info.flash_wait_ms address lo _
            (command_for info.flash_load_hi address hi ∷ flash_script info (u32 (address + 1)) left)
            d v
            (λ d1. rw (get_elem?-of_drop mem.contents (i + 1) hi left e1) (
              load_byte_lem info.flash_load_hi info.flash_wait_ms address hi _
                (flash_script info (u32 (address + 1)) left) d1 w
                (λ d2.
                  flash_loop_lem rounds (u8 (i + 2)) (u32 (address + 1)) left (some (pos 0)) d2 v w
                    e2 (omega arith) (omega arith) small (omega arith) (λ _. refl)))))

-- The patterns that programming uses.
pub record IsLoader (info : AvrMcuInfo) : Type 0 where
  pub load_lo : IsCommand info.flash_load_lo
  pub load_hi : IsCommand info.flash_load_hi
  pub write : IsCommand info.eeprom_write

-- What programming should do: flash memory word by word, the EEPROM byte by byte.
abbrev pub programmed : {D : Type 0} → Device D → AvrMcuInfo → AvrProgMemData → D → ℤ × D
programmed dev info mem d = elim mem.memory_type [
  | memory_flash ↦
      if mem.data_len % 2 == 0
      then send_all dev info.flash_wait_ms (flash_script info mem.start_address mem.contents) d
      else (negsuc 0, d)
  | memory_eeprom ↦
      send_all dev info.eeprom_wait_ms (eeprom_script info mem.start_address mem.contents) d
  | memory_err ↦ (negsuc 0, d)
]

not_empty : (xs : List ℕ) {A : Type 0} → 0 < length xs → xs ≡ [] → A
not_empty [] h e = absurd (omega arith)
not_empty (x ∷ xs) h e = absurd cc

-- With well-formed patterns and at least one byte of data, programming memory ends, and sends the
-- commands of all bytes in order, each with the next address of its word or byte, up to the first
-- one that the microcontroller does not echo; its status says whether all were echoed. Flash data
-- of odd length and an unknown memory are refused with nothing sent.
pub programmer_program_memory-programmed :
    {D : Type 0} (dev : Device D) (info : AvrMcuInfo) (mem : AvrProgMemData) (d : D)
    → IsLoader info
    → length mem.contents ≡ mem.data_len
    → 0 < mem.data_len
    → mem.data_len < 256
    → programmer_program_memory dev (some info) mem d ≡ some (programmed dev info mem d)
unfolding programmer_program_memory program_flash_memory program_eeprom_memory
programmer_program_memory-programmed dev info mem d v size some_data small =
    by_type mem.memory_type refl
  where
    by_type :
        (t : AvrMemoryType)
        → mem.memory_type ≡ t
        → programmer_program_memory dev (some info) mem d ≡ some (programmed dev info mem d)
    by_type memory_flash e = elim (Bool-cases (mem.data_len % 2 == 0)) [
      | inl even ↦
          rw (e, even)
            (flash_loop_lem dev info (record mem { memory_type = memory_flash }) (suc mem.data_len)
              0 mem.start_address mem.contents none d v.load_lo v.load_hi refl (omega arith)
              (ground arith) (ground arith) (omega arith) (not_empty mem.contents (omega arith)))
      | inr odd ↦ rw (e, odd) refl
    ]
    by_type memory_eeprom e = rw e (
        eeprom_loop_lem dev info (record mem { memory_type = memory_eeprom }) (suc mem.data_len) 0
          mem.start_address mem.contents none d v.write refl (omega arith) (omega arith)
          (not_empty mem.contents (omega arith)))
    by_type memory_err e = rw e refl

-- Without data for the flash memory or the EEPROM the status that is returned was never
-- initialised.
pub programmer_program_memory-empty :
    {D : Type 0} (dev : Device D) (info : AvrMcuInfo) (mem : AvrProgMemData) (d : D)
    → mem.data_len ≡ 0
    → mem.memory_type ≢ memory_err
    → programmer_program_memory dev (some info) mem d ≡ none
unfolding programmer_program_memory program_flash_memory program_eeprom_memory flash_loop
    eeprom_loop
programmer_program_memory-empty dev info mem d e known = ground arith
