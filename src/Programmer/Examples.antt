-- ===== src/Programmer/Examples.antt =====
-- Runs of programmer.c on a device that keeps the commands that it was sent and echoes them.
use bigblackhardware.Base.{
  ◌⊎◌, ℕ, ◌≡◌, ◌↔◌, refl, false, some, List, [], ◌∷◌, ◌++◌, ℤ, pos, negative, length, get_or,
  replicate, drop, arith,
}
use bigblackhardware.Parser.Pattern.{Token, one, zeros, input, addr, other, print_all}
use bigblackhardware.Payload.{
  AvrMemoryType, memory_flash, memory_eeprom, memory_err, AvrReadMemData, AvrProgMemData,
  AvrMcuInfo, Pattern,
}
use bigblackhardware.Programmer.{Device, programmer_program_memory, programmer_enable_pgm_mode}
use bigblackhardware.Programmer.Script.{
  IsCommand, IsLoader, programmed, programmer_program_memory-programmed,
}
use bigblackhardware.Programmer.Read.{programmer_read_memory}
use bigblackhardware.Programmer.Readout.{IsReader, readout, programmer_read_memory-readout}
use bigblackhardware.Programmer.Enable.{Enters, programmer_enable_pgm_mode-Enters}
use bigblackhardware.Programmer.Echo.{third_bytes, programmer_read_memory-third_bytes}

abbrev pub echoing : Device (List (List ℕ))
echoing = record {
  transfer = λ c sent. (0 ∷ get_or c 0 0 ∷ get_or c 1 0 ∷ get_or c 2 0 ∷ [], c ∷ sent);
  act = λ a sent. sent;
}

-- A device that never answers.
abbrev pub silent : Device (List (List ℕ))
silent = record {
  transfer = λ c sent. (255 ∷ 255 ∷ 255 ∷ 255 ∷ [], c ∷ sent);
  act = λ a sent. sent;
}

abbrev pattern_of : List Token → Pattern
pattern_of ts = record { len = length (print_all ts); text = print_all ts ++ (0 ∷ []) }

-- An operation, two bits of the address in the third byte, and the data in the fourth.
abbrev pub load_tokens : List Token
load_tokens =
    zeros
    ∷ one
    ∷ other b'x'
    ∷ other b'x'
    ∷ other b'x'
    ∷ other b'x'
    ∷ other b'x'
    ∷ other b'x'
    ∷ other b'x'
    ∷ other b'x'
    ∷ other b'x'
    ∷ other b'x'
    ∷ other b'x'
    ∷ other b'x'
    ∷ other b'x'
    ∷ other b'x'
    ∷ other b'x'
    ∷ other b'x'
    ∷ other b'x'
    ∷ other b'x'
    ∷ other b'x'
    ∷ other b'x'
    ∷ addr 1
    ∷ addr 0
    ∷ input
    ∷ input
    ∷ input
    ∷ input
    ∷ input
    ∷ input
    ∷ input
    ∷ input
    ∷ []

pub load_tokens-IsCommand : IsCommand (pattern_of load_tokens)
load_tokens-IsCommand = record {
  tokens = load_tokens;
  size = omega arith;
  inputs = omega arith;
  pattern = ground arith;
  small = omega arith;
  text = refl;
  len = refl;
}

abbrev pub toy_info : AvrMcuInfo
toy_info = record {
  flash_load_hi = pattern_of load_tokens;
  flash_load_lo = pattern_of load_tokens;
  flash_read_lo = pattern_of load_tokens;
  flash_read_hi = pattern_of load_tokens;
  flash_wait_ms = 5;
  eeprom_write = pattern_of load_tokens;
  eeprom_read = pattern_of load_tokens;
  eeprom_wait_ms = 9;
  pgm_enable = 0xAC ∷ 0x53 ∷ 0 ∷ 0 ∷ [];
}

pub toy_info-IsLoader : IsLoader toy_info
toy_info-IsLoader = record {
  load_lo = load_tokens-IsCommand;
  load_hi = load_tokens-IsCommand;
  write = load_tokens-IsCommand;
}

pub toy_info-IsReader : IsReader toy_info
toy_info-IsReader = record {
  read_hi = load_tokens-IsCommand;
  read_lo = load_tokens-IsCommand;
  read = load_tokens-IsCommand;
}

abbrev pub two_words : AvrProgMemData
two_words = record {
  start_address = 1;
  memory_type = memory_flash;
  data_len = 4;
  contents = 10 ∷ 20 ∷ 30 ∷ 40 ∷ [];
}

programmer_program_memory-programmed_example :
    programmer_program_memory echoing (some toy_info) two_words []
    ≡ some (programmed echoing toy_info two_words [])
programmer_program_memory-programmed_example =
    programmer_program_memory-programmed echoing toy_info two_words [] toy_info-IsLoader refl
      (omega arith) (omega arith)

-- All four bytes are sent to the addresses 1 and 2.
two_words_run : programmed echoing toy_info two_words [] ≡ (
  pos 0,
  (64 ∷ 0 ∷ 2 ∷ 40 ∷ [])
      ∷ (64 ∷ 0 ∷ 2 ∷ 30 ∷ [])
      ∷ (64 ∷ 0 ∷ 1 ∷ 20 ∷ [])
      ∷ (64 ∷ 0 ∷ 1 ∷ 10 ∷ [])
      ∷ [],
)
unfolding bigblackhardware.Payload.check_cmd_status bigblackhardware.Parser.create_memory_cmd
two_words_run = refl

abbrev no_data : AvrProgMemData
no_data = record { start_address = 0; memory_type = memory_eeprom; data_len = 0; contents = [] }

abbrev pub three_bytes : AvrReadMemData
three_bytes = record { start_address = 1; bytes_to_read = 3; mem_t = memory_flash }

programmer_read_memory-readout_example :
    programmer_read_memory silent (some toy_info) three_bytes (replicate 6 7) []
    ≡ some (readout silent toy_info three_bytes (replicate 6 7) [])
programmer_read_memory-readout_example =
    programmer_read_memory-readout silent toy_info three_bytes (replicate 6 7) [] toy_info-IsReader
      (omega arith) (omega arith)

three_bytes_read :
    programmer_read_memory echoing (some toy_info) three_bytes (replicate 6 7) []
    ≡ some (readout echoing toy_info three_bytes (replicate 6 7) [])
three_bytes_read =
    programmer_read_memory-readout echoing toy_info three_bytes (replicate 6 7) [] toy_info-IsReader
      (omega arith) (omega arith)

three_bytes_ok : negative (readout echoing toy_info three_bytes (replicate 6 7) []).status ≡ false
unfolding bigblackhardware.Payload.check_cmd_status bigblackhardware.Parser.create_memory_cmd
three_bytes_ok = refl

programmer_read_memory-third_bytes_example :
    (readout echoing toy_info three_bytes (replicate 6 7) []).buf
    ≡ third_bytes toy_info three_bytes
      ++ drop (length (third_bytes toy_info three_bytes)) (replicate 6 7)
programmer_read_memory-third_bytes_example =
    programmer_read_memory-third_bytes echoing toy_info three_bytes (replicate 6 7) []
      (readout echoing toy_info three_bytes (replicate 6 7) []) toy_info-IsReader (omega arith)
      (omega arith) three_bytes_read three_bytes_ok

programmer_enable_pgm_mode-Enters_example :
    (status : ℤ) × (sent : List (List ℕ)) × (programmer_enable_pgm_mode silent (some toy_info) []
      ≡ some (status, sent))
    × ((status ≡ pos 1) ↔ Enters silent toy_info.pgm_enable 30 [])
    × ((status ≡ pos 1) ⊎ (status ≡ pos 0))
programmer_enable_pgm_mode-Enters_example = programmer_enable_pgm_mode-Enters silent toy_info []
