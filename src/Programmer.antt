-- ===== src/Programmer.antt =====
-- programmer.c, and the reset line of sys.c: commands to the microcontroller over SPI. The SPI
-- controller, the pins and the clock are a device. Arrays of AVR_CMD_SIZE bytes are lists of four.
pub mod Script
pub mod Read
pub mod ReadScript
pub mod Readout
pub mod Enable
pub mod Echo
pub mod Examples
use bigblackhardware.Base.{
  ℕ, zero, suc, ◌+◌, ◌^◌, ◌%◌, Bool, true, false, not, Option, none, some, List, [], ◌∷◌, ◌==◌, ltb,
  if◌then◌else◌, ◌>>=◌, ℤ, pos, negsuc, negative, i16, u8, u16, u32, get_elem?, get_or, write?,
}
use bigblackhardware.Parser.{create_memory_cmd, avr_cmd_size}
use bigblackhardware.Payload.{
  AvrMemoryType, memory_flash, memory_eeprom, memory_err, AvrReadMemData, AvrProgMemData,
  AvrMcuInfo, Pattern, check_cmd_status,
}

-- What the code asks of the hardware without an answer. `gpio` sets a pin to a level, and
-- `spi_config` resets the SPI controller and sets its rate.
pub data Action : Type 0 where
  sleep : ℕ → Action
  gpio : (pin level : ℕ) → Action
  spi_on spi_off : Action
  spi_config : (rate : ℕ) → Action

-- `transfer` sends the four bytes of a command and returns the four bytes that came back.
pub record Device (D : Type 0) : Type 0 where
  pub transfer : List ℕ → D → List ℕ × D
  pub act : Action → D → D

abbrev pub mcu_reset_on : ℕ
mcu_reset_on = 0

abbrev pub mcu_reset_off : ℕ
mcu_reset_off = 1

abbrev pub pgm_enable_retries : ℕ
pgm_enable_retries = 30

abbrev pub pgm_enable_delay_ms : ℕ
pgm_enable_delay_ms = 5

-- The previous record is freed. Its patterns are not, which the model does not see.
unfoldable pub programmer_set_mcu_info : AvrMcuInfo → Option AvrMcuInfo → Option AvrMcuInfo
programmer_set_mcu_info info mcu_info = some info

module _ {D : Type 0} (dev : Device D) where
  unfoldable pub sys_reset_mcu : ℕ → D → D
  sys_reset_mcu status d = dev.act (gpio 6 status) d

  unfoldable pub configure_spi : ℕ → D → D
  configure_spi rate d = dev.act (spi_config rate) (dev.act spi_off d)

  -- The status, the answer, and the device.
  unfoldable pub programmer_write_raw_cmd : List ℕ → D → ℤ × List ℕ × D
  programmer_write_raw_cmd cmd d =
      let (answer, d') = dev.transfer cmd d in (check_cmd_status cmd answer, answer, d')

  -- programmer_write_raw_cmd with its answer; the caller's status is the same on both paths.
  unfoldable pub programmer_write_cmd : List ℕ → D → ℤ × List ℕ × D
  programmer_write_cmd cmd d = programmer_write_raw_cmd cmd d

  -- One round that failed: the reset line is pulsed.
  unfoldable pub pulse_reset : D → D
  unfolding sys_reset_mcu
  pulse_reset d =
      let d1 = dev.act (sleep pgm_enable_delay_ms) d in
      let d2 = sys_reset_mcu mcu_reset_off d1 in
      let d3 = dev.act (sleep pgm_enable_delay_ms) d2 in
      let d4 = sys_reset_mcu mcu_reset_on d3 in dev.act (sleep pgm_enable_delay_ms) d4

  -- The loop over PGM_ENABLE_RETRIES, and `success`.
  unfoldable pub enable_loop : (rounds : ℕ) → List ℕ → D → ℕ × D
  enable_loop zero pgm_enable d = (0, d)
  enable_loop (suc rounds) pgm_enable d =
      let (status, res, d') = programmer_write_raw_cmd pgm_enable d in
      let rest = enable_loop rounds pgm_enable (pulse_reset d') in
      if get_or res 2 0 == get_or pgm_enable 1 0 then (1, d') else rest

  -- A NULL mcu_info is dereferenced only behind the start of the SPI and the reset.
  unfoldable pub programmer_enable_pgm_mode : Option AvrMcuInfo → D → Option (ℤ × D)
  unfolding sys_reset_mcu configure_spi
  programmer_enable_pgm_mode mcu_info d = do
    let d1 = dev.act (sleep 5) (dev.act spi_on (configure_spi 400000 d))
    let d2 = dev.act (sleep 50) (sys_reset_mcu mcu_reset_on d1)
    info ← mcu_info
    let (success, d3) = enable_loop pgm_enable_retries info.pgm_enable d2
    some (pos success, (if success == 0 then dev.act spi_off d3 else d3))

  unfoldable pub load_memory_cmd : List ℕ → ℕ → D → ℤ × D
  load_memory_cmd cmd delay d =
      let (status, answer, d') = programmer_write_raw_cmd cmd d in
      if negative status then (status, d') else (status, dev.act (sleep delay) d')

  -- Building a command and sending it; behind a failure the rest of the loop is left out.
  unfoldable pub load_byte :
      Pattern → (wait address data_byte : ℕ) → (ℤ → D → Option (ℤ × D)) → D → Option (ℤ × D)
  load_byte p wait address data_byte rest d = do
    cmd ← create_memory_cmd p.text p.len address data_byte
    let (status, d') = load_memory_cmd cmd wait d
    if negative status then some (status, d') else rest status d'

  -- for(_u8 i=0; i<data_len; i+=2). `status` is `none` as long as it is not initialised. One round
  -- more than there are bytes is enough.
  unfoldable pub flash_loop :
      (rounds : ℕ) → AvrMcuInfo → AvrProgMemData → (i address : ℕ) → Option ℤ → D → Option (ℤ × D)
  flash_loop zero info mem i address status d = none
  flash_loop (suc rounds) info mem i address status d =
      let round = (do
        lo ← get_elem? mem.contents i
        load_byte info.flash_load_lo info.flash_wait_ms address lo
            (λ s1 d1. do
              hi ← get_elem? mem.contents (i + 1)
              load_byte info.flash_load_hi info.flash_wait_ms address hi
                  (λ s2 d2.
                    flash_loop rounds info mem (u8 (i + 2)) (u32 (address + 1)) (some s2) d2)
                  d1)
            d) in
      if ltb i mem.data_len then round else (do s ← status; some (s, d))

  unfoldable pub program_flash_memory : Option AvrMcuInfo → AvrProgMemData → D → Option (ℤ × D)
  program_flash_memory mcu_info mem d =
      if not (mem.data_len % 2 == 0)
      then some (negsuc 0, d)
      else (do info ← mcu_info; flash_loop (suc mem.data_len) info mem 0 mem.start_address none d)

  unfoldable pub eeprom_loop :
      (rounds : ℕ) → AvrMcuInfo → AvrProgMemData → (i address : ℕ) → Option ℤ → D → Option (ℤ × D)
  eeprom_loop zero info mem i address status d = none
  eeprom_loop (suc rounds) info mem i address status d =
      let round = (do
        b ← get_elem? mem.contents i
        load_byte info.eeprom_write info.eeprom_wait_ms address b
            (λ s1 d1. eeprom_loop rounds info mem (i + 1) (u32 (address + 1)) (some s1) d1) d) in
      if ltb i mem.data_len then round else (do s ← status; some (s, d))

  unfoldable pub program_eeprom_memory : Option AvrMcuInfo → AvrProgMemData → D → Option (ℤ × D)
  program_eeprom_memory mcu_info mem d = do
    info ← mcu_info
    eeprom_loop (suc mem.data_len) info mem 0 mem.start_address none d

  unfoldable pub programmer_program_memory : Option AvrMcuInfo → AvrProgMemData → D → Option (ℤ × D)
  programmer_program_memory mcu_info mem d = elim mem.memory_type [
    | memory_flash ↦ program_flash_memory mcu_info mem d
    | memory_eeprom ↦ program_eeprom_memory mcu_info mem d
    | memory_err ↦ some (negsuc 0, d)
  ]
