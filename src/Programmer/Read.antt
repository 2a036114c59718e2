-- ===== src/Programmer/Read.antt =====
-- programmer.c: reading the microcontroller's memory into a buffer.
use bigblackhardware.Base.{
  ℕ, zero, suc, ◌+◌, ◌^◌, Option, none, some, List, ltb, if◌then◌else◌, ◌>>=◌, ℤ, negsuc, negative,
  i16, u8, u16, u32, get_or, write?,
}
use bigblackhardware.Parser.{create_memory_cmd}
use bigblackhardware.Payload.{
  memory_flash, memory_eeprom, memory_err, AvrReadMemData, AvrMcuInfo, Pattern,
}
use bigblackhardware.Programmer.{Device, programmer_write_raw_cmd}

-- The buffer may be written in part where the status is negative.
pub record ReadResult (D : Type 0) : Type 0 where
  pub status : ℤ
  pub buf : List ℕ
  pub device : D

module _ {D : Type 0} (dev : Device D) where
  -- One command, whose last byte of answer goes to buf[counter]; behind a failure the rest of the
  -- loop is left out.
  unfoldable pub read_byte :
      Pattern
      → (address counter : ℕ) → List ℕ
      → (List ℕ → D → Option (ReadResult D))
      → D
      → Option (ReadResult D)
  read_byte p address counter buf rest d = do
    cmd ← create_memory_cmd p.text p.len address 0
    let (status, res, d') = programmer_write_raw_cmd dev cmd d
    let go_on = (do buf' ← write? buf counter (get_or res 3 0); rest buf' d')
    if negative status then some (record { status = status; buf = buf; device = d' }) else go_on

  -- for(int i=0; i<bytes_to_read; i+=2), with an answer counter of eight bits. One round more than
  -- there are bytes is enough. Signed overflow of `i` is `none`.
  unfoldable pub read_flash_loop :
      (rounds : ℕ)
      → AvrMcuInfo
      → (bytes_to_read i address counter : ℕ) → List ℕ
      → D
      → Option (ReadResult D)
  read_flash_loop zero info n i address counter buf d = none
  read_flash_loop (suc rounds) info n i address counter buf d =
      let round =
        read_byte info.flash_read_hi address counter buf
          (λ buf1 d1.
            read_byte info.flash_read_lo address (u8 (counter + 1)) buf1
              (λ buf2 d2.
                let next =
                  read_flash_loop rounds info n (i + 2) (u32 (address + 1)) (u8 (counter + 2)) buf2
                    d2 in
                if ltb (i + 2) (2 ^ 31) then next else none)
              d1)
          d in
      if ltb i n then round else some (record { status = i16 n; buf = buf; device = d })

  -- The same with one command for each byte and an answer counter of sixteen bits.
  unfoldable pub read_eeprom_loop :
      (rounds : ℕ)
      → AvrMcuInfo
      → (bytes_to_read i address counter : ℕ) → List ℕ
      → D
      → Option (ReadResult D)
  read_eeprom_loop zero info n i address counter buf d = none
  read_eeprom_loop (suc rounds) info n i address counter buf d =
      let round =
        read_byte info.eeprom_read address counter buf
          (λ buf1 d1.
            let next =
              read_eeprom_loop rounds info n (i + 1) (u32 (address + 1)) (u16 (counter + 1)) buf1
                d1 in
            if ltb (i + 1) (2 ^ 31) then next else none)
          d in
      if ltb i n then round else some (record { status = i16 n; buf = buf; device = d })

  unfoldable pub read_flash_memory :
      Option AvrMcuInfo → AvrReadMemData → List ℕ → D → Option (ReadResult D)
  read_flash_memory mcu_info mem buf d = do
    info ← mcu_info
    read_flash_loop (suc mem.bytes_to_read) info mem.bytes_to_read 0 mem.start_address 0 buf d

  unfoldable pub read_eeprom_memory :
      Option AvrMcuInfo → AvrReadMemData → List ℕ → D → Option (ReadResult D)
  read_eeprom_memory mcu_info mem buf d = do
    info ← mcu_info
    read_eeprom_loop (suc mem.bytes_to_read) info mem.bytes_to_read 0 mem.start_address 0 buf d

  unfoldable pub programmer_read_memory :
      Option AvrMcuInfo → AvrReadMemData → List ℕ → D → Option (ReadResult D)
  programmer_read_memory mcu_info mem buf d = elim mem.mem_t [
    | memory_flash ↦ read_flash_memory mcu_info mem buf d
    | memory_eeprom ↦ read_eeprom_memory mcu_info mem buf d
    | memory_err ↦ some (record { status = negsuc 0; buf = buf; device = d })
  ]
