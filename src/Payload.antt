-- ===== src/Payload.antt =====
-- The payloads of the programmer packets, and the check of an answer (programmer_parser.c). A read
-- or a write out of bounds is `none`, but for the terminators of get_mcu_info, which are part
-- of its result: its caller goes on only where they are tolerated.
pub mod Mcu
pub mod Memory
pub mod Examples
use bigblackhardware.Base.{
  ℕ, zero, suc, ◌+◌, ◌-◌, ◌^◌, Bool, not, Option, none, some, List, [], ◌∷◌, ◌++◌, ◌==◌, ltb,
  if◌then◌else◌, ◌>>=◌, ℤ, pos, negsuc, u8, u32, shl, bit_or, get_elem?, get_or, set, length, drop,
  read?, replicate,
}
use bigblackhardware.Packet.{Packet}

pub data AvrMemoryType : Type 0 where
  memory_flash memory_eeprom memory_err : AvrMemoryType

unfoldable pub get_memory_type : ℕ → AvrMemoryType
get_memory_type b =
    if b == 0x00 then memory_flash else if b == 0x01 then memory_eeprom else memory_err

pub record AvrReadMemData : Type 0 where
  pub start_address : ℕ
  pub bytes_to_read : ℕ
  pub mem_t : AvrMemoryType

-- `contents` is the block of `data_len` bytes that is allocated for the data.
pub record AvrProgMemData : Type 0 where
  pub start_address : ℕ
  pub memory_type : AvrMemoryType
  pub data_len : ℕ
  pub contents : List ℕ

-- (buf[i] << 24) | (buf[i+1] << 16) | (buf[i+2] << 8) | buf[i+3], stored as a _u32
unfoldable pub read_u32 : List ℕ → ℕ → Option ℕ
read_u32 buf i = do
  b0 ← get_elem? buf i
  b1 ← get_elem? buf (i + 1)
  b2 ← get_elem? buf (i + 2)
  b3 ← get_elem? buf (i + 3)
  some (u32 (bit_or (bit_or (bit_or (shl b0 24) (shl b1 16)) (shl b2 8)) b3))

abbrev pub prog_mem_fixed_size : ℕ
prog_mem_fixed_size = 5

abbrev pub read_mem_fixed_size : ℕ
read_mem_fixed_size = 9

-- data_len is a _u8 of a 32-bit difference.
unfoldable pub get_prog_mem_data : Packet → Option (ℤ × AvrProgMemData)
get_prog_mem_data packet = do
  let buf = packet.packet_data
  let len = packet.header.data_size
  address ← read_u32 buf 0
  type_byte ← get_elem? buf 4
  let data_len = u8 (u32 (len + 2 ^ 32 - prog_mem_fixed_size))
  contents ← read? data_len (drop prog_mem_fixed_size buf)
  some (
    pos 0,
    record {
      start_address = address;
      memory_type = get_memory_type type_byte;
      data_len = data_len;
      contents = contents;
    },
  )

-- The second component is `none` where the caller's structure is not written.
unfoldable pub get_read_mem_data : Packet → Option (ℤ × Option AvrReadMemData)
get_read_mem_data packet =
    if not (packet.header.data_size == read_mem_fixed_size) then some (negsuc 0, none) else do
      let buf = packet.packet_data
      type_byte ← get_elem? buf 0
      address ← read_u32 buf 1
      count ← read_u32 buf 5
      some (
        pos 0,
        some (record {
          start_address = address;
          bytes_to_read = count;
          mem_t = get_memory_type type_byte;
        }),
      )

-- Both arrays have AVR_CMD_SIZE bytes.
check_loop : ℕ → ℕ → List ℕ → List ℕ → ℤ
check_loop zero i cmd answer = pos 0
check_loop (suc rounds) i cmd answer =
    let rest = check_loop rounds (i + 1) cmd answer in
    if not (get_or answer i 0 == get_or cmd (i - 1) 0) then negsuc 0 else rest

unfoldable pub check_cmd_status : List ℕ → List ℕ → ℤ
unfolding check_loop
check_cmd_status cmd answer = check_loop 3 1 cmd answer

-- A pattern: its length and the block of that many characters and one more.
pub record Pattern : Type 0 where
  pub len : ℕ
  pub text : List ℕ

pub record AvrMcuInfo : Type 0 where
  pub flash_load_hi : Pattern
  pub flash_load_lo : Pattern
  pub flash_read_lo : Pattern
  pub flash_read_hi : Pattern
  pub flash_wait_ms : ℕ
  pub eeprom_write : Pattern
  pub eeprom_read : Pattern
  pub eeprom_wait_ms : ℕ
  pub pgm_enable : List ℕ

-- A terminator written outside the block of this size, at this index. The memory there belongs to
-- the heap; the model goes on as if nothing that the program reads was there.
pub record Stray : Type 0 where
  pub block_size : ℕ
  pub index : ℕ

-- for(i = 0; i < len; i++) pattern[i] = buf[k++];
copy_chars : ℕ → List ℕ → ℕ → ℕ → List ℕ → Option (List ℕ)
copy_chars zero buf k i block = some block
copy_chars (suc n) buf k i block = do
  c ← get_elem? buf k
  copy_chars n buf (k + 1) (i + 1) (set block i c)

-- A length and that many characters from index `k` on, and the index behind them.
unfoldable pub read_pattern : List ℕ → ℕ → Option (Pattern × ℕ)
unfolding copy_chars
read_pattern buf k = do
  len ← get_elem? buf k
  text ← copy_chars len buf (k + 1) 0 (replicate (suc len) 0)
  some (record { len = len; text = text }, k + 1 + len)

-- pattern[k] = '\0'
unfoldable pub terminate : ℕ → Pattern → List Stray → Pattern × List Stray
terminate k p strays =
    if ltb k (length p.text)
    then (record p { text = set p.text k 0 }, strays)
    else (p, strays ++ (record { block_size = length p.text; index = k } ∷ []))

-- The last terminator of the four flash patterns goes to flash_load_hi_pattern.
unfoldable pub get_mcu_info : Packet → Option (ℤ × AvrMcuInfo × List Stray)
get_mcu_info packet = do
  let buf = packet.packet_data
  (load_lo, k1) ← read_pattern buf 0
  let (load_lo', s1) = terminate k1 load_lo []
  (load_hi, k2) ← read_pattern buf k1
  let (load_hi', s2) = terminate k2 load_hi s1
  (read_lo, k3) ← read_pattern buf k2
  let (read_lo', s3) = terminate k3 read_lo s2
  (read_hi, k4) ← read_pattern buf k3
  let (load_hi'', s4) = terminate k4 load_hi' s3
  flash_wait ← get_elem? buf k4
  (write, k5) ← read_pattern buf (k4 + 1)
  let (write', s5) = terminate k5 write s4
  (read, k6) ← read_pattern buf k5
  let (read', s6) = terminate k6 read s5
  eeprom_wait ← get_elem? buf k6
  pgm_enable ← read? 4 (drop (k6 + 1) buf)
  some (
    pos 0,
    record {
      flash_load_hi = load_hi'';
      flash_load_lo = load_lo';
      flash_read_lo = read_lo';
      flash_read_hi = read_hi;
      flash_wait_ms = flash_wait;
      eeprom_write = write';
      eeprom_read = read';
      eeprom_wait_ms = eeprom_wait;
      pgm_enable = pgm_enable;
    },
    s6,
  )
