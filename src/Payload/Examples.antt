-- ===== src/Payload/Examples.antt =====
-- Payloads of the programmer packets, read from concrete packets.
use bigblackhardware.Base.{ℕ, ◌≤◌, ◌≡◌, refl, some, List, [], ◌∷◌, pos, replicate, arith, All}
use bigblackhardware.Protocol.{programmer_group, type_code, load_mcu_info}
use bigblackhardware.Packet.{Packet}
use bigblackhardware.Payload.{Stray, get_memory_type, get_prog_mem_data, get_mcu_info}
use bigblackhardware.Payload.Memory.{get_prog_mem_data-bytes}
use bigblackhardware.Payload.Mcu.{McuWire, layout, info, strays, get_mcu_info-layout}

abbrev pub packet_of : ℕ → List ℕ → Packet
packet_of size buf = record {
  header = record {
    type = type_code load_mcu_info;
    group = programmer_group;
    data_size = size;
    compression = 0;
    encryption = 0;
    sign = 0;
  };
  raw_header = [];
  packet_data = buf;
}

-- Address 0x00010203 of the EEPROM, and a payload of 262 bytes: one byte of data is kept.
get_prog_mem_data-bytes_example :
    get_prog_mem_data (packet_of 262 (0 ∷ 1 ∷ 2 ∷ 3 ∷ 1 ∷ replicate 300 9))
    ≡ some (
      pos 0,
      record {
        start_address = 0x010203;
        memory_type = get_memory_type 1;
        data_len = 1;
        contents = 9 ∷ [];
      },
    )
get_prog_mem_data-bytes_example =
    get_prog_mem_data-bytes (packet_of 262 (0 ∷ 1 ∷ 2 ∷ 3 ∷ 1 ∷ replicate 300 9)) 0x010203 1
      (replicate 300 9) refl (omega arith) (omega arith) (omega arith)

abbrev pub small_mcu : McuWire
small_mcu = record {
  load_lo = b'1' ∷ b'0' ∷ [];
  load_hi = b'i' ∷ [];
  read_lo = b'0' ∷ b'x' ∷ b'1' ∷ [];
  read_hi = [];
  flash_wait = 5;
  write = b'1' ∷ [];
  read = b'0' ∷ [];
  eeprom_wait = 9;
  pgm_enable = 0xAC ∷ 0x53 ∷ 0 ∷ 0 ∷ [];
}

get_mcu_info-layout_example :
    (get_mcu_info (packet_of 22 (layout small_mcu (1 ∷ 2 ∷ [])))
      ≡ some (pos 0, info small_mcu, strays small_mcu))
    × All (λ (s : Stray). s.block_size ≤ s.index) (strays small_mcu)
get_mcu_info-layout_example =
    get_mcu_info-layout (packet_of 22 (layout small_mcu (1 ∷ 2 ∷ []))) small_mcu (1 ∷ 2 ∷ []) refl
      refl
