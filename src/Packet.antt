-- ===== src/Packet.antt =====
-- packets.c and packets.h: the header of a packet, and packets built for sending. A header on the
-- wire is a list of bytes; callers hand over at least five. Logging is left out.
pub mod Wire
pub mod Parse
pub mod Frame
mod Examples
use bigblackhardware.Base.{
  ℕ, zero, ◌+◌, ◌-◌, ◌*◌, Bool, Option, none, some, List, arith, ◌==◌, ltb, if◌then◌else◌, not,
  ◌&&◌, ◌>>=◌, ℤ, pos, negsuc, i16, negative, u8, u16, shl, shr, bit_and, bit_or, for_range, get_or,
  set, read?, copy?,
}
use bigblackhardware.Protocol.{
  EnumAbi, PacketGroup, control_group, programmer_group, uart_group, PacketType, start_frame_byte,
  flags_field_offset, type_field_offset, size_field_offset, size_field_size, max_data_length,
  compression_bit, encryption_bit, sign_bit, control_packets_mask, programmer_packets_mask,
  uart_packets_mask, get_control_packet_type, get_programmer_packet_type, get_uart_packet_type,
}

-- `type` is the stored value of the enumeration, which need not be one of its members.
pub record PacketHeader : Type 0 where
  pub type : ℕ
  pub group : PacketGroup
  pub data_size : ℕ
  pub compression : ℕ
  pub encryption : ℕ
  pub sign : ℕ

-- `raw_header` has 5 bytes and `packet_data` 1024.
pub record Packet : Type 0 where
  pub header : PacketHeader
  pub raw_header : List ℕ
  pub packet_data : List ℕ

abbrev pub packet_data_size : ℕ
packet_data_size = 1024

abbrev pub packet_success : ℤ
packet_success = pos 0

abbrev pub packet_wrong_start_byte : ℤ
packet_wrong_start_byte = negsuc 0

abbrev pub packet_wrong_size : ℤ
packet_wrong_size = negsuc 1

abbrev pub packet_wrong_type : ℤ
packet_wrong_type = negsuc 2

-- size |= header[3 + i] << 8 * (1 - i)
get_size_from_header : List ℕ → ℕ
unfolding for_range
get_size_from_header header =
    for_range size_field_size 0
      (λ i size. u16 (
        bit_or size
          (shl (get_or header (size_field_offset + i) 0) (8 * (size_field_size - 1 - i)))))
      0

get_type_from_header : List ℕ → ℕ
get_type_from_header header = get_or header type_field_offset 0

get_flag_bit : List ℕ → ℕ → ℕ
get_flag_bit header b = bit_and (shr (get_or header flags_field_offset 0) b) 0x01

set_flag_bit : List ℕ → ℕ → List ℕ
set_flag_bit header b =
    set header flags_field_offset (u8 (bit_or (get_or header flags_field_offset 0) (shl 1 b)))

-- The chain of tests on the type byte: the group that is stored and the type as an _i16.
select_type : EnumAbi → ℕ → Option (PacketGroup × ℤ)
unfolding get_control_packet_type get_programmer_packet_type get_uart_packet_type
select_type abi t =
    if not (bit_and t control_packets_mask == 0)
    then some (control_group, i16 (get_control_packet_type abi t))
    else if not (bit_and t programmer_packets_mask == 0)
    then some (programmer_group, i16 (get_programmer_packet_type abi t))
    else if not (bit_and t uart_packets_mask == 0)
    then some (uart_group, i16 (get_uart_packet_type abi t))
    else none

-- What follows the choice of a type. The group is stored before the type is known to be valid.
store_fields : List ℕ → ℕ → PacketHeader → Option (PacketGroup × ℤ) → ℤ × PacketHeader
unfolding get_flag_bit
store_fields header size h none = (packet_wrong_type, h)
store_fields header size h (some (group, negsuc n)) =
    (packet_wrong_type, record h { group = group })
store_fields header size h (some (group, pos type)) = (
  packet_success,
  record h {
    type = type;
    group = group;
    data_size = size;
    compression = get_flag_bit header compression_bit;
    encryption = get_flag_bit header encryption_bit;
    sign = get_flag_bit header sign_bit;
  },
)

unfoldable pub parse_header : EnumAbi → List ℕ → PacketHeader → ℤ × PacketHeader
unfolding get_size_from_header get_type_from_header select_type store_fields
parse_header abi header h =
    let size = get_size_from_header header in
    if not (get_or header 0 0 == start_frame_byte)
    then (packet_wrong_start_byte, h)
    else if ltb max_data_length size
    then (packet_wrong_size, h)
    else store_fields header size h (select_type abi (get_type_from_header header))

-- raw_header[3 + i] = (data_size >> 8 * (2 - i - 1)) & 0xFF
write_size : ℕ → List ℕ → List ℕ
unfolding for_range
write_size data_size raw_header =
    for_range size_field_size 0
      (λ i raw.
        set raw (size_field_offset + i)
          (bit_and (shr data_size (8 * (size_field_size - i - 1))) 0xFF))
      raw_header

set_flag_if : ℕ → ℕ → List ℕ → List ℕ
unfolding set_flag_bit
set_flag_if flag b raw = if flag == 0 then raw else set_flag_bit raw b

-- The type byte of the raw header is not written.
unfoldable pub update_header : Packet → ℤ × Packet
unfolding write_size set_flag_if
update_header packet =
    let header = packet.header in
    let raw = write_size header.data_size (set packet.raw_header 0 start_frame_byte) in
    let raw' = set raw flags_field_offset 0 in
    let flagged = set_flag_if header.sign sign_bit (
      set_flag_if header.encryption encryption_bit
        (set_flag_if header.compression compression_bit raw')) in
    if ltb max_data_length header.data_size
    then (packet_wrong_size, packet)
    else (packet_success, record packet { raw_header = flagged })

-- if(data != NULL && data_size != 0) memcpy(packet->packet_data, data, data_size);
copy_data : Option (List ℕ) → ℕ → Packet → Option Packet
copy_data none data_size packet = some packet
copy_data (some src) data_size packet = if data_size == 0 then some packet else do
  bytes ← read? data_size src
  body ← copy? packet.packet_data bytes
  some (record packet { packet_data = body })

-- The parameter `type` is not used, as in the source. `none` is a copy out of bounds.
unfoldable pub create_packet :
    Packet → PacketType → (comp sign enc : ℕ) → Option (List ℕ) → ℕ → Option (ℤ × Packet)
unfolding copy_data
create_packet packet type comp sign enc src data_size =
    let filled = record packet {
      header = record (packet.header) {
        compression = comp;
        sign = sign;
        encryption = enc;
        data_size = data_size;
      };
    } in
    let (status, updated) = update_header filled in
    if negative status
    then some (status, updated)
    else do copied ← copy_data src data_size updated; some (status, copied)
