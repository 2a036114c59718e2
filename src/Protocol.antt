-- ===== src/Protocol.antt =====
-- protocol.h, the enumerations of packets.h, and the mappings of packets.c from a type byte on the
-- wire to a packet type.
use bigblackhardware.Base.{ℕ, ◌^◌, ◌-◌, ◌==◌, if◌then◌else◌}

-- How the compiler stores an enumeration: in one byte (the bare-metal ARM ABI, `-fshort-enums`)
-- or in an `unsigned int`. The build files in the repository leave this to the SDK's makefiles.
pub data EnumAbi : Type 0 where
  short_enums int_enums : EnumAbi

-- The value of an enumeration without negative members after `type = -1`.
abbrev pub minus_one : EnumAbi → ℕ
minus_one short_enums = 2 ^ 8 - 1
minus_one int_enums = 2 ^ 32 - 1

pub data PacketGroup : Type 0 where
  control_group programmer_group uart_group : PacketGroup

pub data PacketType : Type 0 where
  programmer_init programmer_stop uart_init uart_stop reset ack close_connection : PacketType
  network_configuration enable_encryption enable_sign encryption_config : PacketType
  sign_config observer_key error load_mcu_info program_memory read_memory memory : PacketType
  cmd uart_configuration uart_data : PacketType

-- The position of a member of the enumeration.
abbrev pub type_code : PacketType → ℕ
type_code programmer_init = 0
type_code programmer_stop = 1
type_code uart_init = 2
type_code uart_stop = 3
type_code reset = 4
type_code ack = 5
type_code close_connection = 6
type_code network_configuration = 7
type_code enable_encryption = 8
type_code enable_sign = 9
type_code encryption_config = 10
type_code sign_config = 11
type_code observer_key = 12
type_code error = 13
type_code load_mcu_info = 14
type_code program_memory = 15
type_code read_memory = 16
type_code memory = 17
type_code cmd = 18
type_code uart_configuration = 19
type_code uart_data = 20

abbrev pub start_frame_byte : ℕ
start_frame_byte = 0x1B

abbrev pub flags_field_offset : ℕ
flags_field_offset = 1

abbrev pub type_field_offset : ℕ
type_field_offset = 2

abbrev pub size_field_offset : ℕ
size_field_offset = 3

abbrev pub size_field_size : ℕ
size_field_size = 2

abbrev pub packet_header_size : ℕ
packet_header_size = 5

abbrev pub max_data_length : ℕ
max_data_length = 1029

abbrev pub compression_bit : ℕ
compression_bit = 0

abbrev pub encryption_bit : ℕ
encryption_bit = 1

abbrev pub sign_bit : ℕ
sign_bit = 2

abbrev pub control_packets_mask : ℕ
control_packets_mask = 0x10

abbrev pub programmer_packets_mask : ℕ
programmer_packets_mask = 0x20

abbrev pub uart_packets_mask : ℕ
uart_packets_mask = 0x30

unfoldable pub get_uart_packet_type : EnumAbi → ℕ → ℕ
get_uart_packet_type abi t =
    if t == 0x30
    then type_code uart_configuration
    else if t == 0x31
    then type_code uart_data
    else minus_one abi

unfoldable pub get_programmer_packet_type : EnumAbi → ℕ → ℕ
get_programmer_packet_type abi t =
    if t == 0x20
    then type_code load_mcu_info
    else if t == 0x21
    then type_code program_memory
    else if t == 0x22
    then type_code read_memory
    else if t == 0x23
    then type_code memory
    else if t == 0x24
    then type_code cmd
    else if t == 0x1D
    then type_code error
    else minus_one abi

unfoldable pub get_control_packet_type : EnumAbi → ℕ → ℕ
get_control_packet_type abi t =
    if t == 0x10
    then type_code programmer_init
    else if t == 0x11
    then type_code programmer_stop
    else if t == 0x12
    then type_code uart_init
    else if t == 0x13
    then type_code uart_stop
    else if t == 0x14
    then type_code reset
    else if t == 0x15
    then type_code ack
    else if t == 0x16
    then type_code close_connection
    else if t == 0x17
    then type_code network_configuration
    else if t == 0x1B
    then type_code enable_encryption
    else if t == 0x1C
    then type_code enable_sign
    else if t == 0x19
    then type_code encryption_config
    else if t == 0x1A
    then type_code sign_config
    else if t == 0x18
    then type_code observer_key
    else if t == 0x1D
    then type_code error
    else minus_one abi
