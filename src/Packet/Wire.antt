-- ===== src/Packet/Wire.antt =====
-- Frames as protocol.h describes them: the fields of a header, and the table of commands.
use bigblackhardware.Base.{
  ℕ, ◌+◌, ◌*◌, ◌/◌, ◌%◌, ◌<◌, Option, none, some, List, ◌∷◌, negative, ◌==◌, ltb, if◌then◌else◌, ℤ,
  not,
}
use bigblackhardware.Protocol.{
  PacketGroup, control_group, programmer_group, PacketType, programmer_init, programmer_stop,
  uart_init, uart_stop, reset, ack, close_connection, network_configuration, enable_encryption,
  enable_sign, encryption_config, sign_config, observer_key, error, load_mcu_info, program_memory,
  read_memory, memory, cmd, type_code, start_frame_byte, max_data_length,
}
use bigblackhardware.Packet.{
  PacketHeader, packet_wrong_start_byte, packet_wrong_size, packet_wrong_type,
}

-- A header field by field.
pub record WireHeader : Type 0 where
  pub start : ℕ
  pub flags : ℕ
  pub type_byte : ℕ
  pub size_high : ℕ
  pub size_low : ℕ

pub record IsWire (w : WireHeader) : Type 0 where
  pub start : w.start < 256
  pub flags : w.flags < 256
  pub type_byte : w.type_byte < 256
  pub size_high : w.size_high < 256
  pub size_low : w.size_low < 256

-- The header's bytes, and whatever follows them in the buffer.
abbrev pub bytes : WireHeader → List ℕ → List ℕ
bytes w rest = w.start ∷ w.flags ∷ w.type_byte ∷ w.size_high ∷ w.size_low ∷ rest

-- The commands of protocol.h, control packets from 0x10 and programmer packets from 0x20.
abbrev pub command : ℕ → Option PacketType
command t =
    if t == 0x10
    then some programmer_init
    else if t == 0x11
    then some programmer_stop
    else if t == 0x12
    then some uart_init
    else if t == 0x13
    then some uart_stop
    else if t == 0x14
    then some reset
    else if t == 0x15
    then some ack
    else if t == 0x16
    then some close_connection
    else if t == 0x17
    then some network_configuration
    else if t == 0x18
    then some observer_key
    else if t == 0x19
    then some encryption_config
    else if t == 0x1A
    then some sign_config
    else if t == 0x1B
    then some enable_encryption
    else if t == 0x1C
    then some enable_sign
    else if t == 0x1D
    then some error
    else if t == 0x20
    then some load_mcu_info
    else if t == 0x21
    then some program_memory
    else if t == 0x22
    then some read_memory
    else if t == 0x23
    then some memory
    else if t == 0x24
    then some cmd
    else none

-- What a caller sees: a negative status, or success and a header.
pub data Parsed : Type 0 where
  rejected : ℤ → Parsed
  accepted : PacketHeader → Parsed

abbrev pub outcome : ℤ × PacketHeader → Parsed
outcome (status, h) = if negative status then rejected status else accepted h

abbrev pub data_size : WireHeader → ℕ
data_size w = w.size_high * 256 + w.size_low

abbrev pub header_of : WireHeader → ℕ → PacketGroup → PacketHeader
header_of w type group = record {
  type = type;
  group = group;
  data_size = data_size w;
  compression = w.flags % 2;
  encryption = w.flags / 2 % 2;
  sign = w.flags / 4 % 2;
}

-- The start byte is looked at first, then the size, then the type.
abbrev pub checked : WireHeader → Parsed → Parsed
checked w typed =
    if not (w.start == start_frame_byte)
    then rejected packet_wrong_start_byte
    else if ltb max_data_length (data_size w)
    then rejected packet_wrong_size
    else typed

abbrev pub by_command : WireHeader → Option PacketType → Parsed → Parsed
by_command w (some type) unknown = accepted (
    header_of w (type_code type) (if ltb w.type_byte 0x20 then control_group else programmer_group))
by_command w none unknown = unknown

-- A byte above the range of one group's commands, stored as -1 in one byte.
abbrev pub stray_type : WireHeader → Parsed
stray_type w =
    if not (w.type_byte / 16 % 2 == 0)
    then accepted (header_of w 255 control_group)
    else if not (w.type_byte / 32 % 2 == 0)
    then accepted (header_of w 255 programmer_group)
    else rejected packet_wrong_type
