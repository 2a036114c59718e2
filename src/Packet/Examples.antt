-- ===== src/Packet/Examples.antt =====
-- Runs of packets.c on concrete frames.
use bigblackhardware.Base.{◌≡◌, ◌≢◌, refl, none, some, [], ◌∷◌, replicate, arith}
use bigblackhardware.Protocol.{
  short_enums, int_enums, control_group, programmer_group, uart_group, memory, program_memory, ack,
  type_code,
}
use bigblackhardware.Packet.{
  PacketHeader, Packet, packet_success, packet_wrong_type, parse_header, create_packet,
}
use bigblackhardware.Packet.Wire.{WireHeader, IsWire, bytes, rejected, accepted, outcome, header_of}
use bigblackhardware.Packet.Parse.{parse_header_int, parse_header_short, parse_header-ne-uart}
use bigblackhardware.Packet.Frame.{filled, read_back, create-parse, create_packet-oversize}

abbrev no_header : PacketHeader
no_header = record {
  type = 0;
  group = control_group;
  data_size = 0;
  compression = 0;
  encryption = 0;
  sign = 0;
}

-- A command that programs memory, 258 bytes long, compressed and signed.
abbrev program_frame : WireHeader
program_frame = record { start = 0x1B; flags = 5; type_byte = 0x21; size_high = 1; size_low = 2 }

-- UART configuration.
abbrev uart_frame : WireHeader
uart_frame = record { start = 0x1B; flags = 0; type_byte = 0x30; size_high = 0; size_low = 1 }

program_frame-IsWire : IsWire program_frame
program_frame-IsWire = ground arith

uart_frame-IsWire : IsWire uart_frame
uart_frame-IsWire = ground arith

program_frame-accepted :
    outcome (parse_header int_enums (bytes program_frame []) no_header)
    ≡ accepted (header_of program_frame (type_code program_memory) programmer_group)
program_frame-accepted = parse_header_int program_frame [] no_header program_frame-IsWire

parse_header_int_example :
    outcome (parse_header int_enums (bytes uart_frame (7 ∷ [])) no_header)
    ≡ rejected packet_wrong_type
parse_header_int_example = parse_header_int uart_frame (7 ∷ []) no_header uart_frame-IsWire

parse_header_short_example :
    outcome (parse_header short_enums (bytes uart_frame (7 ∷ [])) no_header)
    ≡ accepted (header_of uart_frame 255 control_group)
parse_header_short_example = parse_header_short uart_frame (7 ∷ []) no_header uart_frame-IsWire

parse_header-ne-uart_example : programmer_group ≢ uart_group
parse_header-ne-uart_example =
    parse_header-ne-uart int_enums program_frame [] no_header
      (header_of program_frame (type_code program_memory) programmer_group) program_frame-IsWire
      program_frame-accepted

abbrev old_packet : Packet
old_packet = record {
  header = no_header;
  raw_header = bytes program_frame [];
  packet_data = replicate 1024 0;
}

abbrev large_packet : Packet
large_packet = record old_packet { header = filled old_packet 1 0 1 1000 }

-- An acknowledgement reads back as a command that programs memory.
create-parse_example :
    (q : Packet) × (create_packet old_packet ack 0 0 0 (some (1 ∷ 2 ∷ [])) 2
      ≡ some (packet_success, q))
    × (outcome (parse_header int_enums q.raw_header no_header)
        ≡ accepted (read_back program_memory 0x21 0 0 0 2))
    × (q.packet_data ≡ 1 ∷ 2 ∷ replicate 1022 0)
create-parse_example =
    create-parse old_packet program_frame ack program_memory 0 0 0 (1 ∷ 2 ∷ []) 2 no_header refl
      (omega arith) refl refl (omega arith) (omega arith)

create_packet-oversize_example :
    create_packet old_packet memory 0 0 0 (some (replicate 1029 7)) 1029 ≡ none
create_packet-oversize_example =
    create_packet-oversize old_packet program_frame memory 0 0 0 (replicate 1029 7) 1029 refl refl
      (omega arith) (omega arith)
