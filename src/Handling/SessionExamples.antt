-- ===== src/Handling/SessionExamples.antt =====
-- The info and then a program arrive at a board with a pool of four packets.
use bigblackhardware.Base.{ℕ, List, [], ◌∷◌, drop}
use bigblackhardware.Parser.Pattern.{print_all}
use bigblackhardware.Packet.Wire.{WireHeader}
use bigblackhardware.Payload.Mcu.{McuWire, layout}
use bigblackhardware.Programmer.Examples.{load_tokens}
use bigblackhardware.Transport.{Received, chunk}
use bigblackhardware.Handling.{Server}
use bigblackhardware.Handling.Programs.{Programs}
use bigblackhardware.Handling.FrameExamples.{board_with, program_events}

abbrev loader_mcu : McuWire
loader_mcu = record {
  load_lo = print_all load_tokens;
  load_hi = print_all load_tokens;
  read_lo = [];
  read_hi = [];
  flash_wait = 5;
  write = print_all load_tokens;
  read = [];
  eeprom_wait = 9;
  pgm_enable = 0xAC ∷ 0x53 ∷ 0 ∷ 0 ∷ [];
}

abbrev info_frame : WireHeader
info_frame = record { start = 0x1B; flags = 0; type_byte = 0x20; size_high = 0; size_low = 114 }

abbrev info_bytes : List ℕ
info_bytes = layout loader_mcu []

abbrev info_body : List Received
info_body = chunk 34 (drop 1 info_bytes) ∷ program_events

abbrev info_events : List Received
info_events = chunk 0x1B (0 ∷ 0x20 ∷ 0 ∷ 114 ∷ []) ∷ info_body

abbrev four_packets : Server (List ℕ) (List (List ℕ)) (List Received)
four_packets =
    let srv = board_with info_events in
    record srv {
      board = record (srv.board) {
        packets = record (srv.board.packets) {
          pool = record (srv.board.packets.pool) { slots = 0 ∷ 0 ∷ 0 ∷ 0 ∷ []; max_pool_size = 4 };
        };
      };
    }
