-- ===== src/Handling/FrameExamples.antt =====
-- Frames of the host to a board with a pool of two packets, and the answers that are queued.
use bigblackhardware.Base.{ℕ, refl, true, none, some, List, [], ◌∷◌, pos, drop, arith}
use bigblackhardware.Protocol.{program_memory}
use bigblackhardware.Packet.Wire.{WireHeader}
use bigblackhardware.Payload.Memory.{u32_bytes}
use bigblackhardware.Payload.Mcu.{layout}
use bigblackhardware.Payload.Examples.{small_mcu}
use bigblackhardware.PacketManager.Examples.{blank, blank-IsPacket, packets_with}
use bigblackhardware.Programmer.{Device}
use bigblackhardware.Programmer.Examples.{toy_info}
use bigblackhardware.Transport.{Received, chunk}
use bigblackhardware.Transport.Chunks.{complete, more}
use bigblackhardware.Transport.Examples.{scripted}
use bigblackhardware.Handling.{put_connection, Sockets, Server, get_read_fd}
use bigblackhardware.Handling.OneRound.{Selects}
use bigblackhardware.Handling.Requests.{CanServe, Arrives}
use bigblackhardware.Handling.Programs.{Programs}
use bigblackhardware.Handling.Examples.{idle, fifo, fifo-QueueLaws, quiet, server}

abbrev pub board_with : List Received → Server (List ℕ) (List (List ℕ)) (List Received)
board_with events = record {
  board = record {
    packets = record (packets_with blank) { heap = λ a. blank };
    device = [];
    mcu_info = some toy_info;
  };
  conns = put_connection 1 (record idle { hndl = some 4 }) (λ a. idle);
  connections_pool = server.connections_pool;
  conn_info = some 1 ∷ none ∷ none ∷ [];
  connections_queue = [];
  packet = none;
  sockets = events;
  handling_task = true;
}

-- Two bytes of the flash memory at address 1.
abbrev pub two_bytes : WireHeader
two_bytes = record { start = 0x1B; flags = 0; type_byte = 0x21; size_high = 0; size_low = 7 }

abbrev pub two_bytes_body : List ℕ
two_bytes_body = u32_bytes 1 (0 ∷ 5 ∷ 6 ∷ [])

abbrev pub program_events : List Received
program_events = chunk 0x1B (0 ∷ 0x21 ∷ 0 ∷ 7 ∷ []) ∷ chunk 0 (0 ∷ 0 ∷ 1 ∷ 0 ∷ 5 ∷ 6 ∷ []) ∷ []

abbrev pub body_events : List Received
body_events = chunk 0 (0 ∷ 0 ∷ 1 ∷ 0 ∷ 5 ∷ 6 ∷ []) ∷ []

abbrev pub one_ready : Sockets (List Received)
one_ready = record quiet { select = λ n fds s. (pos 1, 4 ∷ [], s) }

pub board_with-Selects :
    (dev : Device (List (List ℕ))) (events : List Received)
    → Selects fifo dev scripted one_ready 2 fifo-QueueLaws 1
        (4 ∷ [])
        (board_with events)
        (pos 1)
        events
unfolding fifo-QueueLaws get_read_fd
board_with-Selects dev events = record {
  some_ready = refl;
  control = refl;
  selected = refl;
  no_connection = refl;
}

pub board_with-CanServe :
    (events : List Received)
    → CanServe fifo fifo-QueueLaws 0 1 4 100 101 (4 ∷ []) (board_with events)
unfolding fifo-QueueLaws
board_with-CanServe events = record {
  entry = refl;
  opened = refl;
  ready = refl;
  nothing_queued = refl;
  spared = λ handed own e. e;
  packets = record {
    pool = record { slots = refl; free = omega arith; size = omega arith; bound = omega arith };
    no_constructor = refl;
    heap = λ a. blank-IsPacket;
  };
  first = refl;
  second = refl;
}

pub two_bytes-Arrives :
    Arrives scripted 2 4 two_bytes program_memory two_bytes_body program_events body_events []
two_bytes-Arrives = record {
  head = more 0x1B (0 ∷ 0x21 ∷ 0 ∷ 7 ∷ []) refl (omega arith) complete;
  rest = more 0 (0 ∷ 0 ∷ 1 ∷ 0 ∷ 5 ∷ 6 ∷ []) refl (omega arith) complete;
  head_rounds = omega arith;
  rest_rounds = omega arith;
  wire = ground arith;
  start = refl;
  known = refl;
  some_data = omega arith;
  small = omega arith;
  size = refl;
}

abbrev mcu_frame : WireHeader
mcu_frame = record { start = 0x1B; flags = 0; type_byte = 0x20; size_high = 0; size_low = 20 }

abbrev mcu_bytes : List ℕ
mcu_bytes = layout small_mcu []

abbrev mcu_body_events : List Received
mcu_body_events = chunk 2 (drop 1 mcu_bytes) ∷ []

abbrev mcu_events : List Received
mcu_events = chunk 0x1B (0 ∷ 0x20 ∷ 0 ∷ 20 ∷ []) ∷ mcu_body_events
