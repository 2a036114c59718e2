-- ===== src/Transport/Examples.antt =====
-- Runs of the transport functions on a socket that follows a script.
use bigblackhardware.Base.{◌≡◌, refl, some, List, [], ◌∷◌, pos, length, replicate, arith}
use bigblackhardware.Protocol.{int_enums, program_memory}
use bigblackhardware.Packet.Wire.{WireHeader, bytes}
use bigblackhardware.PacketManager.Examples.{blank}
use bigblackhardware.Transport.{Received, chunk, again, taken, Net, recv_nbytes, recv_packet}
use bigblackhardware.Transport.Chunks.{Delivers, complete, more, pause, recv_nbytes-overwritten}
use bigblackhardware.Transport.Receive.{group_header, recv_packet-group_header}

abbrev pub next_event : List Received → Received × List Received
next_event [] = (again, [])
next_event (r ∷ rest) = (r, rest)

abbrev pub scripted : Net (List Received)
scripted = record {
  recv = λ sock n s. next_event s;
  send = λ sock bytes s. (taken (length bytes), s);
  sleep = λ ms s. s;
}

abbrev two_chunks : List Received
two_chunks = again ∷ chunk 1 (2 ∷ []) ∷ chunk 3 [] ∷ []

two_chunks_delivered : Delivers scripted 4 [] two_chunks 3 ((1 ∷ 2 ∷ []) ∷ (3 ∷ []) ∷ [])
two_chunks_delivered =
    pause (omega arith) refl
      (more 1 (2 ∷ []) refl (omega arith) (more 3 [] refl (omega arith) complete))

-- The bytes 1, 2, 3 arrive, and 3, 2 are what is left of them.
recv_nbytes-overwritten_example :
    recv_nbytes scripted 5 4 3 (9 ∷ 9 ∷ 9 ∷ []) two_chunks ≡ some (pos 0, 3 ∷ 2 ∷ 9 ∷ [], [])
recv_nbytes-overwritten_example =
    recv_nbytes-overwritten scripted 5 4 3 ((1 ∷ 2 ∷ []) ∷ (3 ∷ []) ∷ []) (9 ∷ 9 ∷ 9 ∷ [])
      two_chunks [] two_chunks_delivered (unfold two_chunks_delivered in omega arith) (omega arith)

abbrev frame : WireHeader
frame = record { start = 0x1B; flags = 1; type_byte = 0x21; size_high = 0; size_low = 6 }

abbrev whole : List Received
whole = chunk 0x1B (1 ∷ 0x21 ∷ 0 ∷ 6 ∷ []) ∷ chunk 0 (0 ∷ 0 ∷ 1 ∷ 0 ∷ 5 ∷ []) ∷ []

head_delivered :
    Delivers scripted 4 (chunk 0 (0 ∷ 0 ∷ 1 ∷ 0 ∷ 5 ∷ []) ∷ []) whole 5 (bytes frame [] ∷ [])
head_delivered = more 0x1B (1 ∷ 0x21 ∷ 0 ∷ 6 ∷ []) refl (omega arith) complete

body_delivered :
    Delivers scripted 4 []
      (chunk 0 (0 ∷ 0 ∷ 1 ∷ 0 ∷ 5 ∷ []) ∷ [])
      6
      ((0 ∷ 0 ∷ 0 ∷ 1 ∷ 0 ∷ 5 ∷ []) ∷ [])
body_delivered = more 0 (0 ∷ 0 ∷ 1 ∷ 0 ∷ 5 ∷ []) refl (omega arith) complete

recv_packet-group_header_example :
    recv_packet scripted 2 4 int_enums blank whole
    ≡ some (
      pos 0,
      record {
        header = group_header frame program_memory;
        raw_header = bytes frame [];
        packet_data = 0 ∷ 0 ∷ 0 ∷ 1 ∷ 0 ∷ 5 ∷ replicate 1018 7;
      },
      [],
    )
recv_packet-group_header_example =
    recv_packet-group_header scripted 2 4 blank frame
      (record { start = 0; flags = 0; type_byte = 0x15; size_high = 0; size_low = 0 })
      program_memory (0 ∷ 0 ∷ 0 ∷ 1 ∷ 0 ∷ 5 ∷ []) whole (chunk 0 (0 ∷ 0 ∷ 1 ∷ 0 ∷ 5 ∷ []) ∷ []) []
      head_delivered body_delivered (unfold head_delivered in omega arith)
      (unfold body_delivered in omega arith) (ground arith) refl (omega arith) (omega arith) refl
      refl refl
