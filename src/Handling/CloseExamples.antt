-- ===== src/Handling/CloseExamples.antt =====
-- A frame that closes the control connection while another connection waits.
use bigblackhardware.Base.{ℕ, refl, List, [], ◌∷◌, arith}
use bigblackhardware.Packet.Wire.{WireHeader, bytes}
use bigblackhardware.Transport.{Received, chunk}
use bigblackhardware.Transport.Chunks.{Delivers, complete, more}
use bigblackhardware.Transport.Examples.{scripted}
use bigblackhardware.Handling.{Server}
use bigblackhardware.Handling.FrameExamples.{board_with}

abbrev close_frame : WireHeader
close_frame = record { start = 0x1B; flags = 0; type_byte = 0x16; size_high = 0; size_low = 0 }

abbrev close_events : List Received
close_events = chunk 0x1B (0 ∷ 0x16 ∷ 0 ∷ 0 ∷ []) ∷ []

-- The connection at the address 2 waits.
abbrev one_waits : Server (List ℕ) (List (List ℕ)) (List Received)
one_waits = record (board_with close_events) { connections_queue = 2 ∷ [] }

close_frame_delivered : Delivers scripted 4 [] close_events 5 (bytes close_frame [] ∷ [])
close_frame_delivered = more 0x1B (0 ∷ 0x16 ∷ 0 ∷ 0 ∷ []) refl (omega arith) complete
