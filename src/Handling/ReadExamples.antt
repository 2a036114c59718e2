-- ===== src/Handling/ReadExamples.antt =====
-- A frame that reads memory, on a board with a pool of two packets, and the answer that is queued.
use bigblackhardware.Base.{ℕ, List, [], ◌∷◌, replicate}
use bigblackhardware.Packet.Wire.{WireHeader}
use bigblackhardware.Programmer.Examples.{echoing, toy_info}
use bigblackhardware.Programmer.Read.{ReadResult}
use bigblackhardware.Programmer.Readout.{readout}
use bigblackhardware.Transport.{Received, chunk}
use bigblackhardware.Handling.Reads.{read_of}

-- Three bytes of the flash memory from address 1 on.
abbrev read_frame : WireHeader
read_frame = record { start = 0x1B; flags = 0; type_byte = 0x22; size_high = 0; size_low = 9 }

abbrev read_body_events : List Received
read_body_events = chunk 0 (0 ∷ 0 ∷ 0 ∷ 1 ∷ 0 ∷ 0 ∷ 0 ∷ 3 ∷ []) ∷ []

abbrev read_events : List Received
read_events = chunk 0x1B (0 ∷ 0x22 ∷ 0 ∷ 9 ∷ []) ∷ read_body_events

abbrev three_read : ReadResult (List (List ℕ))
three_read = readout echoing toy_info (read_of 1 3 0) (replicate 1024 7) []
