-- ===== src/Controller/Examples.antt =====
-- A run of controller.c on a board with an empty pool of two packets.
use bigblackhardware.Base.{ℕ, ◌≡◌, refl, none, some, List, []}
use bigblackhardware.Packet.{Packet}
use bigblackhardware.PacketManager.Examples.{list_os, blank, packets_with}
use bigblackhardware.Programmer.Examples.{silent, toy_info}
use bigblackhardware.Controller.{Board, process_packet}
use bigblackhardware.Controller.Handlers.{process_packet-handled}

abbrev board : Packet → Board (List ℕ) (List (List ℕ))
board p = record { packets = packets_with p; device = []; mcu_info = some toy_info }

-- The packet that starts the programmer, of type 0, has no defined result.
process_packet-handled_example : process_packet list_os silent 7 (board blank) ≡ none
process_packet-handled_example = process_packet-handled list_os silent 7 (board blank) refl
