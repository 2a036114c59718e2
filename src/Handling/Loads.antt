-- ===== src/Handling/Loads.antt =====
-- The frame with the MCU info, from the host's socket to the microcontroller and its answer.
use bigblackhardware.Base.{List}
use bigblackhardware.Packet.{Packet}
