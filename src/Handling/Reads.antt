-- ===== src/Handling/Reads.antt =====
-- The frame that reads memory, from the host's socket to the answer that is queued.
use bigblackhardware.Base.{ℕ, List, [], ◌∷◌}
use bigblackhardware.Packet.{Packet}
use bigblackhardware.Payload.{AvrReadMemData, get_memory_type}
use bigblackhardware.Payload.Memory.{u32_bytes}
use bigblackhardware.Handling.Frames.{Frames}

abbrev pub read_of : (address count type_byte : ℕ) → AvrReadMemData
read_of address count type_byte = record {
  start_address = address;
  bytes_to_read = count;
  mem_t = get_memory_type type_byte;
}

abbrev pub read_body : (address count type_byte : ℕ) → List ℕ
read_body address count type_byte = type_byte ∷ u32_bytes address (u32_bytes count [])
