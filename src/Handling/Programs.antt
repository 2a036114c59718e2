-- ===== src/Handling/Programs.antt =====
-- The frame that programs memory, from the host's socket to the microcontroller and its answer.
use bigblackhardware.Base.{ℕ, ◌≡◌, true, false, Option, some, List, ℤ, negative, length}
use bigblackhardware.Packet.{Packet}
use bigblackhardware.Payload.{AvrProgMemData, get_memory_type}
use bigblackhardware.PacketManager.{Os}
use bigblackhardware.Programmer.{Device}
use bigblackhardware.Transport.{Net}
use bigblackhardware.Controller.{Board}
use bigblackhardware.Handling.{Sockets, Server}
use bigblackhardware.Handling.Serve.{Served, went_on, rebooted, fd_clr}
use bigblackhardware.Handling.Queues.{QueueLaws}
use bigblackhardware.Handling.Replies.{Acknowledged}

-- What the payload of a frame with an address, a memory and some bytes asks for.
abbrev pub request_of : (address type_byte : ℕ) → List ℕ → AvrProgMemData
request_of address type_byte contents = record {
  start_address = address;
  memory_type = get_memory_type type_byte;
  data_len = length contents;
  contents = contents;
}

module _ {Q D S : Type 0} (os : Os Q) (dev : Device D) (net : Net S) (host : Sockets S) (tries : ℕ)
    (laws : QueueLaws os) where
  -- The microcontroller is programmed and the acknowledgement is written to the handed queue, or the
  -- board is restarted.
  pub data Programs (c hndl reply : ℕ) (fds : List ℕ) (srv : Server Q D S) (s : S) (status : ℤ)
      (d : D) : Option (Served Q D S) → Type 0 where
    acknowledged :
        {ended : ℤ} {srv' : Server Q D S}
        → negative status ≡ false
        → Acknowledged os dev net host tries laws c reply d srv s srv'
        → srv'.board.mcu_info ≡ srv.board.mcu_info
        → Programs c hndl reply fds srv s status d (some (went_on ended (fd_clr hndl fds) srv'))
    abandoned :
        {b : Board Q D}
        → negative status ≡ true
        → b.device ≡ d
        → Programs c hndl reply fds srv s status d (some (rebooted b))
