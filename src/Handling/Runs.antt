-- ===== src/Handling/Runs.antt =====
-- Rounds of the handling task in a row, each with a frame that programs memory.
use bigblackhardware.Base.{
  ℕ, ◌^◌, ◌<◌, ◌≡◌, ◌≢◌, refl, false, none, some, Option, List, [], ◌∷◌, ℤ, pos, negative, length,
  if◌then◌else◌,
}
use bigblackhardware.Protocol.{int_enums, program_memory}
use bigblackhardware.Packet.Wire.{WireHeader}
use bigblackhardware.Payload.{AvrMcuInfo, AvrProgMemData}
use bigblackhardware.Payload.Memory.{u32_bytes}
use bigblackhardware.PacketManager.{Os}
use bigblackhardware.PacketManager.Send.{IsPackets, next_packet}
use bigblackhardware.Programmer.{Device}
use bigblackhardware.Programmer.Script.{programmed}
use bigblackhardware.Transport.{Net}
use bigblackhardware.Handling.{Sockets, Server}
use bigblackhardware.Handling.Serve.{Served, went_on, handling_round, fd_clr}
use bigblackhardware.Handling.Queues.{QueueLaws}
use bigblackhardware.Handling.Requests.{Arrives, second_packet}
use bigblackhardware.Handling.Programs.{Programs, acknowledged, abandoned, request_of}
use bigblackhardware.Handling.Session.{Reports}

-- Requests are carried out one after the other, up to the first one that fails.
pub programmed_all : {D : Type 0} → Device D → AvrMcuInfo → List AvrProgMemData → D → ℤ × D
programmed_all dev mcu [] d = (pos 0, d)
programmed_all dev mcu (r ∷ rs) d =
    let (status, d1) = programmed dev mcu r d in
    let rest = programmed_all dev mcu rs d1 in if negative status then (status, d1) else rest

-- Addresses are written to a queue in their order.
pub written : {Q : Type 0} → Os Q → List ℕ → Q → Q
written os [] q = q
written os (ptr ∷ ptrs) q = written os ptrs (os.queue_write ptr q).1

module _ {Q D S : Type 0} (os : Os Q) (dev : Device D) (net : Net S) (host : Sockets S) (tries : ℕ)
    (laws : QueueLaws os) where
  -- A round whose request is carried out goes on.
  pub went_on_after :
      (c hndl reply : ℕ) (ready : List ℕ) (srv : Server Q D S) (s : S) (status : ℤ) (d : D)
      (o : Option (Served Q D S))
      → negative status ≡ false
      → Programs os dev net host tries laws c hndl reply ready srv s status d o
      → (ended : ℤ) × (srv1 : Server Q D S) × (o ≡ some (went_on ended (fd_clr hndl ready) srv1))
  went_on_after c hndl reply ready srv s status d (some (went_on e f srv2)) fine
        (acknowledged {ended = ended} {srv' = srv'} good acked info) =
      (ended, srv', refl)
  went_on_after c hndl reply ready srv s status d o fine (abandoned bad device) = absurd cc

  module _ (rounds c hndl : ℕ) (mcu : AvrMcuInfo) where
    -- Rounds that have each received a request to program memory, and have gone on, with the packets
    -- of their answers.
    pub data Run : Server Q D S → List AvrProgMemData → List ℕ → Server Q D S → Type 0 where
      over : {srv : Server Q D S} → Run srv [] [] srv
      request :
          {srv srv1 srv' : Server Q D S} {rest : List AvrProgMemData} {replies : List ℕ}
          (ptr reply : ℕ) (status ended : ℤ) (ready fds : List ℕ) (w : WireHeader)
          (address type_byte : ℕ) (contents : List ℕ) (s0 s1 s : S)
          → Reports os dev net host tries laws hndl ready srv status s0
          → next_packet os srv.board.packets ≡ some ptr
          → second_packet os srv.board.packets ≡ some reply
          → reply ≢ ptr
          → address < 2 ^ 32
          → 0 < length contents
          → length contents < 256
          → Arrives net tries hndl w program_memory
              (u32_bytes address (type_byte ∷ contents))
              s0
              s1
              s
          → handling_round os dev net host int_enums tries rounds srv
            ≡ some (went_on ended fds srv1)
          → Run srv1 rest replies srv'
          → Run srv (request_of address type_byte contents ∷ rest) (reply ∷ replies) srv'

    -- The control connection is the only one, open, with nothing to send, and the info is loaded.
    pub record Idle (srv : Server Q D S) : Type 0 where
      pub control : srv.conn_info ≡ some c ∷ none ∷ none ∷ []
      pub opened : (srv.conns c).hndl ≡ some hndl
      pub no_connection : laws.items srv.connections_queue ≡ []
      pub nothing_queued : laws.items (srv.conns c).out_queue ≡ []
      pub packets : IsPackets srv.board.packets
      pub loaded : srv.board.mcu_info ≡ some mcu
