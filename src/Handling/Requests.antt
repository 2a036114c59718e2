-- ===== src/Handling/Requests.antt =====
-- What a frame from the host leads to: it is received, and its handler gets the board.
use bigblackhardware.Base.{
  ℕ, ◌-◌, ◌<◌, ◌≤◌, ◌≡◌, ◌≢◌, refl, ap, ◌∙◌, true, false, ◌==◌, ==_iff, Option, some, List, [], ◌∷◌,
  ◌++◌, get_elem?, drop, length, length-append, length-drop, arith,
}
use bigblackhardware.Protocol.{
  int_enums, PacketType, type_code, close_connection, packet_header_size, start_frame_byte,
}
use bigblackhardware.Packet.{Packet, packet_data_size}
use bigblackhardware.Packet.Wire.{WireHeader, IsWire, bytes, command, data_size}
use bigblackhardware.Pool.{Got}
use bigblackhardware.Pool.Refines.{Store, view, take_item}
use bigblackhardware.PacketManager.{Heap, Os, Packets}
use bigblackhardware.PacketManager.Send.{IsPacket, IsPackets, next_packet, store-IsPacket}
use bigblackhardware.Programmer.{Device}
use bigblackhardware.Transport.{Net}
use bigblackhardware.Transport.Chunks.{Delivers, steps}
use bigblackhardware.Transport.Receive.{group_header, recv_packet-group_header}
use bigblackhardware.Controller.{Board}
use bigblackhardware.Handling.{Sockets, Server}
use bigblackhardware.Handling.Room.{behind_next, room, take_item-room}
use bigblackhardware.Handling.Serve.{fd_isset}
use bigblackhardware.Handling.Queues.{QueueLaws}
use bigblackhardware.Handling.Answers.{
  Request, Takes, with_request, request_board, get_packet_from_pool-Given,
}

pub other_address : (a b : ℕ) → a ≢ b → (a == b) ≡ false
other_address a b ne = ground arith

-- A queue that is empty stays so when something is written to the memory behind its handle.
abbrev pub Spares : {Q : Type 0} (os : Os Q) → QueueLaws os → Type 0
Spares {Q} os laws = (handed own : Q) → laws.items own ≡ [] → laws.items (os.spills handed own) ≡ []

-- The packet that the pool gives behind the next one.
abbrev pub second_packet : {Q : Type 0} (os : Os Q) → Packets Q → Option ℕ
second_packet os s =
    let rest : Store = behind_next os (view s.pool) in
    (take_item (os.packet_address rest.made) rest).0

module _ {Q D S : Type 0} (os : Os Q) (laws : QueueLaws os) where
  -- The connection `c` of the entry `i` is open, ready and has nothing to send. The packets are well
  -- formed, and the pool has one for the request and one for the answer. An empty queue
  -- stays empty when something is written behind its handle.
  pub record CanServe (i c hndl ptr reply : ℕ) (fds : List ℕ) (srv : Server Q D S) : Type 0 where
    pub entry : get_elem? srv.conn_info i ≡ some (some c)
    pub opened : (srv.conns c).hndl ≡ some hndl
    pub ready : fd_isset hndl fds ≡ true
    pub nothing_queued : laws.items (srv.conns c).out_queue ≡ []
    pub spared : Spares os laws
    pub packets : IsPackets srv.board.packets
    pub first : next_packet os srv.board.packets ≡ some ptr
    pub second : second_packet os srv.board.packets ≡ some reply

module _ {S : Type 0} (net : Net S) (tries : ℕ) where
  -- A frame arrives, its header in one chunk and its data in another.
  pub record Arrives (hndl : ℕ) (w : WireHeader) (type : PacketType) (body : List ℕ) (s0 s1 s : S)
      : Type 0 where
    pub head : Delivers net hndl s1 s0 packet_header_size (bytes w [] ∷ [])
    pub rest : Delivers net hndl s s1 (data_size w) (body ∷ [])
    pub head_rounds : steps head < tries
    pub rest_rounds : steps rest < tries
    pub wire : IsWire w
    pub start : w.start ≡ start_frame_byte
    pub known : command w.type_byte ≡ some type
    pub some_data : 0 < length body
    pub small : length body ≤ packet_data_size
    pub size : data_size w ≡ length body

-- The packet of such a frame, in front of the packet's old contents.
abbrev pub arrived : WireHeader → PacketType → List ℕ → Packet → Packet
arrived w type body old = record {
  header = group_header w type;
  raw_header = bytes w [];
  packet_data = body ++ drop (length body) old.packet_data;
}

pub arrived-IsPacket :
    (w : WireHeader) (type : PacketType) (body : List ℕ) (old : Packet)
    → IsPacket old
    → length body ≤ packet_data_size
    → IsPacket (arrived w type body old)
arrived-IsPacket w type body old v small = record {
  wire = w;
  raw = refl;
  size = omega (
    arith,
    v.size,
    length-append body (drop (length body) old.packet_data),
    length-drop (length body) old.packet_data,
  );
}

module _ {Q D S : Type 0} (os : Os Q) (dev : Device D) (net : Net S) (host : Sockets S) (tries : ℕ)
    (laws : QueueLaws os) where
  pub Arrives-Request :
      (i c hndl ptr reply : ℕ) (fds : List ℕ) (srv : Server Q D S) (w : WireHeader)
      (type : PacketType) (body : List ℕ) (s1 s : S)
      → CanServe os laws i c hndl ptr reply fds srv
      → Arrives net tries hndl w type body srv.sockets s1 s
      → (type_code type == type_code close_connection) ≡ false
      → Request os dev net host int_enums tries i c hndl ptr fds srv
          (arrived w type body (srv.board.packets.heap ptr))
          s
  Arrives-Request i c hndl ptr reply fds srv w type body s1 s can arrives other = record {
    entry = can.entry;
    opened = can.opened;
    ready = can.ready;
    received =
        let old = can.packets.heap ptr in
        recv_packet-group_header net tries hndl (srv.board.packets.heap ptr) w old.wire type body
          srv.sockets s1 s arrives.head arrives.rest arrives.head_rounds arrives.rest_rounds
          arrives.wire arrives.start (omega (arith, arrives.size, arrives.some_data))
          (omega (arith, arrives.size, arrives.small)) arrives.known old.raw old.size;
    other = other;
  }

  -- The board that the handler of a request works on.
  pub record Handles (c ptr reply : ℕ) (srv : Server Q D S) (packet : Packet) (b : Board Q D)
      : Type 0 where
    pub request : b.packets.heap ptr ≡ packet
    pub packets : IsPackets b.packets
    pub next : next_packet os b.packets ≡ some reply
    pub queue : b.packets.queue ≡ (srv.conns c).handed_queue
    pub other_packet : reply ≢ ptr → b.packets.heap reply ≡ srv.board.packets.heap reply
    pub device : b.device ≡ srv.board.device
    pub mcu_info : b.mcu_info ≡ srv.board.mcu_info
    pub rest : view b.packets.pool ≡ behind_next os (view srv.board.packets.pool)
    pub one_out : room b.packets.pool ≡ room srv.board.packets.pool - 1

  pub CanServe-Takes :
      (i c hndl ptr reply : ℕ) (fds : List ℕ) (srv : Server Q D S) (packet : Packet) (s : S)
      → CanServe os laws i c hndl ptr reply fds srv
      → IsPacket packet
      → (got : Got Heap) × Takes os dev net host int_enums tries ptr srv got
        × Handles c ptr reply srv packet (request_board c (with_request ptr got.pool packet s srv))
  CanServe-Takes i c hndl ptr reply fds srv packet s can v =
      let p = srv.board.packets in
      let (got, taken, item, memory, given) =
        get_packet_from_pool-Given os p ptr can.packets can.first in
      (
        got,
        record { taken = taken; item = item; memory = memory },
        record {
          request = rw ((==_iff ptr ptr).1 refl) refl;
          packets = record {
            pool = given.packets.pool;
            no_constructor = given.packets.no_constructor;
            heap = store-IsPacket p.heap ptr packet v can.packets.heap;
          };
          next =
              ap (λ (st : Store). (take_item (os.packet_address st.made) st).0) given.rest
              ∙ can.second;
          queue = refl;
          other_packet = λ ne. rw (other_address reply ptr ne) refl;
          device = refl;
          mcu_info = refl;
          rest = given.rest;
          one_out =
              take_item-room (os.packet_address p.pool.pool_size) p.pool got.pool ptr
                can.packets.pool can.first given.rest;
        },
      )
