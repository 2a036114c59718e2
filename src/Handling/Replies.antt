-- ===== src/Handling/Replies.antt =====
-- The answer to a request: what is written to the queue that the handler is given.
use bigblackhardware.Base.{
  ℕ, ◌-◌, ◌<◌, ◌≡◌, ◌≢◌, refl, ap, ◌∙◌, ==_iff, some, List, [], ◌∷◌, ℤ, pos, get_or, take, arith,
}
use bigblackhardware.Protocol.{int_enums}
use bigblackhardware.Packet.{Packet}
use bigblackhardware.Pool.{Got}
use bigblackhardware.Pool.Refines.{view, take_item, take_item-lent}
use bigblackhardware.PacketManager.{Heap, Os, Packets}
use bigblackhardware.PacketManager.Send.{IsPackets, Given, Given-lent, packed, queued}
use bigblackhardware.PacketManager.Pools.{IsPacketPool, lent-IsPacketPool}
use bigblackhardware.Programmer.{Device}
use bigblackhardware.Transport.{Net}
use bigblackhardware.Controller.{Board, returned, process_packet}
use bigblackhardware.Handling.{Sockets, Server}
use bigblackhardware.Handling.Room.{behind_next, room, take_item-room}
use bigblackhardware.Handling.Serve.{went_on, visit, fd_clr}
use bigblackhardware.Handling.Queues.{QueueLaws}
use bigblackhardware.Handling.Answers.{Request, Takes, with_request, request_board, visit-returned}
use bigblackhardware.Handling.Frames.{Frames, answer_header, packed-Frames}
use bigblackhardware.Handling.Requests.{Handles}

module _ {Q D S : Type 0} (os : Os Q) (dev : Device D) (net : Net S) (host : Sockets S) (tries : ℕ)
    (laws : QueueLaws os) where
  -- The packet at `answer` holds a header and a body, and its address has been written to the queue
  -- that the handler was given. Nothing is sent: the sockets are as in `s`, and the connection's own
  -- queue is empty. The pool is left as where two packets have been taken from it, so that two fewer
  -- can be taken than before. The connection keeps its handle.
  pub record Replied (c answer : ℕ) (header body : List ℕ) (n : ℕ) (d : D) (srv : Server Q D S)
      (s : S) (srv' : Server Q D S) : Type 0 where
    pub frame : Frames (srv'.board.packets.heap answer) header n body
    pub handed : (srv'.conns c).handed_queue ≡ (os.queue_write answer (srv.conns c).handed_queue).1
    pub sockets : srv'.sockets ≡ s
    pub nothing_queued : laws.items (srv'.conns c).out_queue ≡ []
    pub handle : (srv'.conns c).hndl ≡ (srv.conns c).hndl
    pub device : srv'.board.device ≡ d
    pub pool : IsPacketPool srv'.board.packets.pool
    pub rest :
        view srv'.board.packets.pool ≡ behind_next os (behind_next os (view srv.board.packets.pool))
    pub lost : room srv'.board.packets.pool ≡ room srv.board.packets.pool - 2
    pub conn_info : srv'.conn_info ≡ srv.conn_info
    pub connections_pool : srv'.connections_pool ≡ srv.connections_pool
    pub connections : laws.items srv.connections_queue ≡ [] → laws.items srv'.connections_queue ≡ []

  -- An acknowledgement has the data byte 1, and the type byte of its packet's old header. The packets
  -- stay well formed.
  abbrev pub Acknowledged : (c reply : ℕ) → D → Server Q D S → S → Server Q D S → Type 0
  Acknowledged c reply d srv s srv' =
      IsPackets srv'.board.packets
      × Replied c reply (answer_header (get_or (srv.board.packets.heap reply).raw_header 2 0) 1)
          (1 ∷ []) 1 d srv s srv'

  -- A handler that has taken one packet and returns with one in the queue.
  pub visit-Replied :
      (rounds i c hndl ptr reply answer : ℕ) (status : ℤ) (fds : List ℕ) (srv : Server Q D S)
      (packet : Packet) (s : S) (got : Got Heap) (t : Board Q D) (header body : List ℕ) (n : ℕ)
      → let b = request_board c (with_request ptr got.pool packet s srv) in
        0 < rounds
        → ((q : Q) → laws.items (os.spills q (srv.conns c).out_queue) ≡ [])
        → Request os dev net host int_enums tries i c hndl ptr fds srv packet s
        → Takes os dev net host int_enums tries ptr srv got
        → Handles os dev net host tries laws c ptr reply srv packet b
        → process_packet os dev ptr b ≡ some (returned (pos 0) t)
        → IsPacketPool t.packets.pool
        → view t.packets.pool
          ≡ (take_item (os.packet_address b.packets.pool.pool_size) (view b.packets.pool)).1
        → t.packets.queue ≡ (os.queue_write answer b.packets.queue).1
        → Frames (t.packets.heap answer) header n body
        → (ended : ℤ) × (srv' : Server Q D S) × (visit os dev net host int_enums tries rounds i
              status fds srv
            ≡ some (went_on ended (fd_clr hndl fds) srv'))
          × Replied c answer header body n t.device srv s srv'
          × (srv'.board.mcu_info ≡ t.mcu_info)
          × (srv'.board.packets.heap ≡ t.packets.heap)
  visit-Replied rounds i c hndl ptr reply answer status fds srv packet s got t header body n enough
        idle request takes handles run pool given written frame =
      let b = request_board c (with_request ptr got.pool packet s srv) in
      let fresh = os.packet_address b.packets.pool.pool_size in
      let lent =
        take_item-lent fresh b.packets.pool t.packets.pool reply handles.packets.pool handles.next
          given in
      let (ended, srv', runs, left) =
        visit-returned os dev net host int_enums tries i c hndl ptr fds srv packet s request got
          takes rounds laws status t enough run
          (record { pool = pool; lent = lent; nothing_queued = idle t.packets.queue }) in
      let another =
        take_item-room fresh b.packets.pool t.packets.pool reply handles.packets.pool handles.next
          given in
      let kept = left.kept in
      (
        ended,
        srv',
        runs,
        record {
          frame =
              heap-Frames answer header body n srv'.board.packets.heap t.packets.heap left.heap
                frame;
          handed =
              left.handed ∙ written ∙ ap (λ (q : Q). (os.queue_write answer q).1) handles.queue;
          sockets = left.sockets;
          nothing_queued = left.nothing_queued;
          handle = left.handle;
          device = ap (λ (x : Server Q D S). x.board.device) kept;
          pool = left.pool;
          rest = left.rest ∙ given ∙ ap (behind_next os) handles.rest;
          lost = omega (arith, left.room, another, handles.one_out);
          conn_info = ap (λ (x : Server Q D S). x.conn_info) kept;
          connections_pool = ap (λ (x : Server Q D S). x.connections_pool) kept;
          connections = λ e. ap (λ (x : Server Q D S). laws.items x.connections_queue) kept ∙ e;
        },
        ap (λ (x : Server Q D S). x.board.mcu_info) kept,
        left.heap,
      )
    where
      heap-Frames :
          (answer : ℕ) (header body : List ℕ) (n : ℕ) (heap heap' : Heap)
          → heap ≡ heap'
          → Frames (heap' answer) header n body
          → Frames (heap answer) header n body
      heap-Frames answer header body n heap heap' same frame = rw same frame

  queued-reply :
      (p t : Packets Q) (v : IsPackets p) (reply : ℕ)
      → (pos 0, t.heap, t.queue) ≡ queued os p v (1 ∷ []) 1 (some reply)
      → (t.heap reply ≡ packed (p.heap reply) (v.heap reply) (1 ∷ []) 1)
        × (t.queue ≡ (os.queue_write reply p.queue).1)
  queued-reply p t v reply e = (
    ap (λ (r : ℤ × Heap × Q). r.1 reply) e ∙ rw ((==_iff reply reply).1 refl) refl,
    ap (λ (r : ℤ × Heap × Q). r.2) e,
  )

  -- What the queued acknowledgement holds.
  queued-Frames :
      (reply : ℕ) (p t : Packets Q) (v : IsPackets p) (old : Packet)
      → t.heap reply ≡ packed (p.heap reply) (v.heap reply) (1 ∷ []) 1
      → p.heap reply ≡ old
      → Frames (t.heap reply) (answer_header (get_or old.raw_header 2 0) 1) 1 (1 ∷ [])
  queued-Frames reply p t v old framed same =
      let frame = packed-Frames (p.heap reply) (v.heap reply) (1 ∷ []) 1 (omega arith) in
      record {
        raw_header =
            ap (λ (q : Packet). q.raw_header) framed
            ∙ frame.raw_header
            ∙ ap (λ (q : Packet). answer_header (get_or q.raw_header 2 0) 1) same;
        data_size = ap (λ (q : Packet). q.header.data_size) framed ∙ frame.data_size;
        packet_data = ap (λ (q : Packet). take 1 q.packet_data) framed ∙ frame.packet_data;
      }

  heap-IsPackets :
      (p t : Packets Q) → IsPacketPool p.pool → p.heap ≡ t.heap → IsPackets t → IsPackets p
  heap-IsPackets p t v same w = record {
    pool = v.pool;
    no_constructor = v.no_constructor;
    heap = rw same w.heap;
  }

  -- A handler that returns with an acknowledgement in the queue.
  pub visit-Acknowledged :
      (rounds i c hndl ptr reply : ℕ) (status : ℤ) (fds : List ℕ) (srv : Server Q D S)
      (packet : Packet) (s : S) (got : Got Heap) (t : Board Q D)
      → let b = request_board c (with_request ptr got.pool packet s srv) in
        0 < rounds
        → reply ≢ ptr
        → ((q : Q) → laws.items (os.spills q (srv.conns c).out_queue) ≡ [])
        → Request os dev net host int_enums tries i c hndl ptr fds srv packet s
        → Takes os dev net host int_enums tries ptr srv got
        → (handles : Handles os dev net host tries laws c ptr reply srv packet b)
        → process_packet os dev ptr b ≡ some (returned (pos 0) t)
        → Given os b.packets t.packets
        → (pos 0, t.packets.heap, t.packets.queue)
          ≡ queued os b.packets handles.packets (1 ∷ []) 1 (some reply)
        → (ended : ℤ) × (srv' : Server Q D S) × (visit os dev net host int_enums tries rounds i
              status fds srv
            ≡ some (went_on ended (fd_clr hndl fds) srv'))
          × Acknowledged c reply t.device srv s srv'
          × (srv'.board.mcu_info ≡ t.mcu_info)
  visit-Acknowledged rounds i c hndl ptr reply status fds srv packet s got t enough ne idle request
        takes handles run given e =
      let b = request_board c (with_request ptr got.pool packet s srv) in
      let (framed, written) = queued-reply b.packets t.packets handles.packets reply e in
      let header = answer_header (get_or (srv.board.packets.heap reply).raw_header 2 0) 1 in
      let lent = Given-lent os b.packets t.packets reply handles.packets.pool handles.next given in
      let (ended, srv', runs, replied, loaded, same_heap) =
        visit-Replied rounds i c hndl ptr reply reply status fds srv packet s got t header (1 ∷ [])
          1 enough idle request takes handles run
          (lent-IsPacketPool t.packets.pool given.packets.pool given.packets.no_constructor lent)
          given.rest written
          (queued-Frames reply b.packets t.packets handles.packets (srv.board.packets.heap reply)
            framed (handles.other_packet ne)) in
      (
        ended,
        srv',
        runs,
        (heap-IsPackets srv'.board.packets t.packets replied.pool same_heap given.packets, replied),
        loaded,
      )
