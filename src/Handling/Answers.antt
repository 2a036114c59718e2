-- ===== src/Handling/Answers.antt =====
-- A request that a handler answers: from the frame in the socket to the end of the visit.
use bigblackhardware.Base.{
  ℕ, ◌<◌, ◌≡◌, refl, ap, ◌∙◌, true, false, ◌==◌, some, List, [], ℤ, pos, get_elem?, length, arith,
}
use bigblackhardware.Protocol.{EnumAbi, type_code, close_connection}
use bigblackhardware.Packet.{Packet}
use bigblackhardware.Pool.{Pool, Got}
use bigblackhardware.Pool.Refines.{view, pool_get-take}
use bigblackhardware.PacketManager.{Heap, Os, Packets, store, get_packet_from_pool, release_packet}
use bigblackhardware.PacketManager.Pools.{IsPacketPool}
use bigblackhardware.PacketManager.Send.{IsPackets, Given, next_packet, pool_get-memory}
use bigblackhardware.Programmer.{Device}
use bigblackhardware.Transport.{Net, recv_packet}
use bigblackhardware.Controller.{Board, returned, restarted, process_packet}
use bigblackhardware.Handling.{ConnectionInfo, Sockets, Server}
use bigblackhardware.Handling.Room.{behind_next, room, release_packet-room}
use bigblackhardware.Handling.Serve.{
  went_on, rebooted, with_packets, set_handed_queue, dispatch, receive, serve, visit, fd_isset,
  fd_clr,
}
use bigblackhardware.Handling.Queues.{QueueLaws, deliver_none, set_handed_queue_self}
use bigblackhardware.Handling.Sending.{sending_loop-Sent}

-- The pool gives its next packet, and the heap is as before.
pub get_packet_from_pool-Given :
    {Q : Type 0} (os : Os Q) (s : Packets Q) (ptr : ℕ)
    → IsPackets s
    → next_packet os s ≡ some ptr
    → (got : Got Heap) × (get_packet_from_pool os s ≡ some got)
      × (got.item ≡ some ptr)
      × (got.memory ≡ s.heap)
      × Given os s (record s { pool = got.pool })
unfolding get_packet_from_pool
get_packet_from_pool-Given os s ptr v free =
    let fresh = os.packet_address s.pool.pool_size in
    let (got, taken, w, item, rest, _) = pool_get-take fresh s.pool s.heap v.pool in
    let (memory, plain) = pool_get-memory fresh s.pool s.heap got v.no_constructor taken in
    (
      got,
      taken,
      item ∙ free,
      memory,
      record { packets = record { pool = w; no_constructor = plain; heap = v.heap }; rest = rest },
    )

module _ {Q D S : Type 0} where
  -- The server when the request is processed: the packet at `ptr` is the one that was received.
  abbrev pub with_request : (ptr : ℕ) → Pool Heap → Packet → S → Server Q D S → Server Q D S
  with_request ptr pool packet s srv =
      record (with_packets
        (record (srv.board.packets) { pool = pool; heap = store ptr packet srv.board.packets.heap })
        srv) { packet = some ptr; sockets = s }

  -- The board that the handler of the request gets.
  abbrev pub request_board : (c : ℕ) → Server Q D S → Board Q D
  request_board c srv = record (srv.board) {
    packets = record (srv.board.packets) { queue = (srv.conns c).handed_queue };
  }

module _ {Q D S : Type 0} (os : Os Q) (dev : Device D) (net : Net S) (host : Sockets S)
    (abi : EnumAbi) (tries : ℕ) where
  dispatch-returned :
      (c ptr : ℕ) (packet : Packet) (srv : Server Q D S) (status : ℤ) (b : Board Q D)
      → (packet.header.type == type_code close_connection) ≡ false
      → process_packet os dev ptr (request_board c srv) ≡ some (returned status b)
      → dispatch os dev net host abi tries c ptr packet srv
        ≡ some (
            went_on status []
              (record srv { board = b; conns = set_handed_queue os c b.packets.queue srv.conns }))
  unfolding dispatch
  dispatch-returned c ptr packet srv status b other run = rw (other, run) refl

  dispatch-restarted :
      (c ptr : ℕ) (packet : Packet) (srv : Server Q D S) (b : Board Q D)
      → (packet.header.type == type_code close_connection) ≡ false
      → process_packet os dev ptr (request_board c srv) ≡ some (restarted b)
      → dispatch os dev net host abi tries c ptr packet srv ≡ some (rebooted b)
  unfolding dispatch
  dispatch-restarted c ptr packet srv b other run = rw (other, run) refl

  -- The entry `i` is the connection `c`, whose socket is ready and delivers a packet that the
  -- handler of its type is given.
  pub record Request (i c hndl ptr : ℕ) (fds : List ℕ) (srv : Server Q D S) (packet : Packet)
      (s : S) : Type 0 where
    pub entry : get_elem? srv.conn_info i ≡ some (some c)
    pub opened : (srv.conns c).hndl ≡ some hndl
    pub ready : fd_isset hndl fds ≡ true
    pub received :
        recv_packet net tries hndl abi (srv.board.packets.heap ptr) srv.sockets
        ≡ some (pos 0, packet, s)
    pub other : (packet.header.type == type_code close_connection) ≡ false

  -- The pool gives the request its packet.
  pub record Takes (ptr : ℕ) (srv : Server Q D S) (got : Got Heap) : Type 0 where
    pub taken : get_packet_from_pool os srv.board.packets ≡ some got
    pub item : got.item ≡ some ptr
    pub memory : got.memory ≡ srv.board.packets.heap

  module _ (i c hndl ptr : ℕ) (fds : List ℕ) (srv : Server Q D S) (packet : Packet) (s : S)
      (request : Request i c hndl ptr fds srv packet s) (got : Got Heap)
      (takes : Takes ptr srv got) where
    receive-returned :
        (status released : ℤ) (b : Board Q D) (p : Packets Q)
        → process_packet os dev ptr (request_board c (with_request ptr got.pool packet s srv))
          ≡ some (returned status b)
        → release_packet os ptr b.packets ≡ some (released, p)
        → receive os dev net host abi tries c hndl fds srv
          ≡ some (
              went_on released (fd_clr hndl fds) (
                with_packets p (record (with_request ptr got.pool packet s srv) {
                  board = b;
                  conns = set_handed_queue os c b.packets.queue srv.conns;
                })))
    unfolding receive
    receive-returned status released b p run release =
        let dispatched =
          dispatch-returned c ptr packet (with_request ptr got.pool packet s srv) status b
            request.other run in
        rw (takes.taken, takes.item, takes.memory, request.received, dispatched, release) refl

    receive-restarted :
        (b : Board Q D)
        → process_packet os dev ptr (request_board c (with_request ptr got.pool packet s srv))
          ≡ some (restarted b)
        → receive os dev net host abi tries c hndl fds srv ≡ some (rebooted b)
    unfolding receive
    receive-restarted b run =
        let dispatched =
          dispatch-restarted c ptr packet (with_request ptr got.pool packet s srv) b request.other
            run in
        rw (takes.taken, takes.item, takes.memory, request.received, dispatched) refl

    -- The handler returns and has taken packets of the pool, and the connection's own queue is empty then.
    pub record Replies (laws : QueueLaws os) (t : Board Q D) : Type 0 where
      pub pool : IsPacketPool t.packets.pool
      pub lent : t.packets.pool.free_items < t.packets.pool.pool_size
      pub nothing_queued : laws.items (os.spills t.packets.queue (srv.conns c).out_queue) ≡ []

    -- How the visit ends: what the handler has left, and nothing sent.
    pub record Left (laws : QueueLaws os) (t : Board Q D) (srv' : Server Q D S) : Type 0 where
      pub sockets : srv'.sockets ≡ s
      pub nothing_queued : laws.items (srv'.conns c).out_queue ≡ []
      pub handed : (srv'.conns c).handed_queue ≡ t.packets.queue
      pub handle : (srv'.conns c).hndl ≡ (srv.conns c).hndl
      pub kept : srv' ≡ record srv {
        board = record t { packets = srv'.board.packets };
        conns = srv'.conns;
        packet = srv'.packet;
        sockets = srv'.sockets;
      }
      pub room : room srv'.board.packets.pool ≡ room t.packets.pool
      pub rest : view srv'.board.packets.pool ≡ view t.packets.pool
      pub pool : IsPacketPool srv'.board.packets.pool
      pub heap : srv'.board.packets.heap ≡ t.packets.heap

    -- Nothing is sent: the queue that the handler writes to is not the one that is read.
    pub visit-returned :
        (rounds : ℕ) (laws : QueueLaws os) (status : ℤ) (t : Board Q D)
        → 0 < rounds
        → process_packet os dev ptr (request_board c (with_request ptr got.pool packet s srv))
          ≡ some (returned (pos 0) t)
        → Replies laws t
        → (ended : ℤ) × (srv' : Server Q D S) × (visit os dev net host abi tries rounds i status fds
              srv
            ≡ some (went_on ended (fd_clr hndl fds) srv'))
          × Left laws t srv'
    unfolding visit serve
    visit-returned rounds laws status t enough run replies =
        let (released, pool, release, w, fine, more, top) =
          release_packet-room os ptr t.packets replies.pool replies.lent in
        let received = receive-returned (pos 0) released t _ run release in
        let self = set_handed_queue_self os c t.packets.queue srv.conns in
        let srv1 =
          with_packets (record (t.packets) { pool = pool })
            (record (with_request ptr got.pool packet s srv) {
              board = t;
              conns = set_handed_queue os c t.packets.queue srv.conns;
            }) in
        let q : laws.items (srv1.conns c).out_queue ≡ [] =
          ap (λ (x : ConnectionInfo Q). laws.items x.out_queue) self ∙ replies.nothing_queued in
        let (ended, srv', loop, end) =
          sending_loop-Sent os dev net host abi tries laws rounds c hndl srv1 w (rw q tt)
            (omega (arith, ap length q)) in
        (
          ended,
          srv',
          rw (request.entry, request.opened, request.ready, received, fine, loop) refl,
          record {
            sockets = deliver_none net tries hndl t.packets.heap _ s srv'.sockets q end.delivered;
            nothing_queued = end.emptied;
            handed = (end.same c).2 ∙ ap (λ (x : ConnectionInfo Q). x.handed_queue) self;
            handle = (end.same c).0 ∙ ap (λ (x : ConnectionInfo Q). x.hndl) self;
            kept = end.kept;
            room = omega (arith, more, end.lost);
            rest = end.rest ∙ ap (behind_next os) top;
            pool = end.pool;
            heap = end.heap;
          },
        )

    pub visit-restarted :
        (rounds : ℕ) (status : ℤ) (b : Board Q D)
        → process_packet os dev ptr (request_board c (with_request ptr got.pool packet s srv))
          ≡ some (restarted b)
        → visit os dev net host abi tries rounds i status fds srv ≡ some (rebooted b)
    unfolding visit serve
    visit-restarted rounds status b run =
        rw (request.entry, request.opened, request.ready, receive-restarted b run) refl
