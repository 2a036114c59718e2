-- ===== src/Handling/Closes.antt =====
-- The frame that closes the control connection.
use bigblackhardware.Base.{
  ℕ, ◌-◌, ◌<◌, ◌≡◌, refl, ap, sym, ◌∙◌, true, false, ◌==◌, ==_iff, none, some, List, [], ◌∷◌, ℤ,
  pos, negative, get_elem?, length, arith,
}
use bigblackhardware.Protocol.{int_enums, type_code, close_connection, control_group}
use bigblackhardware.Packet.{Packet}
use bigblackhardware.Pool.{Pool, Got}
use bigblackhardware.Pool.Refines.{IsPool, view, put_item, pool_release-put, take_item-lent}
use bigblackhardware.PacketManager.{Heap, Os, Packets, release_packet}
use bigblackhardware.PacketManager.Pools.{lent-IsPacketPool}
use bigblackhardware.PacketManager.Send.{IsPackets, next_packet}
use bigblackhardware.Programmer.{Device}
use bigblackhardware.Transport.{Net, recv_packet}
use bigblackhardware.Handling.{
  Connections, put_connection, Sockets, Server, disable_connection, close_conn,
}
use bigblackhardware.Handling.Room.{room, take_item-room, pool_release-room, release_packet-room}
use bigblackhardware.Handling.Serve.{
  went_on, with_packets, dispatch, receive, serve, visit, fd_isset, fd_clr,
}
use bigblackhardware.Handling.Queues.{QueueLaws, deliver_none}
use bigblackhardware.Handling.Sending.{sending_loop-Sent}
use bigblackhardware.Handling.Answers.{Takes, with_request, get_packet_from_pool-Given}

-- The entry of the control group is free, the connection closed and back in its pool.
abbrev pub closed :
    {Q D S : Type 0} → (c : ℕ) → Pool (Connections Q) → S → Server Q D S → Server Q D S
closed c pool s srv = record srv {
  conn_info = none ∷ none ∷ none ∷ [];
  conns = put_connection c (record (srv.conns c) { hndl = none }) srv.conns;
  connections_pool = pool;
  sockets = s;
}

-- The connection `c` of the control group is the only one, its socket can be closed, and it is out of
-- its pool.
pub record CanClose {Q D S : Type 0} (host : Sockets S) (c hndl : ℕ) (srv : Server Q D S) (s s' : S)
    : Type 0 where
  pub control : srv.conn_info ≡ some c ∷ none ∷ none ∷ []
  pub group : (srv.conns c).group ≡ control_group
  pub opened : (srv.conns c).hndl ≡ some hndl
  pub status : ℤ
  pub closes : host.close (some hndl) s ≡ (status, s')
  pub fine : negative status ≡ false
  pub pool : IsPool srv.connections_pool
  pub lent : srv.connections_pool.free_items < srv.connections_pool.pool_size

close_conn-closed :
    {Q D S : Type 0} (host : Sockets S) (c hndl p : ℕ) (srv : Server Q D S) (s' : S)
    → CanClose host c hndl srv srv.sockets s'
    → (pool : Pool (Connections Q)) × (close_conn host c (some p) srv
        ≡ some (pos 0, closed c pool s' srv))
      × IsPool pool
      × (put_item c (view srv.connections_pool) ≡ some (view pool))
unfolding close_conn disable_connection
close_conn-closed host c hndl p srv s' can =
    let (status, pool, released, w, _, given) = pool_release-put c srv.connections_pool can.pool in
    let (ok, _) = pool_release-room c srv.connections_pool status pool can.pool can.lent released in
    (
      pool,
      rw (can.group, can.control, can.opened, can.closes, can.fine, can.fine, released, ok) refl,
      w,
      rw ok at given,
    )

module _ {Q D S : Type 0} (os : Os Q) (dev : Device D) (net : Net S) (host : Sockets S) (tries : ℕ)
    (laws : QueueLaws os) where
  -- What is left of the connection `c`: it is closed, in its pool, and has no entry. One packet fewer
  -- can be taken from the pool of packets than before.
  pub record Closed (c : ℕ) (srv : Server Q D S) (s' : S) (srv' : Server Q D S) : Type 0 where
    pub hndl : (srv'.conns c).hndl ≡ none
    pub connections_pool : IsPool srv'.connections_pool
    pub returned : put_item c (view srv.connections_pool) ≡ some (view srv'.connections_pool)
    pub sockets : srv'.sockets ≡ s'
    pub lost : room srv'.board.packets.pool ≡ room srv.board.packets.pool - 1
    pub device : srv'.board.device ≡ srv.board.device
    pub mcu_info : srv'.board.mcu_info ≡ srv.board.mcu_info

  closed_hndl :
      (c : ℕ) (pool : Pool (Connections Q)) (s : S) (srv : Server Q D S)
      → ((closed c pool s srv).conns c).hndl ≡ none
  closed_hndl c pool s srv = rw ((==_iff c c).1 refl) refl

  closed_queue :
      (c : ℕ) (pool : Pool (Connections Q)) (s : S) (srv : Server Q D S)
      → ((closed c pool s srv).conns c).out_queue ≡ (srv.conns c).out_queue
  closed_queue c pool s srv = rw ((==_iff c c).1 refl) refl

  dispatch-closed :
      (c ptr : ℕ) (packet : Packet) (srv srv1 : Server Q D S)
      → (packet.header.type == type_code close_connection) ≡ true
      → close_conn host c (some ptr) srv ≡ some (pos 0, srv1)
      → dispatch os dev net host int_enums tries c ptr packet srv ≡ some (went_on (pos 0) [] srv1)
  unfolding dispatch
  dispatch-closed c ptr packet srv srv1 type done = rw (type, done) refl

  receive-closed :
      (c hndl ptr : ℕ) (fds : List ℕ) (srv srv1 : Server Q D S) (status released : ℤ)
      (packet : Packet) (p : Packets Q) (s : S) (got : Got Heap)
      → Takes os dev net host int_enums tries ptr srv got
      → recv_packet net tries hndl int_enums (srv.board.packets.heap ptr) srv.sockets
        ≡ some (status, packet, s)
      → dispatch os dev net host int_enums tries c ptr packet
          (with_request ptr got.pool packet s srv)
        ≡ some (went_on (pos 0) [] srv1)
      → release_packet os ptr srv1.board.packets ≡ some (released, p)
      → receive os dev net host int_enums tries c hndl fds srv
        ≡ some (went_on released (fd_clr hndl fds) (with_packets p srv1))
  unfolding receive
  receive-closed c hndl ptr fds srv srv1 status released packet p s got takes received dispatched
        release =
      rw (takes.taken, takes.item, takes.memory, received, dispatched, release) refl

  pub visit-Closed :
      (rounds c hndl ptr : ℕ) (status received : ℤ) (fds : List ℕ) (srv : Server Q D S)
      (packet : Packet) (s s' : S)
      → 0 < rounds
      → fd_isset hndl fds ≡ true
      → IsPackets srv.board.packets
      → next_packet os srv.board.packets ≡ some ptr
      → laws.items (srv.conns c).out_queue ≡ []
      → CanClose host c hndl srv s s'
      → recv_packet net tries hndl int_enums (srv.board.packets.heap ptr) srv.sockets
        ≡ some (received, packet, s)
      → (packet.header.type == type_code close_connection) ≡ true
      → (ended : ℤ) × (srv' : Server Q D S) × (visit os dev net host int_enums tries rounds 0 status
            fds srv
          ≡ some (went_on ended (fd_clr hndl fds) srv'))
        × Closed c srv s' srv'
        × (srv'.conn_info ≡ none ∷ none ∷ none ∷ [])
        × (srv'.connections_queue ≡ srv.connections_queue)
  unfolding visit serve
  visit-Closed rounds c hndl ptr status received fds srv packet s s' enough ready v free idle can
        got_it type =
      let p = srv.board.packets in
      let (got, taken, item, memory, given) = get_packet_from_pool-Given os p ptr v free in
      let fresh = os.packet_address p.pool.pool_size in
      let lent = take_item-lent fresh p.pool got.pool ptr v.pool free given.rest in
      let fewer = take_item-room fresh p.pool got.pool ptr v.pool free given.rest in
      let srv1 = with_request ptr got.pool packet s srv in
      let (pool, closes, w, put) = close_conn-closed host c hndl ptr srv1 s' (record {
        control = can.control;
        group = can.group;
        opened = can.opened;
        status = can.status;
        closes = can.closes;
        fine = can.fine;
        pool = can.pool;
        lent = can.lent;
      }) in
      let srv2 = closed c pool s' srv1 in
      let u = lent-IsPacketPool got.pool given.packets.pool given.packets.no_constructor lent in
      let (released, packets, release, t, fine, more, _) =
        release_packet-room os ptr srv1.board.packets u lent in
      let srv3 = with_packets (record (srv1.board.packets) { pool = packets }) srv2 in
      let q : laws.items (srv3.conns c).out_queue ≡ [] = rw (closed_queue c pool s' srv1) idle in
      let received' =
        receive-closed c hndl ptr fds srv srv2 received released packet _ s got
          (record { taken = taken; item = item; memory = memory }) got_it
          (dispatch-closed c ptr packet srv1 srv2 type closes) release in
      let (ended, srv', loop, end) =
        sending_loop-Sent os dev net host int_enums tries laws rounds c hndl srv3 t (rw q tt)
          (omega (arith, ap length q)) in
      let entry : get_elem? srv.conn_info 0 ≡ some (some c) =
        ap (λ infos. get_elem? infos 0) can.control in
      (
        ended,
        srv',
        rw (entry, can.opened, ready, received', fine, loop) refl,
        record {
          hndl = (end.same c).0 ∙ closed_hndl c pool s' srv1;
          connections_pool = rw (ap (λ (x : Server Q D S). x.connections_pool) end.kept) w;
          returned = put ∙ ap (λ (x : Server Q D S). some (view x.connections_pool)) (sym end.kept);
          sockets =
              deliver_none net tries hndl srv3.board.packets.heap _ s' srv'.sockets q end.delivered;
          lost = omega (arith, end.lost, more, fewer);
          device = ap (λ (x : Server Q D S). x.board.device) end.kept;
          mcu_info = ap (λ (x : Server Q D S). x.board.mcu_info) end.kept;
        },
        ap (λ (x : Server Q D S). x.conn_info) end.kept,
        ap (λ (x : Server Q D S). x.connections_queue) end.kept,
      )
