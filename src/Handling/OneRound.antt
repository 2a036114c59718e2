-- ===== src/Handling/OneRound.antt =====
-- One round of the handling task with one connection: select, the visit, and no new connection.
use bigblackhardware.Base.{
  ℕ, ◌+◌, ◌≡◌, refl, ap, ◌∙◌, true, none, some, List, [], ◌∷◌, ℤ, get_elem?,
}
use bigblackhardware.Protocol.{int_enums}
use bigblackhardware.PacketManager.{Os}
use bigblackhardware.Programmer.{Device}
use bigblackhardware.Transport.{Net}
use bigblackhardware.Controller.{Board}
use bigblackhardware.Handling.{Sockets, Server, get_read_fd}
use bigblackhardware.Handling.Serve.{
  went_on, rebooted, visit, new_connection, positive, handling_round,
}
use bigblackhardware.Handling.Queues.{QueueLaws}
use bigblackhardware.Handling.Requests.{CanServe}
use bigblackhardware.Handling.Replies.{Replied}

abbrev pub behind_select : {Q D S : Type 0} → S → Server Q D S → Server Q D S
behind_select s0 srv = record srv { sockets = s0 }

module _ {Q D S : Type 0} (os : Os Q) (dev : Device D) (net : Net S) (host : Sockets S) (tries : ℕ)
    (laws : QueueLaws os) where
  -- The control group has the only connection, select reports the handles of `ready`, and no
  -- connection waits to be registered.
  pub record Selects (c : ℕ) (ready : List ℕ) (srv : Server Q D S) (status : ℤ) (s0 : S)
      : Type 0 where
    pub some_ready : positive status ≡ true
    pub control : srv.conn_info ≡ some c ∷ none ∷ none ∷ []
    pub selected :
        let (max_fd, fds) = get_read_fd srv.conns srv.conn_info in
        host.select (max_fd + 1) fds srv.sockets ≡ (status, ready, s0)
    pub no_connection : laws.items srv.connections_queue ≡ []

  pub visit_null :
      (rounds i : ℕ) (status : ℤ) (fds : List ℕ) (srv : Server Q D S)
      → get_elem? srv.conn_info i ≡ some none
      → visit os dev net host int_enums tries rounds i status fds srv
        ≡ some (went_on status fds srv)
  unfolding visit
  visit_null rounds i status fds srv null = rw null refl

  -- Reading from the empty queue of new connections changes nothing else.
  abbrev pub polled_queue : Server Q D S → Server Q D S
  polled_queue srv = record srv { connections_queue = (os.queue_read srv.connections_queue).2 }

  new_connection-none :
      (c : ℕ) (srv : Server Q D S)
      → srv.conn_info ≡ some c ∷ none ∷ none ∷ []
      → laws.items srv.connections_queue ≡ []
      → new_connection os dev net host int_enums tries srv ≡ some (polled_queue srv)
  unfolding new_connection
  new_connection-none c srv control empty =
      let first : get_elem? srv.conn_info 0 ≡ some (some c) =
        ap (λ infos. get_elem? infos 0) control in
      rw (first, (laws.read_empty srv.connections_queue empty).0) refl

  polled_queue-Replied :
      (c answer : ℕ) (header body : List ℕ) (n : ℕ) (d : D) (s0 s : S) (srv srv' : Server Q D S)
      → laws.items srv.connections_queue ≡ []
      → Replied os dev net host tries laws c answer header body n d (behind_select s0 srv) s srv'
      → Replied os dev net host tries laws c answer header body n d srv s (polled_queue srv')
  polled_queue-Replied c answer header body n d s0 s srv srv' empty replied = record {
    frame = replied.frame;
    handed = replied.handed;
    sockets = replied.sockets;
    nothing_queued = replied.nothing_queued;
    handle = replied.handle;
    pool = replied.pool;
    rest = replied.rest;
    device = replied.device;
    lost = replied.lost;
    conn_info = replied.conn_info;
    connections_pool = replied.connections_pool;
    connections = λ e. (laws.read_empty srv'.connections_queue (replied.connections empty)).1;
  }

  pub handling_round-Replied :
      (rounds c answer : ℕ) (ready fds' : List ℕ) (srv srv' : Server Q D S) (status ended : ℤ)
      (s0 s : S) (header body : List ℕ) (n : ℕ) (d : D)
      → Selects c ready srv status s0
      → visit os dev net host int_enums tries rounds 0 status ready (behind_select s0 srv)
        ≡ some (went_on ended fds' srv')
      → Replied os dev net host tries laws c answer header body n d (behind_select s0 srv) s srv'
      → (handling_round os dev net host int_enums tries rounds srv
          ≡ some (went_on ended fds' (polled_queue srv')))
        × Replied os dev net host tries laws c answer header body n d srv s (polled_queue srv')
  unfolding handling_round
  handling_round-Replied rounds c answer ready fds' srv srv' status ended s0 s header body n d
        selects visited replied =
      let control = replied.conn_info ∙ selects.control in
      let null = λ (i : ℕ). ap (λ infos. get_elem? infos i) control in
      let empty = replied.connections selects.no_connection in
      (
        rw
            (
              selects.selected,
              selects.some_ready,
              visited,
              visit_null rounds 1 ended fds' srv' (null 1),
              visit_null rounds 2 ended fds' srv' (null 2),
              new_connection-none c srv' control empty,
            )
            refl,
        polled_queue-Replied c answer header body n d s0 s srv srv' selects.no_connection replied,
      )

  pub handling_round-rebooted :
      (rounds c : ℕ) (ready : List ℕ) (srv : Server Q D S) (status : ℤ) (s0 : S) (b : Board Q D)
      → Selects c ready srv status s0
      → visit os dev net host int_enums tries rounds 0 status ready (behind_select s0 srv)
        ≡ some (rebooted b)
      → handling_round os dev net host int_enums tries rounds srv ≡ some (rebooted b)
  unfolding handling_round
  handling_round-rebooted rounds c ready srv status s0 b selects visited =
      rw (selects.selected, selects.some_ready, visited) refl

  pub CanServe-behind_select :
      (i c hndl ptr reply : ℕ) (ready : List ℕ) (srv : Server Q D S) (s0 : S)
      → CanServe os laws i c hndl ptr reply ready srv
      → CanServe os laws i c hndl ptr reply ready (behind_select s0 srv)
  CanServe-behind_select i c hndl ptr reply ready srv s0 can = record {
    entry = can.entry;
    opened = can.opened;
    ready = can.ready;
    nothing_queued = can.nothing_queued;
    spared = can.spared;
    packets = can.packets;
    first = can.first;
    second = can.second;
  }
