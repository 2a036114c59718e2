-- ===== src/Handling/Serve.antt =====
-- packet_handler.c, the two tasks: accepting connections, and serving those that have data.
use bigblackhardware.Base.{
  ℕ, zero, suc, ◌+◌, ◌*◌, ◌==◌, ltb, Bool, true, false, Option, none, some, List, [], ◌∷◌,
  if◌then◌else◌, ◌>>=◌, ℤ, pos, negsuc, negative, get_elem?, write?,
}
use bigblackhardware.Protocol.{EnumAbi, type_code, close_connection, control_group}
use bigblackhardware.Packet.{Packet}
use bigblackhardware.PacketManager.{Os, Packets, store, get_packet_from_pool, release_packet}
use bigblackhardware.Programmer.{Device}
use bigblackhardware.Controller.{Board, returned, restarted, process_packet}
use bigblackhardware.Transport.{Net, recv_packet, send_frame}
use bigblackhardware.Handling.{
  Connections, put_connection, Sockets, Server, group_index, check_connection, get_read_fd,
  disable_connection, close_conn,
}

abbrev pub max_tcp_connections : ℕ
max_tcp_connections = 2

abbrev pub msg_queue_size : ℕ
msg_queue_size = 5

abbrev pub msg_pool_size : ℕ
msg_pool_size = 2 * msg_queue_size

abbrev pub packets_groups_num : ℕ
packets_groups_num = 3

-- status > 0
abbrev pub positive : ℤ → Bool
positive (pos n) = ltb 0 n
positive (negsuc n) = false

-- FD_ISSET and FD_CLR
abbrev pub fd_isset : ℕ → List ℕ → Bool
fd_isset hndl [] = false
fd_isset hndl (h ∷ fds) = if h == hndl then true else fd_isset hndl fds

abbrev pub fd_clr : ℕ → List ℕ → List ℕ
fd_clr hndl [] = []
fd_clr hndl (h ∷ fds) = let rest = fd_clr hndl fds in if h == hndl then rest else h ∷ rest

-- The status and the set of handles behind a part of a round, or a restart of the board.
pub data Served (Q D S : Type 0) : Type 0 where
  went_on : ℤ → List ℕ → Server Q D S → Served Q D S
  rebooted : Board Q D → Served Q D S

-- The variable keeps its value where the pool has no packet.
abbrev pub stored : Option ℕ → Option ℕ → Option ℕ
stored none old = old
stored (some ptr) old = some ptr

abbrev pub with_packets : {Q D S : Type 0} → Packets Q → Server Q D S → Server Q D S
with_packets packets srv = record srv { board = record (srv.board) { packets = packets } }

abbrev pub set_out_queue : {Q : Type 0} → ℕ → Q → Connections Q → Connections Q
set_out_queue c q conns = put_connection c (record (conns c) { out_queue = q }) conns

-- The memory that the value of out_queue leads to, where that is taken for the address of a queue,
-- has been written to.
abbrev pub set_handed_queue : {Q : Type 0} → Os Q → ℕ → Q → Connections Q → Connections Q
set_handed_queue os c q conns =
    let own = os.spills q (conns c).out_queue in
    put_connection c (record (conns c) { handed_queue = q; out_queue = own }) conns

-- Behind the two reads of the sending loop: the packet's variable holds what the queue gave.
abbrev pub polled : {Q D S : Type 0} → (c ptr : ℕ) → Packets Q → Q → Server Q D S → Server Q D S
polled c ptr packets q srv = record (with_packets packets srv) {
  conns = set_out_queue c q srv.conns;
  packet = some ptr;
}

-- `tries` bounds the rounds of one transfer, and `rounds` those of the sending loop.
module _ {Q D S : Type 0} (os : Os Q) (dev : Device D) (net : Net S) (host : Sockets S)
    (abi : EnumAbi) (tries : ℕ) where
  -- while(status >= 0), whose first test is the caller's. The packet from the pool is overwritten
  -- by the address that is read from the queue, which is not initialised where that fails.
  unfoldable pub sending_loop : (rounds c hndl : ℕ) → Server Q D S → Option (ℤ × Server Q D S)
  sending_loop zero c hndl srv = none
  sending_loop (suc rounds) c hndl srv = do
    got ← get_packet_from_pool os srv.board.packets
    let packets = record (srv.board.packets) { pool = got.pool; heap = got.memory }
    let (status, ptr, q) = os.queue_read (srv.conns c).out_queue
    let srv1 = polled c ptr packets q srv
    let send = (do
      (_, s1) ← send_frame net tries hndl (packets.heap ptr) srv.sockets
      (_, packets1) ← release_packet os ptr packets
      sending_loop rounds c hndl (record (with_packets packets1 srv1) { sockets = s1 }))
    if negative status then some (status, srv1) else send

  -- process_packet, or close_conn. process_packet takes the address of a queue and is given the
  -- value of info->out_queue; the sending loop reads the queue at &info->out_queue.
  unfoldable pub dispatch : (c ptr : ℕ) → Packet → Server Q D S → Option (Served Q D S)
  dispatch c ptr packet srv =
      let queue = (srv.conns c).handed_queue in
      let packets = record (srv.board.packets) { queue = queue } in
      let process = (do
        outcome ← process_packet os dev ptr (record (srv.board) { packets = packets })
        elim outcome [
          | returned status b ↦ some (
              went_on status []
                (record srv { board = b; conns = set_handed_queue os c b.packets.queue srv.conns }))
          | restarted b ↦ some (rebooted b)
        ]) in
      if packet.header.type == type_code close_connection
      then (do (status, srv1) ← close_conn host c (some ptr) srv; some (went_on status [] srv1))
      else process

  -- A handle with data: the statuses up to that of release_packet are dropped.
  unfoldable pub receive : (c hndl : ℕ) → List ℕ → Server Q D S → Option (Served Q D S)
  receive c hndl fds srv = do
    got ← get_packet_from_pool os srv.board.packets
    ptr ← stored got.item srv.packet
    (_, packet, s1) ← recv_packet net tries hndl abi (got.memory ptr) srv.sockets
    let packets = record (srv.board.packets) { pool = got.pool; heap = store ptr packet got.memory }
    served ←
        dispatch c ptr packet
          (record (with_packets packets srv) { packet = some ptr; sockets = s1 })
    elim served [
      | went_on _ _ srv1 ↦ (do
        (status, packets1) ← release_packet os ptr srv1.board.packets
        some (went_on status (fd_clr hndl fds) (with_packets packets1 srv1)))
      | rebooted b ↦ some (rebooted b)
    ]

  -- The sending loop where the status lets it start.
  abbrev pub send_queued : (rounds c hndl : ℕ) → ℤ → List ℕ → Server Q D S → Option (Served Q D S)
  send_queued rounds c hndl status fds srv =
      let send = (do (sent, srv1) ← sending_loop rounds c hndl srv; some (went_on sent fds srv1)) in
      if negative status then some (went_on status fds srv) else send

  -- A connection, where check_connection gives its handle.
  unfoldable pub serve :
      (rounds c : ℕ) → Option ℕ → ℤ → List ℕ → Server Q D S → Option (Served Q D S)
  serve rounds c none status fds srv = some (went_on status fds srv)
  serve rounds c (some hndl) status fds srv = do
    served ← (if fd_isset hndl fds then receive c hndl fds srv else some (went_on status fds srv))
    elim served [
      | went_on status1 fds1 srv1 ↦ send_queued rounds c hndl status1 fds1 srv1
      | rebooted b ↦ some (rebooted b)
    ]

  abbrev pub serve_entry :
      (rounds : ℕ) → Option ℕ → ℤ → List ℕ → Server Q D S → Option (Served Q D S)
  serve_entry rounds none status fds srv = some (went_on status fds srv)
  serve_entry rounds (some c) status fds srv =
      serve rounds c (check_connection srv.conns (some c)) status fds srv

  -- The body of the loop over the groups, for the entry `i`.
  unfoldable pub visit : (rounds i : ℕ) → ℤ → List ℕ → Server Q D S → Option (Served Q D S)
  visit rounds i status fds srv = do
    info ← get_elem? srv.conn_info i
    serve_entry rounds info status fds srv

  unfoldable pub visits :
      (rounds from entries : ℕ) → ℤ → List ℕ → Server Q D S → Option (Served Q D S)
  visits rounds from zero status fds srv = some (went_on status fds srv)
  visits rounds from (suc entries) status fds srv = do
    served ← visit rounds from status fds srv
    elim served [
      | went_on status1 fds1 srv1 ↦ visits rounds (from + 1) entries status1 fds1 srv1
      | rebooted b ↦ some (rebooted b)
    ]

  -- `control` is the entry of the control group: a second connection is closed, and stays out of
  -- its pool.
  abbrev pub register : (control : Option ℕ) → ℕ → Server Q D S → Option (Server Q D S)
  register (some other) c srv = some (disable_connection host c srv).1
  register none c srv = do
    conn_info ← write? srv.conn_info (group_index control_group) (some c)
    some (record srv {
      conns = put_connection c (record (srv.conns c) { group = control_group }) srv.conns;
      conn_info = conn_info;
    })

  -- A connection from the listening task.
  unfoldable pub new_connection : Server Q D S → Option (Server Q D S)
  new_connection srv = do
    let (status, c, q) = os.queue_read srv.connections_queue
    let srv1 = record srv { connections_queue = q }
    control ← get_elem? srv.conn_info (group_index control_group)
    if negative status then some srv1 else register control c srv1

  -- One round of the handling task.
  unfoldable pub handling_round : (rounds : ℕ) → Server Q D S → Option (Served Q D S)
  unfolding visits
  handling_round rounds srv = do
    let (max_fd, fds) = get_read_fd srv.conns srv.conn_info
    let (status, ready, s1) = host.select (max_fd + 1) fds srv.sockets
    let srv1 = record srv { sockets = s1 }
    served ←
        (if positive status
          then visits rounds 0 packets_groups_num status ready srv1
          else some (went_on status ready srv1))
    elim served [
      | went_on status1 fds1 srv2 ↦ (do
        srv3 ← new_connection srv2
        some (went_on status1 fds1 srv3))
      | rebooted b ↦ some (rebooted b)
    ]
