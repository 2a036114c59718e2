-- ===== src/Handling/Rounds.antt =====
-- The handling task keeps the server well formed, round by round.
use bigblackhardware.Base.{
  ℕ, zero, suc, ◌+◌, ◌≡◌, refl, ◌==◌, Option, none, some, List, [], ℤ, negative, get_elem?, Holds,
  just, nothing, Holds-bind, Holds-any, Holds-if,
}
use bigblackhardware.Protocol.{EnumAbi, type_code, close_connection, control_group}
use bigblackhardware.Packet.{Packet}
use bigblackhardware.PacketManager.{Os, store}
use bigblackhardware.PacketManager.Pools.{get_packet_from_pool-IsPacketPool, release_packet-Sound}
use bigblackhardware.Programmer.{Device}
use bigblackhardware.Transport.{Net, recv_packet, send_frame}
use bigblackhardware.Controller.{Board, Outcome, returned, restarted}
use bigblackhardware.Controller.Pools.{Ends, at_return, process_packet-Ends}
use bigblackhardware.Handling.{Sockets, Server, get_read_fd}
use bigblackhardware.Handling.Serve.{
  positive, packets_groups_num, Served, went_on, rebooted, stored, with_packets, fd_isset,
  set_handed_queue, polled, sending_loop, serve, serve_entry, dispatch, receive, visit, visits,
  register, new_connection, handling_round,
}
use bigblackhardware.Handling.Closing.{
  write_entry, queue-Entries, handed-Entries, disable_connection-IsServer, close_conn-IsServer,
}
use bigblackhardware.Handling.Invariant.{
  Entry, control_entry, get_elem?-Entry, register-Entries, IsServer, IsServer-kept,
}

module _ {Q D S : Type 0} where
  -- A part of a round leaves a well-formed server, or restarts the board.
  pub data Serves : Served Q D S → Type 0 where
    goes_on :
        {status : ℤ} {fds : List ℕ} {srv : Server Q D S}
        → IsServer srv
        → Serves (went_on status fds srv)
    reboots : {b : Board Q D} → Serves (rebooted b)

-- What follows a part of a round, unless the board is restarted.
going_on :
    {Q D S : Type 0} (next : ℤ → List ℕ → Server Q D S → Option (Served Q D S))
    (served : Served Q D S)
    → Serves served
    → ((status : ℤ) (fds : List ℕ) (srv : Server Q D S)
        → IsServer srv
        → Holds Serves (next status fds srv))
    → Holds Serves (elim served [
      | went_on status fds srv ↦ next status fds srv
      | rebooted b ↦ some (rebooted b)
    ])
going_on next (went_on status fds srv) (goes_on v) h = h status fds srv v
going_on next (rebooted b) reboots h = just reboots

module _ {Q D S : Type 0} (os : Os Q) (dev : Device D) (net : Net S) (host : Sockets S)
    (abi : EnumAbi) (tries : ℕ) where
  sending_loop-IsServer :
      (rounds c hndl : ℕ) (srv : Server Q D S)
      → IsServer srv
      → Holds
          (λ (r : ℤ × Server Q D S). IsServer r.1)
          (sending_loop os dev net host abi tries rounds c hndl srv)
  unfolding sending_loop
  sending_loop-IsServer zero c hndl srv v = nothing
  sending_loop-IsServer (suc rounds) c hndl srv v =
      Holds-bind _ (get_packet_from_pool-IsPacketPool os srv.board.packets v.packets) (λ got w.
        let packets = record (srv.board.packets) { pool = got.pool; heap = got.memory } in
        let read = os.queue_read (srv.conns c).out_queue in
        let srv1 = polled c read.1 packets read.2 srv in
        let entries = queue-Entries c read.2 srv.conns srv.conn_info v.entries in
        Holds-if (negative read.0) (just (IsServer-kept v refl w entries)) (
          Holds-any (send_frame net tries hndl (packets.heap read.1) srv.sockets) _ (λ sent.
            Holds-bind _ (release_packet-Sound os read.1 packets w) (λ r u.
              sending_loop-IsServer rounds c hndl
                (record (with_packets r.1 srv1) { sockets = sent.1 })
                (IsServer-kept v refl u entries)))))

  -- Behind a handler.
  handled-Serves :
      (c : ℕ) (srv : Server Q D S) (outcome : Outcome Q D)
      → IsServer srv
      → Ends outcome
      → Holds Serves (elim outcome [
        | returned status b ↦ some (
            went_on status []
              (record srv { board = b; conns = set_handed_queue os c b.packets.queue srv.conns }))
        | restarted b ↦ some (rebooted b)
      ])
  handled-Serves c srv (returned status b) v (at_return w) = just (
      goes_on (
        IsServer-kept v refl w
          (handed-Entries os c b.packets.queue srv.conns srv.conn_info v.entries)))
  handled-Serves c srv (restarted b) v ends = just reboots

  dispatch-Serves :
      (c ptr : ℕ) (packet : Packet) (srv : Server Q D S)
      → IsServer srv
      → (srv.conns c).group ≡ control_group
      → Holds Serves (dispatch os dev net host abi tries c ptr packet srv)
  unfolding dispatch
  dispatch-Serves c ptr packet srv v g =
      let packets = record (srv.board.packets) { queue = (srv.conns c).handed_queue } in
      Holds-if (packet.header.type == type_code close_connection)
        (Holds-bind _ (close_conn-IsServer host c ptr srv v g) (λ r w. just (goes_on w)))
        (Holds-bind _
          (process_packet-Ends os dev ptr (record (srv.board) { packets = packets }) v.packets)
          (λ outcome ends. handled-Serves c srv outcome v ends))

  receive-Serves :
      (c hndl : ℕ) (fds : List ℕ) (srv : Server Q D S)
      → IsServer srv
      → (srv.conns c).group ≡ control_group
      → Holds Serves (receive os dev net host abi tries c hndl fds srv)
  unfolding receive
  receive-Serves c hndl fds srv v g =
      Holds-bind _ (get_packet_from_pool-IsPacketPool os srv.board.packets v.packets) (λ got w.
        Holds-any (stored got.item srv.packet) _ (λ ptr.
          Holds-any (recv_packet net tries hndl abi (got.memory ptr) srv.sockets) _ (λ r.
            let packets = record (srv.board.packets) {
              pool = got.pool;
              heap = store ptr r.1 got.memory;
            } in
            Holds-bind _
              (dispatch-Serves c ptr r.1
                (record (with_packets packets srv) { packet = some ptr; sockets = r.2 })
                (IsServer-kept v refl w v.entries) g)
              (λ served s. going_on _ served s (λ status set srv1 u.
                Holds-bind _ (release_packet-Sound os ptr srv1.board.packets u.packets)
                  (λ r2 t. just (goes_on (IsServer-kept u refl t u.entries))))))))

  serve-Serves :
      (rounds c : ℕ) (hndl : Option ℕ) (status : ℤ) (fds : List ℕ) (srv : Server Q D S)
      → IsServer srv
      → (srv.conns c).group ≡ control_group
      → Holds Serves (serve os dev net host abi tries rounds c hndl status fds srv)
  unfolding serve
  serve-Serves rounds c none status fds srv v g = just (goes_on v)
  serve-Serves rounds c (some hndl) status fds srv v g =
      Holds-bind _
        (Holds-if (fd_isset hndl fds) (receive-Serves c hndl fds srv v g) (just (goes_on v)))
        (λ served s. going_on _ served s (λ status1 fds1 srv1 u.
          Holds-if (negative status1) (just (goes_on u))
            (Holds-bind _ (sending_loop-IsServer rounds c hndl srv1 u) (λ r w. just (goes_on w)))))

  serve_entry-Serves :
      (rounds : ℕ) (info : Option ℕ) (status : ℤ) (fds : List ℕ) (srv : Server Q D S)
      → IsServer srv
      → Entry srv.conns info
      → Holds Serves (serve_entry os dev net host abi tries rounds info status fds srv)
  serve_entry-Serves rounds none status fds srv v e = just (goes_on v)
  serve_entry-Serves rounds (some c) status fds srv v (control_entry g) =
      serve-Serves rounds c _ status fds srv v g

  visits-Serves :
      (rounds from entries : ℕ) (status : ℤ) (fds : List ℕ) (srv : Server Q D S)
      → IsServer srv
      → Holds Serves (visits os dev net host abi tries rounds from entries status fds srv)
  unfolding visits visit
  visits-Serves rounds from zero status fds srv v = just (goes_on v)
  visits-Serves rounds from (suc entries) status fds srv v =
      Holds-bind _
        (Holds-bind _ (get_elem?-Entry srv.conns srv.conn_info from v.entries)
          (λ info e. serve_entry-Serves rounds info status fds srv v e))
        (λ served s.
          going_on _ served s
            (λ status1 fds1 srv1 u. visits-Serves rounds (from + 1) entries status1 fds1 srv1 u))

  register-IsServer :
      (control : Option ℕ) (c : ℕ) (srv : Server Q D S)
      → IsServer srv
      → Holds IsServer (register os dev net host abi tries control c srv)
  register-IsServer (some other) c srv v = just (disable_connection-IsServer host c srv v)
  register-IsServer none c srv v =
      Holds-bind _ (write_entry srv.conns srv.conn_info control_group (some c) v.entries refl)
        (λ infos e. just (IsServer-kept v refl v.packets (register-Entries c srv.conns infos e)))

  pub new_connection-IsServer :
      (srv : Server Q D S)
      → IsServer srv
      → Holds IsServer (new_connection os dev net host abi tries srv)
  unfolding new_connection
  new_connection-IsServer srv v =
      let read = os.queue_read srv.connections_queue in
      let srv1 = record srv { connections_queue = read.2 } in
      let w : IsServer srv1 = IsServer-kept v refl v.packets v.entries in
      Holds-any (get_elem? srv.conn_info 0) _
        (λ control. Holds-if (negative read.0) (just w) (register-IsServer control read.1 srv1 w))

  pub handling_round-Serves :
      (rounds : ℕ) (srv : Server Q D S)
      → IsServer srv
      → Holds Serves (handling_round os dev net host abi tries rounds srv)
  unfolding handling_round
  handling_round-Serves rounds srv v =
      let (max_fd, fds) = get_read_fd srv.conns srv.conn_info in
      let selected = host.select (max_fd + 1) fds srv.sockets in
      let srv1 = record srv { sockets = selected.2 } in
      let w : IsServer srv1 = IsServer-kept v refl v.packets v.entries in
      Holds-bind _
        (Holds-if (positive selected.0)
          (visits-Serves rounds 0 packets_groups_num selected.0 selected.1 srv1 w)
          (just (goes_on w)))
        (λ served s. going_on _ served s (λ status1 fds1 srv2 u.
          Holds-bind _ (new_connection-IsServer srv2 u) (λ srv3 t. just (goes_on t))))
