-- ===== src/Handling/Listen.antt =====
-- packet_handler.c, the start of the tasks and the listening task.
use bigblackhardware.Base.{
  ℕ, zero, suc, true, false, Option, none, some, List, if◌then◌else◌, ◌>>=◌, ℤ, pos, negsuc,
  negative, i8, write?,
}
use bigblackhardware.Protocol.{control_group}
use bigblackhardware.Pool.{pool_create, pool_get}
use bigblackhardware.PacketManager.{Os, initialize_packets_pool}
use bigblackhardware.Handling.{put_connection, Sockets, Server, group_index, conn_constructor}
use bigblackhardware.Handling.Serve.{with_packets, max_tcp_connections, msg_pool_size}

-- The statuses of osi_MsgQCreate and of the two calls of osi_TaskCreate, the arrays that the
-- allocator returns for the two pools, and the new queue.
pub record Startup (Q : Type 0) : Type 0 where
  pub queue_status : ℤ
  pub handling_status : ℤ
  pub listening_status : ℤ
  pub connection_slots : List ℕ
  pub packet_slots : List ℕ
  pub created : Q

-- Each status is narrowed to an _i8 before it is tested.
unfoldable pub packet_handler_start : {Q D S : Type 0} → Startup Q → Server Q D S → ℤ × Server Q D S
packet_handler_start start srv =
    let srv1 = record srv {
      connections_pool =
          pool_create (some (conn_constructor start.created)) start.connection_slots
            max_tcp_connections;
      connections_queue = start.created;
    } in
    let (pooled, pool) = initialize_packets_pool start.packet_slots msg_pool_size in
    let srv2 = with_packets (record (srv1.board.packets) { pool = pool }) srv1 in
    let srv3 = record srv2 { handling_task = true } in
    if negative (i8 start.queue_status)
    then (i8 start.queue_status, srv1)
    else if negative pooled
    then (pooled, srv2)
    else if negative (i8 start.handling_status)
    then (i8 start.handling_status, srv2)
    else (i8 start.listening_status, srv3)

unfoldable pub packet_handler_stop : {Q D S : Type 0} → Server Q D S → ℤ × Server Q D S
packet_handler_stop srv = (pos 0, record srv { handling_task = false })

module _ {Q D S : Type 0} (os : Os Q) (host : Sockets S) where
  -- The listening task in front of its loop: an error ends the handling task, not this one.
  unfoldable pub open_listener : Server Q D S → ℤ × Server Q D S
  open_listener srv =
      let (sock, s1) = host.socket srv.sockets in
      let (bound, s2) = host.bind sock s1 in
      let (listening, s3) = host.listen sock s2 in
      let kept = if negative (i8 bound) then false else srv.handling_task in
      (
        sock,
        record srv {
          sockets = s3;
          handling_task = if negative (i8 listening) then false else kept;
        },
      )

  -- What accept returned. `fresh` is the allocator's address. Where the pool has no connection, its
  -- pointer is not initialised. A status of the queue is only logged.
  abbrev pub accepted : (conn : ℤ) (fresh : ℕ) → Server Q D S → Option (Server Q D S)
  accepted (negsuc n) fresh srv = some srv
  accepted (pos zero) fresh srv = some srv
  accepted (pos (suc n)) fresh srv = do
    got ← pool_get fresh true srv.connections_pool srv.conns
    c ← got.item
    let info = record (got.memory c) { hndl = some (suc n); group = control_group }
    some (record srv {
      connections_pool = got.pool;
      conns = put_connection c info got.memory;
      connections_queue = (os.queue_write c srv.connections_queue).1;
    })

  -- One round of its loop, without the sleep where no connection was accepted.
  unfoldable pub listening_round : (sock : ℤ) (fresh : ℕ) → Server Q D S → Option (Server Q D S)
  listening_round sock fresh srv =
      let (conn, s1) = host.accept sock srv.sockets in
      accepted conn fresh (record srv { sockets = (host.set_nonblocking conn s1).1 })

  -- The handling task in front of its loop: it waits for the first connection. A failure leaves
  -- the pointer that was read uninitialised.
  unfoldable pub first_connection : Server Q D S → Option (Server Q D S)
  first_connection srv = do
    let (status, c, q) = os.queue_read srv.connections_queue
    conn_info ← write? srv.conn_info (group_index (srv.conns c).group) (some c)
    if negative status
        then none
        else some (record srv { connections_queue = q; conn_info = conn_info })
