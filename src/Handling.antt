-- ===== src/Handling.antt =====
-- packet_handler.c, the connections: which are open, the set of handles to wait for, and closing.
-- The vendor's sockets are a parameter, as is the queue of a new connection.
pub mod Serve
pub mod Listen
pub mod ReadSet
mod Room
pub mod Queues
pub mod Sending
mod Answers
mod Frames
pub mod Requests
pub mod Replies
pub mod OneRound
pub mod Programs
pub mod Loads
pub mod Reads
pub mod Closes
pub mod ClosingRound
pub mod Session
pub mod Runs
pub mod Invariant
mod Closing
pub mod Rounds
pub mod Histories
pub mod Examples
pub mod FrameExamples
mod ReadExamples
mod CloseExamples
mod SessionExamples
mod RunExamples
use bigblackhardware.Base.{
  ℕ, ◌==◌, ltb, Bool, true, false, Option, none, some, List, [], ◌∷◌, if◌then◌else◌, ◌>>=◌, ℤ, pos,
  negsuc, negative, write?,
}
use bigblackhardware.Protocol.{PacketGroup, control_group, programmer_group, uart_group}
use bigblackhardware.Pool.{Pool, Got, pool_create, pool_get, pool_release}
use bigblackhardware.Controller.{Board}

-- The handle is `none` for HNDL_INACTIVE. `handed_queue` is no field of the struct: it is what the
-- queue functions reach where the value of out_queue is passed for the address of a queue.
pub record ConnectionInfo (Q : Type 0) : Type 0 where
  pub hndl : Option ℕ
  pub group : PacketGroup
  pub in_queue : Q
  pub out_queue : Q
  pub handed_queue : Q

abbrev pub Connections : Type 0 → Type 0
Connections Q = ℕ → ConnectionInfo Q

abbrev pub put_connection : {Q : Type 0} → ℕ → ConnectionInfo Q → Connections Q → Connections Q
put_connection ptr info conns = λ a. if a == ptr then info else conns a

-- The sockets' functions with their status. `select` is given its first argument and the set of
-- handles to read from, and says which of them are ready.
pub record Sockets (S : Type 0) : Type 0 where
  pub close : Option ℕ → S → ℤ × S
  pub select : ℕ → List ℕ → S → ℤ × List ℕ × S
  pub socket : S → ℤ × S
  pub bind : ℤ → S → ℤ × S
  pub listen : ℤ → S → ℤ × S
  pub accept : ℤ → S → ℤ × S
  pub set_nonblocking : ℤ → S → ℤ × S

-- `conn_info` has an entry for each group, `connections_queue` passes new connections on, and
-- `packet` is the variable of the handling task. `queue` of the board's packets is the queue
-- that the handler of a packet is given.
pub record Server (Q D S : Type 0) : Type 0 where
  pub board : Board Q D
  pub conns : Connections Q
  pub connections_pool : Pool (Connections Q)
  pub conn_info : List (Option ℕ)
  pub connections_queue : Q
  pub packet : Option ℕ
  pub sockets : S
  pub handling_task : Bool

abbrev pub group_index : PacketGroup → ℕ
group_index control_group = 0
group_index programmer_group = 1
group_index uart_group = 2

-- `created` is what osi_MsgQCreate makes of a queue. Its status is only logged.
unfoldable pub conn_constructor : {Q : Type 0} → (created : Q) → ℕ → Connections Q → Connections Q
conn_constructor created ptr conns =
    put_connection ptr (record (conns ptr) { in_queue = created; out_queue = created; hndl = none })
      conns

-- `none` is FAILURE. The handle with SUCCESS is `info->hndl`, which the callers read next.
abbrev pub check_connection : {Q : Type 0} → Connections Q → Option ℕ → Option ℕ
check_connection conns none = none
check_connection conns (some ptr) = (conns ptr).hndl

-- One entry: FD_SET, and the larger handle.
abbrev pub add_fd : Option ℕ → ℕ × List ℕ → ℕ × List ℕ
add_fd none (max_fd, fds) = (max_fd, fds)
add_fd (some hndl) (max_fd, fds) = ((if ltb max_fd hndl then hndl else max_fd), hndl ∷ fds)

abbrev pub read_fd_loop : {Q : Type 0} → Connections Q → List (Option ℕ) → ℕ × List ℕ → ℕ × List ℕ
read_fd_loop conns [] acc = acc
read_fd_loop conns (info ∷ infos) acc =
    read_fd_loop conns infos (add_fd (check_connection conns info) acc)

unfoldable pub get_read_fd : {Q : Type 0} → Connections Q → List (Option ℕ) → ℕ × List ℕ
get_read_fd conns conn_info = read_fd_loop conns conn_info (0, [])

module _ {Q D S : Type 0} (host : Sockets S) where
  unfoldable pub disable_connection : ℕ → Server Q D S → ℤ × Server Q D S
  disable_connection ptr srv =
      let info = srv.conns ptr in
      let (status, s1) = host.close info.hndl srv.sockets in
      let srv1 = record srv { sockets = s1 } in
      if negative status then (status, srv1) else (
        status,
        record srv1 { conns = put_connection ptr (record info { hndl = none }) srv.conns },
      )

  -- `packet` is NULL or not. A connection whose socket cannot be closed stays out of its pool.
  unfoldable pub close_conn : ℕ → Option ℕ → Server Q D S → Option (ℤ × Server Q D S)
  close_conn ptr packet srv = do
    conn_info ← write? srv.conn_info (group_index (srv.conns ptr).group) none
    let (status, srv1) = disable_connection ptr (record srv { conn_info = conn_info })
    let release = (do
      (released, pool) ← pool_release ptr srv1.connections_pool
      some (released, record srv1 { connections_pool = pool }))
    if negative status
        then some (status, srv1)
        else elim packet [ none ↦ some (status, srv1) | some p ↦ release ]
