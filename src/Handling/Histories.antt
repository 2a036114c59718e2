-- ===== src/Handling/Histories.antt =====
-- Histories of the listening task and the handling task, whose rounds alternate in any order.
use bigblackhardware.Base.{
  ℕ, zero, suc, ◌≡◌, ◌∙◌, refl, Bool, Bool-cases, true, false, none, some, List, [], ◌∷◌, ℤ, pos,
  negsuc, negative, i8, length, arith, inl, inr, Holds, just, nothing, Holds-bind, Holds-any,
  Holds-if, Holds-some,
}
use bigblackhardware.Protocol.{EnumAbi, control_group}
use bigblackhardware.Pool.{Pool, Got, pool_create, pool_get}
use bigblackhardware.Pool.Refines.{pool_get-take}
use bigblackhardware.PacketManager.{Os, initialize_packets_pool}
use bigblackhardware.Programmer.{Device}
use bigblackhardware.Transport.{Net}
use bigblackhardware.Handling.{Connections, Sockets, Server, conn_constructor}
use bigblackhardware.Handling.Serve.{went_on, handling_round, max_tcp_connections, msg_pool_size}
use bigblackhardware.Handling.Listen.{
  Startup, packet_handler_start, accepted, listening_round, first_connection,
}
use bigblackhardware.Handling.Invariant.{
  IsServer, IsServer-kept, Regroups, Regroups-Entries, put_connection-Regroups, pool_get-construct,
  construct-Regroups,
}
use bigblackhardware.Handling.Closing.{write_entry}
use bigblackhardware.Handling.Rounds.{Serves, goes_on, handling_round-Serves}

-- The memory of the connections behind a call of their pool.
got-Regroups :
    {Q : Type 0} (created : Q) (fresh : ℕ) (p : Pool (Connections Q)) (m : Connections Q)
    (r : Got (Connections Q))
    → p.obj_constructor ≡ some (conn_constructor created)
    → pool_get fresh true p m ≡ some r
    → Regroups m r.memory
got-Regroups created fresh p m r made e = elim (pool_get-construct fresh p m r e).0 [
  | inl same ↦ λ a. rw same (inl refl)
  | inr built ↦ rw (built, made) (construct-Regroups created fresh m)
]

module _ {Q D S : Type 0} (os : Os Q) (host : Sockets S) where
  accepted-IsServer :
      (conn : ℤ) (fresh : ℕ) (srv : Server Q D S)
      → IsServer srv
      → Holds IsServer (accepted os host conn fresh srv)
  accepted-IsServer (negsuc n) fresh srv v = just v
  accepted-IsServer (pos zero) fresh srv v = just v
  accepted-IsServer (pos (suc n)) fresh srv v =
      let (r, taken, w, _, _, _) =
        pool_get-take fresh srv.connections_pool srv.conns v.connections in
      let made = (pool_get-construct fresh srv.connections_pool srv.conns r taken).1 in
      let kept =
        got-Regroups v.created fresh srv.connections_pool srv.conns r v.constructor taken in
      rw taken (
        Holds-any r.item _ (λ c. just (record {
          packets = v.packets;
          connections = w;
          created = v.created;
          constructor = made ∙ v.constructor;
          entries =
              Regroups-Entries r.memory _ srv.conn_info
                (put_connection-Regroups c _ r.memory (inr refl))
                (Regroups-Entries srv.conns r.memory srv.conn_info kept v.entries);
        })))

  listening_round-IsServer :
      (sock : ℤ) (fresh : ℕ) (srv : Server Q D S)
      → IsServer srv
      → Holds IsServer (listening_round os host sock fresh srv)
  unfolding listening_round
  listening_round-IsServer sock fresh srv v =
      accepted-IsServer (host.accept sock srv.sockets).0 fresh _
        (IsServer-kept v refl v.packets v.entries)

  first_connection-IsServer :
      (srv : Server Q D S)
      → IsServer srv
      → (srv.conns (os.queue_read srv.connections_queue).1).group ≡ control_group
      → Holds IsServer (first_connection os host srv)
  unfolding first_connection
  first_connection-IsServer srv v g =
      let read = os.queue_read srv.connections_queue in
      Holds-bind _
        (write_entry srv.conns srv.conn_info (srv.conns read.1).group (some read.1) v.entries g)
        (λ infos e. Holds-if (negative read.0) nothing (
          just (
            IsServer-kept v refl v.packets (record {
              control = some read.1;
              entries = e;
              group = λ c same. let here : read.1 ≡ c = cc in rw here at g;
            }))))

-- The pools that the start creates.
started-IsServer :
    {Q D S : Type 0} (start : Startup Q) (task : Bool) (srv : Server Q D S)
    → length start.connection_slots ≡ max_tcp_connections
    → length start.packet_slots ≡ msg_pool_size
    → srv.conn_info ≡ none ∷ none ∷ none ∷ []
    → IsServer (record srv {
      board = record (srv.board) {
        packets = record (srv.board.packets) {
          pool = pool_create none start.packet_slots msg_pool_size;
        };
      };
      connections_pool =
          pool_create
            (some (conn_constructor start.created))
            start.connection_slots
            max_tcp_connections;
      connections_queue = start.created;
      handling_task = task;
    })
unfolding pool_create
started-IsServer start task srv conns packets entries = record {
  packets = record {
    pool = record { slots = packets; free = omega arith; size = omega arith; bound = omega arith };
    no_constructor = refl;
    some_size = omega arith;
  };
  connections = record {
    slots = conns;
    free = omega arith;
    size = omega arith;
    bound = omega arith;
  };
  created = start.created;
  constructor = refl;
  entries = record { control = none; entries = entries; group = λ c absent. absurd cc };
}

start-IsServer :
    {Q D S : Type 0} (start : Startup Q) (srv : Server Q D S)
    → negative (i8 start.queue_status) ≡ false
    → length start.connection_slots ≡ max_tcp_connections
    → length start.packet_slots ≡ msg_pool_size
    → srv.conn_info ≡ none ∷ none ∷ none ∷ []
    → IsServer (packet_handler_start start srv).1
unfolding packet_handler_start initialize_packets_pool pool_create
start-IsServer start srv created conns packets entries =
    elim (Bool-cases (negative (i8 start.handling_status))) [
      | inl failed ↦
          rw (created, failed) (started-IsServer start srv.handling_task srv conns packets entries)
      | inr task ↦ rw (created, task) (started-IsServer start true srv conns packets entries)
    ]

module _ {Q D S : Type 0} (os : Os Q) (dev : Device D) (net : Net S) (host : Sockets S)
    (abi : EnumAbi) (tries : ℕ) where
  -- The handling task reads its first connection, which the listening task has put into the control
  -- group; or one of the tasks does a round, at whose end the board still runs.
  pub data Step (srv srv' : Server Q D S) : Type 0 where
    begins :
        (srv.conns (os.queue_read srv.connections_queue).1).group ≡ control_group
        → first_connection os host srv ≡ some srv'
        → Step srv srv'
    listens :
        (sock : ℤ) (fresh : ℕ) → listening_round os host sock fresh srv ≡ some srv' → Step srv srv'
    handles :
        (rounds : ℕ) (status : ℤ) (fds : List ℕ)
        → handling_round os dev net host abi tries rounds srv ≡ some (went_on status fds srv')
        → Step srv srv'

  pub data Reach (srv : Server Q D S) : Server Q D S → Type 0 where
    here : Reach srv srv
    next : {u v : Server Q D S} → Reach srv u → Step u v → Reach srv v

  served-IsServer :
      (status : ℤ) (fds : List ℕ) (srv : Server Q D S)
      → Serves (went_on status fds srv)
      → IsServer srv
  served-IsServer status fds srv (goes_on v) = v

  Step-IsServer : {srv srv' : Server Q D S} → Step srv srv' → IsServer srv → IsServer srv'
  Step-IsServer {srv} (begins g e) v =
      Holds-some (rw e at (first_connection-IsServer os host srv v g))
  Step-IsServer {srv} (listens sock fresh e) v =
      Holds-some (rw e at (listening_round-IsServer os host sock fresh srv v))
  Step-IsServer {srv} {srv'} (handles rounds status fds e) v =
      served-IsServer status fds srv'
        (Holds-some (rw e at (handling_round-Serves os dev net host abi tries rounds srv v)))

  Reach-IsServer : {srv srv' : Server Q D S} → IsServer srv → Reach srv srv' → IsServer srv'
  Reach-IsServer v here = v
  Reach-IsServer v (next r st) = Step-IsServer st (Reach-IsServer v r)

  -- In every history from the start of the packet handler, with the queue of connections created,
  -- arrays of the pools' sizes and no connection yet, in which the handling task reads a connection
  -- of the control group first, and the rounds of the listening task and the handling task
  -- alternate in any order and end with the board running: both pools stay well formed, and of the
  -- entries for the groups only that of the control group is ever used, by a connection of that
  -- group. No connection serves the programmer group or the UART group.
  pub packet_handler_start-IsServer :
      (start : Startup Q) (srv srv' : Server Q D S)
      → negative (i8 start.queue_status) ≡ false
      → length start.connection_slots ≡ max_tcp_connections
      → length start.packet_slots ≡ msg_pool_size
      → srv.conn_info ≡ none ∷ none ∷ none ∷ []
      → Reach (packet_handler_start start srv).1 srv'
      → IsServer srv'
  packet_handler_start-IsServer start srv srv' created conns packets entries r =
      Reach-IsServer (start-IsServer start srv created conns packets entries) r
