-- ===== src/Handling/Examples.antt =====
-- Runs of packet_handler.c's connections on a board with a pool of two packets.
use bigblackhardware.Base.{
  ℕ, suc, ◌+◌, ◌<◌, ◌≡◌, ◌⊎◌, ◌↔◌, refl, true, Option, none, some, List, [], ◌∷◌, ◌++◌, ℤ, pos,
  negsuc, length, replicate, arith,
}
use bigblackhardware.Protocol.{control_group, programmer_group, int_enums}
use bigblackhardware.PacketManager.{Os}
use bigblackhardware.PacketManager.Pools.{IsPacketPool}
use bigblackhardware.PacketManager.Examples.{blank, packets_with}
use bigblackhardware.Programmer.Examples.{silent, toy_info}
use bigblackhardware.Transport.{again, Net, taken, send_nbytes, send_frame}
use bigblackhardware.Handling.{
  ConnectionInfo, Connections, Sockets, Server, get_read_fd, put_connection,
}
use bigblackhardware.Pool.{pool_create, pool_get}
use bigblackhardware.PacketManager.{initialize_packets_pool}
use bigblackhardware.Handling.{conn_constructor}
use bigblackhardware.Handling.Listen.{Startup, packet_handler_start, listening_round}
use bigblackhardware.Handling.Invariant.{IsServer}
use bigblackhardware.Handling.Histories.{here, next, listens, packet_handler_start-IsServer}
use bigblackhardware.Handling.Serve.{fd_isset, sending_loop}
use bigblackhardware.Handling.ReadSet.{Active, get_read_fd-Active}
use bigblackhardware.Handling.Queues.{QueueLaws}
use bigblackhardware.Handling.Sending.{Sends, Sent, sending_loop-Sent}

abbrev pub idle : ConnectionInfo (List ℕ)
idle = record {
  hndl = none;
  group = control_group;
  in_queue = [];
  out_queue = [];
  handed_queue = [];
}

-- Two open connections, at the addresses 1 and 2; the first has two packets to send.
abbrev two_open : Connections (List ℕ)
two_open =
    put_connection 1 (record idle { hndl = some 9; out_queue = 7 ∷ 8 ∷ [] })
      (put_connection 2 (record idle { hndl = some 4; group = programmer_group }) (λ a. idle))

abbrev entries : List (Option ℕ)
entries = some 1 ∷ some 2 ∷ none ∷ []

-- The bound is 9 and the set has 4 and 9.
get_read_fd-Active_example :
    let r = get_read_fd two_open entries in
    ((h : ℕ) → (fd_isset h r.1 ≡ true) ↔ Active two_open entries h)
    × ((h : ℕ) → Active two_open entries h → h < r.0 + 1)
    × ((r.0 ≡ 0) ⊎ Active two_open entries r.0)
get_read_fd-Active_example = get_read_fd-Active two_open entries

abbrev pub first_read : List ℕ → ℤ × ℕ × List ℕ
first_read [] = (negsuc 0, 0, [])
first_read (ptr ∷ q) = (pos 0, ptr, q)

abbrev pub fifo : Os (List ℕ)
fifo = record {
  queue_write = λ ptr q. (pos 0, q ++ (ptr ∷ []));
  queue_read = first_read;
  packet_address = λ n. 100 + n;
  stack_byte = 0;
  tolerates = λ strays. true;
  spills = λ handed own. own;
}

unfoldable pub fifo-QueueLaws : QueueLaws fifo
fifo-QueueLaws = record {
  items = λ q. q;
  read_empty = λ q e. rw e (refl, refl);
  read_first = λ q ptr rest e. rw e (refl, refl, refl);
}

-- A network that takes all that is sent, and counts the calls.
abbrev open_net : Net ℕ
open_net = record {
  recv = λ sock n s. (again, s);
  send = λ sock bytes s. (taken (length bytes), suc s);
  sleep = λ ms s. s;
}

abbrev pub quiet : {S : Type 0} → Sockets S
quiet = record {
  close = λ hndl s. (pos 0, s);
  select = λ n fds s. (pos 0, [], s);
  socket = λ s. (pos 3, s);
  bind = λ sock s. (pos 0, s);
  listen = λ sock s. (pos 0, s);
  accept = λ sock s. (negsuc 10, s);
  set_nonblocking = λ conn s. (pos 0, s);
}

abbrev pub server : Server (List ℕ) (List (List ℕ)) ℕ
server = record {
  board = record {
    packets = record (packets_with blank) { heap = λ a. blank };
    device = [];
    mcu_info = some toy_info;
  };
  conns = two_open;
  connections_pool = record {
    obj_constructor = none;
    slots = 0 ∷ 0 ∷ [];
    pool_size = 2;
    free_items = 0;
    max_pool_size = 2;
  };
  conn_info = entries;
  connections_queue = [];
  packet = none;
  sockets = 0;
  handling_task = true;
}

server-IsPacketPool : IsPacketPool server.board.packets.pool
server-IsPacketPool = record {
  pool = record { slots = refl; free = omega arith; size = omega arith; bound = omega arith };
  no_constructor = refl;
  some_size = omega arith;
}

blank_sent : Sends fifo silent open_net quiet int_enums 1 fifo-QueueLaws 9 (λ a. blank) (7 ∷ 8 ∷ [])
unfolding send_frame send_nbytes
blank_sent = (λ s. ((pos 0, suc (suc s)), refl), (λ s. ((pos 0, suc (suc s)), refl), tt))

-- Both packets are sent, and one of the two that the pool could give is gone.
sending_loop-Sent_example :
    (status : ℤ) × (srv' : Server (List ℕ) (List (List ℕ)) ℕ) × (sending_loop fifo silent open_net
        quiet int_enums 1 3 1 9 server
      ≡ some (status, srv'))
    × Sent fifo silent open_net quiet int_enums 1 fifo-QueueLaws 1 9 server status srv'
sending_loop-Sent_example =
    sending_loop-Sent fifo silent open_net quiet int_enums 1 fifo-QueueLaws 3 1 9 server
      server-IsPacketPool (unfold fifo-QueueLaws in blank_sent)
      (unfold fifo-QueueLaws in omega arith)

-- Every call of accept gives the socket 5.
abbrev knocking : Sockets ℕ
knocking = record (quiet {S = ℕ}) { accept = λ sock s. (pos 5, s) }

abbrev startup : Startup (List ℕ)
startup = record {
  queue_status = pos 0;
  handling_status = pos 0;
  listening_status = pos 0;
  connection_slots = replicate 2 0;
  packet_slots = replicate 10 0;
  created = [];
}

abbrev fresh_server : Server (List ℕ) (List (List ℕ)) ℕ
fresh_server = record server { conn_info = none ∷ none ∷ none ∷ [] }

abbrev begun : Server (List ℕ) (List (List ℕ)) ℕ
begun = (packet_handler_start startup fresh_server).1

abbrev listened : Server (List ℕ) (List (List ℕ)) ℕ
listened = elim (listening_round fifo knocking (pos 3) 50 begun) [ none ↦ begun | some srv ↦ srv ]

-- The connection at the address 50 waits in the queue.
listened_waits :
    (listening_round fifo knocking (pos 3) 50 begun ≡ some listened)
    × (listened.connections_queue ≡ 50 ∷ [])
unfolding listening_round packet_handler_start initialize_packets_pool pool_create pool_get
    conn_constructor
listened_waits = (refl, refl)

packet_handler_start-IsServer_example : IsServer listened
packet_handler_start-IsServer_example =
    packet_handler_start-IsServer fifo silent open_net knocking int_enums 1 startup fresh_server
      listened refl refl refl refl (next here (listens (pos 3) 50 listened_waits.0))
