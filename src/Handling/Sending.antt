-- ===== src/Handling/Sending.antt =====
-- The sending loop: what it sends, and the pool of packets across it.
use bigblackhardware.Base.{
  ℕ, zero, suc, ◌-◌, ◌<◌, ◌≡◌, ◌∙◌, refl, inl, inr, ap, true, some, List, [], ◌∷◌, length, ℤ,
  negative, arith,
}
use bigblackhardware.Protocol.{EnumAbi}
use bigblackhardware.Pool.Refines.{view}
use bigblackhardware.PacketManager.{Heap, Os}
use bigblackhardware.PacketManager.Pools.{IsPacketPool}
use bigblackhardware.Programmer.{Device}
use bigblackhardware.Transport.{Net, send_frame}
use bigblackhardware.Handling.{Sockets, Server}
use bigblackhardware.Handling.Room.{
  behind_next, room, get_packet_from_pool-Taken, release_packet-room,
}
use bigblackhardware.Handling.Queues.{
  QueueLaws, List-cases, set_out_queue_self, SameSockets, set_out_queue-SameSockets,
  SameSockets-trans, deliver,
}
use bigblackhardware.Handling.Serve.{sending_loop, polled, with_packets}

module _ {Q D S : Type 0} (os : Os Q) (dev : Device D) (net : Net S) (host : Sockets S)
    (abi : EnumAbi) (tries : ℕ) (laws : QueueLaws os) where
  -- Each of the packets can be sent within `tries` rounds, whether it arrives or not.
  abbrev pub Sends : (hndl : ℕ) (heap : Heap) → List ℕ → Type 0
  Sends hndl heap [] = Unit
  Sends hndl heap (ptr ∷ ptrs) =
      ((s : S) → (r : ℤ × S) × (send_frame net tries hndl (heap ptr) s ≡ some r))
      × Sends hndl heap ptrs

  Sends-first :
      (hndl : ℕ) (heap : Heap) (ptr ptr' : ℕ) (rest items : List ℕ)
      → items ≡ ptr ∷ rest
      → ptr' ≡ ptr
      → Sends hndl heap items
      → (s : S) → (r : ℤ × S) × (send_frame net tries hndl (heap ptr') s ≡ some r)
  Sends-first hndl heap ptr ptr' rest items first same sends = rw same ((rw first at sends).0)

  Sends-rest :
      (hndl : ℕ) (heap memory : Heap) (ptr : ℕ) (rest items items' : List ℕ)
      → items ≡ ptr ∷ rest
      → items' ≡ rest
      → memory ≡ heap
      → Sends hndl heap items
      → Sends hndl memory items'
  Sends-rest hndl heap memory ptr rest items items' first behind same sends =
      rw (same, behind) ((rw first at sends).1)

  deliver_nothing :
      (hndl : ℕ) (heap : Heap) (items : List ℕ) (s : S)
      → items ≡ []
      → deliver net tries hndl heap items s ≡ some s
  unfolding deliver
  deliver_nothing hndl heap items s none_left = rw none_left refl

  deliver-next :
      (hndl : ℕ) (heap memory : Heap) (ptr : ℕ) (rest items items' : List ℕ) (s : S) (sent : ℤ × S)
      (s' : S)
      → memory ≡ heap
      → items ≡ ptr ∷ rest
      → items' ≡ rest
      → send_frame net tries hndl (heap ptr) s ≡ some sent
      → deliver net tries hndl memory items' sent.1 ≡ some s'
      → deliver net tries hndl heap items s ≡ some s'
  unfolding deliver
  deliver-next hndl heap memory ptr rest items items' s sent s' same first behind done end =
      rw (first, done) (rw (same, behind) at end)

  -- How the sending loop ends for the connection `c`.
  pub record Sent (c hndl : ℕ) (srv : Server Q D S) (status : ℤ) (srv' : Server Q D S)
      : Type 0 where
    pub ended : negative status ≡ true
    pub pool : IsPacketPool srv'.board.packets.pool
    pub lost : room srv'.board.packets.pool ≡ room srv.board.packets.pool - 1
    pub emptied : laws.items (srv'.conns c).out_queue ≡ []
    pub kept : srv' ≡ record srv {
      board = record (srv.board) { packets = srv'.board.packets };
      conns = srv'.conns;
      packet = srv'.packet;
      sockets = srv'.sockets;
    }
    pub same : SameSockets srv.conns srv'.conns
    pub rest : view srv'.board.packets.pool ≡ behind_next os (view srv.board.packets.pool)
    pub heap : srv'.board.packets.heap ≡ srv.board.packets.heap
    pub delivered :
        deliver net tries hndl srv.board.packets.heap
          (laws.items (srv.conns c).out_queue)
          srv.sockets
        ≡ some srv'.sockets

  -- Let every packet of the connection's queue be sendable within the rounds of one transfer, and
  -- let the sending loop have more rounds than the queue is long. On a well-formed pool for at least
  -- one packet, the loop ends with a negative status, a well-formed pool and an empty queue. It has
  -- sent exactly the packets of the queue, in their order, and the pool is left as where one packet
  -- has been taken from it, if it had one, whatever was queued. But for the connections' queues and
  -- the variable of the packet, all else is as before, the contents of the packets too.
  pub sending_loop-Sent :
      (rounds c hndl : ℕ) (srv : Server Q D S)
      → IsPacketPool srv.board.packets.pool
      → Sends hndl srv.board.packets.heap (laws.items (srv.conns c).out_queue)
      → length (laws.items (srv.conns c).out_queue) < rounds
      → (status : ℤ) × (srv' : Server Q D S) × (sending_loop os dev net host abi tries rounds c hndl
            srv
          ≡ some (status, srv'))
        × Sent c hndl srv status srv'
  unfolding sending_loop
  sending_loop-Sent zero c hndl srv v sends h = absurd (omega arith)
  sending_loop-Sent (suc rounds) c hndl srv v sends h =
      let p = srv.board.packets in
      let q = (srv.conns c).out_queue in
      let read = os.queue_read q in
      let (got, taken, t) = get_packet_from_pool-Taken os p v in
      let packets = record p { pool = got.pool; heap = got.memory } in
      let emptier = set_out_queue_self c read.2 srv.conns in
      elim (List-cases (laws.items q)) [
        | inl none_left ↦
            let (empty, left) = laws.read_empty q none_left in
            (
              read.0,
              polled c read.1 packets read.2 srv,
              rw (taken, empty) refl,
              record {
                ended = empty;
                pool = t.pool;
                lost = t.less;
                emptied = rw emptier left;
                kept = refl;
                same = set_out_queue-SameSockets c read.2 srv.conns;
                rest = t.rest;
                heap = t.memory;
                delivered = deliver_nothing hndl p.heap (laws.items q) srv.sockets none_left;
              },
            )
        | inr (ptr, rest, first) ↦
            let (full, address, left) = laws.read_first q ptr rest first in
            let (sent, done) =
              Sends-first hndl p.heap ptr read.1 rest (laws.items q) first address sends
                srv.sockets in
            let done' : send_frame net tries hndl (got.memory read.1) srv.sockets ≡ some sent =
              rw t.memory done in
            let (_, pool, release, u, _, more, top) =
              release_packet-room os read.1 packets t.pool t.lent in
            let next =
              record (with_packets (record packets { pool = pool })
                (polled c read.1 packets read.2 srv)) { sockets = sent.1 } in
            let behind : laws.items (next.conns c).out_queue ≡ rest = rw emptier left in
            let (status, srv', runs, end) =
              sending_loop-Sent rounds c hndl next u
                (Sends-rest hndl p.heap got.memory ptr rest (laws.items q)
                  (laws.items (next.conns c).out_queue) first behind t.memory sends)
                (omega (arith, ap length behind, ap length first)) in
            (
              status,
              srv',
              rw (taken, full, done', release) runs,
              record {
                ended = end.ended;
                pool = end.pool;
                lost = omega (arith, t.less, more, end.lost);
                emptied = end.emptied;
                kept = end.kept;
                same =
                    SameSockets-trans srv.conns next.conns srv'.conns
                      (set_out_queue-SameSockets c read.2 srv.conns) end.same;
                rest = end.rest ∙ ap (behind_next os) top ∙ t.rest;
                heap = end.heap ∙ t.memory;
                delivered =
                    deliver-next hndl p.heap got.memory read.1 rest (laws.items q)
                      (laws.items (next.conns c).out_queue) srv.sockets sent srv'.sockets t.memory
                      (rw address first) behind done end.delivered;
              },
            )
      ]
