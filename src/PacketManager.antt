-- ===== src/PacketManager.antt =====
-- packet_manager.c, the packets' pool of packets.c and the queues of sys.c: packets that are made
-- and put into a queue. Packets are in a heap, and a queue holds their
-- addresses. The queues of the operating system are a parameter.
pub mod Send
pub mod Pools
pub mod Examples
use bigblackhardware.Base.{
  ℕ, ◌==◌, Bool, true, Option, none, some, List, [], ◌∷◌, if◌then◌else◌, ◌>>=◌, ℤ, pos, negsuc,
  negative, length,
}
use bigblackhardware.Protocol.{PacketType, ack, error, cmd}
use bigblackhardware.Packet.{Packet, create_packet}
use bigblackhardware.Parser.{avr_cmd_size}
use bigblackhardware.Payload.{Stray}
use bigblackhardware.Pool.{Pool, Got, pool_create, pool_get, pool_release}

abbrev pub Heap : Type 0
Heap = ℕ → Packet

abbrev pub store : ℕ → Packet → Heap → Heap
store ptr packet heap = λ a. if a == ptr then packet else heap a

-- osi_MsgQWrite and osi_MsgQRead with their status, the address at which the allocator puts the
-- packet of a number, the byte that a new variable on the stack happens to have, and whether writes
-- behind the ends of allocated blocks leave alone all that the program uses. `spills` is what becomes
-- of a queue, its second argument, when the first one is written to the memory that its handle leads
-- to where that is taken for the address of a queue.
pub record Os (Q : Type 0) : Type 0 where
  pub queue_write : ℕ → Q → ℤ × Q
  pub queue_read : Q → ℤ × ℕ × Q
  pub packet_address : ℕ → ℕ
  pub stack_byte : ℕ
  pub tolerates : List Stray → Bool
  pub spills : Q → Q → Q

-- `queue` is the queue that the function is given.
pub record Packets (Q : Type 0) : Type 0 where
  pub pool : Pool Heap
  pub heap : Heap
  pub queue : Q

unfoldable pub initialize_packets_pool : List ℕ → ℕ → ℤ × Pool Heap
initialize_packets_pool slots num = (pos 0, pool_create none slots num)

-- The buffer stays as it is for a negative status, also in the caller.
abbrev pub set_ack_data : List ℕ → ℤ → List ℕ
set_ack_data buf (negsuc n) = buf
set_ack_data [] (pos n) = []
set_ack_data (b ∷ buf) (pos n) = 1 ∷ buf

module _ {Q : Type 0} (os : Os Q) where
  unfoldable pub get_packet_from_pool : Packets Q → Option (Got Heap)
  get_packet_from_pool s = pool_get (os.packet_address s.pool.pool_size) true s.pool s.heap

  unfoldable pub release_packet : ℕ → Packets Q → Option (ℤ × Packets Q)
  release_packet ptr s = do
    (status, pool) ← pool_release ptr s.pool
    some (status, record s { pool = pool })

  unfoldable pub write_packet : ℕ → Packets Q → ℤ × Packets Q
  write_packet ptr s =
      let (status, q) = os.queue_write ptr s.queue in (status, record s { queue = q })

  unfoldable pub read_packet : Packets Q → ℤ × ℕ × Packets Q
  read_packet s =
      let (status, ptr, q) = os.queue_read s.queue in (status, ptr, record s { queue = q })

  -- The status of write_packet is dropped.
  unfoldable pub create_send_packet : PacketType → List ℕ → ℕ → Packets Q → Option (ℤ × Packets Q)
  create_send_packet type bytes data_len s = do
    got ← get_packet_from_pool s
    let s1 = record s { pool = got.pool; heap = got.memory }
    let fill = (do
      ptr ← got.item
      (status, packet) ← create_packet (s1.heap ptr) type 0 0 0 (some bytes) data_len
      let s2 = record s1 { heap = store ptr packet s1.heap }
      if negative status then some (status, s2) else some (status, (write_packet ptr s2).1))
    if negative got.status then some (got.status, s1) else fill

  unfoldable pub send_packet : ℕ → PacketType → ℕ → Packets Q → Option (ℤ × Packets Q)
  send_packet ptr type data_len s = do
    (status, packet) ← create_packet (s.heap ptr) type 0 0 0 none data_len
    let s' = record s { heap = store ptr packet s.heap }
    if negative status then some (status, s') else some (status, (write_packet ptr s').1)

  unfoldable pub send_ack : ℤ → Packets Q → Option (ℤ × Packets Q)
  send_ack status s = create_send_packet ack (set_ack_data (os.stack_byte ∷ []) status) 1 s

  -- A message without its terminator.
  unfoldable pub send_error : List ℕ → Packets Q → Option (ℤ × Packets Q)
  send_error msg s = create_send_packet error msg (length msg) s

  unfoldable pub send_avr_cmd : List ℕ → Packets Q → Option (ℤ × Packets Q)
  send_avr_cmd bytes s = create_send_packet cmd bytes avr_cmd_size s
