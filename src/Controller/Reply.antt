-- ===== src/Controller/Reply.antt =====
-- The handler that reads memory: which packet goes out, and where the data stays.
use bigblackhardware.Base.{
  ℕ, ◌≤◌, ◌≡◌, refl, ap, ◌∙◌, true, false, ◌==◌, none, some, pos, negative, u16, arith,
}
use bigblackhardware.Protocol.{PacketType, memory}
use bigblackhardware.Packet.{Packet, create_packet, packet_data_size, packet_success}
use bigblackhardware.Packet.Frame.{filled, sent, update_header-framed}
use bigblackhardware.Payload.{AvrReadMemData, get_read_mem_data}
use bigblackhardware.Pool.Refines.{view, take_item, status_of, pool_get-take, take_item-lent}
use bigblackhardware.PacketManager.{Os, store, get_packet_from_pool, write_packet, send_packet}
use bigblackhardware.PacketManager.Send.{IsPacket, IsPackets, next_packet, pool_get-memory}
use bigblackhardware.PacketManager.Pools.{IsPacketPool, lent-IsPacketPool}
use bigblackhardware.Programmer.{Device}
use bigblackhardware.Programmer.Read.{ReadResult, programmer_read_memory}
use bigblackhardware.Controller.{Board, returned, send_memory, process_read_memory_packet}

-- A packet that is framed again around the data that it has.
abbrev pub reframed : (p : Packet) → IsPacket p → ℕ → Packet
reframed p v n = sent p v.wire (filled p 0 0 0 n) p.packet_data

create_packet-reframed :
    (p : Packet) (v : IsPacket p) (type : PacketType) (n : ℕ)
    → n ≤ packet_data_size
    → create_packet p type 0 0 0 none n ≡ some (packet_success, reframed p v n)
unfolding create_packet
create_packet-reframed p v type n fits =
    rw (update_header-framed (record p { header = filled p 0 0 0 n }) v.wire v.raw (omega arith))
      refl

module _ {Q D : Type 0} (os : Os Q) (dev : Device D) where
  -- Where at most 1024 bytes of memory have been read into a packet of the pool other than the
  -- request, the address that is written to the queue is the request's. That packet is framed again
  -- with the number of bytes and still has the request's data; the packet with the memory's bytes
  -- stays in the heap, taken from the pool, which stays well formed, and not queued. The device is
  -- left as reading leaves it, and the info is kept.
  pub process_read_memory_packet-reframed :
      (ptr target : ℕ) (b : Board Q D) (mem : AvrReadMemData) (r : ReadResult D)
      (v : IsPackets b.packets)
      → get_read_mem_data (b.packets.heap ptr) ≡ some (pos 0, some mem)
      → next_packet os b.packets ≡ some target
      → programmer_read_memory dev b.mcu_info mem (b.packets.heap target).packet_data b.device
        ≡ some r
      → negative r.status ≡ false
      → mem.bytes_to_read ≤ packet_data_size
      → (target == ptr) ≡ false
      → (t : Board Q D) × (process_read_memory_packet os dev ptr (b.packets.heap ptr) b
          ≡ some (returned (pos 0) t))
        × (t.packets.queue ≡ (os.queue_write ptr b.packets.queue).1)
        × (t.packets.heap ptr ≡ reframed (b.packets.heap ptr) (v.heap ptr) mem.bytes_to_read)
        × ((t.packets.heap target).packet_data ≡ r.buf)
        × (view t.packets.pool
            ≡ (take_item (os.packet_address b.packets.pool.pool_size) (view b.packets.pool)).1)
        × IsPacketPool t.packets.pool
        × (t.device ≡ r.device)
        × (t.mcu_info ≡ b.mcu_info)
  unfolding process_read_memory_packet get_packet_from_pool send_memory send_packet write_packet
  process_read_memory_packet-reframed ptr target b mem r v parsed free run ok fits apart =
      let s = b.packets in
      let fresh = os.packet_address s.pool.pool_size in
      let (g, got, w, item, rest, status) = pool_get-take fresh s.pool s.heap v.pool in
      let (heap, plain) = pool_get-memory fresh s.pool s.heap g v.no_constructor got in
      let found : g.item ≡ some target = item ∙ free in
      let given : g.status ≡ pos 0 = status ∙ ap status_of found in
      let count : u16 mem.bytes_to_read ≡ mem.bytes_to_read = omega arith in
      let swapped : (ptr == target) ≡ false = ground arith in
      let self : (ptr == ptr) ≡ true = ground arith in
      let self' : (target == target) ≡ true = ground arith in
      (
        record b {
          packets = record {
            pool = g.pool;
            heap =
                store ptr (reframed (s.heap ptr) (v.heap ptr) mem.bytes_to_read)
                  (store target (record (s.heap target) { packet_data = r.buf }) s.heap);
            queue = (os.queue_write ptr s.queue).1;
          };
          device = r.device;
        },
        rw
            (
              parsed,
              got,
              given,
              found,
              heap,
              run,
              ok,
              count,
              swapped,
              create_packet-reframed (s.heap ptr) (v.heap ptr) memory mem.bytes_to_read fits,
            )
            refl,
        refl,
        rw self refl,
        rw (apart, self') refl,
        rest,
        lent-IsPacketPool g.pool w plain
            (take_item-lent fresh s.pool g.pool target v.pool free rest),
        refl,
        refl,
      )
