-- ===== src/PacketManager/Examples.antt =====
-- Runs of packet_manager.c with a queue that is a list of addresses.
use bigblackhardware.Base.{
  true, ℕ, ◌+◌, ◌≡◌, refl, none, some, List, [], ◌∷◌, ℤ, pos, negsuc, replicate, arith,
}
use bigblackhardware.Protocol.{control_group, cmd}
use bigblackhardware.Packet.{Packet}
use bigblackhardware.Pool.Refines.{view}
use bigblackhardware.PacketManager.{Os, Packets, store, create_send_packet, send_ack}
use bigblackhardware.PacketManager.Send.{
  IsPacket, IsPackets, queued, store-IsPacket, create_send_packet-queued, send_ack-queued,
}

abbrev pub list_os : Os (List ℕ)
list_os = record {
  queue_write = λ ptr q. (pos 0, ptr ∷ q);
  queue_read = λ q. (negsuc 0, 0, q);
  packet_address = λ n. 100 + n;
  stack_byte = 1;
  tolerates = λ strays. true;
  spills = λ handed own. own;
}

abbrev pub blank : Packet
blank = record {
  header = record {
    type = 0;
    group = control_group;
    data_size = 0;
    compression = 0;
    encryption = 0;
    sign = 0;
  };
  raw_header = 0 ∷ 0 ∷ 0x15 ∷ 0 ∷ 0 ∷ [];
  packet_data = replicate 1024 7;
}

pub blank-IsPacket : IsPacket blank
blank-IsPacket = record {
  wire = record { start = 0; flags = 0; type_byte = 0x15; size_high = 0; size_low = 0 };
  raw = refl;
  size = refl;
}

-- An empty pool of two packets, and a heap with the packet `p` at address 7.
abbrev pub packets_with : Packet → Packets (List ℕ)
packets_with p = record {
  pool = record {
    obj_constructor = none;
    slots = 0 ∷ 0 ∷ [];
    pool_size = 0;
    free_items = 0;
    max_pool_size = 2;
  };
  heap = store 7 p (λ a. blank);
  queue = [];
}

pub packets_with-IsPackets : (p : Packet) → IsPacket p → IsPackets (packets_with p)
packets_with-IsPackets p v = record {
  pool = record { slots = refl; free = omega arith; size = omega arith; bound = omega arith };
  no_constructor = refl;
  heap = store-IsPacket (λ a. blank) 7 p v (λ a. blank-IsPacket);
}

-- Four bytes are queued at the address 100.
create_send_packet-queued_example :
    (status : ℤ) × (t : Packets (List ℕ)) × (create_send_packet list_os cmd
        (1 ∷ 2 ∷ 3 ∷ 4 ∷ [])
        4
        (packets_with blank)
      ≡ some (status, t))
    × IsPackets t
    × (view t.pool ≡ record { idle = []; made = 1; capacity = 2 })
    × ((status, t.heap, t.queue)
        ≡ queued list_os
            (packets_with blank)
            (packets_with-IsPackets blank blank-IsPacket)
            (1 ∷ 2 ∷ 3 ∷ 4 ∷ [])
            4
            (some 100))
create_send_packet-queued_example =
    create_send_packet-queued list_os (packets_with blank) cmd (1 ∷ 2 ∷ 3 ∷ 4 ∷ []) 4
      (packets_with-IsPackets blank blank-IsPacket) (omega arith) (omega arith)

-- A failure is acknowledged with the 1 that was on the stack.
send_ack-queued_example :
    (status : ℤ) × (t : Packets (List ℕ)) × (send_ack list_os (negsuc 0) (packets_with blank)
      ≡ some (status, t))
    × IsPackets t
    × (view t.pool ≡ record { idle = []; made = 1; capacity = 2 })
    × ((status, t.heap, t.queue)
        ≡ queued list_os
            (packets_with blank)
            (packets_with-IsPackets blank blank-IsPacket)
            (1 ∷ [])
            1
            (some 100))
send_ack-queued_example =
    send_ack-queued list_os (packets_with blank) (negsuc 0)
      (packets_with-IsPackets blank blank-IsPacket)
