-- ===== src/Controller/Pools.antt =====
-- The packets' pool stays well formed through every handler.
use bigblackhardware.Base.{
  ℕ, zero, suc, ◌==◌, not, u8, u16, read?, Bool, true, false, if◌then◌else◌, get_elem?, Option,
  some, List, ℤ, negative, Holds, just, nothing, Holds-bind, Holds-any, Holds-if, ◌>>=◌, none,
}
use bigblackhardware.Protocol.{memory}
use bigblackhardware.Packet.{Packet}
use bigblackhardware.Parser.{avr_cmd_size}
use bigblackhardware.PacketManager.{Os, Packets, send_error, send_avr_cmd, send_ack, send_packet}
use bigblackhardware.PacketManager.Pools.{
  IsPacketPool, Sound, get_packet_from_pool-IsPacketPool, send_packet-Sound, send_ack-Sound,
  send_error-Sound, send_avr_cmd-Sound,
}
use bigblackhardware.Programmer.{
  Device, programmer_write_cmd, programmer_set_mcu_info, programmer_program_memory,
}
use bigblackhardware.Programmer.Read.{programmer_read_memory}
use bigblackhardware.Payload.{get_mcu_info, get_prog_mem_data, get_read_mem_data}
use bigblackhardware.Controller.{
  Board, Outcome, returned, restarted, critical, load_failed, enter_failed, program_failed,
  read_failed, enter_pgm_attempts, packet_handlers, PacketHandler, prog_init, prog_stop, uart_start,
  uart_end, reset_mcu, encryption_on, sign_on, load_mcu_info_packet, program_memory_packet,
  read_memory_packet, cmd_packet, on_packets, process_reset, process_cmd_packet, enter_loop,
  process_load_mcu_info_packet, process_program_memory_packet, send_memory,
  process_read_memory_packet, handle, process_packet,
}

module _ {Q D : Type 0} where
  abbrev pub Pooled : Board Q D → Type 0
  Pooled b = IsPacketPool b.packets.pool

  -- Also where the board is restarted.
  pub data Ends : Outcome Q D → Type 0 where
    at_return : {status : ℤ} {b : Board Q D} → Pooled b → Ends (returned status b)
    at_restart : {b : Board Q D} → Pooled b → Ends (restarted b)

  Ends-if : (c : Bool) {x y : Outcome Q D} → Ends x → Ends y → Ends (if c then x else y)
  Ends-if true h k = h
  Ends-if false h k = k

  critical-Ends :
      (status : ℤ) (b : Board Q D) (rest : Board Q D → Option (Outcome Q D))
      → Pooled b
      → Holds Ends (rest b)
      → Holds Ends (critical status b rest)
  critical-Ends status b rest v h = Holds-if (negative status) (just (at_restart v)) h

module _ {Q D : Type 0} (os : Os Q) (dev : Device D) where
  on_packets-Pooled :
      (f : Packets Q → Option (ℤ × Packets Q)) (b : Board Q D)
      → Sound os (f b.packets)
      → Holds (λ r. Pooled r.1) (on_packets os dev f b)
  on_packets-Pooled f b h = Holds-bind _ h (λ r v. just v)

  -- A message, and what follows it.
  error-Ends :
      (msg : List ℕ) (b : Board Q D)
      → Pooled b
      → Holds (λ r. Pooled r.1) (on_packets os dev (send_error os msg) b)
  error-Ends msg b v = on_packets-Pooled (send_error os msg) b (send_error-Sound os msg b.packets v)

  process_reset-Ends :
      (packet : Packet) (b : Board Q D) → Pooled b → Holds Ends (process_reset os dev packet b)
  unfolding process_reset
  process_reset-Ends packet b v = Holds-any (get_elem? packet.packet_data 0) _ (λ first.
      Holds-any (get_elem? packet.packet_data 1) _ (λ second.
        just
          (Ends-if (first == 1) (at_return v) (Ends-if (second == 0) (at_return v) (at_return v)))))

  process_cmd_packet-Ends :
      (packet : Packet) (b : Board Q D) → Pooled b → Holds Ends (process_cmd_packet os dev packet b)
  unfolding process_cmd_packet
  process_cmd_packet-Ends packet b v =
      Holds-if (not (u8 packet.header.data_size == avr_cmd_size)) (just (at_return v)) (
        Holds-any (read? avr_cmd_size packet.packet_data) _ (λ cmd.
          let w = programmer_write_cmd dev cmd b.device in
          let b1 = record b { device = w.2 } in
          Holds-bind _ (Holds-if (negative w.0) (error-Ends load_failed b1 v) (just v)) (λ r u.
            Holds-bind _
              (on_packets-Pooled (send_avr_cmd os w.1) r.1
                (send_avr_cmd-Sound os w.1 r.1.packets u))
              (λ sent t. just (at_return t)))))

  enter_loop-Pooled :
      (attempts : ℕ) (status : ℤ) (b : Board Q D)
      → Pooled b
      → Holds (λ r. Pooled r.1) (enter_loop os dev attempts status b)
  unfolding enter_loop
  enter_loop-Pooled zero status b v = just v
  enter_loop-Pooled (suc attempts) status b v =
      Holds-any _ _
        (λ (r : ℤ × D). Holds-if (negative r.0) (enter_loop-Pooled attempts r.0 _ v) (just v))

  -- The acknowledgement at the end, and the restart where it cannot be sent.
  abbrev acknowledge : ℤ → Board Q D → Option (Outcome Q D)
  acknowledge status b = do
    (sent, b') ← on_packets os dev (send_ack os status) b
    critical sent b' (λ b''. some (returned sent b''))

  ack-Ends : (status : ℤ) (b : Board Q D) → Pooled b → Holds Ends (acknowledge status b)
  ack-Ends status b v =
      Holds-bind _ (on_packets-Pooled (send_ack os status) b (send_ack-Sound os status b.packets v))
        (λ r w. critical-Ends r.0 r.1 (λ b'. some (returned r.0 b')) w (just (at_return w)))

  tolerated_Ends :
      (tolerates : Bool) (o : Option (Outcome Q D))
      → Holds Ends o
      → Holds Ends (if tolerates then o else none)
  tolerated_Ends true o h = h
  tolerated_Ends false o h = nothing

  process_load_mcu_info_packet-Ends :
      (packet : Packet) (b : Board Q D)
      → Pooled b
      → Holds Ends (process_load_mcu_info_packet os dev packet b)
  unfolding process_load_mcu_info_packet
  process_load_mcu_info_packet-Ends packet b v = Holds-any (get_mcu_info packet) _ (λ parsed.
      let b1 = record b { mcu_info = programmer_set_mcu_info parsed.1 b.mcu_info } in
      tolerated_Ends (os.tolerates parsed.2) _ (
        Holds-if (negative parsed.0) (just (at_return v)) (
          Holds-bind _ (enter_loop-Pooled enter_pgm_attempts parsed.0 b1 v) (λ entered w.
            Holds-if (negative entered.0)
              (Holds-bind _ (error-Ends enter_failed entered.1 w)
                (λ r u. critical-Ends r.0 r.1 (acknowledge r.0) u (ack-Ends r.0 r.1 u)))
              (ack-Ends entered.0 entered.1 w)))))

  process_program_memory_packet-Ends :
      (packet : Packet) (b : Board Q D)
      → Pooled b
      → Holds Ends (process_program_memory_packet os dev packet b)
  unfolding process_program_memory_packet
  process_program_memory_packet-Ends packet b v = Holds-any (get_prog_mem_data packet) _ (λ parsed.
      Holds-if (negative parsed.0) (just (at_return v)) (
        Holds-any (programmer_program_memory dev b.mcu_info parsed.1 b.device) _ (λ r.
          let b1 = record b { device = r.1 } in
          Holds-bind _ (Holds-if (negative r.0) (error-Ends program_failed b1 v) (just v))
            (λ s w. critical-Ends r.0 s.1 (acknowledge r.0) w (ack-Ends r.0 s.1 w)))))

  reply-Ends :
      (ptr count : ℕ) (b : Board Q D)
      → Pooled b
      → Holds Ends (do
        (sent, b') ← on_packets os dev (send_packet os ptr memory (u16 count)) b
        some (returned sent b'))
  reply-Ends ptr count b v =
      Holds-bind _
        (on_packets-Pooled (send_packet os ptr memory (u16 count)) b
          (send_packet-Sound os ptr memory (u16 count) b.packets v))
        (λ s u. just (at_return u))

  send_memory-Ends :
      (ptr count : ℕ) (status : ℤ) (b : Board Q D)
      → Pooled b
      → Holds Ends (send_memory os dev ptr count status b)
  unfolding send_memory
  send_memory-Ends ptr count status b v =
      Holds-if (negative status)
        (Holds-bind _ (error-Ends read_failed b v)
          (λ r w. Holds-if (negative r.0) (just (at_return w)) (reply-Ends ptr count r.1 w)))
        (reply-Ends ptr count b v)

  process_read_memory_packet-Ends :
      (ptr : ℕ) (packet : Packet) (b : Board Q D)
      → Pooled b
      → Holds Ends (process_read_memory_packet os dev ptr packet b)
  unfolding process_read_memory_packet
  process_read_memory_packet-Ends ptr packet b v = Holds-any (get_read_mem_data packet) _ (λ parsed.
      Holds-if (negative parsed.0) (just (at_return v)) (
        Holds-any parsed.1 _ (λ mem.
          Holds-bind _ (get_packet_from_pool-IsPacketPool os b.packets v) (λ got w.
            Holds-if (negative got.status) (just (at_return w)) (
              Holds-any got.item _ (λ target.
                Holds-any
                  (programmer_read_memory dev b.mcu_info mem (got.memory target).packet_data
                    b.device)
                  _ (λ r. send_memory-Ends ptr mem.bytes_to_read r.status _ w)))))))

  handle-Ends :
      (h : PacketHandler) (ptr : ℕ) (packet : Packet) (b : Board Q D)
      → Pooled b
      → Holds Ends (handle os dev h ptr packet b)
  unfolding handle
  handle-Ends prog_init ptr packet b v = nothing
  handle-Ends prog_stop ptr packet b v = nothing
  handle-Ends uart_start ptr packet b v = just (at_return v)
  handle-Ends uart_end ptr packet b v = just (at_return v)
  handle-Ends reset_mcu ptr packet b v = process_reset-Ends packet b v
  handle-Ends encryption_on ptr packet b v = just (at_return v)
  handle-Ends sign_on ptr packet b v = just (at_return v)
  handle-Ends load_mcu_info_packet ptr packet b v = process_load_mcu_info_packet-Ends packet b v
  handle-Ends program_memory_packet ptr packet b v = process_program_memory_packet-Ends packet b v
  handle-Ends read_memory_packet ptr packet b v = process_read_memory_packet-Ends ptr packet b v
  handle-Ends cmd_packet ptr packet b v = process_cmd_packet-Ends packet b v

  pub process_packet-Ends :
      (ptr : ℕ) (b : Board Q D) → Pooled b → Holds Ends (process_packet os dev ptr b)
  unfolding process_packet
  process_packet-Ends ptr b v =
      Holds-any (get_elem? packet_handlers (b.packets.heap ptr).header.type) _
        (λ entry. Holds-any entry _ (λ handler. handle-Ends handler ptr (b.packets.heap ptr) b v))
