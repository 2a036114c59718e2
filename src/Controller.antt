-- ===== src/Controller.antt =====
-- controller.c: what each packet from the host makes the programmer do.
pub mod Handlers
pub mod Reply
pub mod Pools
mod Examples
use bigblackhardware.Base.{
  ℕ, zero, suc, ◌==◌, Bool, not, Option, none, some, List, [], ◌∷◌, if◌then◌else◌, ◌>>=◌, ℤ, pos,
  negsuc, negative, u8, u16, get_elem?, read?,
}
use bigblackhardware.Protocol.{memory}
use bigblackhardware.Packet.{Packet}
use bigblackhardware.Parser.{avr_cmd_size}
use bigblackhardware.Payload.{AvrMcuInfo, get_mcu_info, get_prog_mem_data, get_read_mem_data}
use bigblackhardware.PacketManager.{
  Os, Packets, store, get_packet_from_pool, send_packet, send_ack, send_error, send_avr_cmd,
}
use bigblackhardware.Programmer.{
  Device, mcu_reset_on, mcu_reset_off, sys_reset_mcu, programmer_write_cmd, programmer_set_mcu_info,
  programmer_enable_pgm_mode, programmer_program_memory,
}
use bigblackhardware.Programmer.Read.{programmer_read_memory}

pub record Board (Q D : Type 0) : Type 0 where
  pub packets : Packets Q
  pub device : D
  pub mcu_info : Option AvrMcuInfo

-- A handler returns a status, or the board is restarted.
pub data Outcome (Q D : Type 0) : Type 0 where
  returned : ℤ → Board Q D → Outcome Q D
  restarted : Board Q D → Outcome Q D

-- SYS_ASSERT_CRITICAL
abbrev pub critical :
    {Q D : Type 0} → ℤ → Board Q D → (Board Q D → Option (Outcome Q D)) → Option (Outcome Q D)
critical status b rest = if negative status then some (restarted b) else rest b

-- The functions of the table of handlers, with the packet types in their order.
pub data PacketHandler : Type 0 where
  prog_init prog_stop uart_start uart_end reset_mcu encryption_on sign_on : PacketHandler
  load_mcu_info_packet program_memory_packet read_memory_packet cmd_packet : PacketHandler

-- A NULL entry is `none`.
abbrev pub packet_handlers : List (Option PacketHandler)
packet_handlers =
    some prog_init
    ∷ some prog_stop
    ∷ some uart_start
    ∷ some uart_end
    ∷ some reset_mcu
    ∷ none
    ∷ none
    ∷ none
    ∷ some encryption_on
    ∷ some sign_on
    ∷ none
    ∷ none
    ∷ none
    ∷ none
    ∷ some load_mcu_info_packet
    ∷ some program_memory_packet
    ∷ some read_memory_packet
    ∷ none
    ∷ some cmd_packet
    ∷ none
    ∷ none
    ∷ []

abbrev pub enter_pgm_attempts : ℕ
enter_pgm_attempts = 10

-- The messages of the error packets.
abbrev pub load_failed : List ℕ
load_failed =
    b'F' ∷ b'a' ∷ b'i' ∷ b'l' ∷ b'e' ∷ b'd' ∷ 32 ∷ b't' ∷ b'o' ∷ 32 ∷ b'l' ∷ b'o' ∷ b'a' ∷ b'd' ∷ 32
    ∷ b'c' ∷ b'o' ∷ b'm' ∷ b'm' ∷ b'a' ∷ b'n' ∷ b'd' ∷ 32 ∷ b'i' ∷ b'n' ∷ b't' ∷ b'o' ∷ 32 ∷ b'M'
    ∷ b'C' ∷ b'U' ∷ 13 ∷ 10 ∷ []

abbrev pub enter_failed : List ℕ
enter_failed =
    b'F' ∷ b'a' ∷ b'i' ∷ b'l' ∷ b'e' ∷ b'd' ∷ 32 ∷ b't' ∷ b'o' ∷ 32 ∷ b'e' ∷ b'n' ∷ b't' ∷ b'e'
    ∷ b'r' ∷ 32 ∷ b'P' ∷ b'G' ∷ b'M' ∷ 32 ∷ b'm' ∷ b'o' ∷ b'd' ∷ b'e' ∷ 13 ∷ 10 ∷ []

abbrev pub program_failed : List ℕ
program_failed =
    b'F' ∷ b'a' ∷ b'i' ∷ b'l' ∷ b'e' ∷ b'd' ∷ 32 ∷ b't' ∷ b'o' ∷ 32 ∷ b'p' ∷ b'r' ∷ b'o' ∷ b'g'
    ∷ b'r' ∷ b'a' ∷ b'm' ∷ 32 ∷ b'm' ∷ b'e' ∷ b'm' ∷ b'o' ∷ b'r' ∷ b'y' ∷ 13 ∷ 10 ∷ []

abbrev pub read_failed : List ℕ
read_failed =
    b'F' ∷ b'a' ∷ b'i' ∷ b'l' ∷ b'e' ∷ b'd' ∷ 32 ∷ b't' ∷ b'o' ∷ 32 ∷ b'r' ∷ b'e' ∷ b'a' ∷ b'd' ∷ 32
    ∷ b'm' ∷ b'e' ∷ b'm' ∷ b'o' ∷ b'r' ∷ b'y' ∷ 13 ∷ 10 ∷ []

module _ {Q D : Type 0} (os : Os Q) (dev : Device D) where
  -- Sending goes to the packets' part of the board.
  abbrev pub on_packets : (Packets Q → Option (ℤ × Packets Q)) → Board Q D → Option (ℤ × Board Q D)
  on_packets f b = do (status, p) ← f b.packets; some (status, record b { packets = p })

  unfoldable pub process_reset : Packet → Board Q D → Option (Outcome Q D)
  process_reset packet b = do
    first ← get_elem? packet.packet_data 0
    second ← get_elem? packet.packet_data 1
    some (
        if first == 1
        then returned (pos 0) (record b { device = sys_reset_mcu dev mcu_reset_on b.device })
        else if second == 0
        then returned (pos 0) (record b { device = sys_reset_mcu dev mcu_reset_off b.device })
        else returned (negsuc 0) b)

  -- cmd_size is a _u8.
  unfoldable pub process_cmd_packet : Packet → Board Q D → Option (Outcome Q D)
  process_cmd_packet packet b =
      let run = (do
        cmd ← read? avr_cmd_size packet.packet_data
        let (status, answer, d) = programmer_write_cmd dev cmd b.device
        let b1 = record b { device = d }
        (_, b2) ←
            (if negative status
              then on_packets (send_error os load_failed) b1
              else some (status, b1))
        (sent, b3) ← on_packets (send_avr_cmd os answer) b2
        some (returned sent b3)) in
      if not (u8 packet.header.data_size == avr_cmd_size) then some (returned (negsuc 0) b) else run

  -- The attempts to enter the programming mode, up to one with a status that is not negative.
  unfoldable pub enter_loop : (attempts : ℕ) → ℤ → Board Q D → Option (ℤ × Board Q D)
  enter_loop zero status b = some (status, b)
  enter_loop (suc attempts) status b = do
    (entered, d) ← programmer_enable_pgm_mode dev b.mcu_info b.device
    let b1 = record b { device = d }
    let rest = enter_loop attempts entered b1
    if negative entered then rest else some (entered, b1)

  -- The writes of get_mcu_info behind its blocks end the run, unless they are tolerated.
  unfoldable pub process_load_mcu_info_packet : Packet → Board Q D → Option (Outcome Q D)
  process_load_mcu_info_packet packet b = do
    (parsed, info, strays) ← get_mcu_info packet
    let b1 = record b { mcu_info = programmer_set_mcu_info info b.mcu_info }
    let answer = (λ (status : ℤ) (b : Board Q D). do
      (sent, b') ← on_packets (send_ack os status) b
      critical sent b' (λ b''. some (returned sent b'')))
    let run = (do
      (status, b2) ← enter_loop enter_pgm_attempts parsed b1
      let failed = (do
        (sent, b3) ← on_packets (send_error os enter_failed) b2
        critical sent b3 (answer sent))
      if negative status then failed else answer status b2)
    let tolerated = (if negative parsed then some (returned parsed b) else run)
    if os.tolerates strays then tolerated else none

  unfoldable pub process_program_memory_packet : Packet → Board Q D → Option (Outcome Q D)
  process_program_memory_packet packet b = do
    (parsed, mem) ← get_prog_mem_data packet
    let run = (do
      (status, d) ← programmer_program_memory dev b.mcu_info mem b.device
      let b1 = record b { device = d }
      (_, b2) ←
          (if negative status
            then on_packets (send_error os program_failed) b1
            else some (status, b1))
      critical status b2 (λ b3. do
        (sent, b4) ← on_packets (send_ack os status) b3
        critical sent b4 (λ b5. some (returned sent b5))))
    if negative parsed then some (returned parsed b) else run

  -- What follows reading: `ptr` is the packet of the request.
  unfoldable pub send_memory : ℕ → ℕ → ℤ → Board Q D → Option (Outcome Q D)
  send_memory ptr count status b =
      let reply = (λ (b : Board Q D). do
        (sent, b') ← on_packets (send_packet os ptr memory (u16 count)) b
        some (returned sent b')) in
      let failed = (do
        (sent, b') ← on_packets (send_error os read_failed) b
        if negative sent then some (returned sent b') else reply b') in
      if negative status then failed else reply b

  unfoldable pub process_read_memory_packet : ℕ → Packet → Board Q D → Option (Outcome Q D)
  process_read_memory_packet ptr packet b = do
    (parsed, request) ← get_read_mem_data packet
    let run = (do
      mem ← request
      got ← get_packet_from_pool os b.packets
      let p1 = record (b.packets) { pool = got.pool; heap = got.memory }
      let read = (do
        target ← got.item
        r ← programmer_read_memory dev b.mcu_info mem (p1.heap target).packet_data b.device
        let p2 = record p1 {
          heap = store target (record (p1.heap target) { packet_data = r.buf }) p1.heap;
        }
        send_memory ptr mem.bytes_to_read r.status (record b { packets = p2; device = r.device }))
      if negative got.status then some (returned got.status (record b { packets = p1 })) else read)
    if negative parsed then some (returned parsed b) else run

  -- process_prog_init and process_prog_stop return a status that was never initialised.
  unfoldable pub handle : PacketHandler → ℕ → Packet → Board Q D → Option (Outcome Q D)
  handle prog_init ptr packet b = none
  handle prog_stop ptr packet b = none
  handle uart_start ptr packet b = some (returned (pos 0) b)
  handle uart_end ptr packet b = some (returned (pos 0) b)
  handle reset_mcu ptr packet b = process_reset packet b
  handle encryption_on ptr packet b = some (returned (pos 0) b)
  handle sign_on ptr packet b = some (returned (pos 0) b)
  handle load_mcu_info_packet ptr packet b = process_load_mcu_info_packet packet b
  handle program_memory_packet ptr packet b = process_program_memory_packet packet b
  handle read_memory_packet ptr packet b = process_read_memory_packet ptr packet b
  handle cmd_packet ptr packet b = process_cmd_packet packet b

  -- A type outside of the table, or a NULL entry, is a call of an invalid pointer.
  unfoldable pub process_packet : ℕ → Board Q D → Option (Outcome Q D)
  process_packet ptr b = do
    let packet = b.packets.heap ptr
    entry ← get_elem? packet_handlers packet.header.type
    handler ← entry
    handle handler ptr packet b
