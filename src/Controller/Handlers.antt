-- ===== src/Controller/Handlers.antt =====
-- The handlers that program the microcontroller, and the types that have a handler.
use bigblackhardware.Base.{
  true, ℕ, suc, ◌≡◌, refl, ap, Bool, false, ◌||◌, ◌==◌, if◌then◌else◌, none, some, List, [], ◌∷◌, ℤ,
  pos, negative, arith, Bool-cases, inl, inr,
}
use bigblackhardware.Protocol.{error}
use bigblackhardware.Packet.{Packet}
use bigblackhardware.Payload.{AvrMcuInfo, AvrProgMemData, Stray, get_mcu_info, get_prog_mem_data}
use bigblackhardware.PacketManager.{Heap, Os, send_error}
use bigblackhardware.PacketManager.Send.{
  IsPackets, Given, next_packet, queued, create_send_packet-queued, send_ack-queued,
}
use bigblackhardware.Programmer.{
  Device, programmer_set_mcu_info, programmer_enable_pgm_mode, programmer_program_memory,
}
use bigblackhardware.Programmer.Enable.{programmer_enable_pgm_mode-Enters}
use bigblackhardware.Controller.{
  Board, returned, restarted, program_failed, enter_loop, process_load_mcu_info_packet,
  process_program_memory_packet, process_packet, handle,
}

-- The types with a handler that returns a status: the UART's init and stop, reset, the enabling of
-- encryption and signing, and the programmer's packets but the memory packet.
abbrev pub handled : ℕ → Bool
handled t =
    (t == 2)
    || (t == 3)
    || (t == 4)
    || (t == 8)
    || (t == 9)
    || (t == 14)
    || (t == 15)
    || (t == 16)
    || (t == 18)

module _ {Q D : Type 0} (os : Os Q) (dev : Device D) where
  -- A packet whose type is none of the nine that `handled` lists has no defined behaviour when it
  -- is processed.
  pub process_packet-handled :
      (ptr : ℕ) (b : Board Q D)
      → handled (b.packets.heap ptr).header.type ≡ false
      → process_packet os dev ptr b ≡ none
  unfolding process_packet handle
  process_packet-handled ptr b h = ground arith

  -- The first attempt is the last one.
  enter_loop_first :
      (n : ℕ) (info : AvrMcuInfo) (before status : ℤ) (b : Board Q D) (d : D)
      → programmer_enable_pgm_mode dev (some info) b.device ≡ some (status, d)
      → negative status ≡ false
      → b.mcu_info ≡ some info
      → enter_loop os dev (suc n) before b ≡ some (status, record b { device = d })
  unfolding enter_loop
  enter_loop_first n info before status b d run fine loaded = rw (loaded, run, fine) refl

  -- Where the info can be read, its writes behind the blocks are tolerated and the pool has a packet, loading the MCU info returns success and
  -- acknowledges success, whether or not the microcontroller enters the programming mode, for which
  -- there is one call with the new info. The pool gives exactly the packet of the acknowledgement away, and all packets stay well formed.
  pub process_load_mcu_info_packet-queued :
      (packet : Packet) (b : Board Q D) (info : AvrMcuInfo) (strays : List Stray) (ptr : ℕ)
      (v : IsPackets b.packets)
      → get_mcu_info packet ≡ some (pos 0, info, strays)
      → os.tolerates strays ≡ true
      → next_packet os b.packets ≡ some ptr
      → (t : Board Q D) × (process_load_mcu_info_packet os dev packet b ≡ some (returned (pos 0) t))
        × (t.mcu_info ≡ some info)
        × ((entered : ℤ) × (programmer_enable_pgm_mode dev (some info) b.device
              ≡ some (entered, t.device)))
        × Given os b.packets t.packets
        × ((pos 0, t.packets.heap, t.packets.queue) ≡ queued os b.packets v (1 ∷ []) 1 (some ptr))
  unfolding process_load_mcu_info_packet programmer_set_mcu_info
  process_load_mcu_info_packet-queued packet b info strays ptr v parsed tolerated free =
      let (status, d, run, _, either) = programmer_enable_pgm_mode-Enters dev info b.device in
      let fine : negative status ≡ false = elim either [
        | inl one ↦ rw one refl
        | inr zero_status ↦ rw zero_status refl
      ] in
      let (sent, p, acked, well, rest, e) = send_ack-queued os b.packets status v in
      let e' = rw (fine, free) at e in
      let ok : sent ≡ pos 0 = ap (λ (r : ℤ × Heap × Q). r.0) e' in
      let entered =
        enter_loop_first 9 info (pos 0) status (record b { mcu_info = some info }) d run fine
          refl in
      (
        record { packets = p; device = d; mcu_info = some info },
        rw (parsed, tolerated, entered, fine, acked, ok) refl,
        refl,
        (status, run),
        record { packets = well; rest = rest },
        rw ok at e',
      )

  -- Where the payload can be read, programming has a status and the pool has a packet, programming
  -- memory is answered with an acknowledgement of success, or with an error packet and a restart of
  -- the board: a failure is never acknowledged. The info is kept, the pool gives exactly the packet
  -- of the answer away, and all packets stay well formed.
  pub process_program_memory_packet-queued :
      (packet : Packet) (b : Board Q D) (mem : AvrProgMemData) (status : ℤ) (d : D) (ptr : ℕ)
      (v : IsPackets b.packets)
      → get_prog_mem_data packet ≡ some (pos 0, mem)
      → programmer_program_memory dev b.mcu_info mem b.device ≡ some (status, d)
      → next_packet os b.packets ≡ some ptr
      → (t : Board Q D) × (process_program_memory_packet os dev packet b
          ≡ some (if negative status then restarted t else returned (pos 0) t))
        × (t.device ≡ d)
        × (t.mcu_info ≡ b.mcu_info)
        × Given os b.packets t.packets
        × ((pos 0, t.packets.heap, t.packets.queue) ≡ (
            if negative status
            then queued os b.packets v program_failed 26 (some ptr)
            else queued os b.packets v (1 ∷ []) 1 (some ptr)))
  unfolding process_program_memory_packet send_error
  process_program_memory_packet-queued packet b mem status d ptr v parsed run free =
      elim (Bool-cases (negative status)) [
        | inl bad ↦
            let (sent, p, told, well, rest, e) =
              create_send_packet-queued os b.packets error program_failed 26 v (omega arith)
                (omega arith) in
            let e' = rw free at e in
            let ok : sent ≡ pos 0 = ap (λ (r : ℤ × Heap × Q). r.0) e' in
            (
              record b { packets = p; device = d },
              rw (parsed, run, bad, told) refl,
              refl,
              refl,
              record { packets = well; rest = rest },
              rw bad (rw ok at e'),
            )
        | inr good ↦
            let (sent, p, acked, well, rest, e) = send_ack-queued os b.packets status v in
            let e' = rw (good, free) at e in
            let ok : sent ≡ pos 0 = ap (λ (r : ℤ × Heap × Q). r.0) e' in
            (
              record b { packets = p; device = d },
              rw (parsed, run, good, acked, ok) refl,
              refl,
              refl,
              record { packets = well; rest = rest },
              rw good (rw ok at e'),
            )
      ]
