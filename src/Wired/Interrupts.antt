-- ===== src/Wired/Interrupts.antt =====
-- The interrupts of the DMA controller: which states follow which.
use bigblackhardware.Base.{
  ℕ, ◌≡◌, refl, true, none, some, List, ◌++◌, ℤ, negative, length, drop, arith,
}
use bigblackhardware.Protocol.{EnumAbi}
use bigblackhardware.Packet.{parse_header}
use bigblackhardware.Wired.{Wired, WiredState, recv_header, recv_body, wired_recv, uart_irq_hdnl}

-- The bytes that a transfer puts at the start of the buffer.
abbrev pub transferred : List ℕ → Wired → Wired
transferred bytes w = record w {
  cfg_packet = record (w.cfg_packet) {
    packet_data = bytes ++ drop (length bytes) w.cfg_packet.packet_data;
  };
}

-- A transfer that was set up ends, and its interrupt is handled.
pub data Interrupt (abi : EnumAbi) (s t : Wired) : Type 0 where
  ends :
      (bytes : List ℕ) (created : ℤ)
      → s.dma ≡ some (length bytes)
      → t ≡ uart_irq_hdnl abi created (transferred bytes s)
      → Interrupt abi s t

pub data Runs (abi : EnumAbi) (s : Wired) : Wired → Type 0 where
  start : Runs abi s s
  next : {t u : Wired} → Runs abi s t → Interrupt abi t u → Runs abi s u

body_stays :
    (abi : EnumAbi) (created : ℤ) (w : Wired)
    → w.state ≡ recv_body
    → (uart_irq_hdnl abi created w).state ≡ recv_body
unfolding uart_irq_hdnl wired_recv
body_stays abi created w e = ground arith

-- Once the receiver waits for a body, no sequence of interrupts takes it back to headers.
pub Runs-recv_body :
    {abi : EnumAbi} {s t : Wired} → s.state ≡ recv_body → Runs abi s t → t.state ≡ recv_body
Runs-recv_body e start = e
Runs-recv_body {abi} e (next {t = t} r (ends bytes created armed eq)) =
    rw eq (body_stays abi created (transferred bytes t) (Runs-recv_body e r))

no_transfer :
    (abi : EnumAbi) (created : ℤ) (w : Wired)
    → (w.state ≡ recv_header
        → negative (parse_header abi w.cfg_packet.packet_data w.cfg_packet.header).0 ≡ true)
    → (w.state ≡ recv_body → negative created ≡ true)
    → (uart_irq_hdnl abi created w).dma ≡ none
unfolding uart_irq_hdnl
no_transfer abi created w bad refused = by_state w.state refl
  where
    by_state : (st : WiredState) → w.state ≡ st → (uart_irq_hdnl abi created w).dma ≡ none
    by_state recv_header e = rw (e, bad e) refl
    by_state recv_body e = rw (e, refused e) refl

nothing_follows : {abi : EnumAbi} {s t : Wired} → s.dma ≡ none → Runs abi s t → t ≡ s
nothing_follows e start = refl
nothing_follows e (next r (ends bytes created armed eq)) =
    let same = nothing_follows e r in absurd (let armed' = rw same at armed in cc)

-- After a header that does not parse, or a body for which the updater task is not created, no
-- interrupt follows.
pub uart_irq_hdnl-Runs :
    (abi : EnumAbi) (created : ℤ) (w t : Wired)
    → (w.state ≡ recv_header
        → negative (parse_header abi w.cfg_packet.packet_data w.cfg_packet.header).0 ≡ true)
    → (w.state ≡ recv_body → negative created ≡ true)
    → Runs abi (uart_irq_hdnl abi created w) t
    → t ≡ uart_irq_hdnl abi created w
uart_irq_hdnl-Runs abi created w t bad refused r =
    nothing_follows (no_transfer abi created w bad refused) r
