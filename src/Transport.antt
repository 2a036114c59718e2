-- ===== src/Transport.antt =====
-- packet_handler.c, the transport functions: packets over non-blocking sockets. The sockets are a
-- parameter, and so is how the compiler stores enumerations.
pub mod Chunks
pub mod Receive
pub mod Examples
use bigblackhardware.Base.{
  ℕ, zero, suc, ◌+◌, ◌-◌, Bool, true, false, Option, none, some, List, [], ◌∷◌, ◌==◌, ltb,
  if◌then◌else◌, ◌>>=◌, ℤ, pos, negsuc, negative, length, read?, copy?,
}
use bigblackhardware.Protocol.{EnumAbi, packet_header_size}
use bigblackhardware.Packet.{PacketHeader, Packet, parse_header}

-- What `recv` returns: a positive number of bytes and those bytes, 0, EAGAIN, or another error.
pub data Received : Type 0 where
  chunk : ℕ → List ℕ → Received
  closed again : Received
  failed : ℕ → Received

-- What `send` returns: the number of bytes that it took, EAGAIN, or another error.
pub data Sent : Type 0 where
  taken : ℕ → Sent
  busy : Sent
  broken : ℕ → Sent

-- The sockets of the vendor's library, and the delay of the operating system.
pub record Net (S : Type 0) : Type 0 where
  pub recv : (sock n : ℕ) → S → Received × S
  pub send : (sock : ℕ) → List ℕ → S → Sent × S
  pub sleep : ℕ → S → S

-- A run that does not end within the rounds has no result.
module _ {S : Type 0} (net : Net S) where
  -- `buf` is not moved on between two calls of recv.
  unfoldable pub recv_nbytes : (rounds sock remaining : ℕ) → List ℕ → S → Option (ℤ × List ℕ × S)
  recv_nbytes zero sock remaining buf s = none
  recv_nbytes (suc rounds) sock remaining buf s =
      let (r, s1) = net.recv sock remaining s in
      if remaining == 0 then some (pos 0, buf, s) else elim r [
        | chunk b bs ↦ (do
          buf' ← copy? buf (b ∷ bs)
          recv_nbytes rounds sock (remaining - length (b ∷ bs)) buf' s1)
        | closed ↦ some (pos 0, buf, s1)
        | again ↦ recv_nbytes rounds sock remaining buf (net.sleep 1 s1)
        | failed n ↦ some (negsuc n, buf, s1)
      ]

  unfoldable pub send_nbytes : (rounds sock : ℕ) → List ℕ → S → Option (ℤ × S)
  send_nbytes zero sock bytes s = none
  send_nbytes (suc rounds) sock bytes s =
      let (r, s1) = net.send sock bytes s in
      elim r [
        | taken n ↦ some (pos 0, s1)
        | busy ↦ send_nbytes rounds sock bytes s1
        | broken n ↦ some (negsuc n, s1)
      ]

  -- packet_handler.c's own send_packet.
  unfoldable pub send_frame : (rounds sock : ℕ) → Packet → S → Option (ℤ × S)
  send_frame rounds sock packet s = do
    (status, s1) ← send_nbytes rounds sock packet.raw_header s
    let body = (do
      bytes ← read? packet.header.data_size packet.packet_data
      (status', s2) ← send_nbytes rounds sock bytes s1
      some ((if negative status' then status' else pos 0), s2))
    if negative status then some (status, s1) else body

  unfoldable pub recv_packet : (rounds sock : ℕ) → EnumAbi → Packet → S → Option (ℤ × Packet × S)
  recv_packet rounds sock abi packet s = do
    (status, raw, s1) ← recv_nbytes rounds sock packet_header_size packet.raw_header s
    let (parsed, header) = parse_header abi raw packet.header
    let p1 = record packet { raw_header = raw; header = header }
    let body = (do
      (status', contents, s2) ← recv_nbytes rounds sock header.data_size packet.packet_data s1
      some (status', record p1 { packet_data = contents }, s2))
    let received = if ltb 0 header.data_size then body else some (parsed, p1, s1)
    let checked = if negative parsed then some (parsed, p1, s1) else received
    if negative status then some (status, record packet { raw_header = raw }, s1) else checked
