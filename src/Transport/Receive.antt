-- ===== src/Transport/Receive.antt =====
-- A whole packet received: its header parsed, its body behind it.
use bigblackhardware.Base.{
  ℕ, ◌+◌, ◌*◌, ◌<◌, ◌≤◌, ◌≡◌, refl, ◌∙◌, true, false, some, List, [], ◌∷◌, ◌++◌, ltb, if◌then◌else◌,
  ℤ, pos, negsuc, negative, length, drop, arith,
}
use bigblackhardware.Protocol.{
  int_enums, PacketType, type_code, control_group, programmer_group, packet_header_size,
  start_frame_byte,
}
use bigblackhardware.Packet.{PacketHeader, Packet, parse_header, packet_data_size}
use bigblackhardware.Packet.Wire.{
  WireHeader, IsWire, bytes, command, accepted, outcome, data_size, header_of,
}
use bigblackhardware.Packet.Parse.{parse_header_int}
use bigblackhardware.Transport.{Net, recv_packet}
use bigblackhardware.Transport.Chunks.{Delivers, steps, recv_nbytes-overwritten}

outcome-accepted :
    (r : ℤ × PacketHeader) (g : PacketHeader)
    → outcome r ≡ accepted g
    → (negative r.0 ≡ false) × (r.1 ≡ g)
outcome-accepted (pos n, h) g e = (refl, cc)
outcome-accepted (negsuc n, h) g e = absurd cc

abbrev pub group_header : WireHeader → PacketType → PacketHeader
group_header w type =
    header_of w (type_code type) (if ltb w.type_byte 0x20 then control_group else programmer_group)

parse_header-group_header :
    (w : WireHeader) (type : PacketType) (h : PacketHeader)
    → IsWire w
    → w.start ≡ start_frame_byte
    → data_size w ≤ packet_data_size
    → command w.type_byte ≡ some type
    → outcome (parse_header int_enums (bytes w []) h) ≡ accepted (group_header w type)
parse_header-group_header w type h v start small known =
    let in_limit : ltb 1029 (w.size_high * 256 + w.size_low) ≡ false = ground arith in
    parse_header_int w [] h v ∙ rw (known, start, in_limit) refl

-- Where enumerations are `int`s, and a frame with a known command and 1 to 1024 bytes of data
-- arrives with its header in one chunk and its data in another, receiving the packet succeeds: it
-- has the header of the frame and the data in front of its old contents. There are as many rounds
-- as the socket needs for each of the two chunks, and one more.
pub recv_packet-group_header :
    {S : Type 0} (net : Net S) (rounds sock : ℕ) (p : Packet) (w w0 : WireHeader)
    (type : PacketType) (body : List ℕ) (s s1 t : S)
    (head : Delivers net sock s1 s packet_header_size (bytes w [] ∷ []))
    (rest : Delivers net sock t s1 (data_size w) (body ∷ []))
    → steps head < rounds
    → steps rest < rounds
    → IsWire w
    → w.start ≡ start_frame_byte
    → 0 < data_size w
    → data_size w ≤ packet_data_size
    → command w.type_byte ≡ some type
    → p.raw_header ≡ bytes w0 []
    → length p.packet_data ≡ packet_data_size
    → recv_packet net rounds sock int_enums p s
      ≡ some (
        pos 0,
        record {
          header = group_header w type;
          raw_header = bytes w [];
          packet_data = body ++ drop (length body) p.packet_data;
        },
        t,
      )
unfolding recv_packet
recv_packet-group_header net rounds sock p w w0 type body s s1 t head rest enough enough' v start
      some_data small known raw size =
    let (fine, header) =
      outcome-accepted _ _ (parse_header-group_header w type p.header v start small known) in
    let first =
      recv_nbytes-overwritten net rounds sock 5 (bytes w [] ∷ []) (bytes w0 []) s s1 head enough
        (omega arith) in
    let second =
      recv_nbytes-overwritten net rounds sock (data_size w) (body ∷ []) p.packet_data s1 t rest
        enough' (omega arith) in
    let has_body : ltb 0 (data_size w) ≡ true = ground arith in
    rw (raw, first, fine, header, has_body, second) refl

-- A frame without data is its header.
pub recv_packet-header :
    {S : Type 0} (net : Net S) (rounds sock : ℕ) (p : Packet) (w w0 : WireHeader)
    (type : PacketType) (s s1 : S)
    (head : Delivers net sock s1 s packet_header_size (bytes w [] ∷ []))
    → steps head < rounds
    → IsWire w
    → w.start ≡ start_frame_byte
    → data_size w ≡ 0
    → command w.type_byte ≡ some type
    → p.raw_header ≡ bytes w0 []
    → (status : ℤ) × (recv_packet net rounds sock int_enums p s
        ≡ some (status, record p { header = group_header w type; raw_header = bytes w [] }, s1))
unfolding recv_packet
recv_packet-header net rounds sock p w w0 type s s1 head enough v start no_data known raw =
    let (fine, header) =
      outcome-accepted _ _
        (parse_header-group_header w type p.header v start (omega (arith, no_data)) known) in
    let first =
      recv_nbytes-overwritten net rounds sock 5 (bytes w [] ∷ []) (bytes w0 []) s s1 head enough
        (omega arith) in
    let no_body : ltb 0 (data_size w) ≡ false = ground (arith, no_data) in
    ((parse_header int_enums (bytes w []) p.header).0, rw (raw, first, fine, header, no_body) refl)
