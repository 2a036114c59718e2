-- ===== src/Packet/Frame.antt =====
-- `update_header` and `create_packet` of packets.c, and their frames read back by `parse_header`.
use bigblackhardware.Base.{
  ℕ, zero, suc, ◌>>=◌, read?-take, copy?-overflow, copy?-fits, length-take_le, ◌∙◌, ◌+◌, ◌*◌, ◌/◌,
  ◌%◌, ◌^◌, ◌<◌, ◌≤◌, ◌≡◌, refl, ap, false, Option, none, some, List, [], ◌∷◌, ◌++◌, arith, bit_and,
  ◌==◌, ltb, if◌then◌else◌, Bool-cases, inl, inr, bit_and_byte, take, drop, length,
}
use bigblackhardware.Protocol.{
  int_enums, PacketType, type_code, control_group, programmer_group, start_frame_byte,
  max_data_length,
}
use bigblackhardware.Packet.{
  PacketHeader, Packet, packet_success, packet_wrong_size, packet_data_size, set_flag_if,
  update_header, copy_data, create_packet, parse_header,
}
use bigblackhardware.Packet.Wire.{WireHeader, bytes, command, accepted, outcome}
use bigblackhardware.Packet.Parse.{parse_header_int}

-- 1 for a flag that is set, whatever its value.
abbrev pub truth : ℕ → ℕ
truth x = if x == 0 then 0 else 1

-- The header that `update_header` writes: its type byte is the old one.
abbrev pub framed : WireHeader → PacketHeader → WireHeader
framed w h = record {
  start = start_frame_byte;
  flags = truth h.compression + 2 * truth h.encryption + 4 * truth h.sign;
  type_byte = w.type_byte;
  size_high = h.data_size / 256;
  size_low = h.data_size % 256;
}

flag_byte :
    (c e s start : ℕ) (rest : List ℕ)
    → set_flag_if s 2 (set_flag_if e 1 (set_flag_if c 0 (start ∷ 0 ∷ rest)))
      ≡ start ∷ (truth c + 2 * truth e + 4 * truth s) ∷ rest
unfolding set_flag_if
flag_byte c e s start rest = elim (Bool-cases (c == 0)) [
  | inl c0 ↦ elim (Bool-cases (e == 0)) [
    | inl e0 ↦ elim (Bool-cases (s == 0)) [ inl s0 ↦ rw (c0, e0, s0) | inr s1 ↦ rw (c0, e0, s1) ]
    | inr e1 ↦ elim (Bool-cases (s == 0)) [ inl s0 ↦ rw (c0, e1, s0) | inr s1 ↦ rw (c0, e1, s1) ]
  ]
  | inr c1 ↦ elim (Bool-cases (e == 0)) [
    | inl e0 ↦ elim (Bool-cases (s == 0)) [ inl s0 ↦ rw (c1, e0, s0) | inr s1 ↦ rw (c1, e0, s1) ]
    | inr e1 ↦ elim (Bool-cases (s == 0)) [ inl s0 ↦ rw (c1, e1, s0) | inr s1 ↦ rw (c1, e1, s1) ]
  ]
]

-- For at most 1029 bytes of data, `update_header` writes the start byte, the flags and the size,
-- and leaves the type byte alone.
pub update_header-framed :
    (p : Packet) (w : WireHeader)
    → p.raw_header ≡ bytes w []
    → p.header.data_size ≤ max_data_length
    → update_header p ≡ (packet_success, record p { raw_header = bytes (framed w p.header) [] })
unfolding update_header
update_header-framed p w e fits =
    let high : bit_and (p.header.data_size / 2 ^ 8) 255 ≡ p.header.data_size / 256 =
      omega (arith, bit_and_byte (p.header.data_size / 2 ^ 8)) in
    let low : bit_and (p.header.data_size / 2 ^ 0) 255 ≡ p.header.data_size % 256 =
      omega (arith, bit_and_byte (p.header.data_size / 2 ^ 0)) in
    let small : ltb max_data_length p.header.data_size ≡ false = ground arith in
    rw (small, e, high, low)
      (ap (λ (raw : List ℕ). (packet_success, record p { raw_header = raw }))
        (flag_byte p.header.compression p.header.encryption p.header.sign start_frame_byte
          (w.type_byte ∷ p.header.data_size / 256 ∷ p.header.data_size % 256 ∷ [])))

-- The header of a packet built for sending; its type and group stay what they were.
abbrev pub filled : Packet → (c s e n : ℕ) → PacketHeader
filled p c s e n = record (p.header) { compression = c; sign = s; encryption = e; data_size = n }

abbrev pub sent : Packet → WireHeader → PacketHeader → List ℕ → Packet
sent p w h body = record { header = h; raw_header = bytes (framed w h) []; packet_data = body }

copy_data-take :
    (p : Packet) (src : List ℕ) (n : ℕ)
    → n ≤ length src
    → n ≤ length p.packet_data
    → copy_data (some src) n p
      ≡ some (record p { packet_data = take n src ++ drop n p.packet_data })
unfolding copy_data
copy_data-take p src zero enough fits = refl
copy_data-take p src (suc n) enough fits =
    rw
      (
        read?-take (suc n) src enough,
        copy?-fits p.packet_data (take (suc n) src) (suc n) (length-take_le (suc n) src enough)
            fits,
      )
      (ground arith)

pub create_packet-sent :
    (p : Packet) (w : WireHeader) (type : PacketType) (c s e : ℕ) (src : List ℕ) (n : ℕ)
    → p.raw_header ≡ bytes w []
    → length p.packet_data ≡ packet_data_size
    → n ≤ packet_data_size
    → n ≤ length src
    → create_packet p type c s e (some src) n
      ≡ some (packet_success, sent p w (filled p c s e n) (take n src ++ drop n p.packet_data))
unfolding create_packet
create_packet-sent p w type c s e src n raw size fits enough =
    rw (update_header-framed (record p { header = filled p c s e n }) w raw (omega arith)) (
      ap (λ (o : Option Packet). o >>= λ q. some (packet_success, q))
        (copy_data-take (record p { header = h; raw_header = bytes (framed w h) [] }) src n enough
          (omega arith)))
  where
    h : PacketHeader
    h = filled p c s e n

-- The header that reads back: the flags and the size are the ones that were asked for.
abbrev pub read_back : (t : PacketType) (type_byte c s e n : ℕ) → PacketHeader
read_back t type_byte c s e n = record {
  type = type_code t;
  group = if ltb type_byte 0x20 then control_group else programmer_group;
  data_size = n;
  compression = truth c;
  encryption = truth e;
  sign = truth s;
}

-- Where enumerations are `int`s, a packet that `create_packet` builds from `n` bytes of data, at
-- most 1024, over a raw header with a known command parses back to the flags and the size that were
-- asked for, and holds the data in front of its old contents. Its type is not the one that was
-- asked for: it is that of the command that was in the raw header before.
pub create-parse :
    (p : Packet) (w : WireHeader) (type t : PacketType) (c s e : ℕ) (src : List ℕ) (n : ℕ)
    (h : PacketHeader)
    → p.raw_header ≡ bytes w []
    → w.type_byte < 256
    → command w.type_byte ≡ some t
    → length p.packet_data ≡ packet_data_size
    → n ≤ packet_data_size
    → n ≤ length src
    → (q : Packet) × (create_packet p type c s e (some src) n ≡ some (packet_success, q))
      × (outcome (parse_header int_enums q.raw_header h)
          ≡ accepted (read_back t w.type_byte c s e n))
      × (q.packet_data ≡ take n src ++ drop n p.packet_data)
create-parse p w type t c s e src n h raw byte known size fits enough = (
  sent p w (filled p c s e n) (take n src ++ drop n p.packet_data),
  create_packet-sent p w type c s e src n raw size fits enough,
  parse_header_int (framed w (filled p c s e n)) [] h (ground arith) ∙ rw known (ground arith),
  refl,
)

-- The data field has 1024 bytes and the protocol's limit is 1029: `create_packet` refuses more than
-- 1029 bytes, with the header's new flags and size already stored, and copies past the end of the
-- field for 1025 to 1029.
pub create_packet-oversize :
    (p : Packet) (w : WireHeader) (type : PacketType) (c s e : ℕ) (src : List ℕ) (n : ℕ)
    → p.raw_header ≡ bytes w []
    → length p.packet_data ≡ packet_data_size
    → packet_data_size < n
    → n ≤ length src
    → create_packet p type c s e (some src) n ≡ (
        if ltb max_data_length n
        then some (packet_wrong_size, record p { header = filled p c s e n })
        else none)
create_packet-oversize p w type c s e src n raw size big enough =
    elim (Bool-cases (ltb max_data_length n)) [
      | inl refused ↦ rw refused (unfold create_packet update_header in rw refused)
      | inr passed ↦ rw passed (past_end passed)
    ]
  where
    h : PacketHeader
    h = filled p c s e n

    past_end : ltb max_data_length n ≡ false → create_packet p type c s e (some src) n ≡ none
    past_end passed =
        unfold create_packet copy_data in
        rw
          (
            update_header-framed (record p { header = h }) w raw (ground arith),
            read?-take n src enough,
            copy?-overflow p.packet_data (take n src) (omega (arith, length-take_le n src enough)),
          )
          (ground arith)
