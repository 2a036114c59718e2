-- ===== src/Handling/Frames.antt =====
-- The packet of an answer: its header, and the data that it announces.
use bigblackhardware.Base.{
  ℕ, ◌/◌, ◌%◌, ◌≤◌, ◌≡◌, refl, ap, sym, List, [], ◌∷◌, get_or, take, drop, take-append, length,
  length-take_le,
}
use bigblackhardware.Protocol.{start_frame_byte}
use bigblackhardware.Packet.{Packet}
use bigblackhardware.PacketManager.Send.{IsPacket, packed}

-- An answer's header: no flags, and the type byte that its packet had before.
abbrev pub answer_header : (type_byte n : ℕ) → List ℕ
answer_header type_byte n = start_frame_byte ∷ 0 ∷ type_byte ∷ n / 256 ∷ n % 256 ∷ []

-- A packet whose frame would be the header and `n` bytes of data.
pub record Frames (p : Packet) (header : List ℕ) (n : ℕ) (contents : List ℕ) : Type 0 where
  pub raw_header : p.raw_header ≡ header
  pub data_size : p.header.data_size ≡ n
  pub packet_data : take n p.packet_data ≡ contents

pub packed-Frames :
    (p : Packet) (v : IsPacket p) (xs : List ℕ) (n : ℕ)
    → n ≤ length xs
    → Frames (packed p v xs n) (answer_header (get_or p.raw_header 2 0) n) n (take n xs)
packed-Frames p v xs n enough =
    let old : get_or p.raw_header 2 0 ≡ v.wire.type_byte = ap (λ raw. get_or raw 2 0) v.raw in
    record {
      raw_header = rw old refl;
      data_size = refl;
      packet_data =
          take-append (take n xs) (drop n p.packet_data) n (sym (length-take_le n xs enough));
    }
