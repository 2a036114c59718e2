-- ===== src/Payload/Memory.antt =====
-- The payloads of the commands that program and read memory, and the echo check.
use bigblackhardware.Base.{
  ℕ, ◌+◌, ◌-◌, ◌*◌, ◌/◌, ◌%◌, ◌^◌, ◌<◌, ◌≤◌, ◌≡◌, ◌↔◌, refl, ap, none, some, List, [], ◌∷◌, arith,
  ◌==◌, ltb, if◌then◌else◌, pos, negsuc, u8, u32, bit_or, bit_or-add, length, drop, take,
  get_elem?-of_drop, drop-suc, drop-add, read?-take, Bool-cases, inl, inr,
}
use bigblackhardware.Packet.{Packet}
use bigblackhardware.Payload.{
  get_memory_type, read_u32, get_prog_mem_data, get_read_mem_data, check_cmd_status,
}

-- A 32-bit number, highest byte first, and what follows it.
abbrev pub u32_bytes : ℕ → List ℕ → List ℕ
u32_bytes a rest = a / 2 ^ 24 ∷ a / 2 ^ 16 % 256 ∷ a / 2 ^ 8 % 256 ∷ a % 256 ∷ rest

joined :
    (a : ℕ)
    → a < 2 ^ 32
    → bit_or
        (bit_or
          (bit_or (a / 2 ^ 24 * 2 ^ 24) (a / 2 ^ 16 % 256 * 2 ^ 16))
          (a / 2 ^ 8 % 256 * 2 ^ 8))
        (a % 256)
      ≡ a
joined a h =
    let one : bit_or (a / 2 ^ 24 * 2 ^ 24) (a / 2 ^ 16 % 256 * 2 ^ 16) ≡ a / 2 ^ 16 * 2 ^ 16 =
      omega (arith, bit_or-add 24 (a / 2 ^ 24) (a / 2 ^ 16 % 256 * 2 ^ 16) (omega arith)) in
    let two : bit_or (a / 2 ^ 16 * 2 ^ 16) (a / 2 ^ 8 % 256 * 2 ^ 8) ≡ a / 2 ^ 8 * 2 ^ 8 =
      omega (arith, bit_or-add 16 (a / 2 ^ 16) (a / 2 ^ 8 % 256 * 2 ^ 8) (omega arith)) in
    rw (one, two) (omega (arith, bit_or-add 8 (a / 2 ^ 8) (a % 256) (omega arith)))

read_u32-bytes :
    (buf rest : List ℕ) (i a : ℕ)
    → drop i buf ≡ u32_bytes a rest
    → a < 2 ^ 32
    → read_u32 buf i ≡ some a
unfolding read_u32
read_u32-bytes buf rest i a e h =
    let d1 = drop-add buf i (a / 2 ^ 24 ∷ []) _ (i + 1) e refl in
    let d2 = drop-add buf (i + 1) (a / 2 ^ 16 % 256 ∷ []) _ (i + 2) d1 (omega arith) in
    let d3 = drop-add buf (i + 2) (a / 2 ^ 8 % 256 ∷ []) _ (i + 3) d2 (omega arith) in
    rw
      (
        get_elem?-of_drop buf i _ _ e,
        get_elem?-of_drop buf (i + 1) _ _ d1,
        get_elem?-of_drop buf (i + 2) _ _ d2,
        get_elem?-of_drop buf (i + 3) _ _ d3,
      )
      (rw (joined a h) (ap some (omega arith)))

-- The number of data bytes that the parser sees for a payload of `size` bytes.
abbrev pub seen : ℕ → ℕ
seen size = if ltb size 5 then size + 251 else (size - 5) % 256

abbrev a_bytes : ℕ → List ℕ
a_bytes a = a / 2 ^ 24 ∷ a / 2 ^ 16 % 256 ∷ a / 2 ^ 8 % 256 ∷ a % 256 ∷ []

data_len_lem : (n : ℕ) → n < 2 ^ 16 → u8 (u32 (n + 2 ^ 32 - 5)) ≡ seen n
data_len_lem n h = ground arith

seen-le : (n m : ℕ) → 255 ≤ m → seen n ≤ m
seen-le n m h = ground arith

-- The payload of a command that programs memory, in a buffer of at least 260 bytes: the address and
-- the memory are read back. The data is exact for payloads of 5 to 260 bytes; of a longer one only
-- as many bytes are taken as its data's length modulo 256, and one that is too short for the fixed
-- part gets its size and 251 more bytes of the buffer.
pub get_prog_mem_data-bytes :
    (p : Packet) (address type_byte : ℕ) (body : List ℕ)
    → p.packet_data ≡ u32_bytes address (type_byte ∷ body)
    → address < 2 ^ 32
    → p.header.data_size < 2 ^ 16
    → 255 ≤ length body
    → get_prog_mem_data p
      ≡ some (
        pos 0,
        record {
          start_address = address;
          memory_type = get_memory_type type_byte;
          data_len = seen p.header.data_size;
          contents = take (seen p.header.data_size) body;
        },
      )
unfolding get_prog_mem_data
get_prog_mem_data-bytes p address type_byte body e h small room =
    let d4 = drop-add p.packet_data 0 (a_bytes address) _ 4 e refl in
    let d5 = drop-suc p.packet_data 4 type_byte body d4 in
    rw
      (
        read_u32-bytes p.packet_data (type_byte ∷ body) 0 address e h,
        get_elem?-of_drop p.packet_data 4 _ _ d4,
        d5,
        data_len_lem p.header.data_size small,
        read?-take (seen p.header.data_size) body (seen-le p.header.data_size (length body) room),
      )
      refl

-- The payload of a command that reads memory is accepted exactly at nine bytes, and read back.
pub get_read_mem_data-bytes :
    (p : Packet) (address count type_byte : ℕ) (rest : List ℕ)
    → p.packet_data ≡ type_byte ∷ u32_bytes address (u32_bytes count rest)
    → address < 2 ^ 32
    → count < 2 ^ 32
    → get_read_mem_data p ≡ (
        if p.header.data_size == 9
        then some (
          pos 0,
          some (record {
            start_address = address;
            bytes_to_read = count;
            mem_t = get_memory_type type_byte;
          }),
        )
        else some (negsuc 0, none))
unfolding get_read_mem_data
get_read_mem_data-bytes p address count type_byte rest e h k =
    let d1 = drop-suc p.packet_data 0 type_byte _ e in
    let d5 = drop-add p.packet_data 1 (a_bytes address) _ 5 d1 refl in
    rw
      (
        read_u32-bytes p.packet_data (u32_bytes count rest) 1 address d1 h,
        read_u32-bytes p.packet_data rest 5 count d5 k,
        get_elem?-of_drop p.packet_data 0 _ _ e,
      )
      (elim (Bool-cases (p.header.data_size == 9)) [ inl q ↦ rw q refl | inr q ↦ rw q refl ])

-- An answer of four bytes is good exactly when its last three bytes are the first three of the
-- command.
pub check_cmd_status-echo :
    (c0 c1 c2 c3 a0 a1 a2 a3 : ℕ)
    → (check_cmd_status (c0 ∷ c1 ∷ c2 ∷ c3 ∷ []) (a0 ∷ a1 ∷ a2 ∷ a3 ∷ []) ≡ pos 0)
      ↔ ((a1 ≡ c0) × (a2 ≡ c1) × (a3 ≡ c2))
unfolding check_cmd_status
check_cmd_status-echo c0 c1 c2 c3 a0 a1 a2 a3 = ground arith
