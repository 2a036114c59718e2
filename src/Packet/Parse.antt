-- ===== src/Packet/Parse.antt =====
-- `parse_header` of packets.c against the table of protocol.h.
use bigblackhardware.Base.{
  ℕ, ◌+◌, ◌*◌, ◌/◌, ◌%◌, ◌<◌, ◌≡◌, refl, ap, ◌≢◌, Bool, true, false, Option, none, some, List,
  arith, ◌==◌, ltb, Bool-cases, inl, inr, if◌then◌else◌, ℤ, pos, negsuc, bit_or, bit_and_sixteen,
  bit_and_thirty_two, bit_and_forty_eight, bit_and-one, not, bit_or-add, zero-bit_or,
}
use bigblackhardware.Protocol.{
  EnumAbi, short_enums, int_enums, PacketGroup, control_group, programmer_group, uart_group,
  PacketType, type_code, start_frame_byte, max_data_length,
}
use bigblackhardware.Packet.{
  PacketHeader, packet_wrong_start_byte, packet_wrong_size, packet_wrong_type, get_size_from_header,
  get_flag_bit, select_type, store_fields, parse_header,
}
use bigblackhardware.Packet.Wire.{
  WireHeader, IsWire, bytes, command, Parsed, rejected, accepted, outcome, data_size, header_of,
  checked, by_command, stray_type,
}

get_size_lem :
    (w : WireHeader) (rest : List ℕ)
    → IsWire w
    → get_size_from_header (bytes w rest) ≡ w.size_high * 256 + w.size_low
unfolding get_size_from_header
get_size_lem w rest v = omega (
  arith,
  zero-bit_or (w.size_high * 256),
  ap (λ (t : ℕ). bit_or t (w.size_low * 1)) high,
  ap (λ (t : ℕ). bit_or (w.size_high * 256) t) low,
  bit_or-add 8 w.size_high w.size_low v.size_low,
)
  where
    high : bit_or 0 (w.size_high * 256) % 65536 ≡ w.size_high * 256
    high = omega (arith, zero-bit_or (w.size_high * 256))

    low : w.size_low * 1 ≡ w.size_low
    low = omega arith

-- The type that `parse_header` finds where enumerations are `int`s.
abbrev known : Option PacketType → ℕ → Option (PacketGroup × ℤ)
known (some type) t =
    some (if ltb t 0x20 then control_group else programmer_group, pos (type_code type))
known none t =
    if not (t / 16 % 2 == 0)
    then some (control_group, negsuc 0)
    else if not (t / 32 % 2 == 0)
    then some (programmer_group, negsuc 0)
    else none

select_type-known : (t : ℕ) → t < 256 → select_type int_enums t ≡ known (command t) t
unfolding select_type
select_type-known t h =
    ground (arith, bit_and_sixteen t, bit_and_thirty_two t, bit_and_forty_eight t)

flag_lem :
    (w : WireHeader) (rest : List ℕ)
    → (get_flag_bit (bytes w rest) 0 ≡ w.flags % 2)
      × (get_flag_bit (bytes w rest) 1 ≡ w.flags / 2 % 2)
      × (get_flag_bit (bytes w rest) 2 ≡ w.flags / 4 % 2)
unfolding get_flag_bit
flag_lem w rest =
    (omega (arith, bit_and-one (w.flags / 1)), bit_and-one (w.flags / 2), bit_and-one (w.flags / 4))

-- Both guards of `parse_header`, seen from outside.
outcome_checks :
    (wrong_start wrong_size : Bool) (h : PacketHeader) (r : ℤ × PacketHeader)
    → outcome (
        if wrong_start
        then (packet_wrong_start_byte, h)
        else if wrong_size
        then (packet_wrong_size, h)
        else r)
      ≡ (if wrong_start
          then rejected packet_wrong_start_byte
          else if wrong_size
          then rejected packet_wrong_size
          else outcome r)
outcome_checks true b h r = refl
outcome_checks false true h r = refl
outcome_checks false false h r = refl

parse_header-checked :
    (abi : EnumAbi) (w : WireHeader) (rest : List ℕ) (h : PacketHeader)
    → IsWire w
    → outcome (parse_header abi (bytes w rest) h)
      ≡ checked w
          (outcome (store_fields (bytes w rest) (data_size w) h (select_type abi w.type_byte)))
unfolding parse_header
parse_header-checked abi w rest h v = rw (get_size_lem w rest v) (
    outcome_checks (not (w.start == start_frame_byte)) (ltb max_data_length (data_size w)) h
      (store_fields (bytes w rest) (data_size w) h (select_type abi w.type_byte)))

store_fields_accepts :
    (w : WireHeader) (rest : List ℕ) (h : PacketHeader) (group : PacketGroup) (type : ℕ)
    → outcome (store_fields (bytes w rest) (data_size w) h (some (group, pos type)))
      ≡ accepted (header_of w type group)
unfolding store_fields
store_fields_accepts w rest h group type =
    let flags = flag_lem w rest in cc (flags.0, flags.1, flags.2)

store_known :
    (w : WireHeader) (rest : List ℕ) (h : PacketHeader) (c : Option PacketType)
    → outcome (store_fields (bytes w rest) (data_size w) h (known c w.type_byte))
      ≡ by_command w c (rejected packet_wrong_type)
unfolding store_fields
store_known w rest h (some type) = store_fields_accepts w rest h _ (type_code type)
store_known w rest h none = ground arith

-- Where enumerations are `int`s, `parse_header` accepts exactly the frames that begin with the
-- start byte, announce at most 1029 bytes of data and carry a command of the control or the
-- programmer group, stores their type, group, size and flags, and otherwise returns the status of
-- the first check that fails.
pub parse_header_int :
    (w : WireHeader) (rest : List ℕ) (h : PacketHeader)
    → IsWire w
    → outcome (parse_header int_enums (bytes w rest) h)
      ≡ checked w (by_command w (command w.type_byte) (rejected packet_wrong_type))
parse_header_int w rest h v = rw (
  parse_header-checked int_enums w rest h v,
  select_type-known w.type_byte v.type_byte,
  store_known w rest h (command w.type_byte),
)

-- With one-byte enumerations the -1 of an unknown command is stored as 255.
abbrev known_short : Option PacketType → ℕ → Option (PacketGroup × ℤ)
known_short (some type) t =
    some (if ltb t 0x20 then control_group else programmer_group, pos (type_code type))
known_short none t =
    if not (t / 16 % 2 == 0)
    then some (control_group, pos 255)
    else if not (t / 32 % 2 == 0)
    then some (programmer_group, pos 255)
    else none

select_type-known_short : (t : ℕ) → t < 256 → select_type short_enums t ≡ known_short (command t) t
unfolding select_type
select_type-known_short t h =
    ground (arith, bit_and_sixteen t, bit_and_thirty_two t, bit_and_forty_eight t)

store_no_control :
    (w : WireHeader) (rest : List ℕ) (h : PacketHeader)
    → outcome (
        store_fields
          (bytes w rest)
          (data_size w)
          h
          (if not (w.type_byte / 32 % 2 == 0) then some (programmer_group, pos 255) else none))
      ≡ (if not (w.type_byte / 32 % 2 == 0)
          then accepted (header_of w 255 programmer_group)
          else rejected packet_wrong_type)
store_no_control w rest h = elim (Bool-cases (w.type_byte / 32 % 2 == 0)) [
  | inr programmer ↦ rw programmer (store_fields_accepts w rest h programmer_group 255)
  | inl no_group ↦ rw no_group (unfold store_fields in refl)
]

store_known_short :
    (w : WireHeader) (rest : List ℕ) (h : PacketHeader) (c : Option PacketType)
    → outcome (store_fields (bytes w rest) (data_size w) h (known_short c w.type_byte))
      ≡ by_command w c (stray_type w)
store_known_short w rest h (some type) = store_fields_accepts w rest h _ (type_code type)
store_known_short w rest h none = elim (Bool-cases (w.type_byte / 16 % 2 == 0)) [
  | inr control ↦ rw control (store_fields_accepts w rest h control_group 255)
  | inl other ↦ rw other (store_no_control w rest h)
]

-- Where enumerations take one byte, the test `_type < 0` never fires: a byte with bit 4 or bit 5
-- that is no command is accepted, with the type 255 that no member of the enumeration has. All
-- other frames fare as with `int` enumerations.
pub parse_header_short :
    (w : WireHeader) (rest : List ℕ) (h : PacketHeader)
    → IsWire w
    → outcome (parse_header short_enums (bytes w rest) h)
      ≡ checked w (by_command w (command w.type_byte) (stray_type w))
parse_header_short w rest h v = rw (
  parse_header-checked short_enums w rest h v,
  select_type-known_short w.type_byte v.type_byte,
  store_known_short w rest h (command w.type_byte),
)

checked-accepted :
    (w : WireHeader) (typed : Parsed) (g : PacketHeader)
    → checked w typed ≡ accepted g
    → typed ≡ accepted g
checked-accepted w typed g e = ground arith

group_no_uart :
    (w : WireHeader) (c : Option PacketType) (g : PacketHeader) (unknown : Parsed)
    → (unknown ≡ accepted g → g.group ≢ uart_group)
    → by_command w c unknown ≡ accepted g
    → g.group ≢ uart_group
group_no_uart w (some type) g unknown h e = ground arith
group_no_uart w none g unknown h e = h e

-- No frame is ever accepted into the UART group, however enumerations are stored: bit 4 of the
-- commands 0x30 and 0x31 sends them to the control group's mapping.
pub parse_header-ne-uart :
    (abi : EnumAbi) (w : WireHeader) (rest : List ℕ) (h g : PacketHeader)
    → IsWire w
    → outcome (parse_header abi (bytes w rest) h) ≡ accepted g
    → g.group ≢ uart_group
parse_header-ne-uart int_enums w rest h g v e =
    group_no_uart w (command w.type_byte) g (rejected packet_wrong_type) (λ e'. cc)
      (checked-accepted w _ g (rw (parse_header_int w rest h v) at e))
parse_header-ne-uart short_enums w rest h g v e =
    group_no_uart w (command w.type_byte) g (stray_type w) (λ e'. ground arith)
      (checked-accepted w _ g (rw (parse_header_short w rest h v) at e))
