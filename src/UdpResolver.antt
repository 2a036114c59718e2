-- ===== src/UdpResolver.antt =====
-- udp_resolver.c: the task that tells a host where the board is. A datagram with the board's key
-- is answered at the port that it names. The sockets are a list of what recvfrom returns.
pub mod Answers
pub mod Task
mod Examples
use bigblackhardware.Base.{
  ℕ, zero, suc, ◌+◌, ◌-◌, ◌*◌, Bool, true, false, not, Option, none, some, List, [], ◌∷◌, ◌++◌,
  ◌==◌, if◌then◌else◌, ◌>>=◌, ℤ, pos, negsuc, negative, u16, u32, shl, bit_and, bit_or, for_range,
  get_or, length, drop,
}

abbrev pub key_offset : ℕ
key_offset = 1

abbrev pub key_size : ℕ
key_size = 32

abbrev pub port_offset : ℕ
port_offset = 33

abbrev pub port_size : ℕ
port_size = 4

abbrev pub resolve_packet_size : ℕ
resolve_packet_size = 37

abbrev pub header_byte : ℕ
header_byte = 0xAD

abbrev pub check_for_resolve : List ℕ → ℕ → Bool
check_for_resolve buf size =
    if not (size == resolve_packet_size) then false else get_or buf 0 0 == header_byte

-- strncmp(xs, ys, n) == 0. A read past the end of an array is `none`.
unfoldable pub strncmp_equal : ℕ → List ℕ → List ℕ → Option Bool
strncmp_equal zero xs ys = some true
strncmp_equal (suc n) (x ∷ xs) (y ∷ ys) =
    let rest = strncmp_equal n xs ys in
    if not (x == y) then some false else if x == 0 then some true else rest
strncmp_equal (suc n) [] ys = none
strncmp_equal (suc n) (x ∷ xs) [] = none

abbrev pub cmp_keys : List ℕ → List ℕ → Option Bool
cmp_keys buf key = strncmp_equal key_size (drop key_offset buf) key

-- port |= (buf[33 + i] & 0xFF) << (4 - i - 1) * 8
unfoldable pub get_port : List ℕ → ℕ
unfolding for_range
get_port buf =
    for_range port_size 0
      (λ i port. u32 (
        bit_or port
          (shl (bit_and (get_or buf (port_offset + i) 0) 0xFF) ((port_size - i - 1) * 8))))
      0

-- A datagram, its sender, and the status of sendto if an answer is sent to it.
pub record Datagram (A : Type 0) : Type 0 where
  pub contents : List ℕ
  pub sender : A
  pub sent : ℤ

-- An answer of one byte to a port of the sender.
pub record Answer (A : Type 0) : Type 0 where
  pub host : A
  pub port : ℕ

-- The bytes that recvfrom writes at the start of the buffer.
abbrev pub received : List ℕ → List ℕ → List ℕ
received contents buffer = contents ++ drop (length contents) buffer

-- The loop of the task: its status at the end and the answers. recvfrom fails behind the last
-- datagram, and an empty one ends the task as well.
unfoldable pub resolver_loop :
    {A : Type 0} → List ℕ → List ℕ → List (Datagram A) → Option (ℤ × List (Answer A))
resolver_loop key buffer [] = some (negsuc 0, [])
resolver_loop {A} key buffer (d ∷ ds) =
    let buf = received d.contents buffer in
    let rest = resolver_loop key buf ds in
    let answer : Answer A = record { host = d.sender; port = u16 (get_port buf) } in
    let answered = (do (status, answers) ← rest; some (status, answer ∷ answers)) in
    let checked = (do
      same ← cmp_keys buf key
      if same then (if negative d.sent then some (d.sent, answer ∷ []) else answered) else rest) in
    if length d.contents == 0
    then some (pos 0, [])
    else if check_for_resolve buf (length d.contents)
    then checked
    else rest
