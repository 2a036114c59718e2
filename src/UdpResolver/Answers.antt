-- ===== src/UdpResolver/Answers.antt =====
-- Which datagrams are answered, and where.
use mathlib.Core.List.{append-nil}
use bigblackhardware.Base.{
  ℕ, zero, suc, ◌+◌, ◌*◌, ◌^◌, ◌<◌, ◌≤◌, ◌≡◌, refl, Bool, true, false, ◌&&◌, some, List, [], ◌∷◌,
  ◌==◌, if◌then◌else◌, negsuc, negative, u16, u32, bit_and, bit_or, bit_or-add, zero-bit_or,
  bit_and_byte, get_or, length, length-append, length-drop, drop, drop-all, All, arith, Bool-cases,
  inl, inr, ==_iff,
}
use bigblackhardware.UdpResolver.{
  strncmp_equal, get_port, Datagram, Answer, received, resolver_loop, key_size, resolve_packet_size,
  header_byte,
}

-- The characters in front of the first zero, at most `n`.
abbrev pub text : ℕ → List ℕ → List ℕ
text zero xs = []
text (suc n) [] = []
text (suc n) (x ∷ xs) = if x == 0 then [] else x ∷ text n xs

abbrev pub same_text : List ℕ → List ℕ → Bool
same_text [] [] = true
same_text [] (y ∷ ys) = false
same_text (x ∷ xs) [] = false
same_text (x ∷ xs) (y ∷ ys) = (x == y) && same_text xs ys

strncmp_equal-same_text :
    (n : ℕ) (xs ys : List ℕ)
    → n ≤ length xs
    → n ≤ length ys
    → strncmp_equal n xs ys ≡ some (same_text (text n xs) (text n ys))
unfolding strncmp_equal
strncmp_equal-same_text zero xs ys h k = refl
strncmp_equal-same_text (suc n) [] ys h k = absurd (omega arith)
strncmp_equal-same_text (suc n) (x ∷ xs) [] h k = absurd (omega arith)
strncmp_equal-same_text (suc n) (x ∷ xs) (y ∷ ys) h k =
    let rest = strncmp_equal-same_text n xs ys (omega arith) (omega arith) in ground (arith, rest)

port_lem :
    (a b c d : ℕ)
    → a < 256
    → b < 256
    → c < 256
    → d < 256
    → u16 (
        u32 (
          bit_or
            (u32 (bit_or (u32 (bit_or (u32 (bit_or 0 (a * 2 ^ 24))) (b * 2 ^ 16))) (c * 2 ^ 8)))
            (d * 2 ^ 0)))
      ≡ c * 256 + d
port_lem a b c d ha hb hc hd =
    let one : u32 (bit_or 0 (a * 2 ^ 24)) ≡ a * 2 ^ 24 = omega (arith, zero-bit_or (a * 2 ^ 24)) in
    let two : u32 (bit_or (a * 2 ^ 24) (b * 2 ^ 16)) ≡ (a * 2 ^ 8 + b) * 2 ^ 16 =
      omega (arith, bit_or-add 24 a (b * 2 ^ 16) (omega arith)) in
    let three : u32 (bit_or ((a * 2 ^ 8 + b) * 2 ^ 16) (c * 2 ^ 8))
        ≡ (a * 2 ^ 16 + b * 2 ^ 8 + c) * 2 ^ 8 =
      omega (arith, bit_or-add 16 (a * 2 ^ 8 + b) (c * 2 ^ 8) (omega arith)) in
    let unit : d * 2 ^ 0 ≡ d = omega arith in
    rw (one, two, three, unit)
      (omega (arith, bit_or-add 8 (a * 2 ^ 16 + b * 2 ^ 8 + c) d (omega arith)))

get_or-byte : (xs : List ℕ) (i : ℕ) → All (λ (x : ℕ). x < 256) xs → get_or xs i 0 < 256
get_or-byte [] i h = omega arith
get_or-byte (x ∷ xs) zero h = h.0
get_or-byte (x ∷ xs) (suc i) h = get_or-byte xs i h.1

get_port_lem :
    (buf : List ℕ)
    → All (λ (x : ℕ). x < 256) buf
    → u16 (get_port buf) ≡ get_or buf 35 0 * 256 + get_or buf 36 0
unfolding get_port
get_port_lem buf h =
    let b0 = get_or-byte buf 33 h in
    let b1 = get_or-byte buf 34 h in
    let b2 = get_or-byte buf 35 h in
    let b3 = get_or-byte buf 36 h in
    let m0 : bit_and (get_or buf 33 0) 255 ≡ get_or buf 33 0 =
      omega (arith, bit_and_byte (get_or buf 33 0)) in
    let m1 : bit_and (get_or buf 34 0) 255 ≡ get_or buf 34 0 =
      omega (arith, bit_and_byte (get_or buf 34 0)) in
    let m2 : bit_and (get_or buf 35 0) 255 ≡ get_or buf 35 0 =
      omega (arith, bit_and_byte (get_or buf 35 0)) in
    let m3 : bit_and (get_or buf 36 0) 255 ≡ get_or buf 36 0 =
      omega (arith, bit_and_byte (get_or buf 36 0)) in
    rw (m0, m1, m2, m3)
      (port_lem (get_or buf 33 0) (get_or buf 34 0) (get_or buf 35 0) (get_or buf 36 0) b0 b1 b2 b3)

-- A datagram of full length replaces the whole buffer.
received-full :
    (contents buffer : List ℕ)
    → length contents ≡ resolve_packet_size
    → length buffer ≡ resolve_packet_size
    → received contents buffer ≡ contents
received-full contents buffer e h =
    let gone : drop (length contents) buffer ≡ [] =
      drop-all (length contents) buffer (omega arith) in
    rw gone (append-nil contents)

-- A request with the board's key: keys are compared up to their first zero.
abbrev pub wanted : List ℕ → List ℕ → Bool
wanted key contents =
    (length contents == resolve_packet_size)
    && (get_or contents 0 0 == header_byte)
    && same_text (text key_size (drop 1 contents)) (text key_size key)

-- The requests with the key are answered, at the low sixteen bits of the port that they name.
abbrev pub answers : {A : Type 0} → List ℕ → List (Datagram A) → List (Answer A)
answers key [] = []
answers key (d ∷ ds) =
    let rest = answers key ds in
    if wanted key d.contents
    then record { host = d.sender; port = get_or d.contents 35 0 * 256 + get_or d.contents 36 0 }
      ∷ rest
    else rest

pub record IsDatagram {A : Type 0} (d : Datagram A) : Type 0 where
  pub some_bytes : 0 < length d.contents
  pub fits : length d.contents ≤ resolve_packet_size
  pub bytes : All (λ (x : ℕ). x < 256) d.contents
  pub sent : negative d.sent ≡ false

-- While datagrams of 1 to 37 bytes arrive and answers can be sent, exactly the requests with the
-- board's key are answered, in order, each at its sender and at the low sixteen bits of the port
-- that it names. Keys are compared as strings, up to their first zero.
pub resolver_loop-answers :
    {A : Type 0} (key buffer : List ℕ) (ds : List (Datagram A))
    → key_size ≤ length key
    → length buffer ≡ resolve_packet_size
    → All IsDatagram ds
    → resolver_loop key buffer ds ≡ some (negsuc 0, answers key ds)
unfolding resolver_loop
resolver_loop-answers key buffer [] k b v = refl
resolver_loop-answers key buffer (d ∷ ds) k b (v, vs) =
    let size : length (received d.contents buffer) ≡ resolve_packet_size =
      let fits = v.fits in
      omega (
        arith,
        length-append d.contents (drop (length d.contents) buffer),
        length-drop (length d.contents) buffer,
      ) in
    let behind = resolver_loop-answers key (received d.contents buffer) ds k size vs in
    let filled : (length d.contents == 0) ≡ false = let some_bytes = v.some_bytes in ground arith in
    elim (Bool-cases (length d.contents == resolve_packet_size)) [
      | inr other ↦ rw (filled, other, behind) refl
      | inl full ↦
          let same = received-full d.contents buffer (ground arith) b in
          let keys =
            strncmp_equal-same_text key_size (drop 1 d.contents) key
              (omega (arith, length-drop 1 d.contents, (==_iff (length d.contents) 37).0 full)) k in
          let rest = rw same at behind in
          let port = get_port_lem d.contents v.bytes in
          elim (Bool-cases (get_or d.contents 0 0 == header_byte)) [
            | inr no_header ↦ rw (filled, full, same, no_header, rest) refl
            | inl header ↦
                elim (Bool-cases
                  (same_text (text key_size (drop 1 d.contents)) (text key_size key))) [
                    | inr different ↦ rw (filled, full, same, header, keys, different, rest) refl
                    | inl equal ↦
                        rw (filled, full, same, header, keys, equal, v.sent, rest, port) refl
                  ]
          ]
    ]
