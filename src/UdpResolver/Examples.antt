-- ===== src/UdpResolver/Examples.antt =====
-- Runs of the resolver on three datagrams.
use bigblackhardware.Base.{
  ℕ, ◌<◌, ◌≡◌, refl, some, List, [], ◌∷◌, ◌++◌, pos, negsuc, replicate, arith,
}
use bigblackhardware.UdpResolver.{Datagram, resolver_loop}
use bigblackhardware.UdpResolver.Answers.{IsDatagram, resolver_loop-answers}

-- A key of 32 letters and its terminator.
abbrev key : List ℕ
key = replicate 32 b'k' ++ (0 ∷ [])

abbrev request : (first : ℕ) → Datagram ℕ
request first = record {
  contents = 0xAD ∷ first ∷ (replicate 31 b'k' ++ (0 ∷ 0 ∷ 0x1F ∷ 0x90 ∷ []));
  sender = 7;
  sent = pos 1;
}

abbrev short : Datagram ℕ
short = record { contents = 0xAD ∷ 1 ∷ []; sender = 9; sent = pos 1 }

request-IsDatagram : (first : ℕ) → first < 256 → IsDatagram (request first)
request-IsDatagram first h = record {
  some_bytes = omega arith;
  fits = omega arith;
  bytes = ground arith;
  sent = refl;
}

short-IsDatagram : IsDatagram short
short-IsDatagram = record {
  some_bytes = omega arith;
  fits = omega arith;
  bytes = ground arith;
  sent = refl;
}

-- The second request has another key. The first one asks for port 8080.
resolver_loop-answers_example :
    resolver_loop key (replicate 37 0) (short ∷ request b'k' ∷ request b'q' ∷ [])
    ≡ some (negsuc 0, record { host = 7; port = 8080 } ∷ [])
resolver_loop-answers_example =
    resolver_loop-answers key (replicate 37 0) (short ∷ request b'k' ∷ request b'q' ∷ [])
      (omega arith) refl
      (
        short-IsDatagram,
        (request-IsDatagram b'k' (omega arith), (request-IsDatagram b'q' (omega arith), tt)),
      )
