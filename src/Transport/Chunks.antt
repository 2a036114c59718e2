-- ===== src/Transport/Chunks.antt =====
-- Receiving in several chunks: where the bytes end up.
use bigblackhardware.Base.{
  ℕ, zero, suc, ◌-◌, ◌<◌, ◌≤◌, ◌≡◌, refl, ap, false, some, List, [], ◌∷◌, ◌++◌, ◌==◌, pos, length,
  length-append, length-drop, drop, copy?-fits, arith,
}
use bigblackhardware.Transport.{Received, chunk, again, Net, recv_nbytes}

-- The socket delivers these chunks, which are not empty, until nothing remains, perhaps with pauses
-- between them.
pub data Delivers {S : Type 0} (net : Net S) (sock : ℕ) (t : S)
    : S → ℕ → List (List ℕ) → Type 0 where
  complete : Delivers net sock t t 0 []
  more :
      {s s1 : S} {remaining : ℕ} {cs : List (List ℕ)} (b : ℕ) (bs : List ℕ)
      → net.recv sock remaining s ≡ (chunk b bs, s1)
      → length (b ∷ bs) ≤ remaining
      → Delivers net sock t s1 (remaining - length (b ∷ bs)) cs
      → Delivers net sock t s remaining ((b ∷ bs) ∷ cs)
  pause :
      {s s1 : S} {remaining : ℕ} {cs : List (List ℕ)}
      → 0 < remaining
      → net.recv sock remaining s ≡ (again, s1)
      → Delivers net sock t (net.sleep 1 s1) remaining cs
      → Delivers net sock t s remaining cs

module _ {S : Type 0} {net : Net S} {sock : ℕ} {t : S} where
  abbrev pub steps : {s : S} {n : ℕ} {cs : List (List ℕ)} → Delivers net sock t s n cs → ℕ
  steps complete = 0
  steps (more b bs e h d) = suc (steps d)
  steps (pause h e d) = suc (steps d)

-- Every chunk is written to the start of the buffer.
abbrev pub overwritten : List (List ℕ) → List ℕ → List ℕ
overwritten [] buf = buf
overwritten (c ∷ cs) buf = overwritten cs (c ++ drop (length c) buf)

-- When a socket delivers the bytes that are wanted, at most as many as the buffer has, receiving
-- ends with success after as many rounds as there are chunks and pauses, and one more. Each chunk
-- is written to the start of the buffer: a later one overwrites the ones before it.
pub recv_nbytes-overwritten :
    {S : Type 0} (net : Net S) (rounds sock n : ℕ) (cs : List (List ℕ)) (buf : List ℕ) (s t : S)
    (d : Delivers net sock t s n cs)
    → steps d < rounds
    → n ≤ length buf
    → recv_nbytes net rounds sock n buf s ≡ some (pos 0, overwritten cs buf, t)
unfolding recv_nbytes
recv_nbytes-overwritten net zero sock n cs buf s t d enough room = absurd (omega arith)
recv_nbytes-overwritten net (suc rounds) sock n cs buf s t complete enough room = refl
recv_nbytes-overwritten net (suc rounds) sock n (c ∷ cs) buf s t (more b bs e h d) enough room =
    let going : (n == 0) ≡ false = ground arith in
    rw
      (
        going,
        ap (λ (r : Received × _). r.0) e,
        ap (λ (r : Received × _). r.1) e,
        copy?-fits buf (b ∷ bs) (length (b ∷ bs)) refl (omega arith),
      )
      (recv_nbytes-overwritten net rounds sock (n - length (b ∷ bs)) cs
        ((b ∷ bs) ++ drop (length (b ∷ bs)) buf) _ t d (omega arith)
        (omega (
          arith,
          length-append (b ∷ bs) (drop (length (b ∷ bs)) buf),
          length-drop (length (b ∷ bs)) buf,
        )))
recv_nbytes-overwritten net (suc rounds) sock n cs buf s t (pause positive e d) enough room =
    let going : (n == 0) ≡ false = ground arith in
    rw (going, ap (λ (r : Received × _). r.0) e, ap (λ (r : Received × _). r.1) e)
      (recv_nbytes-overwritten net rounds sock n cs buf _ t d (omega arith) room)
