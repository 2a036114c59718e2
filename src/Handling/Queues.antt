-- ===== src/Handling/Queues.antt =====
-- The queue of packets of a connection: what reading it does, and sending what it holds.
use bigblackhardware.Base.{
  ℕ, ◌≡◌, refl, inl, inr, true, false, Option, some, List, [], ◌∷◌, ◌∙◌, ◌==◌, Bool-cases, ◌>>=◌,
  ◌⊎◌, ==_iff, negative,
}
use bigblackhardware.PacketManager.{Heap, Os}
use bigblackhardware.Transport.{Net, send_frame}
use bigblackhardware.Handling.{Connections}
use bigblackhardware.Handling.Serve.{set_out_queue, set_handed_queue}

-- A queue holds addresses in order. Reading takes the first one, and fails on an empty queue.
pub record QueueLaws {Q : Type 0} (os : Os Q) : Type 0 where
  pub items : Q → List ℕ
  pub read_empty :
      (q : Q)
      → items q ≡ []
      → (negative (os.queue_read q).0 ≡ true) × (items (os.queue_read q).2 ≡ [])
  pub read_first :
      (q : Q) (ptr : ℕ) (rest : List ℕ)
      → items q ≡ ptr ∷ rest
      → (negative (os.queue_read q).0 ≡ false)
        × ((os.queue_read q).1 ≡ ptr)
        × (items (os.queue_read q).2 ≡ rest)

pub List-cases : (xs : List ℕ) → (xs ≡ []) ⊎ ((x : ℕ) × (rest : List ℕ) × (xs ≡ x ∷ rest))
List-cases [] = inl refl
List-cases (x ∷ rest) = inr (x, rest, refl)

pub set_out_queue_self :
    {Q : Type 0} (c : ℕ) (q : Q) (conns : Connections Q) → (set_out_queue c q conns c).out_queue ≡ q
set_out_queue_self c q conns = rw ((==_iff c c).1 refl) refl

-- A connection keeps its handle, its group and its handed queue.
abbrev pub SameSockets : {Q : Type 0} → Connections Q → Connections Q → Type 0
SameSockets conns conns' =
    (a : ℕ)
    → ((conns' a).hndl ≡ (conns a).hndl)
      × ((conns' a).group ≡ (conns a).group)
      × ((conns' a).handed_queue ≡ (conns a).handed_queue)

pub set_out_queue-SameSockets :
    {Q : Type 0} (c : ℕ) (q : Q) (conns : Connections Q)
    → SameSockets conns (set_out_queue c q conns)
set_out_queue-SameSockets c q conns a = elim (Bool-cases (a == c)) [
  | inl here ↦ let same : a ≡ c = (==_iff a c).0 here in rw (here, same) (refl, refl, refl)
  | inr other ↦ rw other (refl, refl, refl)
]

pub SameSockets-trans :
    {Q : Type 0} (conns conns1 conns2 : Connections Q)
    → SameSockets conns conns1
    → SameSockets conns1 conns2
    → SameSockets conns conns2
SameSockets-trans conns conns1 conns2 h k a =
    ((k a).0 ∙ (h a).0, (k a).1 ∙ (h a).1, (k a).2 ∙ (h a).2)

-- A handler's queue is the handed one. Of the rest of the connection its own queue may change.
pub set_handed_queue_self :
    {Q : Type 0} (os : Os Q) (c : ℕ) (q : Q) (conns : Connections Q)
    → set_handed_queue os c q conns c
      ≡ record (conns c) { handed_queue = q; out_queue = os.spills q (conns c).out_queue }
set_handed_queue_self os c q conns = rw ((==_iff c c).1 refl) refl

-- The packets at the addresses are sent one after the other, whether they arrive or not.
unfoldable pub deliver :
    {S : Type 0} (net : Net S) (tries hndl : ℕ) (heap : Heap) → List ℕ → S → Option S
deliver net tries hndl heap [] s = some s
deliver net tries hndl heap (ptr ∷ ptrs) s = do
  (_, s1) ← send_frame net tries hndl (heap ptr) s
  deliver net tries hndl heap ptrs s1

-- An empty queue.
pub deliver_none :
    {S : Type 0} (net : Net S) (tries hndl : ℕ) (heap : Heap) (items : List ℕ) (s s' : S)
    → items ≡ []
    → deliver net tries hndl heap items s ≡ some s'
    → s' ≡ s
unfolding deliver
deliver_none net tries hndl heap items s s' none_left delivered =
    let same : some s ≡ some s' = rw none_left at delivered in cc
