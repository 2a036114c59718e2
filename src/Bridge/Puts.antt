-- ===== src/Bridge/Puts.antt =====
-- What the bridge puts on the second UART.
use native.Mathlib.Numerals.{add-one}
use bigblackhardware.Base.{
  ℕ, zero, suc, ◌+◌, ◌≡◌, refl, some, List, [], ◌∷◌, length, drop, get_elem?-of_drop, drop-suc,
}
use bigblackhardware.Bridge.{Uart, put_loop, bridge_write, bridge_msg, bridge_task}

module _ {U : Type 0} (uart : Uart U) where
  -- The bytes one after the other.
  abbrev pub puts : List ℕ → U → U
  puts [] u = u
  puts (b ∷ bytes) u = puts bytes (uart.char_put b u)

  put_loop-puts :
      (rest bytes : List ℕ) (from : ℕ) (u : U)
      → drop from bytes ≡ rest
      → put_loop uart (length rest) from bytes u ≡ some (puts rest u)
  unfolding put_loop
  put_loop-puts [] bytes from u e = refl
  put_loop-puts (b ∷ rest) bytes from u e = rw (get_elem?-of_drop bytes from b rest e) (
      put_loop-puts rest bytes (from + 1) (uart.char_put b u)
        (rw add-one (drop-suc bytes from b rest e)))

  -- A text is put whole, and nothing behind it is read.
  pub bridge_write-puts :
      (bytes : List ℕ) (u : U) → bridge_write uart bytes (length bytes) u ≡ some (puts bytes u)
  unfolding bridge_write
  bridge_write-puts bytes u = put_loop-puts bytes bytes 0 u refl

  abbrev pub greeted : (asleep : ℕ → U → U) → (rounds : ℕ) → U → U
  greeted asleep zero u = u
  greeted asleep (suc rounds) u = greeted asleep rounds (asleep 2000 (puts bridge_msg u))

  -- However long the task runs, it puts its whole text in each round.
  pub bridge_task-greeted :
      (asleep : ℕ → U → U) (rounds : ℕ) (u : U)
      → bridge_task uart asleep rounds u ≡ some (greeted asleep rounds u)
  unfolding bridge_task
  bridge_task-greeted asleep zero u = refl
  bridge_task-greeted asleep (suc rounds) u =
      rw (bridge_write-puts bridge_msg u)
        (bridge_task-greeted asleep rounds (asleep 2000 (puts bridge_msg u)))
