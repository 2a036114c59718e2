-- ===== src/Bridge.antt =====
-- bridge.c: text over the second UART. The UART's driver is a parameter.
pub mod Puts
use bigblackhardware.Base.{
  ℕ, zero, suc, ◌+◌, Option, some, List, [], ◌∷◌, ◌>>=◌, ℤ, get_elem?, length,
}

-- The functions of the driver with the clock and the frame that bridge.c always passes, and
-- osi_TaskCreate.
pub record Uart (U : Type 0) : Type 0 where
  pub config_baudrate : ℕ → U → U
  pub enable : U → U
  pub char_put : ℕ → U → U
  pub task_create : U → ℤ × U

module _ {U : Type 0} (uart : Uart U) where
  unfoldable pub bridge_start : ℕ → U → ℤ × U
  bridge_start baudrate u = uart.task_create (uart.enable (uart.config_baudrate baudrate u))

  -- for (i = from; i < from + count; i++)
  put_loop : (count from : ℕ) → List ℕ → U → Option U
  put_loop zero from bytes u = some u
  put_loop (suc count) from bytes u = do
    b ← get_elem? bytes from
    put_loop count (from + 1) bytes (uart.char_put b u)

  unfoldable pub bridge_write : List ℕ → ℕ → U → Option U
  unfolding put_loop
  bridge_write bytes len u = put_loop len 0 bytes u

-- "Hello from fucking UART1\r\n"
abbrev pub bridge_msg : List ℕ
bridge_msg =
    b'H' ∷ b'e' ∷ b'l' ∷ b'l' ∷ b'o' ∷ 32 ∷ b'f' ∷ b'r' ∷ b'o' ∷ b'm' ∷ 32 ∷ b'f' ∷ b'u' ∷ b'c'
    ∷ b'k' ∷ b'i' ∷ b'n' ∷ b'g' ∷ 32 ∷ b'U' ∷ b'A' ∷ b'R' ∷ b'T' ∷ b'1' ∷ 13 ∷ 10 ∷ []

-- The first rounds of the task, which has no end. `asleep` is what happens while it sleeps.
unfoldable pub bridge_task :
    {U : Type 0} → Uart U → (asleep : ℕ → U → U) → (rounds : ℕ) → U → Option U
bridge_task uart asleep zero u = some u
bridge_task uart asleep (suc rounds) u = do
  u1 ← bridge_write uart bridge_msg (length bridge_msg) u
  bridge_task uart asleep rounds (asleep 2000 u1)
