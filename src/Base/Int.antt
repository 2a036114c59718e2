-- ===== src/Base/Int.antt =====
-- Status codes: signed integers over the native numbers. `negsuc n` is -(n + 1).
use Prim.Native.Nat.{ℕ, ◌-◌, ◌%◌, ◌^◌}
use mathlib.Core.Bool.{Bool, true, false}
use bigblackhardware.Base.Tests.{ltb, if◌then◌else◌}

pub data ℤ : Type 0 where
  pos : ℕ → ℤ
  negsuc : ℕ → ℤ

-- code < 0
abbrev pub negative : ℤ → Bool
negative (pos n) = false
negative (negsuc n) = true

-- The conversion of an unsigned value to a signed type of `w` bits.
abbrev pub signed : ℕ → ℕ → ℤ
signed w n = let m = n % 2 ^ w in if ltb m (2 ^ (w - 1)) then pos m else negsuc (2 ^ w - m - 1)

-- (_i16) n
abbrev pub i16 : ℕ → ℤ
i16 n = signed 16 n

-- (_i8) n
abbrev pub i8 : ℤ → ℤ
i8 (pos n) = signed 8 n
i8 (negsuc n) = signed 8 (255 - n % 256)
