-- ===== src/Programmer/Enable.antt =====
-- Entering the programming mode: when the 30 attempts succeed, and what the caller can tell.
use bigblackhardware.Base.{
  ℕ, zero, suc, ◌<◌, ◌≡◌, ◌↔◌, ◌⊎◌, refl, Bool, true, false, some, List, ◌==◌, if◌then◌else◌, ℤ,
  pos, get_or, arith, Bool-cases, inl, inr,
}
use bigblackhardware.Payload.{AvrMcuInfo}
use bigblackhardware.Programmer.{
  Device, sleep, spi_on, spi_off, programmer_write_raw_cmd, pulse_reset, enable_loop, configure_spi,
  sys_reset_mcu, mcu_reset_on, programmer_enable_pgm_mode,
}

module _ {D : Type 0} (dev : Device D) (cmd : List ℕ) where
  -- The device before attempt `k`, when all attempts before it failed.
  abbrev pub before : (k : ℕ) → D → D
  before zero d = d
  before (suc k) d = before k (pulse_reset dev (dev.transfer cmd d).1)

  -- The third byte of the answer echoes the second one of the command.
  abbrev pub echoed : (k : ℕ) → D → Bool
  echoed k d = get_or (dev.transfer cmd (before k d)).0 2 0 == get_or cmd 1 0

  -- Whether one of the next attempts is echoed.
  abbrev pub Enters : (rounds : ℕ) → D → Type 0
  Enters rounds d = (k : ℕ) × (k < rounds) × (echoed k d ≡ true)

  enable_loop_cases :
      (rounds : ℕ) (d : D)
      → (((enable_loop dev rounds cmd d).0 ≡ 1) × Enters rounds d)
        ⊎ (((enable_loop dev rounds cmd d).0 ≡ 0) × (Enters rounds d → ⊥))
  unfolding enable_loop programmer_write_raw_cmd
  enable_loop_cases zero d = inr (refl, λ (k, h, _). absurd (omega arith))
  enable_loop_cases (suc rounds) d = elim (Bool-cases (echoed zero d)) [
    | inl now ↦ inl (rw now refl, (zero, omega arith, now))
    | inr later ↦ elim (enable_loop_cases rounds (before 1 d)) [
      | inl (one, (k, h, e)) ↦ inl (rw later one, (suc k, omega arith, e))
      | inr (none_left, never) ↦ inr (rw later none_left, not_later never later)
    ]
  ]
    where
      not_later :
          ((Enters rounds (before 1 d)) → ⊥) → echoed zero d ≡ false → Enters (suc rounds) d → ⊥
      not_later never later (zero, h, e) = absurd cc
      not_later never later (suc k, h, e) = never (k, omega arith, e)

-- The state of the device at the first attempt.
abbrev pub at_start : {D : Type 0} → Device D → D → D
at_start dev d = dev.act (sleep 50) (
    sys_reset_mcu dev mcu_reset_on
      (dev.act (sleep 5) (dev.act spi_on (configure_spi dev 400000 d))))

-- With MCU info loaded, entering the programming mode ends with status 1 exactly when one of 30
-- attempts is echoed, and with 0 otherwise: a caller that tests for a negative status never sees a
-- failure.
pub programmer_enable_pgm_mode-Enters :
    {D : Type 0} (dev : Device D) (info : AvrMcuInfo) (d : D)
    → (status : ℤ) × (d' : D) × (programmer_enable_pgm_mode dev (some info) d ≡ some (status, d'))
      × ((status ≡ pos 1) ↔ Enters dev info.pgm_enable 30 (at_start dev d))
      × ((status ≡ pos 1) ⊎ (status ≡ pos 0))
unfolding programmer_enable_pgm_mode
programmer_enable_pgm_mode-Enters {D} dev info d = (
  pos r.0,
  if r.0 == 0 then dev.act spi_off r.1 else r.1,
  refl,
  elim (enable_loop_cases dev info.pgm_enable 30 (at_start dev d)) [
    | inl (one, e) ↦ ((λ _. e), λ _. rw one refl)
    | inr (failed, never) ↦ ((λ s. absurd cc), λ e. absurd (never e))
  ],
  elim (enable_loop_cases dev info.pgm_enable 30 (at_start dev d)) [
    | inl (one, e) ↦ inl (rw one refl)
    | inr (failed, never) ↦ inr (rw failed refl)
  ],
)
  where
    r : ℕ × D
    r = enable_loop dev 30 info.pgm_enable (at_start dev d)
