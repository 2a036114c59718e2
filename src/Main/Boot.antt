-- ===== src/Main/Boot.antt =====
-- The initialization task beside the task that starts the network: when the services run.
use bigblackhardware.Base.{
  ℕ, zero, suc, ◌<◌, ◌≡◌, ◌⊎◌, ◌∙◌, refl, sym, ap, inl, inr, Bool, true, false, Option, none, some,
  ℤ, negative, arith, Bool-cases,
}
use bigblackhardware.Programmer.{Device}
use bigblackhardware.Wlan.{
  WlanConfig, WlanStatus, ready, connecting, SimpleLink, Wlan, wlan_init, wlan_start,
  wlan_start_task,
}
use bigblackhardware.Wlan.Joins.{Fits, Connects, wlan_start_task-connected}
use bigblackhardware.Wlan.Storage.{Fs, Layout}
use bigblackhardware.Bridge.{Uart}
use bigblackhardware.Handling.Listen.{Startup}
use bigblackhardware.Main.{Parts, choose_config, after_poll, connected_loop, initialization_task}
use bigblackhardware.Main.Start.{
  seconds, Joined, Started, GivenUp, wlan_init_ok, wlan_start_ok, end_of_loop,
}

wlan_start_connecting :
    {S : Type 0} (sl : SimpleLink S) (config : WlanConfig) (w : Wlan S)
    → (wlan_start sl config w).1.wl_status ≡ connecting
unfolding wlan_start
wlan_start_connecting sl config w =
    elim (Bool-cases (negative (sl.task_create (sl.lock w.device).1).0)) [
      | inl failed ↦ rw failed refl
      | inr fine ↦ rw fine refl
    ]

status_in : {S : Type 0} → Option (Wlan S) → WlanStatus
status_in none = ready
status_in (some w) = w.wl_status

module _ {S : Type 0} (asleep : ℕ → Wlan S → Wlan S) where
  -- The first poll with another status than connecting is the last one.
  connected_loop-Joined :
      (k rounds : ℕ) (w : Wlan S) (joined : Bool)
      → k < rounds
      → ((j : ℕ) → j < k → (seconds asleep j w).wl_status ≡ connecting)
      → Joined asleep joined (seconds asleep k w)
      → connected_loop asleep rounds w ≡ some (joined, seconds asleep k w)
  unfolding connected_loop
  connected_loop-Joined k zero w joined h before ends = absurd (omega arith)
  connected_loop-Joined zero (suc rounds) w true h before ends =
      ap (λ s. after_poll s w (connected_loop asleep rounds (asleep 1000 w))) ends
  connected_loop-Joined zero (suc rounds) w false h before ends =
      ap (λ s. after_poll s w (connected_loop asleep rounds (asleep 1000 w))) ends
  connected_loop-Joined (suc k) (suc rounds) w joined h before ends =
      ap (λ s. after_poll s w (connected_loop asleep rounds (asleep 1000 w)))
        (before 0 (omega arith))
      ∙ (connected_loop-Joined k rounds (asleep 1000 w) joined (omega arith)
          (λ j lt. before (suc j) (omega arith)) ends)

  -- In second `k` the task that starts the network runs to its end; before that the other tasks and
  -- the device leave the status alone while it is connecting.
  pub record Runs (sl : SimpleLink S) (config : WlanConfig) (k : ℕ) (w : Wlan S) : Type 0 where
    pub waits :
        (j : ℕ)
        → j < k
        → (seconds asleep j w).wl_status ≡ connecting
        → (seconds asleep (suc j) w).wl_status ≡ connecting
    pub runs : wlan_start_task sl config (seconds asleep k w) ≡ some (seconds asleep (suc k) w)

  Runs-connecting :
      (sl : SimpleLink S) (config : WlanConfig) (k : ℕ) (w : Wlan S)
      → Runs sl config k w
      → w.wl_status ≡ connecting
      → (j : ℕ) → j < suc k
      → (seconds asleep j w).wl_status ≡ connecting
  Runs-connecting sl config k w r first zero h = first
  Runs-connecting sl config k w r first (suc j) h =
      r.waits j (omega arith) (Runs-connecting sl config k w r first j (omega arith))

module _ {Q D S F U N : Type 0} (dev : Device D) (sl : SimpleLink S) (fs : Fs F) (layout : Layout)
    (uart : Uart U) (start : Startup Q) where
  -- Everything is started exactly where the network can be joined.
  abbrev pub Boots :
      (created : ℤ) (config : WlanConfig) (before : Wlan S) (p p' : Parts Q D S F U N) → Type 0
  Boots created config before p p' =
      let joins = Connects sl config (sl.sl_start (sl.sl_stop before.device).1) in
      (joins × Started dev sl fs layout uart start created p p')
      ⊎ ((joins → ⊥) × GivenUp dev sl fs layout uart start p p')

  -- Let the lock and the start task be creatable, the configuration that is chosen have lengths
  -- within its arrays, and the start task run to its end in some second while the initialization
  -- task sleeps, with one more poll to come and the status left alone until then; let the caller of
  -- udp_resolver_start find some byte where that returns nothing. The initialization task ends. Where
  -- the network can be joined from the device's state of that second, the board is connected, the
  -- bridge and the packet handler are started, and the resolver has its key and its port, with its
  -- task running where that could be created and as before otherwise; where it cannot be joined, the
  -- status is ready, and none of the three is touched but for the reset line.
  pub initialization_task-Boots :
      (asleep : ℕ → Wlan S → Wlan S) (k rounds : ℕ) (created : ℤ) (byte : ℕ) (p : Parts Q D S F U N)
      (config : WlanConfig) (f1 : F)
      → let w1 = (wlan_init sl p.wlan).1 in
        let w2 = (wlan_start sl config w1).1 in
        negative (sl.lock_create p.wlan.device).0 ≡ false
        → choose_config fs layout p.files ≡ some (config, f1)
        → Fits config
        → negative (sl.task_create (sl.lock w1.device).1).0 ≡ false
        → Runs asleep sl config k w2
        → suc k < rounds
        → (p' : Parts Q D S F U N) × (initialization_task dev sl fs layout uart asleep rounds
              created
              (some byte)
              start
              p
            ≡ some p')
          × (p'.files ≡ f1)
          × Boots created config (seconds asleep k w2) p p'
  unfolding status_in
  initialization_task-Boots asleep k rounds created byte p config f1 locked chosen fits tasked runs
        enough =
      let w1 = (wlan_init sl p.wlan).1 in
      let w2 = (wlan_start sl config w1).1 in
      let (w', ended, ends, iff) = wlan_start_task-connected sl config (seconds asleep k w2) fits in
      let same : some (seconds asleep (suc k) w2) ≡ some w' = sym runs.runs ∙ ended in
      let after : (seconds asleep (suc k) w2).wl_status ≡ w'.wl_status =
        ap (λ (o : Option (Wlan S)). status_in o) same in
      let ended_with = λ (joined : Bool) (e : Joined asleep joined (seconds asleep (suc k) w2)).
        end_of_loop dev sl fs layout uart start asleep rounds created byte p config f1 joined
          (seconds asleep (suc k) w2) (wlan_init_ok sl p.wlan locked) chosen
          (wlan_start_ok sl config w1 tasked)
          (connected_loop-Joined asleep (suc k) rounds w2 joined enough
            (Runs-connecting asleep sl config k w2 runs (wlan_start_connecting sl config w1)) e)
          e in
      elim ends [
        | inl joined ↦
            let (p', e, kept, s) = ended_with true (after ∙ joined) in
            (p', e, kept, inl (iff.0 joined, s))
        | inr failed ↦
            let (p', e, kept, g) = ended_with false (after ∙ failed) in
            (p', e, kept, inr ((λ joins. let c = iff.1 joins in absurd cc), g))
      ]
