-- ===== src/Wlan/Tasks.antt =====
-- Histories of starts and stops: calls, and tasks that run to their end in any order.
use bigblackhardware.Base.{
  ℕ, ◌+◌, ◌<◌, ◌≡◌, ◌≢◌, refl, false, some, List, [], ◌∷◌, ◌++◌, negative, arith, Bool-cases,
  Option-cases, inl, inr,
}
use bigblackhardware.Wlan.{
  WlanConfig, connecting, SimpleLink, WlanTask, start_task, stop_task, Wlan, configure, wlan_start,
  wlan_stop, wlan_start_task, wlan_stop_task,
}

-- How many tasks that start the network have not ended.
abbrev pub starts : List WlanTask → ℕ
starts [] = 0
starts (start_task config ∷ tasks) = starts tasks + 1
starts (stop_task ∷ tasks) = starts tasks

starts-append : (xs ys : List WlanTask) → starts (xs ++ ys) ≡ starts xs + starts ys
starts-append [] ys = omega arith
starts-append (start_task config ∷ xs) ys = omega (arith, starts-append xs ys)
starts-append (stop_task ∷ xs) ys = omega (arith, starts-append xs ys)

module _ {S : Type 0} (sl : SimpleLink S) where
  -- A call of wlan_start gets its task, one of wlan_stop may fail; a task runs to its end; or time
  -- passes, in which the device changes by itself.
  pub data Step (w w' : Wlan S) : Type 0 where
    call_start :
        (config : WlanConfig)
        → negative (sl.task_create (sl.lock w.device).1).0 ≡ false
        → w' ≡ (wlan_start sl config w).1
        → Step w w'
    call_stop : w' ≡ (wlan_stop sl w).1 → Step w w'
    end_start :
        (config : WlanConfig) (before after : List WlanTask) (r : Wlan S)
        → w.tasks ≡ before ++ (start_task config ∷ after)
        → wlan_start_task sl config w ≡ some r
        → w' ≡ record r { tasks = before ++ after }
        → Step w w'
    end_stop :
        (before after : List WlanTask)
        → w.tasks ≡ before ++ (stop_task ∷ after)
        → w' ≡ record (wlan_stop_task sl w) { tasks = before ++ after }
        → Step w w'
    passes : (s : S) → w' ≡ record w { device = s } → Step w w'

  pub data Reach (w : Wlan S) : Wlan S → Type 0 where
    here : Reach w w
    next : {u v : Wlan S} → Reach w u → Step u v → Reach w v

  -- Who waits for the status to leave `connecting` waits for a task.
  abbrev pub Awaited : Wlan S → Type 0
  Awaited w = w.wl_status ≡ connecting → 0 < starts w.tasks

  wlan_start_task-settled :
      (config : WlanConfig) (w r : Wlan S)
      → wlan_start_task sl config w ≡ some r
      → r.wl_status ≢ connecting
  unfolding wlan_start_task
  wlan_start_task-settled config w r e c =
      let started = sl.sl_start (sl.sl_stop w.device).1 in
      elim (Bool-cases (negative started.0)) [
        | inl failed ↦ let e' = rw failed at e in cc
        | inr ok ↦ elim (Option-cases (configure sl config.mode config started.1)) [
          | inl faults ↦ let e' = rw (ok, faults) at e in cc
          | inr (q, returns) ↦ elim (Bool-cases (negative q.0)) [
            | inl failed ↦ let e' = rw (ok, returns, failed) at e in cc
            | inr done ↦ let e' = rw (ok, returns, done) at e in cc
          ]
        ]
      ]

  wlan_start-starts :
      (config : WlanConfig) (w : Wlan S)
      → negative (sl.task_create (sl.lock w.device).1).0 ≡ false
      → starts (wlan_start sl config w).1.tasks ≡ starts w.tasks + 1
  unfolding wlan_start
  wlan_start-starts config w ok = rw ok (starts-append w.tasks (start_task config ∷ []))

  -- Stopping changes neither the status nor the number of starts.
  wlan_stop-starts :
      (w : Wlan S)
      → (starts (wlan_stop sl w).1.tasks ≡ starts w.tasks)
        × ((wlan_stop sl w).1.wl_status ≡ w.wl_status)
  unfolding wlan_stop
  wlan_stop-starts w = elim (Bool-cases (negative (sl.task_create (sl.lock w.device).1).0)) [
    | inl failed ↦ (rw failed refl, rw failed refl)
    | inr ok ↦ (rw ok (omega (arith, starts-append w.tasks (stop_task ∷ []))), rw ok refl)
  ]

  Step-Awaited : {w w' : Wlan S} → Step w w' → Awaited w → Awaited w'
  unfolding wlan_stop_task
  Step-Awaited {w} {w'} (call_start config ok e) h c =
      rw (e, wlan_start-starts config w ok) (omega arith)
  Step-Awaited {w} {w'} (call_stop e) h c =
      let (same, status) = wlan_stop-starts w in rw (e, same) (h (rw (e, status) at c))
  Step-Awaited {w} {w'} (end_start config before after r t run e) h c =
      absurd (wlan_start_task-settled config w r run (rw e at c))
  Step-Awaited {w} {w'} (end_stop before after t e) h c = let c' = rw e at c in cc
  Step-Awaited {w} {w'} (passes s e) h c = rw e (h (rw e at c))

  -- In every history of starts that get their task, stops, tasks that run to their end in any
  -- order and changes of the device, from a state whose status is not connecting: whenever the
  -- status is connecting, a task that starts the network has not ended.
  pub Reach-starts :
      {w w' : Wlan S}
      → w.wl_status ≢ connecting
      → Reach w w'
      → w'.wl_status ≡ connecting
      → 0 < starts w'.tasks
  Reach-starts idle here c = absurd (idle c)
  Reach-starts idle (next r st) c = Step-Awaited st (Reach-starts idle r) c
