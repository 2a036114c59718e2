-- ===== src/Main/Start.antt =====
-- The initialization task ends, and what it has started then.
use bigblackhardware.Base.{
  ℕ, zero, suc, ◌<◌, ◌≡◌, ◌≢◌, ◌∙◌, ap, ◌⊎◌, refl, inl, inr, Bool, true, false, Option, some, [],
  ◌∷◌, ◌++◌, ℤ, pos, negsuc, negative, arith, if◌then◌else◌,
}
use bigblackhardware.Programmer.{Device}
use bigblackhardware.Wlan.{
  WlanConfig, WlanStatus, ready, connecting, connected, SimpleLink, Wlan, wlan_init, wlan_start,
}
use bigblackhardware.Wlan.Storage.{Fs, Layout}
use bigblackhardware.UdpResolver.Task.{Resolver, udp_resolver_start}
use bigblackhardware.Wired.{wired_conf_start}
use bigblackhardware.Bridge.{Uart, bridge_start}
use bigblackhardware.Handling.Listen.{Startup, packet_handler_start}
use bigblackhardware.Main.{
  Parts, choose_config, connected_loop, after_poll, start_services, reset_line_off,
  initialization_task, default_device_key, udp_resolver_port, bridge_baudrate,
}

module _ {S : Type 0} (asleep : ℕ → Wlan S → Wlan S) where
  -- The state after some seconds of sleep.
  abbrev pub seconds : ℕ → Wlan S → Wlan S
  seconds zero w = w
  seconds (suc k) w = seconds k (asleep 1000 w)

  -- One of the polls finds a status other than connecting.
  abbrev pub Settles : ℕ → Wlan S → Type 0
  Settles rounds w = (k : ℕ) × (k < rounds) × ((seconds k w).wl_status ≢ connecting)

  -- How the loop ends: connected, or ready.
  abbrev pub Joined : Bool → Wlan S → Type 0
  Joined joined w = w.wl_status ≡ (if joined then connected else ready)

  later :
      (rounds : ℕ) (w : Wlan S)
      → w.wl_status ≡ connecting
      → Settles (suc rounds) w
      → Settles rounds (asleep 1000 w)
  later rounds w e (zero, h, s) = absurd (s e)
  later rounds w e (suc k, h, s) = (k, omega arith, s)

  status-Settles :
      (w : Wlan S) (rest : Option (Bool × Wlan S)) (t : WlanStatus)
      → w.wl_status ≡ t
      → (w.wl_status ≡ connecting
          → (joined : Bool) × (w' : Wlan S) × (rest ≡ some (joined, w')) × Joined joined w')
      → (joined : Bool) × (w' : Wlan S) × (after_poll w.wl_status w rest ≡ some (joined, w'))
        × Joined joined w'
  status-Settles w rest connected e ends = (true, w, ap (λ s. after_poll s w rest) e, e)
  status-Settles w rest ready e ends = (false, w, ap (λ s. after_poll s w rest) e, e)
  status-Settles w rest connecting e ends =
      let (joined, w', runs, j) = ends e in (joined, w', ap (λ s. after_poll s w rest) e ∙ runs, j)

  connected_loop-Settles :
      (rounds : ℕ) (w : Wlan S)
      → Settles rounds w
      → (joined : Bool) × (w' : Wlan S) × (connected_loop asleep rounds w ≡ some (joined, w'))
        × Joined joined w'
  unfolding connected_loop
  connected_loop-Settles zero w (k, h, s) = absurd (omega arith)
  connected_loop-Settles (suc rounds) w settles =
      status-Settles w (connected_loop asleep rounds (asleep 1000 w)) w.wl_status refl
        (λ e. connected_loop-Settles rounds (asleep 1000 w) (later rounds w e settles))

pub wlan_init_ok :
    {S : Type 0} (sl : SimpleLink S) (w : Wlan S)
    → negative (sl.lock_create w.device).0 ≡ false
    → negative (wlan_init sl w).0 ≡ false
unfolding wlan_init
wlan_init_ok sl w ok = rw ok refl

pub wlan_start_ok :
    {S : Type 0} (sl : SimpleLink S) (config : WlanConfig) (w : Wlan S)
    → negative (sl.task_create (sl.lock w.device).1).0 ≡ false
    → negative (wlan_start sl config w).0 ≡ false
unfolding wlan_start
wlan_start_ok sl config w ok = rw ok refl

-- A resolver with the default key and port.
abbrev with_key : Bool → Resolver → Resolver
with_key running r = record {
  cfg = record { key = some (default_device_key ++ (0 ∷ [])); port = udp_resolver_port };
  listen_sock = r.listen_sock;
  running = running;
}

module _ {Q D S F U N : Type 0} (dev : Device D) (sl : SimpleLink S) (fs : Fs F) (layout : Layout)
    (uart : Uart U) (start : Startup Q) where
  -- The bridge and the packet handler are started, and the resolver has the key and the port. Its
  -- task runs where it could be created.
  pub record Started (created : ℤ) (p p' : Parts Q D S F U N) : Type 0 where
    pub status : p'.wlan.wl_status ≡ connected
    pub bridge : p'.bridge ≡ (bridge_start uart bridge_baudrate p.bridge).1
    pub resolver : p'.resolver ≡ record {
      cfg = record { key = some (default_device_key ++ (0 ∷ [])); port = udp_resolver_port };
      listen_sock = p.resolver.listen_sock;
      running = if negative created then p.resolver.running else true;
    }
    pub server : p'.server ≡ (packet_handler_start start (reset_line_off dev p.server)).1

  -- Nothing of that is touched but the reset line.
  pub record GivenUp (p p' : Parts Q D S F U N) : Type 0 where
    pub status : p'.wlan.wl_status ≡ ready
    pub bridge : p'.bridge ≡ p.bridge
    pub resolver : p'.resolver ≡ p.resolver
    pub server : p'.server ≡ reset_line_off dev p.server

  start_services-Started :
      (created : ℤ) (byte : ℕ) (p p4 : Parts Q D S F U N)
      → p4.wlan.wl_status ≡ connected
      → p4.bridge ≡ p.bridge
      → p4.resolver ≡ p.resolver
      → p4.server ≡ reset_line_off dev p.server
      → (p' : Parts Q D S F U N) × (start_services uart created (some byte) start p4 ≡ some p')
        × (p'.files ≡ p4.files)
        × Started created p p'
  unfolding start_services udp_resolver_start
  start_services-Started (pos n) byte p p4 status bridge resolver server = (
    _,
    refl,
    refl,
    record {
      status = status;
      bridge = ap (λ b. (bridge_start uart bridge_baudrate b).1) bridge;
      resolver = ap (λ (r : Resolver). with_key true r) resolver;
      server = ap (λ s. (packet_handler_start start s).1) server;
    },
  )
  start_services-Started (negsuc n) byte p p4 status bridge resolver server = (
    _,
    refl,
    refl,
    record {
      status = status;
      bridge = ap (λ b. (bridge_start uart bridge_baudrate b).1) bridge;
      resolver = ap (λ (r : Resolver). with_key r.running r) resolver;
      server = ap (λ s. (packet_handler_start start s).1) server;
    },
  )

  abbrev pub Ended : (created : ℤ) (joined : Bool) (p p' : Parts Q D S F U N) → Type 0
  Ended created true p p' = Started created p p'
  Ended created false p p' = GivenUp p p'

  Ended-cases :
      (created : ℤ) (joined : Bool) (p p' : Parts Q D S F U N)
      → Ended created joined p p'
      → Started created p p' ⊎ GivenUp p p'
  Ended-cases created true p p' started = inl started
  Ended-cases created false p p' given_up = inr given_up

  -- The end of the task, for an end of the loop.
  pub end_of_loop :
      (asleep : ℕ → Wlan S → Wlan S) (rounds : ℕ) (created : ℤ) (byte : ℕ) (p : Parts Q D S F U N)
      (config : WlanConfig) (f1 : F) (joined : Bool) (w' : Wlan S)
      → let w1 = (wlan_init sl p.wlan).1 in
        negative (wlan_init sl p.wlan).0 ≡ false
        → choose_config fs layout p.files ≡ some (config, f1)
        → negative (wlan_start sl config w1).0 ≡ false
        → connected_loop asleep rounds (wlan_start sl config w1).1 ≡ some (joined, w')
        → Joined asleep joined w'
        → (p' : Parts Q D S F U N) × (initialization_task dev sl fs layout uart asleep rounds
              created
              (some byte)
              start
              p
            ≡ some p')
          × (p'.files ≡ f1)
          × Ended created joined p p'
  unfolding initialization_task
  end_of_loop asleep rounds created byte p config f1 true w' inited chosen started runs ends =
      let p4 = record p {
        wlan = w';
        wired = wired_conf_start p.wired;
        files = f1;
        server = reset_line_off dev p.server;
      } in
      let (p', e, kept, s) = start_services-Started created byte p p4 ends refl refl refl in
      (p', rw (inited, chosen, started, runs) e, kept, s)
  end_of_loop asleep rounds created byte p config f1 false w' inited chosen started runs ends = (
    record p {
      wlan = w';
      wired = wired_conf_start p.wired;
      files = f1;
      server = reset_line_off dev p.server;
    },
    rw (inited, chosen, started, runs) refl,
    refl,
    record { status = ends; bridge = refl; resolver = refl; server = refl },
  )

  -- Where the lock and the start task can be created, a configuration is chosen, some poll before the
  -- rounds are over finds the status no longer connecting, and the caller of udp_resolver_start finds
  -- some byte where that returns nothing, the initialization task ends. Then either the board is
  -- connected, the bridge and the packet handler are started, each from its state before but for the
  -- reset line, and the resolver has the default key and the port 1094, with its task running where
  -- that could be created and as before otherwise; or the status is ready, and none of the three is
  -- touched but for the reset line.
  pub initialization_task-ends :
      (asleep : ℕ → Wlan S → Wlan S) (rounds : ℕ) (created : ℤ) (byte : ℕ) (p : Parts Q D S F U N)
      (config : WlanConfig) (f1 : F)
      → let w1 = (wlan_init sl p.wlan).1 in
        negative (sl.lock_create p.wlan.device).0 ≡ false
        → choose_config fs layout p.files ≡ some (config, f1)
        → negative (sl.task_create (sl.lock w1.device).1).0 ≡ false
        → Settles asleep rounds (wlan_start sl config w1).1
        → (p' : Parts Q D S F U N) × (initialization_task dev sl fs layout uart asleep rounds
              created
              (some byte)
              start
              p
            ≡ some p')
          × (p'.files ≡ f1)
          × (Started created p p' ⊎ GivenUp p p')
  initialization_task-ends asleep rounds created byte p config f1 locked chosen tasked settles =
      let w1 = (wlan_init sl p.wlan).1 in
      let (joined, w', runs, ends) =
        connected_loop-Settles asleep rounds (wlan_start sl config w1).1 settles in
      let (p', e, kept, ended) =
        end_of_loop asleep rounds created byte p config f1 joined w' (wlan_init_ok sl p.wlan locked)
          chosen (wlan_start_ok sl config w1 tasked) runs ends in
      (p', e, kept, Ended-cases created joined p p' ended)
