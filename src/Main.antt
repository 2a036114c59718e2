-- ===== src/Main.antt =====
-- main.c: the initialization task, from the configuration to the other tasks.
pub mod Config
pub mod Start
pub mod Boot
mod Examples
use bigblackhardware.Base.{
  ℕ, zero, suc, Bool, true, false, Option, none, some, List, [], ◌∷◌, replicate, if◌then◌else◌,
  ◌>>=◌, ℤ, pos, negsuc, negative, u8, copy?, length,
}
use bigblackhardware.PacketManager.{Os}
use bigblackhardware.Programmer.{Device, mcu_reset_off, sys_reset_mcu}
use bigblackhardware.Controller.{Board}
use bigblackhardware.Wlan.{
  WlanConfig, mode_sta, sec_wpa_wpa2, WlanStatus, ready, connecting, connected, SimpleLink, Wlan,
  wlan_init, wlan_start,
}
use bigblackhardware.Wlan.Storage.{Fs, Layout, wlan_load_config}
use bigblackhardware.Wired.{Wired, wired_conf_start}
use bigblackhardware.Wired.Updater.{zero_config}
use bigblackhardware.UdpResolver.Task.{Resolver, udp_resolver_start}
use bigblackhardware.Bridge.{Uart, bridge_start}
use bigblackhardware.Handling.{Server}
use bigblackhardware.Handling.Listen.{Startup, packet_handler_start}

-- "ChtoZaSet"
abbrev pub ssid_name : List ℕ
ssid_name = b'C' ∷ b'h' ∷ b't' ∷ b'o' ∷ b'Z' ∷ b'a' ∷ b'S' ∷ b'e' ∷ b't' ∷ []

-- "GrEs4242SeRg"
abbrev pub ssid_pwd : List ℕ
ssid_pwd = b'G' ∷ b'r' ∷ b'E' ∷ b's' ∷ b'4' ∷ b'2' ∷ b'4' ∷ b'2' ∷ b'S' ∷ b'e' ∷ b'R' ∷ b'g' ∷ []

abbrev pub udp_resolver_port : ℕ
udp_resolver_port = 1094

-- Thirty-two times '0'.
abbrev pub default_device_key : List ℕ
default_device_key = replicate 32 b'0'

abbrev pub bridge_baudrate : ℕ
bridge_baudrate = 115200

-- The channel keeps its value.
unfoldable pub get_default_config : WlanConfig → Option WlanConfig
get_default_config config = do
  ssid ← copy? config.ssid ssid_name
  pwd ← copy? config.pwd ssid_pwd
  some (record config {
    mode = mode_sta;
    ssid_len = length ssid_name;
    ssid = ssid;
    pwd_len = length ssid_pwd;
    pwd = pwd;
    sec = sec_wpa_wpa2;
  })

-- The saved configuration, or the default one over what loading left.
unfoldable pub choose_config : {F : Type 0} → Fs F → Layout → F → Option (WlanConfig × F)
choose_config fs layout f = do
  (status, config, f1) ← wlan_load_config fs layout zero_config f
  let default = (do config' ← get_default_config config; some (config', f1))
  if negative status then default else some (config, f1)

-- Behind a poll of the status: whether the loop ends, or `later`.
abbrev pub after_poll :
    {S : Type 0} → WlanStatus → Wlan S → Option (Bool × Wlan S) → Option (Bool × Wlan S)
after_poll connected w later = some (true, w)
after_poll connecting w later = later
after_poll ready w later = some (false, w)

-- `asleep` is what the other tasks and the device do while the task sleeps. A run that does not
-- end within the rounds has no result.
unfoldable pub connected_loop :
    {S : Type 0} → (asleep : ℕ → Wlan S → Wlan S) → (rounds : ℕ) → Wlan S → Option (Bool × Wlan S)
connected_loop asleep zero w = none
connected_loop asleep (suc rounds) w =
    after_poll w.wl_status w (connected_loop asleep rounds (asleep 1000 w))

-- The parts of the program that the task starts.
pub record Parts (Q D S F U N : Type 0) : Type 0 where
  pub wlan : Wlan S
  pub wired : Wired
  pub files : F
  pub bridge : U
  pub resolver : Resolver
  pub server : Server Q D N

-- Where a function ends without a return statement the caller finds `left`, or the run has no
-- defined result.
abbrev pub or_left : (left returned : Option ℕ) → Option ℕ
or_left left none = left
or_left left (some byte) = some byte

-- Behind the connection. The statuses of the bridge and of the packet handler are dropped; that
-- of the resolver is a _u8. `created` is the status of its task, and `left` what is found where
-- udp_resolver_start returns nothing.
unfoldable pub start_services :
    {Q D S F U N : Type 0}
    → Uart U
    → (created : ℤ) (left : Option ℕ) → Startup Q
    → Parts Q D S F U N
    → Option (Parts Q D S F U N)
start_services uart created left start p = do
  (returned, resolver) ← udp_resolver_start created default_device_key udp_resolver_port p.resolver
  byte ← or_left left returned
  let p1 = record p { bridge = (bridge_start uart bridge_baudrate p.bridge).1; resolver = resolver }
  some (
      if negative (pos (u8 byte))
      then p1
      else record p1 { server = (packet_handler_start start p1.server).1 })

unfoldable pub reset_line_off : {Q D N : Type 0} → Device D → Server Q D N → Server Q D N
reset_line_off dev srv = record srv {
  board = record (srv.board) { device = sys_reset_mcu dev mcu_reset_off srv.board.device };
}

module _ {Q D S F U N : Type 0} (dev : Device D) (sl : SimpleLink S) (fs : Fs F) (layout : Layout)
    (uart : Uart U) where
  -- The task: it ends, with the parts that it started. Printing the configuration is left out.
  unfoldable pub initialization_task :
      (asleep : ℕ → Wlan S → Wlan S) (rounds : ℕ) (created : ℤ) (left : Option ℕ)
      → Startup Q
      → Parts Q D S F U N
      → Option (Parts Q D S F U N)
  initialization_task asleep rounds created left start p =
      let p1 = record p { server = reset_line_off dev p.server } in
      let (inited, wlan1) = wlan_init sl p1.wlan in
      let p2 = record p1 { wlan = wlan1 } in
      let p3 = record p2 { wired = wired_conf_start p2.wired } in
      let run = (do
        (config, f1) ← choose_config fs layout p3.files
        let (started, wlan2) = wlan_start sl config p3.wlan
        let wait = (do
          (joined, wlan3) ← connected_loop asleep rounds wlan2
          let p4 = record p3 { files = f1; wlan = wlan3 }
          if joined then start_services uart created left start p4 else some p4)
        if negative started then some (record p3 { files = f1; wlan = wlan2 }) else wait) in
      if negative inited then some p2 else run
