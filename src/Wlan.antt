-- ===== src/Wlan.antt =====
-- wlan_config.c: starting and stopping the access point or the station, one task for each. The
-- vendor's library, the lock and the creation of tasks are a parameter.
pub mod Joins
pub mod Tasks
pub mod Storage
pub mod Saved
pub mod Examples
use bigblackhardware.Base.{
  ℕ, zero, suc, ◌==◌, ◌&&◌, Bool, true, false, Option, none, some, List, [], ◌∷◌, ◌++◌,
  if◌then◌else◌, ◌>>=◌, ℤ, pos, negsuc, negative, i8, read?,
}

pub data WlanMode : Type 0 where
  mode_ap mode_sta : WlanMode

pub data WlanSecurityType : Type 0 where
  sec_open sec_wep sec_wpa_wpa2 : WlanSecurityType

-- `ssid` has 32 bytes and `pwd` 64.
pub record WlanConfig : Type 0 where
  pub mode : WlanMode
  pub sec : WlanSecurityType
  pub channel : ℕ
  pub ssid : List ℕ
  pub ssid_len : ℕ
  pub pwd : List ℕ
  pub pwd_len : ℕ

abbrev pub max_ssid_length : ℕ
max_ssid_length = 32

abbrev pub max_pwd_length : ℕ
max_pwd_length = 64

pub data WlanStatus : Type 0 where
  ready connecting connected : WlanStatus

-- SL_SEC_TYPE_OPEN, SL_SEC_TYPE_WEP and SL_SEC_TYPE_WPA_WPA2 of the vendor's library.
pub data SlSecType : Type 0 where
  type_open type_wep type_wpa_wpa2 : SlSecType

-- What sl_WlanSet is called with for the access point.
pub data ApSetting : Type 0 where
  ap_ssid ap_password : List ℕ → ApSetting
  ap_security : SlSecType → ApSetting
  ap_channel : ℕ → ApSetting

pub record SlSecParams : Type 0 where
  pub key : List ℕ
  pub type : SlSecType

-- The vendor's functions with their status, the two bits of g_ulStatus, which the vendor's event
-- handlers write, the LED and the delay, and of the operating system the lock (taken with a
-- timeout of 0) and the creation of a task.
pub record SimpleLink (S : Type 0) : Type 0 where
  pub role_ap : ℤ
  pub wlan_set_mode : WlanMode → S → ℤ × S
  pub wlan_set : ApSetting → S → ℤ × S
  pub sl_start : S → ℤ × S
  pub sl_stop : S → ℤ × S
  pub wlan_connect : List ℕ → Option SlSecParams → S → ℤ × S
  pub wlan_disconnect : S → ℤ × S
  pub is_connected : S → Bool
  pub is_ip_acquired : S → Bool
  pub led : Bool → S → S
  pub utils_delay : ℕ → S → S
  pub lock_create : S → ℤ × S
  pub lock : S → ℤ × S
  pub unlock : S → S
  pub task_create : S → ℤ × S

abbrev pub sl_sec_types : WlanSecurityType → SlSecType
sl_sec_types sec_open = type_open
sl_sec_types sec_wep = type_wep
sl_sec_types sec_wpa_wpa2 = type_wpa_wpa2

abbrev pub max_connecting_time : ℕ
max_connecting_time = 10

-- A task that was created and has not ended.
pub data WlanTask : Type 0 where
  start_task : WlanConfig → WlanTask
  stop_task : WlanTask

-- `device` is the state of the parameter.
pub record Wlan (S : Type 0) : Type 0 where
  pub device : S
  pub wl_status : WlanStatus
  pub current_config : WlanConfig
  pub tasks : List WlanTask

-- status == role
abbrev pub same_code : ℤ → ℤ → Bool
same_code (pos a) (pos b) = a == b
same_code (negsuc a) (negsuc b) = a == b
same_code _ _ = false

abbrev pub sec_params : WlanConfig → Option (Option SlSecParams)
sec_params config = elim config.sec [
  | sec_open ↦ some none
  | _ ↦ (do
    key ← read? config.pwd_len config.pwd
    some (some (record { key = key; type = sl_sec_types config.sec })))
]

abbrev pub status_of_bool : Bool → ℤ
status_of_bool b = if b then pos 1 else pos 0

module _ {S : Type 0} (sl : SimpleLink S) where
  -- One call of sl_WlanSet with its assertion, in a function that returns a bool: the negative
  -- status that the assertion returns is converted to true.
  abbrev pub ap_set : ApSetting → S → (S → Option (Bool × S)) → Option (Bool × S)
  ap_set setting s rest =
      let (status, s1) = sl.wlan_set setting s in
      if negative status then some (true, s1) else rest s1

  unfoldable pub configure_ap : WlanConfig → S → Option (Bool × S)
  configure_ap config s =
      let (status, s1) = sl.wlan_set_mode mode_ap s in
      let run = (do
        ssid ← read? config.ssid_len config.ssid
        ap_set (ap_ssid ssid) s1 (λ s2. ap_set (ap_security (sl_sec_types config.sec)) s2 (λ s3. do
          pwd ← read? config.pwd_len config.pwd
          ap_set (ap_password pwd) s3 (λ s4.
              ap_set (ap_channel config.channel) s4 (λ s5.
                let (role, s6) = sl.sl_start s5 in some (same_code role sl.role_ap, s6)))))) in
      if negative status then some (true, s1) else run

  -- One round of the loop: the LED off and on again, with a delay behind each.
  abbrev pub blink : S → S
  blink s = sl.utils_delay 8000000 (sl.led true (sl.utils_delay 8000000 (sl.led false s)))

  abbrev pub online : S → Bool
  online s = sl.is_connected s && sl.is_ip_acquired s

  -- `left` counts down from MAX_CONNECTING_TIME.
  unfoldable pub connecting_loop : (left : ℕ) → S → ℤ × S
  connecting_loop zero s = (negsuc 0, (sl.sl_stop (sl.wlan_disconnect s).1).1)
  connecting_loop (suc left) s = if online s then (pos 0, s) else connecting_loop left (blink s)

  unfoldable pub configure_sta : WlanConfig → S → Option (ℤ × S)
  configure_sta config s =
      let (moded, s1) = sl.wlan_set_mode mode_sta s in
      let (stopped, s2) = sl.sl_stop s1 in
      let s3 = (sl.sl_start s2).1 in
      let run = (do
        params ← sec_params config
        ssid ← read? config.ssid_len config.ssid
        let (status, s4) = sl.wlan_connect ssid params s3
        some (if negative status then (status, s4) else connecting_loop max_connecting_time s4)) in
      if negative moded
      then some (moded, s1)
      else if negative stopped
      then some (stopped, s2)
      else run

  -- By the mode, as an int.
  abbrev pub configure : WlanMode → WlanConfig → S → Option (ℤ × S)
  configure mode_ap config s = do (b, s1) ← configure_ap config s; some (status_of_bool b, s1)
  configure mode_sta config s = configure_sta config s

  -- The body of the task: mem_copy copies `sizeof *config` bytes, which is one byte for a pointer
  -- to void, and that is the mode.
  unfoldable pub wlan_start_task : WlanConfig → Wlan S → Option (Wlan S)
  wlan_start_task config w =
      let current = record (w.current_config) { mode = config.mode } in
      let (started, s1) = sl.sl_start (sl.sl_stop w.device).1 in
      let finish = (λ (status : WlanStatus) (s : S). record w {
        device = sl.unlock s;
        wl_status = status;
        current_config = current;
      }) in
      let run = (do
        (status, s2) ← configure config.mode config s1
        some (finish (if negative status then ready else connected) s2)) in
      if negative started then some (finish ready s1) else run

  unfoldable pub wlan_stop_task : Wlan S → Wlan S
  wlan_stop_task w = record w { device = sl.unlock (sl.sl_stop w.device).1; wl_status = ready }

  unfoldable pub wlan_init : Wlan S → ℤ × Wlan S
  wlan_init w =
      let (status, s1) = sl.lock_create w.device in
      if negative status
      then (i8 status, record w { device = s1 })
      else (pos 0, record w { device = (sl.sl_start s1).1 })

  -- The status of the lock is dropped.
  unfoldable pub wlan_start : WlanConfig → Wlan S → ℤ × Wlan S
  wlan_start config w =
      let (status, s1) = sl.task_create (sl.lock w.device).1 in
      let w1 = record w { device = s1; wl_status = connecting } in
      if negative status
      then (i8 status, w1)
      else (pos 0, record w1 { tasks = w.tasks ++ (start_task config ∷ []) })

  unfoldable pub wlan_stop : Wlan S → ℤ × Wlan S
  wlan_stop w =
      let (status, s1) = sl.task_create (sl.lock w.device).1 in
      let w1 = record w { device = s1 } in
      if negative status
      then (i8 status, w1)
      else (pos 0, record w1 { tasks = w.tasks ++ (stop_task ∷ []) })
