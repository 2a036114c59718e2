-- ===== src/Wlan/Examples.antt =====
-- Runs of wlan_config.c with a device that is online after six delays, and a flash of one file.
use bigblackhardware.Base.{
  ℕ, ◌+◌, ◌<◌, ◌≡◌, ◌↔◌, ◌⊎◌, ◌==◌, sym, refl, ap, inl, Option, none, some, List, [], ◌∷◌, ◌++◌,
  if◌then◌else◌, ltb, ℤ, pos, negsuc, length, length-append, get_or, drop, take, replicate, arith,
  take-append, drop-add,
}
use bigblackhardware.Wlan.{
  WlanConfig, WlanMode, mode_ap, mode_sta, WlanSecurityType, sec_open, sec_wep, sec_wpa_wpa2, ready,
  connecting, connected, SimpleLink, Wlan, wlan_start, wlan_start_task,
}
use bigblackhardware.Wlan.Joins.{Fits, Connects, wlan_start_task-connected}
use bigblackhardware.Wlan.Tasks.{starts, call_start, here, next, Reach-starts}
use bigblackhardware.Wlan.Storage.{create_file, read_file, Fs, Layout}
use bigblackhardware.Wlan.Saved.{FileLaws, LayoutLaws}

-- The state counts the delays.
abbrev pub radio : SimpleLink ℕ
radio = record {
  role_ap = pos 2;
  wlan_set_mode = λ mode s. (pos 0, s);
  wlan_set = λ setting s. (negsuc 4, s);
  sl_start = λ s. (pos 0, s);
  sl_stop = λ s. (pos 0, s);
  wlan_connect = λ ssid params s. (pos 0, s);
  wlan_disconnect = λ s. (pos 0, s);
  is_connected = λ s. ltb 2 s;
  is_ip_acquired = λ s. ltb 5 s;
  led = λ on s. s;
  utils_delay = λ n s. s + 1;
  lock_create = λ s. (pos 0, s);
  lock = λ s. (pos 0, s);
  unlock = λ s. s;
  task_create = λ s. (pos 0, s);
}

abbrev pub network : WlanConfig
network = record {
  mode = mode_sta;
  sec = sec_wpa_wpa2;
  channel = 6;
  ssid = b'h' ∷ b'o' ∷ b'm' ∷ b'e' ∷ replicate 28 0;
  ssid_len = 4;
  pwd = b'x' ∷ replicate 63 0;
  pwd_len = 1;
}

abbrev pub switched_on : Wlan ℕ
switched_on = record { device = 0; wl_status = ready; current_config = network; tasks = [] }

pub network-Fits : Fits network
network-Fits = record { ssid = omega arith; pwd = omega arith }

wlan_start_task-connected_example :
    (w' : Wlan ℕ) × (wlan_start_task radio network switched_on ≡ some w')
    × ((w'.wl_status ≡ connected) ⊎ (w'.wl_status ≡ ready))
    × ((w'.wl_status ≡ connected) ↔ Connects radio network (pos 0, 0))
wlan_start_task-connected_example = wlan_start_task-connected radio network switched_on network-Fits

abbrev started : Wlan ℕ
started = (wlan_start radio network switched_on).1

started_connecting : started.wl_status ≡ connecting
unfolding wlan_start
started_connecting = refl

Reach-starts_example : 0 < starts started.tasks
Reach-starts_example =
    Reach-starts radio {w = switched_on} {w' = started} (λ e. cc)
      (next here (call_start network refl refl)) started_connecting

-- The file, and the bytes that are written to a new one.
pub record Flash : Type 0 where
  pub file : Option (List ℕ)
  pub written : List ℕ

abbrev answer : Option (List ℕ) → Flash → ℤ × Option ℕ × Flash
answer none f = (negsuc 10, none, f)
answer (some bytes) f = (pos 0, some 2, f)

abbrev contents : Option (List ℕ) → Flash → ℤ × List ℕ × Flash
contents none f = (negsuc 0, [], f)
contents (some bytes) f = (pos (length bytes), bytes, f)

-- A new file has the handle 1, and the old one the handle 2.
abbrev pub flash : Fs Flash
flash = record {
  fs_open = λ mode f. elim mode [
    | create_file size ↦ (pos 0, some 1, record { file = none; written = [] })
    | read_file ↦ answer f.file f
  ];
  fs_write = λ h bytes f. (pos (length bytes), record f { written = bytes });
  fs_read = λ h n f. contents f.file f;
  fs_close = λ h f. if h == 1 then record f { file = some f.written } else f;
}

pub flash-FileLaws : FileLaws flash
flash-FileLaws = record {
  contents = λ f. f.file;
  Writes = λ h bytes f. (h ≡ 1) × (f.written ≡ bytes);
  Reads = λ h bytes f. f.file ≡ some bytes;
  create_status = λ size f. inl refl;
  create_handle = λ size f e. (1, refl, (refl, refl));
  write_status = λ h bytes f w. inl refl;
  write_bytes = λ h bytes f w e. (w.0, refl);
  close_written = λ h bytes f w. rw (w.0, w.1) refl;
  open_handle = λ bytes f e. (2, f, ap (λ o. answer o f) e, e);
  read_bytes = λ h bytes f e. (f, ap (λ o. contents o f) e);
}

abbrev mode_byte : WlanMode → ℕ
mode_byte mode_ap = 0
mode_byte mode_sta = 1

abbrev byte_mode : ℕ → WlanMode
byte_mode b = if b == 0 then mode_ap else mode_sta

abbrev sec_byte : WlanSecurityType → ℕ
sec_byte sec_open = 0
sec_byte sec_wep = 1
sec_byte sec_wpa_wpa2 = 2

abbrev byte_sec : ℕ → WlanSecurityType
byte_sec b = if b == 0 then sec_open else if b == 1 then sec_wep else sec_wpa_wpa2

byte_mode-mode_byte : (m : WlanMode) → byte_mode (mode_byte m) ≡ m
byte_mode-mode_byte mode_ap = refl
byte_mode-mode_byte mode_sta = refl

byte_sec-sec_byte : (t : WlanSecurityType) → byte_sec (sec_byte t) ≡ t
byte_sec-sec_byte sec_open = refl
byte_sec-sec_byte sec_wep = refl
byte_sec-sec_byte sec_wpa_wpa2 = refl

-- Five bytes, the name and the password.
abbrev pub packed : Layout
packed = record {
  to_bytes = λ c.
      mode_byte c.mode ∷ sec_byte c.sec ∷ c.channel ∷ c.ssid_len ∷ c.pwd_len ∷ (c.ssid ++ c.pwd);
  of_bytes = λ bytes. record {
    mode = byte_mode (get_or bytes 0 0);
    sec = byte_sec (get_or bytes 1 0);
    channel = get_or bytes 2 0;
    ssid = take 32 (drop 5 bytes);
    ssid_len = get_or bytes 3 0;
    pwd = drop 37 bytes;
    pwd_len = get_or bytes 4 0;
  };
}

pub packed-LayoutLaws : LayoutLaws packed
packed-LayoutLaws = record {
  size = 101;
  small = omega arith;
  sized = λ c v. let a = v.ssid in let b = v.pwd in omega (arith, length-append c.ssid c.pwd);
  decodes = λ c v.
      let a = v.ssid in
      rw
        (
          byte_mode-mode_byte c.mode,
          byte_sec-sec_byte c.sec,
          take-append c.ssid c.pwd 32 (sym a),
          drop-add (c.ssid ++ c.pwd) 0 c.ssid c.pwd 32 refl (omega arith),
        )
        refl;
}

abbrev pub empty_flash : Flash
empty_flash = record { file = none; written = [] }
