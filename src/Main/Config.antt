-- ===== src/Main/Config.antt =====
-- From a configuration packet on the wire to the configuration after the restart.
use bigblackhardware.Base.{
  ℕ, ◌<◌, ◌≤◌, ◌≡◌, ◌⊎◌, refl, inl, inr, ◌==◌, true, false, ltb, if◌then◌else◌, ◌++◌, replicate,
  some, List, ℤ, pos, negative, length, drop, length-append, length-drop, arith, Bool-cases,
}
use bigblackhardware.Protocol.{type_code, network_configuration}
use bigblackhardware.Packet.{Packet}
use bigblackhardware.Wlan.{
  WlanConfig, mode_sta, mode_ap, sec_open, sec_wpa_wpa2, max_ssid_length, max_pwd_length,
}
use bigblackhardware.Wlan.Storage.{Fs, Layout, create_file, config_file_msize, wlan_save_config}
use bigblackhardware.Wlan.Saved.{FileLaws, LayoutLaws, IsConfig, wlan_load_config-saved}
use bigblackhardware.Wired.{set_mode}
use bigblackhardware.Wired.Network.{
  NetworkWire, network_layout, named, get_wlan_config_from_packet-named,
}
use bigblackhardware.Wired.Updater.{
  Updated, task_deleted, board_restarted, zero_config, updater_task,
}
use bigblackhardware.Main.{choose_config}

zero_config-IsConfig : IsConfig zero_config
zero_config-IsConfig = record { ssid = refl; pwd = refl }

-- What a packet asks for: a station or an access point, on the packet's channel, open where there is
-- no password, with the name and the password in front of zeros.
abbrev pub asked : NetworkWire → WlanConfig
asked w = record {
  mode = if w.mode == 0 then mode_sta else mode_ap;
  sec = if length w.pwd == 0 then sec_open else sec_wpa_wpa2;
  channel = w.channel;
  ssid = w.ssid ++ drop (length w.ssid) (replicate max_ssid_length 0);
  ssid_len = length w.ssid;
  pwd = w.pwd ++ drop (length w.pwd) (replicate max_pwd_length 0);
  pwd_len = length w.pwd;
}

named-IsConfig :
    (w : NetworkWire)
    → length w.ssid ≤ max_ssid_length
    → length w.pwd ≤ max_pwd_length
    → IsConfig (named w zero_config)
named-IsConfig w ssid pwd = record {
  ssid = omega (
    arith,
    length-append w.ssid (drop (length w.ssid) zero_config.ssid),
    length-drop (length w.ssid) zero_config.ssid,
  );
  pwd = omega (
    arith,
    length-append w.pwd (drop (length w.pwd) zero_config.pwd),
    length-drop (length w.pwd) zero_config.pwd,
  );
}

asked-IsConfig :
    (w : NetworkWire)
    → length w.ssid ≤ max_ssid_length
    → length w.pwd ≤ max_pwd_length
    → IsConfig (asked w)
asked-IsConfig w ssid pwd =
    let v = named-IsConfig w ssid pwd in record { ssid = v.ssid; pwd = v.pwd }

-- The mode of a packet is 0 or 1, or it is refused.
set_mode-refused :
    (mode channel : ℕ) (config : WlanConfig)
    → negative (set_mode mode channel config).0 ≡ ltb 1 mode
unfolding set_mode
set_mode-refused mode channel config = elim (Bool-cases (mode == 1)) [
  | inl ap_mode ↦ ground arith
  | inr ap_mode ↦ elim (Bool-cases (mode == 0)) [
    | inl sta_mode ↦ ground arith
    | inr sta_mode ↦ ground arith
  ]
]

-- A mode of 0 or 1 is stored with all that the packet asks for.
set_mode-asked :
    (w : NetworkWire)
    → ltb 1 w.mode ≡ false
    → (set_mode w.mode w.channel (named w zero_config)).1 ≡ asked w
unfolding set_mode
set_mode-asked w valid = elim (Bool-cases (w.mode == 1)) [
  | inl ap_mode ↦ let sta_mode : (w.mode == 0) ≡ false = ground arith in rw (ap_mode, sta_mode) refl
  | inr ap_mode ↦ let sta_mode : (w.mode == 0) ≡ true = ground arith in rw (ap_mode, sta_mode) refl
]

module _ {F : Type 0} (fs : Fs F) (layout : Layout) (laws : FileLaws fs)
    (sizes : LayoutLaws layout) where
  -- What becomes of a packet: it is refused and the file is as before, saving fails, or the board
  -- is restarted and then chooses the configuration.
  abbrev pub Applies : NetworkWire → F → Updated F → Type 0
  Applies w f (task_deleted f') =
      ((1 < w.mode) × (f' ≡ f))
      ⊎ ((status : ℤ) × (wlan_save_config fs layout (asked w) f ≡ some (status, f'))
          × (negative status ≡ true))
  Applies w f (board_restarted f') =
      (w.mode < 2) × ((f'' : F) × (choose_config fs layout f' ≡ some (asked w, f'')))

  -- Let the file system keep what is written and report errors by small negative codes, let all
  -- configurations take up one number of bytes, less than 128, that determine them, and let the
  -- file be creatable. The updater task, on a network configuration packet with a name of at most
  -- 32 bytes and a password of at most 64, ends in one of three ways: the mode is neither 0 nor 1
  -- and the files are as before; or saving the configuration that the packet asks for fails; or the
  -- board is restarted, and the initialization task then chooses exactly the configuration that
  -- the packet asked for: a station for the mode 0 and an access point for 1, its channel,
  -- its security by whether there is a password, and its name and password in front of zeros.
  pub updater_task-Applies :
      (w : NetworkWire) (rest : List ℕ) (packet : Packet) (f : F)
      → packet.header.type ≡ type_code network_configuration
      → packet.packet_data ≡ network_layout w rest
      → length w.ssid ≤ max_ssid_length
      → length w.pwd ≤ max_pwd_length
      → (fs.fs_open (create_file config_file_msize) f).0 ≡ pos 0
      → (u : Updated F) × (updater_task fs layout packet f ≡ some u) × Applies w f u
  unfolding updater_task choose_config
  updater_task-Applies w rest packet f type contents ssid pwd opened =
      let config = asked w in
      let v = asked-IsConfig w ssid pwd in
      let mode = set_mode-refused w.mode w.channel (named w zero_config) in
      let short : ltb max_ssid_length (length w.ssid) ≡ false = ground arith in
      let parsed =
        rw short at
          (get_wlan_config_from_packet-named w rest zero_config (omega arith) pwd refl refl) in
      let (status, f', saved, outcome) =
        wlan_load_config-saved fs layout laws sizes config f v opened in
      elim (Bool-cases (ltb 1 w.mode)) [
        | inl refused ↦ (
          task_deleted f,
          rw (type, contents, parsed, mode, refused) refl,
          inl (ground arith, refl),
        )
        | inr valid ↦
            let stored = set_mode-asked w valid in
            elim outcome [
              | inl failed ↦ (
                task_deleted f',
                rw (type, contents, parsed, mode, valid, stored, saved, failed) refl,
                inr (status, saved, failed),
              )
              | inr (done, loads) ↦
                  let (f'', loaded) = loads zero_config zero_config-IsConfig in
                  (
                    board_restarted f',
                    rw (type, contents, parsed, mode, valid, stored, saved, done) refl,
                    (ground arith, (f'', rw loaded refl)),
                  )
            ]
      ]
