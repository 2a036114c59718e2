-- ===== src/Wired/Network.antt =====
-- The network configuration against the layout of its packet.
use bigblackhardware.Base.{
  ℕ, ◌+◌, ◌<◌, ◌≤◌, ◌≡◌, refl, ap, ◌∙◌, none, some, List, [], ◌∷◌, ◌++◌, ltb, if◌then◌else◌, u8,
  length, length-append, drop, read?, arith, get_elem?-of_drop, drop-add, read?-take, take-append,
  copy?-fits, copy?-overflow, Bool-cases, inl, inr,
}
use bigblackhardware.Wlan.{WlanConfig, max_ssid_length, max_pwd_length}
use bigblackhardware.Wired.{set_mode, get_wlan_config_from_packet}

-- What the host sends.
pub record NetworkWire : Type 0 where
  pub mode : ℕ
  pub phy : ℕ
  pub channel : ℕ
  pub ssid : List ℕ
  pub pwd : List ℕ

abbrev pub network_layout : NetworkWire → List ℕ → List ℕ
network_layout w rest =
    w.mode ∷ w.phy ∷ w.channel ∷ length w.ssid ∷ (w.ssid ++ (length w.pwd ∷ (w.pwd ++ rest)))

-- The configuration with the name and the password in front of its old bytes.
abbrev pub named : NetworkWire → WlanConfig → WlanConfig
named w config = record config {
  ssid = w.ssid ++ drop (length w.ssid) config.ssid;
  ssid_len = length w.ssid;
  pwd = w.pwd ++ drop (length w.pwd) config.pwd;
  pwd_len = length w.pwd;
}

read?-append : (xs ys : List ℕ) → read? (length xs) (xs ++ ys) ≡ some xs
read?-append xs ys =
    read?-take (length xs) (xs ++ ys) (omega (arith, length-append xs ys))
    ∙ ap some (take-append xs ys (length xs) refl)

module _ (w : NetworkWire) (rest : List ℕ) where
  ssid_end : drop (3 + length w.ssid + 1) (network_layout w rest) ≡ length w.pwd ∷ (w.pwd ++ rest)
  ssid_end = drop-add (network_layout w rest) 4 w.ssid _ (3 + length w.ssid + 1) refl (omega arith)

  pwd_start : drop (3 + length w.ssid + 2) (network_layout w rest) ≡ w.pwd ++ rest
  pwd_start =
      drop-add (network_layout w rest) (3 + length w.ssid + 1) (length w.pwd ∷ []) _
        (3 + length w.ssid + 2) ssid_end (omega arith)

-- A packet with a name of at most 32 bytes and a password of at most 64 is read back: the name, the
-- password and their lengths are stored, then the mode is checked. A name of 33 to 250 bytes is
-- copied past the end of its array.
pub get_wlan_config_from_packet-named :
    (w : NetworkWire) (rest : List ℕ) (config : WlanConfig)
    → length w.ssid < 251
    → length w.pwd ≤ max_pwd_length
    → length config.ssid ≡ max_ssid_length
    → length config.pwd ≡ max_pwd_length
    → get_wlan_config_from_packet (network_layout w rest) config ≡ (
        if ltb max_ssid_length (length w.ssid)
        then none
        else some (set_mode w.mode w.channel (named w config)))
unfolding get_wlan_config_from_packet
get_wlan_config_from_packet-named w rest config small fits ssid pwd =
    let off : u8 (3 + length w.ssid + 2) ≡ 3 + length w.ssid + 2 = omega arith in
    rw
      (
        get_elem?-of_drop (network_layout w rest) (3 + length w.ssid + 1) _ _ (ssid_end w rest),
        read?-append w.ssid (length w.pwd ∷ (w.pwd ++ rest)),
        off,
        pwd_start w rest,
        read?-append w.pwd rest,
        copy?-fits config.pwd w.pwd (length w.pwd) refl (omega arith),
      )
      (elim (Bool-cases (ltb max_ssid_length (length w.ssid))) [
        | inl long ↦ rw (copy?-overflow config.ssid w.ssid (ground arith), long) refl
        | inr short ↦
            rw (copy?-fits config.ssid w.ssid (length w.ssid) refl (ground arith), short) refl
      ])
