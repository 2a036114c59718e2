-- ===== src/Wlan/Joins.antt =====
-- How a start ends: which answers of the vendor's library lead to a connection.
use bigblackhardware.Base.{
  ℕ, List, ◌>>=◌, zero, suc, ◌<◌, ◌≤◌, ◌≡◌, ◌↔◌, ◌⊎◌, inl, inr, refl, Bool, true, false, Option,
  none, some, ℤ, negative, read?, length, take, read?-take, arith, Bool-cases,
}
use bigblackhardware.Wlan.{
  WlanConfig, WlanMode, mode_ap, mode_sta, WlanSecurityType, sec_open, sec_wep, sec_wpa_wpa2,
  WlanStatus, ready, connected, SimpleLink, SlSecParams, Wlan, sl_sec_types, sec_params, ApSetting,
  ap_set, ap_ssid, ap_security, ap_password, ap_channel, same_code, max_connecting_time,
  configure_ap, configure_sta, configure, connecting_loop, blink, online, status_of_bool,
  wlan_start_task,
}

-- The lengths are those of strings in the arrays.
pub record Fits (config : WlanConfig) : Type 0 where
  pub ssid : config.ssid_len ≤ length config.ssid
  pub pwd : config.pwd_len ≤ length config.pwd

-- What sl_WlanConnect is to be called with: no key for an open network.
abbrev pub credentials : WlanConfig → Option SlSecParams
credentials config = elim config.sec [
  | sec_open ↦ none
  | _ ↦ some (record { key = take config.pwd_len config.pwd; type = sl_sec_types config.sec })
]

sec_params-credentials :
    (config : WlanConfig) → Fits config → sec_params config ≡ some (credentials config)
sec_params-credentials config fits = by_type config.sec refl
  where
    by_type :
        (t : WlanSecurityType) → config.sec ≡ t → sec_params config ≡ some (credentials config)
    by_type sec_open e = rw e refl
    by_type sec_wep e = rw (e, read?-take config.pwd_len config.pwd fits.pwd) refl
    by_type sec_wpa_wpa2 e = rw (e, read?-take config.pwd_len config.pwd fits.pwd) refl

never_negative : (b : Bool) → negative (status_of_bool b) ≡ false
never_negative true = refl
never_negative false = refl

module _ {S : Type 0} (sl : SimpleLink S) where
  abbrev pub blinks : ℕ → S → S
  blinks zero s = s
  blinks (suc k) s = blinks k (blink sl s)

  -- One of the polls finds the board connected and with an address.
  abbrev pub Online : ℕ → S → Type 0
  Online polls s = (k : ℕ) × (k < polls) × (online sl (blinks k s) ≡ true)

  Online-later : (n : ℕ) (s : S) → online sl s ≡ false → Online (suc n) s → Online n (blink sl s)
  Online-later n s off (zero, h, on) = cc
  Online-later n s off (suc k, h, on) = (k, omega arith, on)

  connecting_loop-Online :
      (n : ℕ) (s : S) → (negative (connecting_loop sl n s).0 ≡ false) ↔ Online n s
  unfolding connecting_loop
  connecting_loop-Online zero s = (λ e. cc, λ (k, h, on). absurd (omega arith))
  connecting_loop-Online (suc n) s = elim (Bool-cases (online sl s)) [
    | inl on ↦ (λ _. (zero, omega arith, on), λ _. rw on refl)
    | inr off ↦
        let later = connecting_loop-Online n (blink sl s) in
        (
          λ e. let (k, h, on) = later.0 (rw off at e) in (suc k, omega arith, on),
          λ o. rw off (later.1 (Online-later n s off o)),
        )
  ]

  -- A function that reads only the arrays of a configuration that fits returns.
  abbrev Returns : Option (Bool × S) → Type 0
  Returns o = (r : Bool × S) × (o ≡ some r)

  ap_set-Returns :
      (setting : ApSetting) (s : S) (rest : S → Option (Bool × S))
      → ((s' : S) → Returns (rest s'))
      → Returns (ap_set sl setting s rest)
  ap_set-Returns setting s rest h = elim (Bool-cases (negative (sl.wlan_set setting s).0)) [
    | inl failed ↦ ((true, (sl.wlan_set setting s).1), rw failed refl)
    | inr done ↦ let (r, e) = h (sl.wlan_set setting s).1 in (r, rw (done, e) refl)
  ]

  read?-Returns :
      (n : ℕ) (xs : List ℕ) (rest : List ℕ → Option (Bool × S))
      → n ≤ length xs
      → ((ys : List ℕ) → Returns (rest ys))
      → Returns (read? n xs >>= rest)
  read?-Returns n xs rest h returns =
      let (r, e) = returns (take n xs) in (r, rw (read?-take n xs h) e)

  configure_ap-Returns :
      (config : WlanConfig) (s : S) → Fits config → Returns (configure_ap sl config s)
  unfolding configure_ap
  configure_ap-Returns config s fits = elim (Bool-cases (negative (sl.wlan_set_mode mode_ap s).0)) [
    | inl failed ↦ ((true, (sl.wlan_set_mode mode_ap s).1), rw failed refl)
    | inr done ↦ rw done (
        read?-Returns config.ssid_len config.ssid _ fits.ssid (λ ssid.
          ap_set-Returns (ap_ssid ssid) _ _ (λ s1.
            ap_set-Returns (ap_security (sl_sec_types config.sec)) s1 _ (λ s2.
              read?-Returns config.pwd_len config.pwd _ fits.pwd (λ pwd.
                ap_set-Returns (ap_password pwd) s2 _ (λ s3.
                  ap_set-Returns (ap_channel config.channel) s3 _ (λ s4.
                    ((same_code (sl.sl_start s4).0 sl.role_ap, (sl.sl_start s4).1), refl))))))))
  ]

  -- The call of sl_WlanConnect, behind those before it.
  abbrev pub connects : WlanConfig → S → ℤ × S
  connects config s =
      sl.wlan_connect (take config.ssid_len config.ssid) (credentials config)
        (sl.sl_start (sl.sl_stop (sl.wlan_set_mode mode_sta s).1).1).1

  -- The calls that join a network succeed, and it is joined within MAX_CONNECTING_TIME polls.
  pub record Joins (config : WlanConfig) (s : S) : Type 0 where
    pub moded : negative (sl.wlan_set_mode mode_sta s).0 ≡ false
    pub stopped : negative (sl.sl_stop (sl.wlan_set_mode mode_sta s).1).0 ≡ false
    pub asked : negative (connects config s).0 ≡ false
    pub online : Online max_connecting_time (connects config s).1

  configure_sta-Joins :
      (config : WlanConfig) (s : S)
      → Fits config
      → (r : ℤ × S) × (configure_sta sl config s ≡ some r)
        × ((negative r.0 ≡ false) ↔ Joins config s)
  unfolding configure_sta
  configure_sta-Joins config s fits =
      let ssid = read?-take config.ssid_len config.ssid fits.ssid in
      let params = sec_params-credentials config fits in
      elim (Bool-cases (negative (sl.wlan_set_mode mode_sta s).0)) [
        | inl failed ↦
            (sl.wlan_set_mode mode_sta s, rw failed refl, (λ e. cc, λ j. let m = j.moded in cc))
        | inr moded ↦ elim (Bool-cases (negative (sl.sl_stop (sl.wlan_set_mode mode_sta s).1).0)) [
          | inl failed ↦ (
            sl.sl_stop (sl.wlan_set_mode mode_sta s).1,
            rw (moded, failed) refl,
            (λ e. cc, λ j. let m = j.stopped in cc),
          )
          | inr stopped ↦ elim (Bool-cases (negative (connects config s).0)) [
            | inl failed ↦ (
              connects config s,
              rw (moded, stopped, params, ssid, failed) refl,
              (λ e. cc, λ j. let m = j.asked in cc),
            )
            | inr asked ↦ (
              connecting_loop sl max_connecting_time (connects config s).1,
              rw (moded, stopped, params, ssid, asked) refl,
              (
                λ e. record {
                  moded = moded;
                  stopped = stopped;
                  asked = asked;
                  online = (connecting_loop-Online max_connecting_time (connects config s).1).0 e;
                },
                λ j. (connecting_loop-Online max_connecting_time (connects config s).1).1 j.online,
              ),
            )
          ]
        ]
      ]

  configure-Joins :
      (mode : WlanMode) (config : WlanConfig) (s : S)
      → Fits config
      → (r : ℤ × S) × (configure sl mode config s ≡ some r)
        × ((negative r.0 ≡ false) ↔ ((mode ≡ mode_ap) ⊎ Joins config s))
  configure-Joins mode_ap config s fits =
      let ((b, s1), returns) = configure_ap-Returns config s fits in
      ((status_of_bool b, s1), rw returns refl, (λ _. inl refl, λ _. never_negative b))
  configure-Joins mode_sta config s fits =
      let (r, returns, iff) = configure_sta-Joins config s fits in
      (r, returns, (λ n. inr (iff.0 n), λ c. elim c [ inl ap_mode ↦ cc | inr joins ↦ iff.1 joins ]))

  abbrev pub finished : WlanConfig → WlanStatus → S → Wlan S → Wlan S
  finished config status s w = record w {
    device = sl.unlock s;
    wl_status = status;
    current_config = record (w.current_config) { mode = config.mode };
  }

  -- What `started`, the answer of sl_Start, and those that follow it must be.
  abbrev pub Connects : WlanConfig → ℤ × S → Type 0
  Connects config started =
      (negative started.0 ≡ false) × ((config.mode ≡ mode_ap) ⊎ Joins config started.1)

  -- For a configuration whose lengths are within its arrays, the task returns and leaves the
  -- status connected or ready, never connecting. It is connected exactly when sl_Start succeeds
  -- and either the mode is access point, whatever the vendor's library answers from then on, or
  -- the calls that join the network succeed and one of the first ten polls finds the board
  -- connected and with an address.
  pub wlan_start_task-connected :
      (config : WlanConfig) (w : Wlan S)
      → Fits config
      → (w' : Wlan S) × (wlan_start_task sl config w ≡ some w')
        × ((w'.wl_status ≡ connected) ⊎ (w'.wl_status ≡ ready))
        × ((w'.wl_status ≡ connected) ↔ Connects config (sl.sl_start (sl.sl_stop w.device).1))
  unfolding wlan_start_task
  wlan_start_task-connected config w fits =
      let started = sl.sl_start (sl.sl_stop w.device).1 in
      let (r, returns, iff) = configure-Joins config.mode config started.1 fits in
      elim (Bool-cases (negative started.0)) [
        | inl failed ↦ (
          finished config ready started.1 w,
          rw failed refl,
          inr refl,
          (λ e. cc, λ c. let ok = c.0 in cc),
        )
        | inr ok ↦ elim (Bool-cases (negative r.0)) [
          | inl failed ↦ (
            finished config ready r.1 w,
            rw (ok, returns, failed) refl,
            inr refl,
            (λ e. cc, λ c. let n = iff.1 c.1 in cc),
          )
          | inr done ↦ (
            finished config connected r.1 w,
            rw (ok, returns, done) refl,
            inl refl,
            (λ e. (ok, iff.0 done), λ c. refl),
          )
        ]
      ]
