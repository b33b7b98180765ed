-- ===== src/Wifi/AccessPoint/Start.antt =====
-- What a start of the access point comes to.
use ungula_lib_net.Base.{
  ℕ, ◌≡◌, ◌≢◌, ◌↔◌, inl, inr, refl, sym, subst, ◌∙◌, ap, Bool, true, false, List, [], ◌∷◌, Option,
  none, some, take, arith, Bool-cases,
}
use ungula_lib_net.Wifi.Driver.{
  apsta, ApSettings, Driver, ◌>>◌, clean_start, >>-done, clean_start-mode,
}
use ungula_lib_net.Wifi.AccessPoint.{
  WifiApConfig, AccessPoint, settings_with, ap_settings, init_netifs, bring_up, read_ip_info,
  read_effective_wifi_channel, verify, ap_init,
}
use ungula_lib_net.Wifi.AccessPoint.Contract.{IsDriver}

-- The access point is secured exactly with a password that is not empty.
abbrev pub HasPassword : WifiApConfig → Type 0
HasPassword c = (b : ℕ) × (bs : List ℕ) × (c.password ≡ some (b ∷ bs))

-- Settings are as asked for: the name is cut to 31 bytes, the channel and the number of stations are
-- those given, and there is WPA2 exactly with a password that is not empty, which is cut to 63 bytes.
abbrev pub IsAsked : WifiApConfig → ApSettings → Type 0
IsAsked c a =
    (a.ssid ≡ take 31 c.ssid)
    × (a.channel ≡ c.channel)
    × (a.max_connection ≡ c.max_connections)
    × ((a.wpa2 ≡ true) ↔ HasPassword c)
    × ((b : ℕ) → (bs : List ℕ) → c.password ≡ some (b ∷ bs) → a.password ≡ take 63 (b ∷ bs))
    × (¬ HasPassword c → a.password ≡ [])

settings-IsAsked :
    (p : Option (List ℕ)) (c : WifiApConfig) → c.password ≡ p → IsAsked c (settings_with p c)
settings-IsAsked none c e =
    (refl, refl, refl, (λ h. cc, λ (b, bs, e'). cc), λ b bs e'. cc, λ no_password. refl)
settings-IsAsked (some []) c e =
    (refl, refl, refl, (λ h. cc, λ (b, bs, e'). cc), λ b bs e'. cc, λ no_password. refl)
settings-IsAsked (some (b ∷ bs)) c e = (
  refl,
  refl,
  refl,
  (λ h. (b, bs, e), λ h. refl),
  λ b' bs' e'. ground (arith, e, e'),
  λ no_password. absurd (no_password (b, bs, e)),
)

ap_settings-IsAsked : (c : WifiApConfig) → IsAsked c (ap_settings c)
unfolding ap_settings
ap_settings-IsAsked c = settings-IsAsked c.password c refl

module _ {D : Type 0} ⦃w : Driver D⦄ (l : IsDriver w) where
  -- WiFi was started as an access point with these settings.
  abbrev IsUp : WifiApConfig → D → Type 0
  IsUp c d = (w.get_mode d ≡ apsta) × (l.settings d ≡ some (ap_settings c))

  bring_up-IsUp : (c : WifiApConfig) (d : D) → (bring_up c d).1 ≡ true → IsUp c (bring_up c d).0
  unfolding bring_up
  bring_up-IsUp c d up =
      let a = ap_settings c in
      let s1 = >>-done (clean_start apsta) (w.set_ap_config a >> w.wifi_start) d up in
      let d1 = (clean_start apsta d).0 in
      let s2 = >>-done (w.set_ap_config a) w.wifi_start d1 (sym (ap (λ r. r.1) s1.1) ∙ up) in
      let d2 = (w.set_ap_config a d1).0 in
      let (e, set, same) = clean_start-mode apsta d s1.0 in
      let mode : w.get_mode d1 ≡ apsta =
        ap (λ r. w.get_mode r.0) same ∙ l.mode-set_mode apsta e set in
      let end = ap (λ r. r.0) (s1.1 ∙ s2.1) in
      (
        ap w.get_mode end ∙ l.mode-wifi_start d2 ∙ l.mode-set_ap_config a d1 ∙ mode,
        ap l.settings end ∙ l.settings-wifi_start d2 ∙ l.settings-set_ap_config a d1 s2.0,
      )

  read_ip_info-IsUp :
      (c : WifiApConfig) (s : AccessPoint D) → IsUp c s.driver → IsUp c (read_ip_info s).driver
  unfolding read_ip_info
  read_ip_info-IsUp c s (mode, set) = elim (Bool-cases s.ap_netif) [
    | inl there ↦ rw there (l.mode-offer_dns s.driver ∙ mode, l.settings-offer_dns s.driver ∙ set)
    | inr missing ↦ rw missing (mode, set)
  ]

  -- What is checked after the start.
  verify_lem :
      (s : AccessPoint D)
      → s.active ≡ false
      → let r = verify s in
        (r.1 ≡ r.0.active)
        × (r.0.driver ≡ s.driver)
        × (r.1 ≡ true → (r.0.channel ≢ 0) × (w.get_channel r.0.driver ≡ some r.0.channel))
  unfolding verify read_effective_wifi_channel
  verify_lem s off = ground arith

  read_ip_info-active : (s : AccessPoint D) → (read_ip_info s).active ≡ s.active
  unfolding read_ip_info
  read_ip_info-active s = ground arith

  init_netifs-active : (s : AccessPoint D) → (init_netifs s).active ≡ s.active
  unfolding init_netifs
  init_netifs-active s = ground arith

  pub ap_init_up :
      (c : WifiApConfig) (s : AccessPoint D)
      → s.active ≡ false
      → let s1 = init_netifs s in
        (bring_up c s1.driver).1 ≡ true
        → ap_init c s ≡ verify (read_ip_info (record s1 { driver = (bring_up c s1.driver).0 }))
  unfolding ap_init
  ap_init_up c s off up = simp (off, up)

  pub ap_init_down :
      (c : WifiApConfig) (s : AccessPoint D)
      → s.active ≡ false
      → let s1 = init_netifs s in
        (bring_up c s1.driver).1 ≡ false
        → ap_init c s ≡ (record s1 { driver = (bring_up c s1.driver).0 }, false)
  unfolding ap_init
  ap_init_down c s off down = simp (off, down)

  pub ap_init_again :
      (c : WifiApConfig) (s : AccessPoint D) → s.active ≡ true → ap_init c s ≡ (s, true)
  unfolding ap_init
  ap_init_again c s on = rw on refl

  abbrev Outcome : WifiApConfig → AccessPoint D × Bool → Type 0
  Outcome c r =
      (r.1 ≡ r.0.active)
      × (r.1 ≡ true
          → IsUp c r.0.driver × (r.0.channel ≢ 0) × (w.get_channel r.0.driver ≡ some r.0.channel))

  up-Outcome :
      (c : WifiApConfig) (s : AccessPoint D)
      → s.active ≡ false
      → (bring_up c (init_netifs s).driver).1 ≡ true
      → Outcome c (ap_init c s)
  up-Outcome c s off up =
      let s1 = init_netifs s in
      let s2 = record s1 { driver = (bring_up c s1.driver).0 } in
      let s3 = read_ip_info s2 in
      let ready = read_ip_info-IsUp c s2 (bring_up-IsUp c s1.driver up) in
      let v = verify_lem s3 (read_ip_info-active s2 ∙ init_netifs-active s ∙ off) in
      let same = sym (ap_init_up c s off up) in
      subst (Outcome c) same
        (v.0, λ done. (subst (IsUp c) (sym v.1) ready, (v.2 done).0, (v.2 done).1))

  down-Outcome :
      (c : WifiApConfig) (s : AccessPoint D)
      → s.active ≡ false
      → (bring_up c (init_netifs s).driver).1 ≡ false
      → Outcome c (ap_init c s)
  down-Outcome c s off down =
      subst (Outcome c) (sym (ap_init_down c s off down))
        (sym (init_netifs-active s ∙ off), λ done. cc)

  -- A call of `ap_init` on an access point that is not active reports success exactly if it leaves it
  -- active. Then WiFi runs in the mode of access point and station, with the name asked for, cut to
  -- 31 bytes, and the channel and the number of stations asked for, and with WPA2 exactly with a
  -- password that is not empty, which is cut to 63 bytes; the channel kept is the one that the radio is
  -- on, and not 0; and a further call, with whatever settings, changes nothing.
  pub ap_init_outcome :
      (c : WifiApConfig) (s : AccessPoint D)
      → s.active ≡ false
      → let r = ap_init c s in
        (r.1 ≡ r.0.active)
        × (r.1 ≡ true
            → (w.get_mode r.0.driver ≡ apsta)
              × ((a : ApSettings) × (l.settings r.0.driver ≡ some a) × IsAsked c a)
              × (r.0.channel ≢ 0)
              × (w.get_channel r.0.driver ≡ some r.0.channel)
              × ((c' : WifiApConfig) → ap_init c' r.0 ≡ (r.0, true)))
  ap_init_outcome c s off =
      let o : Outcome c (ap_init c s) = elim (Bool-cases (bring_up c (init_netifs s).driver).1) [
        | inl up ↦ up-Outcome c s off up
        | inr down ↦ down-Outcome c s off down
      ] in
      (
        o.0,
        λ done.
            let (ready, some_channel, effective) = o.1 done in
            (
              ready.0,
              (ap_settings c, ready.1, ap_settings-IsAsked c),
              some_channel,
              effective,
              λ c'. ap_init_again c' (ap_init c s).0 (sym o.0 ∙ done),
            ),
      )
