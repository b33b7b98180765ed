-- ===== src/Wifi/Sharing/Takeover.antt =====
-- WiFi for ESP-NOW is that of the station, and shuts down what ran before.
use ungula_lib_net.Base.{◌≡◌, ◌∙◌, ap, true, false, arith, Bool-cases, inl, inr}
use ungula_lib_net.Wifi.Driver.{sta, has_ap, Driver, >>-done, clean_start, clean_start-mode}
use ungula_lib_net.Wifi.AccessPoint.{WifiApConfig, AccessPoint, ap_init}
use ungula_lib_net.Wifi.AccessPoint.Contract.{IsDriver}
use ungula_lib_net.Wifi.AccessPoint.Start.{ap_init_again}
use ungula_lib_net.Wifi.Station.{Wifi, Station, ensure_event_handler}
use ungula_lib_net.Wifi.Station.Start.{start_station, sta_init, espnow_init}

module _ {D : Type 0} ⦃w : Driver D⦄ (l : IsDriver w) where
  start_station-mode : (d : D) → (start_station d).1 ≡ true → w.get_mode (start_station d).0 ≡ sta
  unfolding start_station
  start_station-mode d up =
      let d1 = (w.create_sta_netif (w.netif_init d)).0 in
      let s1 = >>-done (clean_start sta) w.wifi_start d1 up in
      let (e, set, same) = clean_start-mode sta d1 s1.0 in
      ap (λ r. w.get_mode r.0) s1.1
      ∙ l.mode-wifi_start (clean_start sta d1).0
      ∙ ap (λ r. w.get_mode r.0) same
      ∙ l.mode-set_mode sta e set

  module _ ⦃ws : Wifi D⦄
      (registered : (d : D) → w.get_mode (ws.register_handlers d) ≡ w.get_mode d) where
    handler-mode : (s : Station D) → w.get_mode (ensure_event_handler s).wifi ≡ w.get_mode s.wifi
    unfolding ensure_event_handler
    handler-mode s = ground (arith, registered s.wifi)

    sta_init-mode :
        (s : Station D)
        → s.initialized ≡ false
        → (sta_init s).1 ≡ true
        → w.get_mode (sta_init s).0.wifi ≡ sta
    unfolding sta_init
    sta_init-mode s off up = elim (Bool-cases (start_station s.wifi).1) [
      | inl started ↦
          simp (off, started)
            (handler-mode (record s { wifi = (start_station s.wifi).0; initialized = false })
              ∙ start_station-mode s.wifi started)
      | inr down ↦ ground (arith, down)
    ]

    -- WiFi started for ESP-NOW while an access point is active shuts the access point down: the WiFi
    -- is left in the mode of a station. The access point still counts as active, and cannot be brought
    -- back: `ap_init`, with whatever settings, reports success and changes nothing.
    pub espnow_takes_ap_down :
        (a : AccessPoint D) (s : Station D)
        → a.active ≡ true
        → s.wifi ≡ a.driver
        → s.initialized ≡ false
        → (espnow_init s).1 ≡ true
        → let a' = record a { driver = (espnow_init s).0.wifi } in
          (has_ap (w.get_mode a'.driver) ≡ false)
          × (a'.active ≡ true)
          × ((c : WifiApConfig) → ap_init c a' ≡ (a', true))
    unfolding espnow_init
    espnow_takes_ap_down a s on shared off up = (
      ap has_ap (sta_init-mode s off up),
      on,
      λ c. ap_init_again l c (record a { driver = (sta_init s).0.wifi }) on,
    )
