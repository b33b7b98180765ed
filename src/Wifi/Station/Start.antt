-- ===== src/Wifi/Station/Start.antt =====
-- src/wifi/wifi_sta.cpp and wifi_espnow.cpp: sta_init and espnow_init.
use ungula_lib_net.Base.{Bool, true, false, if◌then◌else◌}
use ungula_lib_net.Wifi.Driver.{sta, Driver, Call, ◌>>◌, always, clean_start}
use ungula_lib_net.Wifi.Station.{Wifi, Station, ensure_event_handler}

module _ {D : Type 0} ⦃dr : Driver D⦄ where
  -- The interface is created at every call; whether it is given is not looked at.
  unfoldable pub start_station : Call D
  unfolding clean_start
  start_station = do
    always dr.netif_init
    always (λ d. (dr.create_sta_netif d).0)
    clean_start sta
    dr.wifi_start

module _ {D : Type 0} ⦃dr : Driver D⦄ ⦃w : Wifi D⦄ where
  unfoldable pub sta_init : Station D → Station D × Bool
  sta_init s =
      if s.initialized
      then (s, true)
      else (let (d, up) = start_station s.wifi in
          let s' = record s { wifi = d } in
          if up
          then (record (ensure_event_handler s') { initialized = true }, true)
          else (s', false))

  unfoldable pub espnow_init : Station D → Station D × Bool
  espnow_init s = sta_init s
