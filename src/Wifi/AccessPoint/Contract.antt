-- ===== src/Wifi/AccessPoint/Contract.antt =====
-- What ESP-IDF documents of the calls that bring the WiFi up, as far as src/wifi relies on it.
use ungula_lib_net.Base.{◌≡◌, true, Option, some}
use ungula_lib_net.Wifi.Driver.{WifiMode, ApSettings, Driver}

-- A mode that was set stays through the calls that follow it, and so do the settings of the access
-- point.
pub record IsDriver {D : Type 0} (w : Driver D) : Type 0 where
  pub mode-set_mode :
      (m : WifiMode) (d : D) → (w.set_mode m d).1 ≡ true → w.get_mode (w.set_mode m d).0 ≡ m
  pub mode-set_ap_config :
      (a : ApSettings) (d : D) → w.get_mode (w.set_ap_config a d).0 ≡ w.get_mode d
  pub mode-wifi_start : (d : D) → w.get_mode (w.wifi_start d).0 ≡ w.get_mode d
  pub mode-offer_dns : (d : D) → w.get_mode (w.offer_dns d) ≡ w.get_mode d
  pub settings : D → Option ApSettings
  pub settings-set_ap_config :
      (a : ApSettings) (d : D)
      → (w.set_ap_config a d).1 ≡ true
      → settings (w.set_ap_config a d).0 ≡ some a
  pub settings-wifi_start : (d : D) → settings (w.wifi_start d).0 ≡ settings d
  pub settings-offer_dns : (d : D) → settings (w.offer_dns d) ≡ settings d
