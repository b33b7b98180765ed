-- ===== src/Wifi/Sharing/Tests.antt =====
-- The theorems about the start of WiFi and about the addresses shown at concrete inputs, over a chip
-- that obeys its calls.
use ungula_lib_net.Base.{◌≡◌, refl, not, Bool, true, false, [], ◌∷◌, Option, none, some, arith}
use ungula_lib_net.Comm.Types.{MacAddress, cleared}
use ungula_lib_net.Text.{Ip, no_ip}
use ungula_lib_net.Wifi.Driver.{WifiMode, apsta, off, has_ap, ApSettings, Driver, clean_start}
use ungula_lib_net.Wifi.AccessPoint.{
  WifiApConfig, AccessPoint, create, ap_init, init_netifs, bring_up, read_ip_info, verify,
  read_effective_wifi_channel,
}
use ungula_lib_net.Wifi.AccessPoint.Contract.{IsDriver}
use ungula_lib_net.Wifi.AccessPoint.Start.{IsAsked, ap_init_outcome}
use ungula_lib_net.Wifi.Station.{Wifi, Station, sta_get_ip}
use ungula_lib_net.Wifi.Station.Start.{start_station, sta_init, espnow_init}
use ungula_lib_net.Wifi.Addresses.{Known, ShowsIp, addresses_shown}
use ungula_lib_net.Wifi.Sharing.Takeover.{espnow_takes_ap_down}

-- `broken` is a chip whose WiFi does not start.
record Chip : Type 0 where
  mode : WifiMode
  settings : Option ApSettings
  broken : Bool

abbrev chip_mac : MacAddress
chip_mac = record { b0 = 0x24; b1 = 0x0a; b2 = 0xc4; b3 = 0; b4 = 255; b5 = 16 }

abbrev gateway : Ip
gateway = record { a = 192; b = 168; c = 4; d = 1 }

abbrev home_ip : Ip
home_ip = record { a = 10; b = 0; c = 0; d = 137 }

instance abbrev chip : Driver Chip
chip = record {
  netif_init = λ d. d;
  create_ap_netif = λ d. (d, true);
  create_sta_netif = λ d. (d, true);
  wifi_disconnect = λ d. d;
  wifi_stop = λ d. d;
  wifi_deinit = λ d. record d { mode = off };
  wifi_init = λ d. (d, not d.broken);
  set_storage_ram = λ d. d;
  set_mode = λ m d. (record d { mode = m }, true);
  set_ap_config = λ a d. (record d { settings = some a }, true);
  wifi_start = λ d. (d, true);
  offer_dns = λ d. d;
  get_mode = λ d. d.mode;
  get_channel = λ d. some 6;
  ap_ip = λ d. some gateway;
  sta_ip = λ d. some home_ip;
  ap_mac = λ d. some chip_mac;
  sta_mac = λ d. some cleared;
}

instance abbrev chip_station : Wifi Chip
chip_station = record {
  set_config = λ ssid password d. (d, true);
  connect = λ d. (d, true);
  disconnect = λ d. d;
  dns_set_server = λ slot server d. d;
  dns_info = λ d. none;
  register_handlers = λ d. d;
  ip_info = λ d. some home_ip;
}

chip-IsDriver : IsDriver chip
chip-IsDriver = record {
  mode-set_mode = λ m d done. refl;
  mode-set_ap_config = λ a d. refl;
  mode-wifi_start = λ d. refl;
  mode-offer_dns = λ d. refl;
  settings = λ d. d.settings;
  settings-set_ap_config = λ a d done. refl;
  settings-wifi_start = λ d. refl;
  settings-offer_dns = λ d. refl;
}

abbrev fresh : Chip
fresh = record { mode = off; settings = none; broken = false }

-- "ap", with a password.
abbrev secured : WifiApConfig
secured = record {
  ssid = 97 ∷ 112 ∷ [];
  password = some (49 ∷ []);
  channel = 6;
  max_connections = 4;
}

ap_init_outcome_example :
    (a : ApSettings) × (chip-IsDriver.settings (ap_init secured (create fresh)).0.driver ≡ some a)
    × IsAsked secured a
unfolding create ap_init init_netifs bring_up clean_start read_ip_info verify
    read_effective_wifi_channel
ap_init_outcome_example = ((ap_init_outcome chip-IsDriver secured (create fresh) refl).1 refl).1

abbrev station : Chip → Station Chip
station d = record {
  wifi = d;
  connecting = false;
  auto_reconnect = true;
  first_connect = false;
  voluntary_disconnect = false;
  cached_dns_main = 0;
  cached_dns_backup = 0;
  connected_bit = false;
  fail_bit = false;
  registered = false;
  initialized = false;
  ip = no_ip;
}

abbrev running : AccessPoint Chip
running = record {
  driver = record fresh { mode = apsta };
  active = true;
  netif_initialized = true;
  ap_netif = true;
  sta_netif = true;
  ip = no_ip;
  sta_ip = no_ip;
  ap_mac = [];
  sta_mac = [];
  channel = 6;
}

espnow_takes_ap_down_example :
    has_ap (chip.get_mode (espnow_init (station running.driver)).0.wifi) ≡ false
unfolding espnow_init sta_init start_station clean_start
espnow_takes_ap_down_example =
    (espnow_takes_ap_down chip-IsDriver (λ d. refl) running (station running.driver) refl refl refl
      refl).0

known_addresses : Known running (station fresh)
known_addresses = record {
  own_mac = chip_mac;
  station_mac = cleared;
  own_ip = gateway;
  station_ip = home_ip;
  connected_ip = home_ip;
  has_own_netif = refl;
  has_station_netif = refl;
  gives_own_mac = refl;
  gives_station_mac = refl;
  gives_own_ip = refl;
  gives_station_ip = refl;
  gives_connected_ip = refl;
}

addresses_shown_example : ShowsIp (sta_get_ip (station fresh)).1 home_ip
unfolding known_addresses
addresses_shown_example =
    (addresses_shown running (station fresh) known_addresses (omega arith) (omega arith)
      (omega arith) (omega arith) (omega arith)).4
