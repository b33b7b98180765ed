-- ===== src/Wifi/AccessPoint.antt =====
-- src/wifi/wifi_ap.h, wifi_ap.cpp and wifi_channel.h: the access point, over the calls of ESP-IDF. A
-- C string is the list of its bytes before the final zero, or `none` for a null pointer. The wait of
-- 100 ms for the access point to stabilise is left out.
pub mod Contract
pub mod Start
use ungula_lib_net.Base.{
  ℕ, Bool, true, false, not, ◌&&◌, List, [], ◌∷◌, Option, none, some, ◌==◌, if◌then◌else◌, take,
}
use ungula_lib_net.Comm.Types.{MacAddress, cleared}
use ungula_lib_net.Text.{printed, mac_text, ip_text, ip_or, mac_or, no_ip, is_any}
use ungula_lib_net.Wifi.Driver.{has_ap, apsta, ApSettings, Driver, Call, ◌>>◌, clean_start}

-- A channel of `WifiChannel` is its number.
abbrev pub ch_auto : ℕ
ch_auto = 0

-- The SSID is not null.
pub record WifiApConfig : Type 0 where
  pub ssid : List ℕ
  pub password : Option (List ℕ)
  pub channel : ℕ
  pub max_connections : ℕ

-- The file's static variables. The interfaces are there or null.
pub record AccessPoint (D : Type 0) : Type 0 where
  pub driver : D
  pub active : Bool
  pub netif_initialized : Bool
  pub ap_netif : Bool
  pub sta_netif : Bool
  pub ip : List ℕ
  pub sta_ip : List ℕ
  pub ap_mac : List ℕ
  pub sta_mac : List ℕ
  pub channel : ℕ

-- The initial values.
unfoldable pub create : {D : Type 0} → D → AccessPoint D
create d = record {
  driver = d;
  active = false;
  netif_initialized = false;
  ap_netif = false;
  sta_netif = false;
  ip = no_ip;
  sta_ip = no_ip;
  ap_mac = mac_text cleared;
  sta_mac = mac_text cleared;
  channel = ch_auto;
}

abbrev pub open_settings : WifiApConfig → ApSettings
open_settings c = record {
  ssid = take 31 c.ssid;
  password = [];
  wpa2 = false;
  channel = c.channel;
  max_connection = c.max_connections;
}

-- `ap_cfg`, with arrays of 32 and 64 bytes.
abbrev pub settings_with : Option (List ℕ) → WifiApConfig → ApSettings
settings_with none c = open_settings c
settings_with (some []) c = open_settings c
settings_with (some (b ∷ bs)) c = record {
  ssid = take 31 c.ssid;
  password = take 63 (b ∷ bs);
  wpa2 = true;
  channel = c.channel;
  max_connection = c.max_connections;
}

unfoldable pub ap_settings : WifiApConfig → ApSettings
ap_settings c = settings_with c.password c

module _ {D : Type 0} ⦃w : Driver D⦄ where
  -- The interfaces are created once.
  unfoldable pub init_netifs : AccessPoint D → AccessPoint D
  init_netifs s =
      if s.netif_initialized
      then s
      else (let (d1, ap) = w.create_ap_netif (w.netif_init s.driver) in
          let (d2, sta) = w.create_sta_netif d1 in
          record s { driver = d2; ap_netif = ap; sta_netif = sta; netif_initialized = true })

  unfoldable pub bring_up : WifiApConfig → Call D
  unfolding clean_start ap_settings
  bring_up c = do clean_start apsta; w.set_ap_config (ap_settings c); w.wifi_start

  -- With the interface, DNS is offered to the clients, and the address is read.
  unfoldable pub read_ip_info : AccessPoint D → AccessPoint D
  unfolding ip_text
  read_ip_info s =
      if s.ap_netif
      then (let d = w.offer_dns s.driver in record s { driver = d; ip = ip_or s.ip (w.ap_ip d) })
      else s

  unfoldable pub read_effective_wifi_channel : D → ℕ
  read_effective_wifi_channel d = elim (w.get_channel d) [ none ↦ ch_auto | some c ↦ c ]

  -- `ap_init` after the start of WiFi.
  unfoldable pub verify : AccessPoint D → AccessPoint D × Bool
  unfolding read_effective_wifi_channel
  verify s =
      let c = read_effective_wifi_channel s.driver in
      if not (has_ap (w.get_mode s.driver))
      then (s, false)
      else if c == ch_auto
      then (record s { channel = c }, false)
      else (record s { channel = c; active = true }, true)

  unfoldable pub ap_init : WifiApConfig → AccessPoint D → AccessPoint D × Bool
  ap_init c s =
      if s.active
      then (s, true)
      else (let s1 = init_netifs s in
          let (d, up) = bring_up c s1.driver in
          let s2 = record s1 { driver = d } in if up then verify (read_ip_info s2) else (s2, false))

  -- The text that the functions return, and the state with its buffer written.
  unfoldable pub ap_get_sta_ip : AccessPoint D → AccessPoint D × List ℕ
  unfolding ip_text
  ap_get_sta_ip s =
      if s.sta_netif
      then elim (w.sta_ip s.driver) [
        | none ↦ (s, no_ip)
        | some i ↦
            if is_any i
            then (s, no_ip)
            else (let text = printed 16 (ip_text i) in (record s { sta_ip = text }, text))
      ]
      else (s, no_ip)

  unfoldable pub ap_sta_connected : AccessPoint D → Bool
  ap_sta_connected s =
      if s.sta_netif
      then elim (w.sta_ip s.driver) [ none ↦ false | some i ↦ not (is_any i) ]
      else false

  unfoldable pub ap_get_mac : AccessPoint D → AccessPoint D × List ℕ
  unfolding mac_text
  ap_get_mac s =
      let text = mac_or s.ap_mac (w.ap_mac s.driver) in (record s { ap_mac = text }, text)

  unfoldable pub sta_get_mac : AccessPoint D → AccessPoint D × List ℕ
  unfolding mac_text
  sta_get_mac s =
      let text = mac_or s.sta_mac (w.sta_mac s.driver) in (record s { sta_mac = text }, text)
