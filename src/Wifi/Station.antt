-- ===== src/Wifi/Station.antt =====
-- src/wifi/wifi_sta.h and wifi_sta.cpp: connecting and the event handler, over the calls of ESP-IDF
-- that they make. A C string is the list of its bytes before the final zero. Log output
-- is left out. The event handler exists only with the event group, so that its bits can be set.
pub mod Retry
pub mod Start
pub mod Wait
mod Tests
use ungula_lib_net.Base.{
  ℕ, zero, suc, Bool, true, false, not, ◌&&◌, ◌||◌, List, [], ◌∷◌, Option, none, some, ltb, leb,
  ◌==◌, if◌then◌else◌, length, take,
}
use ungula_lib_net.Text.{printed, Ip, ip_text, ip_or, no_ip, is_any}

-- `esp_wifi_set_config` with an SSID and a password, `esp_wifi_connect`, `esp_wifi_disconnect`,
-- `dns_setserver` and the registration of the event handlers; the DNS servers of the station's
-- interface, 0 for one that is not known, or `none` without an interface; and its address, `none`
-- without an interface or on an error.
pub record Wifi (D : Type 0) : Type 0 where
  pub set_config : List ℕ → List ℕ → D → D × Bool
  pub connect : D → D × Bool
  pub disconnect : D → D
  pub dns_set_server : ℕ → ℕ → D → D
  pub dns_info : D → Option (ℕ × ℕ)
  pub register_handlers : D → D
  pub ip_info : D → Option Ip

-- The file's static variables; `connected_bit` and `fail_bit` are the event group's, and `registered`
-- is that of `ensure_event_handler`, which also creates the group.
pub record Station (D : Type 0) : Type 0 where
  pub wifi : D
  pub connecting : Bool
  pub auto_reconnect : Bool
  pub first_connect : Bool
  pub voluntary_disconnect : Bool
  pub cached_dns_main : ℕ
  pub cached_dns_backup : ℕ
  pub connected_bit : Bool
  pub fail_bit : Bool
  pub registered : Bool
  pub initialized : Bool
  pub ip : List ℕ

abbrev pub is_one_of : ℕ → List ℕ → Bool
is_one_of n [] = false
is_one_of n (x ∷ xs) = n == x || is_one_of n xs

-- The reasons by their numbers, as the source's comments give them.
unfoldable pub is_reconnectable_reason : ℕ → Bool
is_reconnectable_reason reason =
    is_one_of reason (2 ∷ 3 ∷ 15 ∷ 200 ∷ 201 ∷ 202 ∷ 203 ∷ 204 ∷ 205 ∷ [])

-- 8.8.8.8 in network byte order, as a little-endian machine reads it.
abbrev pub fallback_dns_backup : ℕ
fallback_dns_backup = 134744072

-- `sizeof(sta_cfg.sta.ssid) - 1` and `sizeof(sta_cfg.sta.password) - 1`, of arrays of 32 and 64.
unfoldable pub sta_ssid : List ℕ → List ℕ
sta_ssid ssid = take 31 ssid

unfoldable pub sta_password : Option (List ℕ) → List ℕ
sta_password none = []
sta_password (some password) = take 63 password

module _ {D : Type 0} where
  -- The snapshot of `apply_sta_dns_and_route`: the backup is looked at only with the main server.
  unfoldable pub cache_dns : ℕ × ℕ → Station D → Station D
  cache_dns (main, backup) s =
      if s.cached_dns_main == 0
      then record s {
        cached_dns_main = main;
        cached_dns_backup = if backup == 0 then s.cached_dns_backup else backup;
      }
      else s

module _ {D : Type 0} ⦃w : Wifi D⦄ where
  unfoldable pub set_servers : Station D → Station D
  set_servers s =
      let d =
        if s.cached_dns_main == 0 then s.wifi else w.dns_set_server 0 s.cached_dns_main s.wifi in
      let backup = if s.cached_dns_backup == 0 then fallback_dns_backup else s.cached_dns_backup in
      record s { wifi = w.dns_set_server 1 backup d }

  apply_with : Option (ℕ × ℕ) → Station D → Station D
  unfolding cache_dns set_servers
  apply_with none s = s
  apply_with (some dns) s = set_servers (cache_dns dns s)

  -- Also `sta_refresh_dns`.
  unfoldable pub apply_sta_dns_and_route : Station D → Station D
  unfolding apply_with
  apply_sta_dns_and_route s = apply_with (w.dns_info s.wifi) s

  -- `wifi_event_handler` at WIFI_EVENT_STA_DISCONNECTED: a retry, or the end of the attempts.
  unfoldable pub retry : Station D → Station D
  retry s = record s { wifi = (w.connect s.wifi).0 }

  unfoldable pub on_disconnected : ℕ → Station D → Station D
  unfolding retry is_reconnectable_reason
  on_disconnected reason s =
      if s.voluntary_disconnect
      then record s { voluntary_disconnect = false; fail_bit = true }
      else if s.first_connect
      then retry (record s { first_connect = false })
      else if s.auto_reconnect && is_reconnectable_reason reason
      then retry s
      else record s { fail_bit = true }

  -- `wifi_event_handler` at IP_EVENT_STA_GOT_IP.
  unfoldable pub on_got_ip : Station D → Station D
  unfolding apply_sta_dns_and_route
  on_got_ip s = record (apply_sta_dns_and_route s) { connected_bit = true }

  unfoldable pub ensure_event_handler : Station D → Station D
  ensure_event_handler s =
      if s.registered then s else record s { wifi = w.register_handlers s.wifi; registered = true }

  -- `sta_connect` up to its wait, and whether it gets there.
  unfoldable pub start_connect : List ℕ → Option (List ℕ) → Station D → Station D × Bool
  unfolding sta_ssid sta_password ensure_event_handler
  start_connect ssid password s =
      if length ssid == 0
      then (s, false)
      else (let s' = ensure_event_handler s in
          let (d, configured) = w.set_config (sta_ssid ssid) (sta_password password) s'.wifi in
          let (d', connecting) = w.connect d in
          if not configured then (record s' { wifi = d }, false) else (
            record s' {
              wifi = d';
              first_connect = true;
              voluntary_disconnect = false;
              connecting = connecting;
              connected_bit = false;
              fail_bit = false;
            },
            connecting,
          ))

  -- `sta_connect` after its wait, which clears the bits that it has seen. A wait that ran out has
  -- seen none.
  unfoldable pub finish_connect : Station D → Station D × Bool
  unfolding ip_text
  finish_connect s =
      let s' = record s { connecting = false; connected_bit = false; fail_bit = false } in
      if s.connected_bit
      then (record s' { ip = ip_or s.ip (w.ip_info s.wifi) }, true)
      else (record s' { wifi = w.disconnect s.wifi }, false)

  unfoldable pub sta_disconnect : Station D → Station D
  sta_disconnect s = record s {
    voluntary_disconnect = true;
    wifi = w.disconnect s.wifi;
    ip = no_ip;
  }

  unfoldable pub sta_is_connected : Station D → Bool
  sta_is_connected s = elim (w.ip_info s.wifi) [ none ↦ false | some i ↦ not (is_any i) ]

  -- The text that is returned, and the state with its buffer written.
  unfoldable pub sta_get_ip : Station D → Station D × List ℕ
  unfolding ip_text
  sta_get_ip s = elim (w.ip_info s.wifi) [
    | none ↦ (s, no_ip)
    | some i ↦
        if is_any i
        then (s, no_ip)
        else (let text = printed 16 (ip_text i) in (record s { ip = text }, text))
  ]
