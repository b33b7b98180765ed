-- ===== src/Wifi/Scan.antt =====
-- src/wifi/wifi_sta.cpp: the scan for networks, over the calls of ESP-IDF that it makes. A C string
-- is the list of its bytes before the final zero.
pub mod Filter
mod Tests
use ungula_lib_net.Strings.{has_prefix}
use ungula_lib_net.Base.{
  ℕ, zero, suc, Bool, true, false, not, ◌&&◌, ◌||◌, List, [], ◌∷◌, Option, none, some, ltb, ◌==◌,
  if◌then◌else◌, length, take,
}

abbrev pub wifi_max_scan_results : ℕ
wifi_max_scan_results = 16

pub record ScanResult : Type 0 where
  pub ssid : List ℕ
  pub rssi : ℕ  -- an int8_t, as its byte
  pub channel : ℕ
  pub encrypted : Bool

-- What the source reads of a `wifi_ap_record_t`; `wifi_auth_open` is WIFI_AUTH_OPEN.
pub record ApRecord : Type 0 where
  pub ssid : List ℕ
  pub rssi : ℕ
  pub primary : ℕ
  pub authmode : ℕ

abbrev pub wifi_auth_open : ℕ
wifi_auth_open = 0

-- A prefix is `none` where it is a null pointer.
unfoldable pub has_any_prefix : List ℕ → List (Option (List ℕ)) → Bool
unfolding has_prefix
has_any_prefix ssid [] = false
has_any_prefix ssid (none ∷ ps) = has_any_prefix ssid ps
has_any_prefix ssid (some p ∷ ps) = has_prefix ssid p || has_any_prefix ssid ps

-- A null list of prefixes is an empty one here.
unfoldable pub matches_prefix : List ℕ → List (Option (List ℕ)) → Bool
unfolding has_any_prefix
matches_prefix ssid [] = true
matches_prefix ssid (p ∷ ps) = has_any_prefix ssid (p ∷ ps)

abbrev pub copy_record : ApRecord → ScanResult
copy_record r = record {
  ssid = take 32 r.ssid;
  rssi = r.rssi;
  channel = r.primary;
  encrypted = not (r.authmode == wifi_auth_open);
}

-- The loop over the fetched records, with room for `max` results.
unfoldable pub collect : List (Option (List ℕ)) → ℕ → List ApRecord → List ScanResult
unfolding matches_prefix
collect prefixes zero rs = []
collect prefixes (suc max) [] = []
collect prefixes (suc max) (r ∷ rs) =
    let skipped = collect prefixes (suc max) rs in
    let taken = copy_record r ∷ collect prefixes max rs in
    if length r.ssid == 0
    then skipped
    else if matches_prefix r.ssid prefixes
    then taken
    else skipped

-- A blocking `esp_wifi_scan_start`, and the calls on the list of access points that it leaves.
pub record Scanner (D : Type 0) : Type 0 where
  pub scan_start : D → D × Bool
  pub get_ap_num : D → ℕ
  pub get_ap_records : ℕ → D → D × List ApRecord
  pub clear_ap_list : D → D

-- `writable` tells that `results` is no null pointer; what is returned are the results written.
unfoldable pub sta_scan :
    {D : Type 0} → ⦃sc : Scanner D⦄ → Bool → ℕ → List (Option (List ℕ)) → D → D × List ScanResult
unfolding collect
sta_scan ⦃sc⦄ writable max prefixes d =
    if not writable || max == 0
    then (d, [])
    else (let room = if ltb wifi_max_scan_results max then wifi_max_scan_results else max in
        let (d1, started) = sc.scan_start d in
        let ap_count = sc.get_ap_num d1 in
        let fetch_count =
          if ltb wifi_max_scan_results ap_count then wifi_max_scan_results else ap_count in
        let (d2, records) = sc.get_ap_records fetch_count d1 in
        if not started
        then (d1, [])
        else if ap_count == 0
        then (sc.clear_ap_list d1, [])
        else (sc.clear_ap_list d2, collect prefixes room records))
