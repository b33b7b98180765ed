-- ===== src/Wifi/Scan/Tests.antt =====
-- The theorem about the scan at a concrete input: a driver that keeps its list of access points, and
-- finds two.
use ungula_lib_net.Base.{
  ℕ, true, refl, ◌≡◌, ◌∷◌, [], List, Option, none, some, length, take, min, arith,
}
use ungula_lib_net.Wifi.Scan.{ApRecord, ScanResult, Scanner, sta_scan}
use ungula_lib_net.Wifi.Scan.Filter.{IsScanner, Picks, scan_filters}

abbrev name_of_five : List ℕ
name_of_five = 104 ∷ 101 ∷ 108 ∷ 108 ∷ 111 ∷ []

-- The prefix "he", after a null pointer.
abbrev prefixes : List (Option (List ℕ))
prefixes = none ∷ some (104 ∷ 101 ∷ []) ∷ []

abbrev seen : List ApRecord
seen =
    record { ssid = []; rssi = 200; primary = 1; authmode = 0 }
    ∷ record { ssid = name_of_five; rssi = 190; primary = 6; authmode = 3 }
    ∷ []

instance driver : Scanner (List ApRecord)
driver = record {
  scan_start = λ d. (seen, true);
  get_ap_num = λ d. length d;
  get_ap_records = λ n d. (d, take n d);
  clear_ap_list = λ d. [];
}

driver-IsScanner : IsScanner driver
unfolding driver
driver-IsScanner = record {
  found = λ d. d;
  get_ap_num-found = λ d. refl;
  get_ap_records-found = λ n d. refl;
  clear_ap_list-found = λ d. refl;
}

scan_filters_example :
    (xs : List ScanResult) × Picks prefixes (take 16 seen) xs
    × ((sta_scan {D = List ApRecord} true 4 prefixes []).1 ≡ take (min 4 16) xs)
unfolding driver driver-IsScanner
scan_filters_example = ((scan_filters driver-IsScanner 4 prefixes []).3 (omega arith) refl).0
