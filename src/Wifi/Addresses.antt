-- ===== src/Wifi/Addresses.antt =====
-- What the functions of src/wifi that return an address show of it: ap_get_mac, sta_get_mac,
-- ap_get_sta_ip, sta_get_ip and the address of the access point.
use ungula_lib_net.Base.{
  ℕ, ◌≡◌, ◌≤◌, refl, sym, subst, true, false, Bool-cases, inl, inr, List, some, arith, length,
}
use ungula_lib_net.Comm.Types.{MacAddress}
use ungula_lib_net.Text.{Ip, ip_text, mac_text, no_ip, is_any, printed}
use ungula_lib_net.Text.Laws.{IsByteMac, IsByteIp, read_mac, read_ip, read-mac_text, read-ip_text}
use ungula_lib_net.Wifi.Driver.{Driver}
use ungula_lib_net.Wifi.AccessPoint.{
  AccessPoint, read_ip_info, ap_get_sta_ip, ap_get_mac, sta_get_mac,
}
use ungula_lib_net.Wifi.Station.{Wifi, Station, sta_get_ip}

-- The text is a whole address of the usual length, and reads as this one.
abbrev pub ShowsMac : List ℕ → MacAddress → Type 0
ShowsMac text m = (length text ≡ 17) × (read_mac text ≡ some m)

abbrev pub ShowsIp : List ℕ → Ip → Type 0
ShowsIp text i = (length text ≤ 15) × (read_ip text ≡ some i)

mac-ShowsMac : (m : MacAddress) → IsByteMac m → ShowsMac (printed 18 (mac_text m)) m
mac-ShowsMac m v =
    let (len, whole, back) = read-mac_text m v in
    subst (λ text. ShowsMac text m) (sym whole) (len, back)

ip-ShowsIp : (i : Ip) → IsByteIp i → ShowsIp (printed 16 (ip_text i)) i
ip-ShowsIp i v =
    let (len, whole, back) = read-ip_text i v in
    subst (λ text. ShowsIp text i) (sym whole) (len, back)

any_text : (i : Ip) → is_any i ≡ true → ip_text i ≡ no_ip
unfolding ip_text
any_text i none_set =
    let ea : i.a ≡ 0 = ground arith in
    let eb : i.b ≡ 0 = ground arith in
    let ec : i.c ≡ 0 = ground arith in let ed : i.d ≡ 0 = ground arith in rw (ea, eb, ec, ed) refl

any-ShowsIp : (i : Ip) → IsByteIp i → is_any i ≡ true → ShowsIp no_ip i
any-ShowsIp i v none_set =
    let (len, whole, back) = read-ip_text i v in
    subst (λ text. ShowsIp text i) (any_text i none_set) (len, back)

module _ {D : Type 0} ⦃w : Driver D⦄ where
  own_address :
      (a : AccessPoint D) (i : Ip)
      → a.ap_netif ≡ true
      → w.ap_ip (w.offer_dns a.driver) ≡ some i
      → IsByteIp i
      → ShowsIp (read_ip_info a).ip i
  unfolding read_ip_info
  own_address a i there known v = rw (there, known) (ip-ShowsIp i v)

  station_address :
      (a : AccessPoint D) (i : Ip)
      → a.sta_netif ≡ true
      → w.sta_ip a.driver ≡ some i
      → IsByteIp i
      → ShowsIp (ap_get_sta_ip a).1 i
  unfolding ap_get_sta_ip
  station_address a i there known v = elim (Bool-cases (is_any i)) [
    | inl none_set ↦ rw (there, known, none_set) (any-ShowsIp i v none_set)
    | inr set ↦ rw (there, known, set) (ip-ShowsIp i v)
  ]

  own_mac :
      (a : AccessPoint D) (m : MacAddress)
      → w.ap_mac a.driver ≡ some m
      → IsByteMac m
      → ShowsMac (ap_get_mac a).1 m
  unfolding ap_get_mac
  own_mac a m known v = rw known (mac-ShowsMac m v)

  station_mac :
      (a : AccessPoint D) (m : MacAddress)
      → w.sta_mac a.driver ≡ some m
      → IsByteMac m
      → ShowsMac (sta_get_mac a).1 m
  unfolding sta_get_mac
  station_mac a m known v = rw known (mac-ShowsMac m v)

module _ {D : Type 0} ⦃w : Wifi D⦄ where
  -- The text is computed from the address in both cases.
  connected_text :
      (s : Station D) (i : Ip)
      → w.ip_info s.wifi ≡ some i
      → (is_any i ≡ true → (sta_get_ip s).1 ≡ no_ip)
        × (is_any i ≡ false → (sta_get_ip s).1 ≡ printed 16 (ip_text i))
  unfolding sta_get_ip
  connected_text s i known = ground arith

  connected_address :
      (s : Station D) (i : Ip) → w.ip_info s.wifi ≡ some i → IsByteIp i → ShowsIp (sta_get_ip s).1 i
  connected_address s i known v =
      let (unset, set) = connected_text s i known in
      elim (Bool-cases (is_any i)) [
        | inl any ↦ subst (λ text. ShowsIp text i) (sym (unset any)) (any-ShowsIp i v any)
        | inr other ↦ subst (λ text. ShowsIp text i) (sym (set other)) (ip-ShowsIp i v)
      ]

-- The addresses that the driver gives to an access point with both of its interfaces and to a station.
pub record Known {D : Type 0} ⦃w : Driver D⦄ ⦃v : Wifi D⦄ (a : AccessPoint D) (s : Station D)
    : Type 0 where
  pub own_mac : MacAddress
  pub station_mac : MacAddress
  pub own_ip : Ip
  pub station_ip : Ip
  pub connected_ip : Ip
  pub has_own_netif : a.ap_netif ≡ true
  pub has_station_netif : a.sta_netif ≡ true
  pub gives_own_mac : w.ap_mac a.driver ≡ some own_mac
  pub gives_station_mac : w.sta_mac a.driver ≡ some station_mac
  pub gives_own_ip : w.ap_ip (w.offer_dns a.driver) ≡ some own_ip
  pub gives_station_ip : w.sta_ip a.driver ≡ some station_ip
  pub gives_connected_ip : v.ip_info s.wifi ≡ some connected_ip

module _ {D : Type 0} ⦃w : Driver D⦄ ⦃v : Wifi D⦄ where
  -- Where the driver gives the addresses of an access point with both of its interfaces and of a
  -- station, what ap_get_mac, sta_get_mac, ap_get_sta_ip and sta_get_ip return, and what a start of
  -- the access point keeps as its own address, is whole: a MAC address has 17 characters, an IPv4
  -- address at most 15, and the address that the driver gave is read back from it. This holds for the
  -- unset address 0.0.0.0 too.
  pub addresses_shown :
      (a : AccessPoint D) (s : Station D) (k : Known a s)
      → IsByteMac k.own_mac
      → IsByteMac k.station_mac
      → IsByteIp k.own_ip
      → IsByteIp k.station_ip
      → IsByteIp k.connected_ip
      → ShowsMac (ap_get_mac a).1 k.own_mac
        × ShowsMac (sta_get_mac a).1 k.station_mac
        × ShowsIp (read_ip_info a).ip k.own_ip
        × ShowsIp (ap_get_sta_ip a).1 k.station_ip
        × ShowsIp (sta_get_ip s).1 k.connected_ip
  addresses_shown a s k v0 v1 v2 v3 v4 = (
    own_mac a k.own_mac k.gives_own_mac v0,
    station_mac a k.station_mac k.gives_station_mac v1,
    own_address a k.own_ip k.has_own_netif k.gives_own_ip v2,
    station_address a k.station_ip k.has_station_netif k.gives_station_ip v3,
    connected_address s k.connected_ip k.gives_connected_ip v4,
  )
