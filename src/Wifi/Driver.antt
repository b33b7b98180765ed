-- ===== src/Wifi/Driver.antt =====
-- The calls of ESP-IDF by which src/wifi/wifi_ap.cpp and wifi_sta.cpp bring the WiFi up, over its
-- state `D`; the Boolean says whether a call returned `ESP_OK`. Log output is left out.
use ungula_lib_net.Base.{
  ◌≡◌, refl, sym, ap, ◌∙◌, inl, inr, Bool-cases, arith, ℕ, Bool, true, false, List, Option,
  if◌then◌else◌,
}
use ungula_lib_net.Comm.Types.{MacAddress}
use ungula_lib_net.Text.{Ip}

pub data WifiMode : Type 0 where
  off sta soft_ap apsta : WifiMode

-- `mode & WIFI_MODE_AP`.
abbrev pub has_ap : WifiMode → Bool
has_ap off = false
has_ap sta = false
has_ap soft_ap = true
has_ap apsta = true

-- `wifi_config_t` of an access point.
pub record ApSettings : Type 0 where
  pub ssid : List ℕ
  pub password : List ℕ
  pub wpa2 : Bool
  pub channel : ℕ
  pub max_connection : ℕ

-- `esp_netif_init` comes with the default event loop. The creation of an interface returns whether
-- it gave one. An address is `none` on an error, and so is the channel.
pub record Driver (D : Type 0) : Type 0 where
  pub netif_init : D → D
  pub create_ap_netif : D → D × Bool
  pub create_sta_netif : D → D × Bool
  pub wifi_disconnect : D → D
  pub wifi_stop : D → D
  pub wifi_deinit : D → D
  pub wifi_init : D → D × Bool
  pub set_storage_ram : D → D
  pub set_mode : WifiMode → D → D × Bool
  pub set_ap_config : ApSettings → D → D × Bool
  pub wifi_start : D → D × Bool
  pub offer_dns : D → D
  pub get_mode : D → WifiMode
  pub get_channel : D → Option ℕ
  pub ap_ip : D → Option Ip
  pub sta_ip : D → Option Ip
  pub ap_mac : D → Option MacAddress
  pub sta_mac : D → Option MacAddress

-- A row of calls ends with the first one that fails.
abbrev pub Call : Type 0 → Type 0
Call D = D → D × Bool

infixl 5 ◌>>◌
abbrev pub ◌>>◌ : {D : Type 0} → Call D → Call D → Call D
◌>>◌ m k d = let (d', done) = m d in if done then k d' else (d', false)

-- A row that succeeds has made each call, and none failed.
pub >>-done :
    {D : Type 0} (m k : Call D) (d : D)
    → ((m >> k) d).1 ≡ true
    → ((m d).1 ≡ true) × ((m >> k) d ≡ k (m d).0)
>>-done m k d done = elim (Bool-cases (m d).1) [
  | inl yes_done ↦ (yes_done, rw yes_done refl)
  | inr failed ↦ absurd (ground (arith, done))
]

-- A call whose result is ignored.
abbrev pub always : {D : Type 0} → (D → D) → Call D
always f d = (f d, true)

module _ {D : Type 0} ⦃w : Driver D⦄ where
  -- What `ap_init` and `sta_init` do alike: whatever was left over is shut down first.
  unfoldable pub clean_start : WifiMode → Call D
  clean_start mode = do
    always w.wifi_disconnect
    always w.wifi_stop
    always w.wifi_deinit
    w.wifi_init
    always w.set_storage_ram
    w.set_mode mode

  pub clean_start-mode :
      (mode : WifiMode) (d : D)
      → (clean_start mode d).1 ≡ true
      → (e : D) × ((w.set_mode mode e).1 ≡ true) × (clean_start mode d ≡ w.set_mode mode e)
  unfolding clean_start
  clean_start-mode mode d done =
      let d1 = w.wifi_deinit (w.wifi_stop (w.wifi_disconnect d)) in
      let rest = always w.set_storage_ram >> w.set_mode mode in
      let s = >>-done w.wifi_init rest d1 done in
      (w.set_storage_ram (w.wifi_init d1).0, sym (ap (λ r. r.1) s.1) ∙ done, s.1)
