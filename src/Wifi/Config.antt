-- ===== src/Wifi/Config.antt =====
-- src/wifi/wifi_config.h and wifi_config.cpp, over any preferences store and any `crc32` (of the
-- library ungula-lib). Log output is left out.
pub mod Laws
mod Tests
use Prim.Native.String.{String}
use ungula_lib_net.Base.{
  ℕ, ◌+◌, ◌*◌, ◌/◌, ◌%◌, Bool, true, false, not, List, [], ◌∷◌, ◌++◌, ◌==◌, if◌then◌else◌, length,
  get_or, take, drop, set,
}
use ungula_lib_net.Preferences.{Preferences}

abbrev pub wifi_ssid_max_len : ℕ
wifi_ssid_max_len = 33

abbrev pub wifi_pass_max_len : ℕ
wifi_pass_max_len = 65

-- `ssid` and `password` are the whole arrays, of 33 and 65 bytes.
pub record WifiConfig : Type 0 where
  pub enabled : Bool
  pub ssid : List ℕ
  pub password : List ℕ

-- `createDefault` in memory that holds `memory`: only the first byte of an array is written.
unfoldable pub create_default : WifiConfig → WifiConfig
create_default memory = record {
  enabled = false;
  ssid = set memory.ssid 0 0;
  password = set memory.password 0 0;
}

unfoldable pub has_credentials : WifiConfig → Bool
has_credentials c = not (get_or c.ssid 0 0 == 0)

abbrev pub nvs_key : String
nvs_key = "wifi_cfg"

-- The struct WifiConfig in memory, of 99 bytes.
unfoldable pub config_bytes : WifiConfig → List ℕ
config_bytes c = (if c.enabled then 1 else 0) ∷ (c.ssid ++ c.password)

unfoldable pub config_of : List ℕ → WifiConfig
config_of bytes = record {
  enabled = not (get_or bytes 0 0 == 0);
  ssid = take wifi_ssid_max_len (drop 1 bytes);
  password = take wifi_pass_max_len (drop 34 bytes);
}

-- A uint32_t in memory, little-endian.
unfoldable pub le32 : ℕ → List ℕ
le32 n = n % 256 ∷ n / 256 % 256 ∷ n / 65536 % 256 ∷ n / 16777216 % 256 ∷ []

unfoldable pub of_le32 : List ℕ → ℕ
of_le32 bytes =
    get_or bytes 0 0
    + 256 * get_or bytes 1 0
    + 65536 * get_or bytes 2 0
    + 16777216 * get_or bytes 3 0

-- `sizeof(WifiConfigBlob)`: the config, a byte of padding before the CRC, which is aligned to 4.
abbrev pub blob_size : ℕ
blob_size = 104

abbrev pub terminated : WifiConfig → WifiConfig
terminated c = record c { ssid = set c.ssid 32 0; password = set c.password 64 0 }

-- What `load` makes of the bytes that it has read.
unfoldable pub check_blob : (List ℕ → ℕ) → WifiConfig → List ℕ → WifiConfig
check_blob crc32 memory bytes =
    if not (length bytes == blob_size)
    then create_default memory
    else if not (of_le32 (drop 100 bytes) == crc32 (take 99 bytes))
    then create_default memory
    else terminated (config_of bytes)

module _ (crc32 : List ℕ → ℕ) {P : Type 0} ⦃pf : Preferences P⦄ (ns : String) where
  -- The padding has any value.
  unfoldable pub save : ℕ → WifiConfig → P → P
  unfolding config_bytes le32
  save padding c p =
      let blob = config_bytes c ++ padding ∷ le32 (crc32 (config_bytes c)) in
      let (opened, ok) = pf.begin ns p in
      if ok then pf.close (pf.put_bytes nvs_key blob opened).0 else opened

  unfoldable pub load : WifiConfig → P → P × WifiConfig
  unfolding create_default
  load memory p =
      let (opened, ok) = pf.begin ns p in
      if ok
      then (pf.close opened, check_blob crc32 memory (pf.get_bytes nvs_key blob_size opened))
      else (opened, create_default memory)

  unfoldable pub clear : P → P
  clear p =
      let (opened, ok) = pf.begin ns p in if ok then pf.close (pf.remove nvs_key opened) else opened
