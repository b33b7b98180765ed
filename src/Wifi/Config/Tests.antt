-- ===== src/Wifi/Config/Tests.antt =====
-- The theorems about stored credentials at concrete inputs.
use ungula_lib_net.Base.{ℕ, zero, suc, ◌%◌, ◌≡◌, ◌⊎◌, true, List, [], ◌∷◌, length, u32_mod}
use ungula_lib_net.Fixtures.{flash, flash-IsPreferences, blank}
use ungula_lib_net.Wifi.Config.{WifiConfig, config_of, terminated, create_default, load}
use ungula_lib_net.Wifi.Config.Laws.{load_sound, IsValidBlob}

-- A checksum, for want of a CRC.
abbrev checksum : List ℕ → ℕ
checksum bytes = length bytes % u32_mod

abbrev zeros : ℕ → List ℕ
zeros zero = []
zeros (suc n) = 0 ∷ zeros n

-- The network "ap" without a password.
abbrev network : WifiConfig
network = record { enabled = true; ssid = 97 ∷ 112 ∷ zeros 31; password = zeros 65 }

load_sound_example :
    (IsValidBlob checksum [] × ((load checksum "wifi" network blank).1 ≡ terminated (config_of [])))
    ⊎ ((load checksum "wifi" network blank).1 ≡ create_default network)
load_sound_example = load_sound checksum flash-IsPreferences "wifi" network blank
