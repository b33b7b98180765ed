-- ===== src/Wifi/Config/Laws.antt =====
-- Saved credentials are loaded again, and nothing else is.
use Prim.Native.String.{String}
use ungula_lib_net.Base.{
  tested_eq, ℕ, ◌≡◌, refl, ◌⊎◌, List, ◌∷◌, ◌++◌, length, take, drop, Bool-cases, inl, inr, ◌==◌,
}
use ungula_lib_net.Preferences.{Preferences}
use ungula_lib_net.Preferences.Laws.{IsPreferences}
use ungula_lib_net.Wifi.Config.{
  WifiConfig, create_default, config_bytes, config_of, le32, of_le32, terminated, nvs_key,
  blob_size, check_blob, load, wifi_ssid_max_len, wifi_pass_max_len,
}

-- The arrays have their sizes.
abbrev pub IsSized : WifiConfig → Type 0
IsSized c = (length c.ssid ≡ wifi_ssid_max_len) × (length c.password ≡ wifi_pass_max_len)

-- What `save` writes.
abbrev saved_blob : (List ℕ → ℕ) → ℕ → WifiConfig → List ℕ
saved_blob crc32 padding c = config_bytes c ++ padding ∷ le32 (crc32 (config_bytes c))

-- A blob is valid if it has its size and its CRC is that of its config.
abbrev pub IsValidBlob : (List ℕ → ℕ) → List ℕ → Type 0
IsValidBlob crc32 bytes =
    (length bytes ≡ blob_size) × (of_le32 (drop 100 bytes) ≡ crc32 (take 99 bytes))

check_cases :
    (crc32 : List ℕ → ℕ) (memory : WifiConfig) (bytes : List ℕ)
    → (IsValidBlob crc32 bytes × (check_blob crc32 memory bytes ≡ terminated (config_of bytes)))
      ⊎ (check_blob crc32 memory bytes ≡ create_default memory)
unfolding check_blob
check_cases crc32 memory bytes = elim (Bool-cases (length bytes == blob_size)) [
  | inr wrong_size ↦ inr (rw wrong_size refl)
  | inl size ↦ elim (Bool-cases (of_le32 (drop 100 bytes) == crc32 (take 99 bytes))) [
    | inr damaged ↦ inr (rw (size, damaged) refl)
    | inl intact ↦ inl (
      (
        tested_eq (length bytes) blob_size size,
        tested_eq (of_le32 (drop 100 bytes)) (crc32 (take 99 bytes)) intact,
      ),
      rw (size, intact) refl,
    )
  ]
]

module _ (crc32 : List ℕ → ℕ) {P : Type 0} ⦃pf : Preferences P⦄ (l : IsPreferences pf)
    (ns : String) where
  load_lem :
      (memory : WifiConfig) (p : P)
      → (load crc32 ns memory p).1
        ≡ check_blob crc32 memory (pf.get_bytes nvs_key blob_size (pf.begin ns p).0)
  unfolding load
  load_lem memory p = rw (l.begins ns p) refl

  -- Whatever the preferences hold, what is loaded is either the default or the configuration of a
  -- blob of the right size whose CRC is right.
  pub load_sound :
      (memory : WifiConfig) (p : P)
      → let c = (load crc32 ns memory p).1 in
        let bytes = pf.get_bytes nvs_key blob_size (pf.begin ns p).0 in
        (IsValidBlob crc32 bytes × (c ≡ terminated (config_of bytes))) ⊎ (c ≡ create_default memory)
  load_sound memory p =
      rw (load_lem memory p)
        (check_cases crc32 memory (pf.get_bytes nvs_key blob_size (pf.begin ns p).0))
