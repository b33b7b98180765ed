-- ===== src/Pairing/Client/Store/Usable.antt =====
-- Which channels a client takes up from a stored pairing.
use ungula_lib_net.Base.{
  ℕ, zero, suc, ◌+◌, ◌≤◌, ◌<◌, ◌≡◌, ◌↔◌, refl, Bool-cases, inl, inr, true, List, Option, none, some,
  arith, ltb, ◌==◌, get_or, if◌then◌else◌,
}
use ungula_lib_net.Comm.Transport.{Transport}
use ungula_lib_net.Preferences.{Preferences}
use ungula_lib_net.Pairing.Client.{PairingClient, has_scan_list, channel_at, fallback_channel}
use ungula_lib_net.Pairing.Client.Store.{in_scan_list, channel_valid}

-- The channel is one of the first `count` entries of the list; without a list, or with none of its
-- entries in use, every channel is scanned.
abbrev pub IsScanned : Option (List ℕ) → ℕ → ℕ → Type 0
IsScanned none count channel = Unit {0}
IsScanned (some channels) zero channel = Unit {0}
IsScanned (some channels) (suc n) channel = (i : ℕ) × (i < suc n) × (get_or channels i 0 ≡ channel)

-- A channel of the band that the client scans.
abbrev pub IsUsable : {T P : Type 0} → PairingClient T P → ℕ → Type 0
IsUsable c channel =
    (1 ≤ channel) × (channel ≤ 13) × IsScanned c.scan_channels c.scan_channel_count channel

-- The first channel that is scanned.
abbrev pub first_scanned : Option (List ℕ) → ℕ → ℕ
first_scanned none count = 1
first_scanned (some channels) zero = 1
first_scanned (some channels) (suc n) = get_or channels 0 0

fallback_cases :
    (channels : Option (List ℕ)) (count : ℕ)
    → (if has_scan_list channels count then channel_at channels 0 else 1)
      ≡ first_scanned channels count
fallback_cases none count = refl
fallback_cases (some channels) zero = ground arith
fallback_cases (some channels) (suc n) = ground arith

in_list_sound :
    (count i : ℕ) (channels : List ℕ) (channel : ℕ)
    → in_scan_list count i (some channels) channel ≡ true
    → (j : ℕ) × (i ≤ j) × (j < i + count) × (get_or channels j 0 ≡ channel)
unfolding in_scan_list
in_list_sound zero i channels channel h = absurd (ground arith)
in_list_sound (suc n) i channels channel h = elim (Bool-cases (get_or channels i 0 == channel)) [
  | inl here ↦ (i, omega arith, omega arith, ground arith)
  | inr later ↦
      let (j, low, high, e) = in_list_sound n (suc i) channels channel (ground arith) in
      (j, omega (arith, low), omega (arith, high), e)
]

in_list_complete :
    (count i j : ℕ) (channels : List ℕ) (channel : ℕ)
    → i ≤ j
    → j < i + count
    → get_or channels j 0 ≡ channel
    → in_scan_list count i (some channels) channel ≡ true
unfolding in_scan_list
in_list_complete zero i j channels channel low high e = absurd (omega arith)
in_list_complete (suc n) i j channels channel low high e = elim (Bool-cases (i == j)) [
  | inl here ↦ ground arith
  | inr later ↦
      let rest = in_list_complete n (suc i) j channels channel (ground arith) (omega arith) e in
      ground (arith, rest)
]

scanned_lem :
    (channels : Option (List ℕ)) (count channel : ℕ)
    → ((if has_scan_list channels count then in_scan_list count 0 channels channel else true)
        ≡ true)
      ↔ IsScanned channels count channel
scanned_lem none count channel = (λ h. tt, λ s. refl)
scanned_lem (some channels) zero channel = (λ h. tt, λ s. ground arith)
scanned_lem (some channels) (suc n) channel =
    let listed : ltb 0 (suc n) ≡ true = ground arith in
    rw listed (
      λ h.
          let (j, low, high, e) = in_list_sound (suc n) 0 channels channel h in (j, omega arith, e),
      λ (j, high, e). in_list_complete (suc n) 0 j channels channel (omega arith) (omega arith) e,
    )

module _ {T P : Type 0} ⦃tr : Transport T⦄ ⦃pf : Preferences P⦄ where
  pub channel_valid-IsUsable :
      (c : PairingClient T P) (channel : ℕ) → (channel_valid c channel ≡ true) ↔ IsUsable c channel
  unfolding channel_valid
  channel_valid-IsUsable c channel =
      let (sound, complete) = scanned_lem c.scan_channels c.scan_channel_count channel in
      (
        λ h. (ground arith, ground arith, sound (ground arith)),
        λ (low, high, s). ground (arith, complete s),
      )

module _ {T P : Type 0} where
  pub fallback-first :
      (c : PairingClient T P)
      → fallback_channel c ≡ first_scanned c.scan_channels c.scan_channel_count
  unfolding fallback_channel
  fallback-first c = fallback_cases c.scan_channels c.scan_channel_count
