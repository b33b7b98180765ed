-- ===== src/Pairing/Client/Receive/Laws.antt =====
-- Which messages a client consumes, what a confirmation leaves behind, and how a beacon is read
-- as a confirmation.
use ungula_lib_net.Base.{
  ℕ, zero, suc, ◌<◌, ◌≡◌, ◌∙◌, Bool-cases, inl, inr, refl, ◌≢◌, ◌↔◌, ◌⊎◌, Bool, true, false, ◌&&◌,
  List, [], ◌∷◌, arith, leb, ◌==◌, length, get_or, take, memcmp_eq,
}
use ungula_lib_net.Comm.Types.{MacAddress, is_zero}
use ungula_lib_net.Comm.Transport.{Transport}
use ungula_lib_net.Preferences.{Preferences}
use ungula_lib_net.Preferences.Laws.{IsPreferences}
use ungula_lib_net.Pairing.Types.{scanning, responding, paired, pairing_magic}
use ungula_lib_net.Pairing.Messages.Beacon
use ungula_lib_net.Pairing.Messages.Confirm.{PairingConfirm}
use ungula_lib_net.Pairing.Client.{PairingClient}
use ungula_lib_net.Pairing.Client.Receive.{handle_confirm, handle_received}
use ungula_lib_net.Pairing.Client.Store.{channel_valid, load_stored_pairing, store_pairing}
use ungula_lib_net.Pairing.Client.Store.Usable.{
  IsUsable, first_scanned, channel_valid-IsUsable, fallback-first,
}
use ungula_lib_net.Pairing.Client.Store.Laws.{Holds, store_pairing-Holds, load-Holds}

memcmp_eq-take : (n : ℕ) (xs ys : List ℕ) → memcmp_eq n (take n xs) ys ≡ memcmp_eq n xs ys
memcmp_eq-take zero xs ys = refl
memcmp_eq-take (suc n) [] ys = refl
memcmp_eq-take (suc n) (x ∷ xs) [] = refl
memcmp_eq-take (suc n) (x ∷ xs) (y ∷ ys) = rw (memcmp_eq-take n xs ys)

-- A message of the coordinator: long enough, the pairing magic, and the coordinator's role.
abbrev pub is_from_coordinator : List ℕ → Bool
is_from_coordinator bytes =
    leb 8 (length bytes) && memcmp_eq 4 bytes pairing_magic && get_or bytes 4 0 == 1

module _ {T P : Type 0} ⦃tr : Transport T⦄ ⦃pf : Preferences P⦄ where
  -- A message is consumed exactly if it comes from a coordinator and the client scans or awaits a
  -- confirmation. A message that is not consumed changes nothing.
  pub consumed_exactly :
      (c : PairingClient T P) (src : MacAddress) (bytes : List ℕ) (now : ℕ)
      → ((handle_received src bytes now c).1 ≡ true
          ↔ ((is_from_coordinator bytes ≡ true) × ((c.state ≡ scanning) ⊎ (c.state ≡ responding))))
        × ((handle_received src bytes now c).1 ≡ false → (handle_received src bytes now c).0 ≡ c)
  unfolding handle_received
  consumed_exactly c src bytes now = ground (arith, memcmp_eq-take 4 bytes pairing_magic)

  confirm_prefs :
      (c : PairingClient T P) (src : MacAddress) (confirm : PairingConfirm)
      → confirm.accepted ≢ 0
      → (handle_confirm src confirm c).prefs
        ≡ (store_pairing
            (record c { coordinator_mac = src; paired_channel = confirm.channel })).prefs
  unfolding handle_confirm
  confirm_prefs c src confirm yes_accepted = ground arith

  confirm-Holds :
      (l : IsPreferences pf) (c : PairingClient T P) (src : MacAddress) (confirm : PairingConfirm)
      → confirm.accepted ≢ 0
      → Holds l c.prefs_ns src confirm.channel (handle_confirm src confirm c).prefs
  confirm-Holds l c src confirm yes_accepted =
      rw (confirm_prefs c src confirm yes_accepted) (
        store_pairing-Holds l
          (record c { coordinator_mac = src; paired_channel = confirm.channel }))

  -- A confirmation that is accepted outlives a restart: a client created over the same preferences
  -- and namespace loads the coordinator's address, and the confirmed channel if that is a channel of
  -- the band and among those that the client scans, and otherwise the first of those. The sender is
  -- not the address of zeros.
  pub confirm_remembered :
      (l : IsPreferences pf) (c d : PairingClient T P) (src : MacAddress) (confirm : PairingConfirm)
      → confirm.accepted ≢ 0
      → is_zero src ≡ false
      → d.prefs_ns ≡ c.prefs_ns
      → d.prefs ≡ (handle_confirm src confirm c).prefs
      → let (d', r) = load_stored_pairing d in
        (r ≡ record { coordinator_mac = src; channel = d'.paired_channel; valid = true })
        × (d'.state ≡ paired)
        × (d'.coordinator_mac ≡ src)
        × (IsUsable d confirm.channel → d'.paired_channel ≡ confirm.channel)
        × (¬ IsUsable d confirm.channel
            → d'.paired_channel ≡ first_scanned d.scan_channels d.scan_channel_count)
  confirm_remembered l c d src confirm yes_accepted nz ns p =
      let held : Holds l d.prefs_ns src confirm.channel d.prefs =
        rw (ns, p) (confirm-Holds l c src confirm yes_accepted) in
      let (result, state, mac, channel) = load-Holds l d src confirm.channel held nz in
      let (sound, complete) = channel_valid-IsUsable d confirm.channel in
      (
        rw channel result,
        state,
        mac,
        λ usable. channel ∙ rw (complete usable) refl,
        λ unusable. elim (Bool-cases (channel_valid d confirm.channel)) [
          | inl yes_valid ↦ absurd (unusable (sound yes_valid))
          | inr not_valid ↦ channel ∙ rw not_valid (fallback-first d)
        ],
      )

  confirm_fields :
      (c : PairingClient T P) (src : MacAddress) (confirm : PairingConfirm)
      → confirm.accepted ≢ 0
      → let c' = handle_confirm src confirm c in
        (c'.state ≡ paired) × (c'.coordinator_mac ≡ src) × (c'.paired_channel ≡ confirm.channel)
  unfolding handle_confirm
  confirm_fields c src confirm yes_accepted = ground arith

  -- A client that awaits a confirmation takes a beacon, from any sender, for an accepted one: it
  -- ends up paired with the sender on channel 0, which is no channel, and stores that pairing.
  pub beacon_taken_for_confirm :
      (l : IsPreferences pf) (c : PairingClient T P) (src : MacAddress) (ch now : ℕ)
      → c.state ≡ responding
      → 0 < ch
      → let (c', used) = handle_received src (Beacon.encode (Beacon.init ch)) now c in
        (used ≡ true)
        × (c'.state ≡ paired)
        × (c'.coordinator_mac ≡ src)
        × (c'.paired_channel ≡ 0)
        × Holds l c.prefs_ns src 0 c'.prefs
  unfolding handle_received Beacon.init Beacon.encode
  beacon_taken_for_confirm l c src ch now s pos =
      let misread : PairingConfirm = record {
        magic = pairing_magic;
        role = 1;
        accepted = ch;
        channel = 0;
        reserved = 0;
      } in
      let taken : handle_received src (Beacon.encode (Beacon.init ch)) now c
          ≡ (handle_confirm src misread c, true) =
        ground arith in
      let some_channel : ch ≢ 0 = omega arith in
      let fields = confirm_fields c src misread some_channel in
      rw taken (refl, fields.0, fields.1, fields.2, confirm-Holds l c src misread some_channel)
