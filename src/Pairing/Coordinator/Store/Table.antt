-- ===== src/Pairing/Coordinator/Store/Table.antt =====
-- The table of paired clients: what a request to be paired does to it.
use ungula_lib_net.Base.{
  ℕ, ◌≡◌, refl, sym, All, subst, ◌≢◌, ◌⊎◌, true, false, ◌&&◌, List, [], ◌∷◌, Option, none, some,
  arith, if◌then◌else◌,
}
use ungula_lib_net.Comm.Types.{MacAddress, ◌==mac◌, ==mac_iff, ==mac_refl}
use ungula_lib_net.Comm.Transport.{Transport}
use ungula_lib_net.Preferences.{Preferences}
use ungula_lib_net.Pairing.Coordinator.{
  PairedClientInfo, PairingCoordinator, is_paired_in, paired_client_count,
}
use ungula_lib_net.Pairing.Coordinator.Store.{store_paired_client}

-- Two slots, and no address in both of them.
abbrev pub IsTable : List PairedClientInfo → Type 0
IsTable (a ∷ b ∷ []) = a.active ≡ true → b.active ≡ true → (a.mac ==mac b.mac) ≡ false
IsTable _ = ⊥

-- The device number under which an address is paired.
abbrev pub device_of : MacAddress → List PairedClientInfo → Option ℕ
device_of mac [] = none
device_of mac (x ∷ xs) = if x.active && x.mac ==mac mac then some x.device_id else device_of mac xs

module _ {T P : Type 0} ⦃tr : Transport T⦄ ⦃pf : Preferences P⦄ where
  module _ (mac : MacAddress) (id : ℕ) (c : PairingCoordinator T P) (a b : PairedClientInfo)
      (slots : c.clients ≡ a ∷ b ∷ []) where
    store-IsTable : IsTable (a ∷ b ∷ []) → IsTable (store_paired_client mac id c).0.clients
    unfolding store_paired_client
    store-IsTable d = ground (
      arith,
      ==mac_iff a.mac mac,
      ==mac_iff b.mac mac,
      ==mac_iff mac b.mac,
      ==mac_iff a.mac b.mac,
    )

    store_paired :
        (store_paired_client mac id c).1 ≡ true
        → device_of mac (store_paired_client mac id c).0.clients ≡ some id
    unfolding store_paired_client
    store_paired h = ground (arith, ==mac_refl mac, ==mac_iff a.mac mac, ==mac_iff b.mac mac)

    store_rejected :
        (store_paired_client mac id c).1 ≡ false
        → ((store_paired_client mac id c).0 ≡ c)
          × (a.active ≡ true)
          × (b.active ≡ true)
          × (is_paired_in mac (a ∷ b ∷ []) ≡ false)
          × (a.device_id ≢ id)
          × (b.device_id ≢ id)
    unfolding store_paired_client is_paired_in
    store_rejected h = ground arith

    store_others :
        (other : MacAddress)
        → IsTable (a ∷ b ∷ [])
        → (mac ==mac other) ≡ false
        → (device_of other (store_paired_client mac id c).0.clients ≡ device_of other (a ∷ b ∷ []))
          ⊎ ((device_of other (a ∷ b ∷ []) ≡ some id)
              × (device_of other (store_paired_client mac id c).0.clients ≡ none)
              × (a.active ≡ true)
              × (b.active ≡ true)
              × (is_paired_in mac (a ∷ b ∷ []) ≡ false))
    unfolding store_paired_client is_paired_in
    store_others other d ne = ground (
      arith,
      ==mac_iff a.mac mac,
      ==mac_iff b.mac mac,
      ==mac_iff a.mac other,
      ==mac_iff b.mac other,
      ==mac_iff mac other,
      ==mac_iff a.mac b.mac,
      ==mac_refl mac,
    )

IsTable-slots :
    (xs : List PairedClientInfo)
    → IsTable xs
    → (a : PairedClientInfo) × (b : PairedClientInfo) × (xs ≡ a ∷ b ∷ [])
IsTable-slots [] d = absurd d
IsTable-slots (a ∷ []) d = absurd d
IsTable-slots (a ∷ b ∷ []) d = (a, b, refl)
IsTable-slots (a ∷ b ∷ x ∷ xs) d = absurd d

module _ {T P : Type 0} ⦃tr : Transport T⦄ ⦃pf : Preferences P⦄ (mac : MacAddress) (id : ℕ)
    (c : PairingCoordinator T P) (table : IsTable c.clients) where
  pub store_effect :
      let (c', stored) = store_paired_client mac id c in
      IsTable c'.clients
      × (stored ≡ true → device_of mac c'.clients ≡ some id)
      × (stored ≡ false
          → (c' ≡ c)
            × (is_paired_in mac c.clients ≡ false)
            × (paired_client_count c ≡ 2)
            × All (λ x. x.device_id ≢ id) c.clients)
  unfolding paired_client_count
  store_effect =
      let (a, b, slots) = IsTable-slots c.clients table in
      (
        store-IsTable mac id c a b slots (subst IsTable slots table),
        store_paired mac id c a b slots,
        λ failed.
            let (same, on_a, on_b, absent, other_a, other_b) =
              store_rejected mac id c a b slots failed in
            (
              same,
              rw slots absent,
              ground arith,
              subst (All (λ x. x.device_id ≢ id)) (sym slots) (other_a, (other_b, tt)),
            ),
      )

  -- Every other address keeps its device number, except that a full table gives the slot of a
  -- client with the same device number to a new address.
  pub store_keeps_others :
      (other : MacAddress)
      → mac ≢ other
      → let after = (store_paired_client mac id c).0.clients in
        (device_of other after ≡ device_of other c.clients)
        ⊎ ((device_of other c.clients ≡ some id)
            × (device_of other after ≡ none)
            × (is_paired_in mac c.clients ≡ false)
            × (paired_client_count c ≡ 2))
  unfolding paired_client_count
  store_keeps_others other ne =
      let (a, b, slots) = IsTable-slots c.clients table in
      let apart : (mac ==mac other) ≡ false = ground (arith, ==mac_iff mac other) in
      ground (arith, store_others mac id c a b slots other (subst IsTable slots table) apart)
