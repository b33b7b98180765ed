-- ===== src/Pairing/Coordinator/Store/Mode.antt =====
-- What the pairing mode has to do with storing a client: nothing.
use ungula_lib_net.Base.{ℕ, ◌≡◌, refl, Bool, Option, none, some}
use ungula_lib_net.Comm.Types.{MacAddress}
use ungula_lib_net.Comm.Transport.{Transport}
use ungula_lib_net.Preferences.{Preferences}
use ungula_lib_net.Pairing.Coordinator.{PairingCoordinator, find_mac, find_free, find_device}
use ungula_lib_net.Pairing.Coordinator.Store.{
  store_paired_client, known_slot, new_slot, replace_slot,
}

module _ {T P : Type 0} ⦃tr : Transport T⦄ ⦃pf : Preferences P⦄ (b : Bool) (mac : MacAddress)
    (id : ℕ) (k : PairingCoordinator T P) where
  abbrev pub Ignores : (PairingCoordinator T P → PairingCoordinator T P × Bool) → Type 0
  Ignores f =
      let (k', r) = f k in
      f (record k { pairing_enabled = b }) ≡ (record k' { pairing_enabled = b }, r)

  replace-Ignores : (o : Option ℕ) → Ignores (replace_slot o mac id)
  unfolding replace_slot
  replace-Ignores none = refl
  replace-Ignores (some i) = refl

  new-Ignores : (o : Option ℕ) → Ignores (new_slot o mac id)
  unfolding new_slot
  new-Ignores none = replace-Ignores (find_device id 0 k.clients)
  new-Ignores (some i) = refl

  known-Ignores : (o : Option ℕ) → Ignores (known_slot o mac id)
  unfolding known_slot
  known-Ignores none = new-Ignores (find_free 0 k.clients)
  known-Ignores (some i) = refl

  pub store-Ignores : Ignores (store_paired_client mac id)
  unfolding store_paired_client
  store-Ignores = known-Ignores (find_mac mac 0 k.clients)
