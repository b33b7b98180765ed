-- ===== src/Pairing/Coordinator/Store/Peers.antt =====
-- What storing a client does to the transport: at most one peer is removed.
use ungula_lib_net.Base.{ℕ, ◌≡◌, refl, ◌⊎◌, inl, inr, Option, none, some}
use ungula_lib_net.Comm.Types.{MacAddress}
use ungula_lib_net.Comm.Transport.{Transport}
use ungula_lib_net.Preferences.{Preferences}
use ungula_lib_net.Pairing.Coordinator.{
  PairingCoordinator, slot_at, find_mac, find_free, find_device,
}
use ungula_lib_net.Pairing.Coordinator.Store.{
  replace_slot, new_slot, known_slot, store_paired_client,
}

abbrev pub RemovesOne : {T : Type 0} ⦃tr : Transport T⦄ → T → T → Type 0
RemovesOne ⦃tr⦄ t t' = (t' ≡ t) ⊎ ((m : MacAddress) × (t' ≡ (tr.remove_peer m t).0))

module _ {T P : Type 0} ⦃tr : Transport T⦄ ⦃pf : Preferences P⦄ where
  module _ (mac : MacAddress) (id : ℕ) (c : PairingCoordinator T P) where
    replace_peer : (o : Option ℕ) → RemovesOne c.transport (replace_slot o mac id c).0.transport
    unfolding replace_slot
    replace_peer none = inl refl
    replace_peer (some i) = inr ((slot_at c.clients i).mac, refl)

    new_peer : (o : Option ℕ) → RemovesOne c.transport (new_slot o mac id c).0.transport
    unfolding new_slot
    new_peer (some i) = inl refl
    new_peer none = replace_peer (find_device id 0 c.clients)

    known_peer : (o : Option ℕ) → RemovesOne c.transport (known_slot o mac id c).0.transport
    unfolding known_slot
    known_peer (some i) = inl refl
    known_peer none = new_peer (find_free 0 c.clients)

    pub store_peer : RemovesOne c.transport (store_paired_client mac id c).0.transport
    unfolding store_paired_client
    store_peer = known_peer (find_mac mac 0 c.clients)
