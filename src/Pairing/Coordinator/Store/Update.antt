-- ===== src/Pairing/Coordinator/Store/Update.antt =====
-- A paired client that asks again under another device number.
use ungula_lib_net.Base.{ℕ, ◌≡◌, sym, ap, subst, true, [], ◌∷◌, some, arith}
use ungula_lib_net.Comm.Types.{MacAddress}
use ungula_lib_net.Comm.Transport.{Transport}
use ungula_lib_net.Preferences.{Preferences}
use ungula_lib_net.Preferences.Laws.{IsPreferences}
use ungula_lib_net.Pairing.Coordinator.{PairedClientInfo, PairingCoordinator, init, is_paired_in}
use ungula_lib_net.Pairing.Coordinator.Store.{store_paired_client, load_paired_clients}
use ungula_lib_net.Pairing.Coordinator.Store.Durable.{
  IsDurable, AllHeld-slots, restart_keeps_clients,
}
use ungula_lib_net.Pairing.Coordinator.Store.Table.{device_of}

module _ {P T : Type 0} ⦃pf : Preferences P⦄ ⦃tr : Transport T⦄ where
  abbrev Updated : MacAddress → ℕ → PairingCoordinator T P → Type 0
  Updated mac id c =
      let (c', stored) = store_paired_client mac id c in
      (stored ≡ true)
      × (device_of mac c'.clients ≡ some id)
      × (c'.prefs ≡ c.prefs)
      × (c'.prefs_ns ≡ c.prefs_ns)

  known-Updated :
      (mac : MacAddress) (id : ℕ) (c : PairingCoordinator T P) (a b : PairedClientInfo)
      → is_paired_in mac (a ∷ b ∷ []) ≡ true
      → Updated mac id (record c { clients = a ∷ b ∷ [] })
  unfolding store_paired_client is_paired_in
  known-Updated mac id c a b known = ground arith

  module _ (l : IsPreferences pf) where
    -- Where the preferences hold the table, a paired client that is stored again, under whatever device
    -- number, is reported as stored and listed under that number, but the number is not written: a
    -- coordinator created anew over the preferences loads the table from before, with the old number.
    pub update_lost :
        (mac : MacAddress) (id : ℕ) (c : PairingCoordinator T P) (t : T)
        → IsDurable l c
        → is_paired_in mac c.clients ≡ true
        → let (c', stored) = store_paired_client mac id c in
          (stored ≡ true)
          × (device_of mac c'.clients ≡ some id)
          × ((load_paired_clients (init t c'.prefs c'.prefs_ns)).clients ≡ c.clients)
    update_lost mac id c t d known =
        let (a, b, slots, _, _) = AllHeld-slots l c.prefs_ns c.clients c.prefs d.held in
        let (ok, device, prefs, ns) =
          subst (Updated mac id) (ap (λ xs. record c { clients = xs }) (sym slots))
            (known-Updated mac id c a b (subst (λ xs. is_paired_in mac xs ≡ true) slots known)) in
        (ok, device, rw (prefs, ns) (restart_keeps_clients l c t d))
