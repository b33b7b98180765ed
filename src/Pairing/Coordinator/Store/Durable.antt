-- ===== src/Pairing/Coordinator/Store/Durable.antt =====
-- The paired clients outlive a restart of the coordinator, but for a changed device number.
use Prim.Native.String.{String}
use ungula_lib_net.Base.{
  zero, suc, Bool-cases, ℕ, ◌≡◌, refl, sym, subst, ◌⊎◌, inl, inr, true, false, List, [], ◌∷◌, none,
  some, arith,
}
use ungula_lib_net.Comm.Types.{
  MacAddress, addr_len, addr, cleared, is_zero, write_bytes, write_bytes-addr,
}
use ungula_lib_net.Comm.Transport.{Transport}
use ungula_lib_net.Preferences.{Preferences}
use ungula_lib_net.Preferences.Laws.{IsPreferences, byte, blob}
use ungula_lib_net.Preferences.Rewriting.{store_laws, read_byte, read_blob, read_no_blob}
use ungula_lib_net.Pairing.Coordinator.{
  PairedClientInfo, empty_slot, PairingCoordinator, init, mac_key, id_key, is_paired_in,
}
use ungula_lib_net.Pairing.Coordinator.Store.{store_paired_client, load_slot, load_paired_clients}

module _ {P : Type 0} ⦃pf : Preferences P⦄ (l : IsPreferences pf) where
  -- The preferences hold what slot `i` of the table holds, and a free slot holds nothing at all.
  pub record Held (ns : String) (i : ℕ) (x : PairedClientInfo) (p : P) : Type 0 where
    pub mac_held : x.active ≡ true → l.value ns (mac_key i) p ≡ some (blob (addr x.mac))
    pub id_held : x.active ≡ true → l.value ns (id_key i) p ≡ some (byte x.device_id)
    pub nonzero : x.active ≡ true → is_zero x.mac ≡ false
    pub free : x.active ≡ false → (x ≡ empty_slot) × (l.value ns (mac_key i) p ≡ none)

  -- One write of a client into a slot of the preferences, as `write_slot` does it.
  abbrev written : String → ℕ → MacAddress → ℕ → P → P
  written ns i mac id p =
      pf.close (pf.put_u8 (id_key i) id (pf.put_bytes (mac_key i) (addr mac) (pf.begin ns p).0).0)

  abbrev slot_of : MacAddress → ℕ → PairedClientInfo
  slot_of mac id = record { mac = mac; device_id = id; active = true }

  written-Held :
      (ns : String) (i : ℕ) (mac : MacAddress) (id : ℕ) (p : P)
      → is_zero mac ≡ false
      → Held ns i (slot_of mac id) (written ns i mac id p)
  written-Held ns zero mac id p nz = record {
    mac_held = λ _. simp store_laws;
    id_held = λ _. simp store_laws;
    nonzero = λ _. nz;
    free = λ e. cc;
  }
  written-Held ns (suc i) mac id p nz = record {
    mac_held = λ _. simp store_laws;
    id_held = λ _. simp store_laws;
    nonzero = λ _. nz;
    free = λ e. cc;
  }

  -- A write to one slot is no write to the other.
  written_first :
      (ns : String) (mac : MacAddress) (id : ℕ) (x : PairedClientInfo) (p : P)
      → Held ns 1 x p
      → Held ns 1 x (written ns 0 mac id p)
  written_first ns mac id x p h = record {
    mac_held = λ on. simp store_laws (h.mac_held on);
    id_held = λ on. simp store_laws (h.id_held on);
    nonzero = h.nonzero;
    free = λ off. ((h.free off).0, simp store_laws ((h.free off).1));
  }

  written_second :
      (ns : String) (mac : MacAddress) (id : ℕ) (x : PairedClientInfo) (p : P)
      → Held ns 0 x p
      → Held ns 0 x (written ns 1 mac id p)
  written_second ns mac id x p h = record {
    mac_held = λ on. simp store_laws (h.mac_held on);
    id_held = λ on. simp store_laws (h.id_held on);
    nonzero = h.nonzero;
    free = λ off. ((h.free off).0, simp store_laws ((h.free off).1));
  }

  abbrev pub AllHeld : String → List PairedClientInfo → P → Type 0
  AllHeld ns (a ∷ b ∷ []) p = Held ns 0 a p × Held ns 1 b p
  AllHeld ns _ p = ⊥

  pub AllHeld-slots :
      (ns : String) (xs : List PairedClientInfo) (p : P)
      → AllHeld ns xs p
      → (a : PairedClientInfo) × (b : PairedClientInfo) × (xs ≡ a ∷ b ∷ [])
        × Held ns 0 a p
        × Held ns 1 b p
  AllHeld-slots ns [] p h = absurd h
  AllHeld-slots ns (a ∷ []) p h = absurd h
  AllHeld-slots ns (a ∷ b ∷ []) p h = (a, b, refl, h.0, h.1)
  AllHeld-slots ns (a ∷ b ∷ x ∷ xs) p h = absurd h

  module _ {T : Type 0} ⦃tr : Transport T⦄ where
    load_active :
        (ns : String) (i : ℕ) (x : PairedClientInfo) (p : P) (t : T)
        → Held ns i x p
        → x.active ≡ true
        → (load_slot (pf.begin ns p).0 i empty_slot t).0 ≡ x
    unfolding load_slot
    load_active ns i x p t h on = ground (
      arith,
      read_blob l ns (mac_key i) addr_len (addr x.mac) p (h.mac_held on) (omega arith),
      read_byte l ns (id_key i) 0 x.device_id p (h.id_held on),
      write_bytes-addr x.mac cleared,
      h.nonzero on,
    )

    load_free :
        (ns : String) (i : ℕ) (x : PairedClientInfo) (p : P) (t : T)
        → Held ns i x p
        → x.active ≡ false
        → (load_slot (pf.begin ns p).0 i empty_slot t).0 ≡ x
    unfolding load_slot write_bytes
    load_free ns i x p t h off =
        ground (arith, read_no_blob l ns (mac_key i) addr_len p (h.free off).1, h.free off)

    load-Held :
        (ns : String) (i : ℕ) (x : PairedClientInfo) (p : P) (t : T)
        → Held ns i x p
        → (load_slot (pf.begin ns p).0 i empty_slot t).0 ≡ x
    load-Held ns i x p t h = elim (Bool-cases x.active) [
      | inl on ↦ load_active ns i x p t h on
      | inr off ↦ load_free ns i x p t h off
    ]

    -- The preferences of a coordinator hold its table of two slots.
    pub record IsDurable (c : PairingCoordinator T P) : Type 0 where
      pub held : AllHeld c.prefs_ns c.clients c.prefs

    -- A coordinator that is created anew over the preferences of a durable one, with any transport,
    -- loads the same table of clients.
    pub restart_keeps_clients :
        (c : PairingCoordinator T P) (t : T)
        → IsDurable c
        → (load_paired_clients (init t c.prefs c.prefs_ns)).clients ≡ c.clients
    unfolding load_paired_clients init
    restart_keeps_clients c t d =
        let (a, b, slots, first, second) = AllHeld-slots c.prefs_ns c.clients c.prefs d.held in
        rw (load-Held c.prefs_ns 0 a c.prefs t first, load-Held c.prefs_ns 1 b c.prefs _ second)
          (sym slots)

    -- A request from a new address goes nowhere, into the first slot or into the second.
    abbrev Stored :
        MacAddress
        → ℕ
        → PairingCoordinator T P
        → PairedClientInfo
        → PairedClientInfo
        → PairingCoordinator T P
        → Type 0
    Stored mac id c a b c' =
        (c' ≡ c)
        ⊎ ((c'.prefs_ns ≡ c.prefs_ns)
            × (c'.clients ≡ slot_of mac id ∷ b ∷ [])
            × (c'.prefs ≡ written c.prefs_ns 0 mac id c.prefs))
        ⊎ ((c'.prefs_ns ≡ c.prefs_ns)
            × (c'.clients ≡ a ∷ slot_of mac id ∷ [])
            × (c'.prefs ≡ written c.prefs_ns 1 mac id c.prefs))

    store_new :
        (mac : MacAddress) (id : ℕ) (c : PairingCoordinator T P) (a b : PairedClientInfo)
        → is_paired_in mac (a ∷ b ∷ []) ≡ false
        → Stored mac id
            (record c { clients = a ∷ b ∷ [] })
            a
            b
            (store_paired_client mac id (record c { clients = a ∷ b ∷ [] })).0
    unfolding store_paired_client is_paired_in
    store_new mac id c a b new = ground arith

    store-Held :
        (mac : MacAddress) (id : ℕ) (c : PairingCoordinator T P) (a b : PairedClientInfo)
        → Held c.prefs_ns 0 a c.prefs
        → Held c.prefs_ns 1 b c.prefs
        → is_zero mac ≡ false
        → is_paired_in mac (a ∷ b ∷ []) ≡ false
        → IsDurable (store_paired_client mac id (record c { clients = a ∷ b ∷ [] })).0
    store-Held mac id c a b first second nz new = elim (store_new mac id c a b new) [
      | inl same ↦ rw same (record { held = (first, second) })
      | inr (inl (ns, xs, p)) ↦ record {
        held =
            rw (ns, xs, p)
              (
                written-Held c.prefs_ns 0 mac id c.prefs nz,
                written_first c.prefs_ns mac id b c.prefs second,
              );
      }
      | inr (inr (ns, xs, p)) ↦ record {
        held =
            rw (ns, xs, p)
              (
                written_second c.prefs_ns mac id a c.prefs first,
                written-Held c.prefs_ns 1 mac id c.prefs nz,
              );
      }
    ]

    -- A request from a new, nonzero address leaves the coordinator durable, whether it is accepted
    -- into a free slot, takes over a slot or fails.
    pub store_IsDurable :
        (mac : MacAddress) (id : ℕ) (c : PairingCoordinator T P)
        → IsDurable c
        → is_zero mac ≡ false
        → is_paired_in mac c.clients ≡ false
        → IsDurable (store_paired_client mac id c).0
    store_IsDurable mac id c d nz new =
        let (a, b, slots, first, second) = AllHeld-slots c.prefs_ns c.clients c.prefs d.held in
        subst (λ xs. IsDurable (store_paired_client mac id (record c { clients = xs })).0)
          (sym slots)
          (store-Held mac id c a b first second nz
            (subst (λ xs. is_paired_in mac xs ≡ false) slots new))
