-- ===== src/Pairing/Client/Durable.antt =====
-- A paired client is paired in its preferences as well, whatever is called of it.
pub mod Restart
use Prim.Native.String.{String}
use ungula_lib_net.Base.{
  ℕ, zero, Bool-cases, ◌||◌, ltb, ◌==◌, ◌≡◌, ◌≢◌, ◌⊎◌, ◌∙◌, refl, true, false, List, [], ◌∷◌,
  Option, none, some, arith, ap, sym, subst, length, inl, inr,
}
use ungula_lib_net.Comm.Types.{
  MacAddress, addr, is_zero, addr_len, cleared, write_bytes, write_bytes-addr,
}
use ungula_lib_net.Comm.Transport.{Transport}
use ungula_lib_net.Preferences.{Preferences}
use ungula_lib_net.Preferences.Rewriting.{store_laws, read_byte, read_blob, read_no_blob}
use ungula_lib_net.Preferences.Laws.{IsPreferences, Value, byte, blob, u8_or}
use ungula_lib_net.Pairing.Types.{
  PairingState, paired, max_scan_channels, pref_key_paired_mac, pref_key_paired_flag,
}
use ungula_lib_net.Pairing.Client.{
  PairingClient, init, set_scan_channels, stop_scanning, on_paired, is_scanning_state,
}
use ungula_lib_net.Pairing.Client.Events.{
  Event, looped, received, scan_started, scan_stopped, pairing_loaded, pairing_cleared,
  channels_set, channel_set, callback_set, step, run, IsAllowed, IsAllowedAll,
}
use ungula_lib_net.Pairing.Messages.Beacon.{PairingBeacon}
use ungula_lib_net.Pairing.Messages.Beacon
use ungula_lib_net.Pairing.Messages.Confirm
use ungula_lib_net.Pairing.Messages.Confirm.{PairingConfirm}
use ungula_lib_net.Pairing.Client.Scan.{start_scanning, loop}
use ungula_lib_net.Pairing.Client.Store.{
  load_stored_pairing, store_pairing, set_paired_channel, clear_pairing,
}
use ungula_lib_net.Pairing.Client.Receive.{handle_received, handle_confirm, handle_beacon}

-- The entry of the address is absent or an address.
abbrev pub IsEntry : {P : Type 0} → {pf : Preferences P} → IsPreferences pf → String → P → Type 0
IsEntry l ns p =
    (l.value ns pref_key_paired_mac p ≡ none)
    ⊎ ((m : MacAddress) × (l.value ns pref_key_paired_mac p ≡ some (blob (addr m))))

-- A byte that is read as 1 is stored.
read_one : (o : Option Value) → u8_or 0 o ≡ 1 → o ≡ some (byte 1)
read_one none h = absurd (omega arith)
read_one (some (byte n)) h = ap (λ i. some (byte i)) h
read_one (some (blob b)) h = absurd (omega arith)

module _ {P : Type 0} ⦃pf : Preferences P⦄ (l : IsPreferences pf) where
  -- A session that only reads leaves the entries alone.
  read_only : (ns k : String) (p : P) → l.value ns k (pf.close (pf.begin ns p).0) ≡ l.value ns k p
  read_only ns k p = simp store_laws

  flag_read :
      (ns : String) (p : P)
      → pf.get_u8 pref_key_paired_flag 0 (pf.begin ns p).0 ≡ 1
      → l.value ns pref_key_paired_flag p ≡ some (byte 1)
  flag_read ns p h = read_one _ (sym (simp (l.get_u8_lem, l.opened-begin, l.value-begin)) ∙ h)

  -- A stored address that is read in full is the entry's.
  mac_read :
      (ns : String) (p : P)
      → IsEntry l ns p
      → let bytes = pf.get_bytes pref_key_paired_mac addr_len (pf.begin ns p).0 in
        length bytes ≡ addr_len
        → l.value ns pref_key_paired_mac p ≡ some (blob (addr (write_bytes bytes cleared)))
  mac_read ns p (inl absent) six =
      absurd
        (omega (arith, six, ap length (read_no_blob l ns pref_key_paired_mac addr_len p absent)))
  mac_read ns p (inr (m, e)) six =
      let read = read_blob l ns pref_key_paired_mac addr_len (addr m) p e (omega arith) in
      rw read (e ∙ ap (λ a. some (blob (addr a))) (sym (write_bytes-addr m cleared)))

module _ {T P : Type 0} ⦃pf : Preferences P⦄ (l : IsPreferences pf) where
  pub record IsDurable (c : PairingClient T P) : Type 0 where
    pub entry : IsEntry l c.prefs_ns c.prefs
    pub mac_stored :
        c.state ≡ paired
        → l.value c.prefs_ns pref_key_paired_mac c.prefs ≡ some (blob (addr c.coordinator_mac))
    pub flag_stored :
        c.state ≡ paired → l.value c.prefs_ns pref_key_paired_flag c.prefs ≡ some (byte 1)
    pub known : c.state ≡ paired → is_zero c.coordinator_mac ≡ false

  -- A change that leaves the two entries alone, and a paired client its coordinator.
  pub keep-IsDurable :
      (c c' : PairingClient T P)
      → IsDurable c
      → c'.prefs_ns ≡ c.prefs_ns
      → l.value c.prefs_ns pref_key_paired_mac c'.prefs
        ≡ l.value c.prefs_ns pref_key_paired_mac c.prefs
      → l.value c.prefs_ns pref_key_paired_flag c'.prefs
        ≡ l.value c.prefs_ns pref_key_paired_flag c.prefs
      → (c'.state ≡ paired → (c.state ≡ paired) × (c'.coordinator_mac ≡ c.coordinator_mac))
      → IsDurable c'
  keep-IsDurable c c' v ns mac flag same = record {
    entry = rw (ns, mac) v.entry;
    mac_stored = λ h. let (h', m) = same h in rw (ns, mac, m) (v.mac_stored h');
    flag_stored = λ h. rw (ns, flag) (v.flag_stored ((same h).0));
    known = λ h. let (h', m) = same h in rw m (v.known h');
  }

  pub store-IsDurable :
      (c : PairingClient T P) → is_zero c.coordinator_mac ≡ false → IsDurable (store_pairing c)
  unfolding store_pairing
  store-IsDurable c nz = record {
    entry = inr (c.coordinator_mac, simp store_laws);
    mac_stored = λ h. simp store_laws;
    flag_stored = λ h. simp store_laws;
    known = λ h. nz;
  }

  pub set_paired_channel-IsDurable :
      (channel : ℕ) (c : PairingClient T P) → IsDurable c → IsDurable (set_paired_channel channel c)
  unfolding set_paired_channel
  set_paired_channel-IsDurable channel c v =
      elim (Bool-cases (channel == 0 || ltb max_scan_channels channel)) [
        | inl unusable ↦ rw unusable v
        | inr usable ↦
            rw usable
              (keep-IsDurable c _ v refl (simp store_laws) (simp store_laws) (λ h. (h, refl)))
      ]

  pub clear-IsDurable : (c : PairingClient T P) → IsDurable (clear_pairing c)
  unfolding clear_pairing
  clear-IsDurable c = record {
    entry = inl (simp store_laws);
    mac_stored = λ h. absurd cc;
    flag_stored = λ h. absurd cc;
    known = λ h. absurd cc;
  }

  module _ ⦃tr : Transport T⦄ where
    -- Loading leaves the pairing as it was, or takes up the one that is stored.
    pub load_cases :
        (c : PairingClient T P)
        → let opened = (pf.begin c.prefs_ns c.prefs).0 in
          let bytes = pf.get_bytes pref_key_paired_mac addr_len opened in
          let c' = (load_stored_pairing c).0 in
          (c'.prefs_ns ≡ c.prefs_ns)
          × (c'.prefs ≡ pf.close opened)
          × (((c'.state ≡ c.state) × (c'.coordinator_mac ≡ c.coordinator_mac))
              ⊎ ((pf.get_u8 pref_key_paired_flag 0 opened ≡ 1)
                  × (length bytes ≡ addr_len)
                  × (is_zero (write_bytes bytes cleared) ≡ false)
                  × (c'.coordinator_mac ≡ write_bytes bytes cleared)))
    unfolding load_stored_pairing
    load_cases c = ground arith

    pub load-IsDurable : (c : PairingClient T P) → IsDurable c → IsDurable (load_stored_pairing c).0
    load-IsDurable c v =
        let (ns, p, how) = load_cases c in
        let mac_kept = read_only l c.prefs_ns pref_key_paired_mac c.prefs in
        let flag_kept = read_only l c.prefs_ns pref_key_paired_flag c.prefs in
        elim how [
          | inl (state, mac) ↦
              keep-IsDurable c _ v ns (rw p mac_kept) (rw p flag_kept) (λ h. (sym state ∙ h, mac))
          | inr (one, six, nz, mac) ↦ record {
            entry = rw (ns, p, mac_kept) v.entry;
            mac_stored = λ h. rw (ns, p, mac_kept, mac) (mac_read l c.prefs_ns c.prefs v.entry six);
            flag_stored = λ h. rw (ns, p, flag_kept) (flag_read l c.prefs_ns c.prefs one);
            known = λ h. rw mac nz;
          }
        ]
