-- ===== src/Pairing/Client/Durable/Restart.antt =====
-- Every call of a pairing client keeps its pairing in the preferences, and a restart finds it there.
use Prim.Native.String.{String}
use ungula_lib_net.Base.{
  ℕ, Bool-cases, ◌==◌, ◌≡◌, ◌⊎◌, ◌∙◌, refl, true, false, List, [], ◌∷◌, some, arith, subst, inl,
  inr,
}
use ungula_lib_net.Comm.Types.{MacAddress, addr, is_zero, addr_len, cleared, write_bytes-addr}
use ungula_lib_net.Comm.Transport.{Transport}
use ungula_lib_net.Preferences.{Preferences}
use ungula_lib_net.Preferences.Rewriting.{read_byte, read_blob}
use ungula_lib_net.Preferences.Laws.{IsPreferences, byte, blob}
use ungula_lib_net.Pairing.Types.{paired, pref_key_paired_mac, pref_key_paired_flag}
use ungula_lib_net.Pairing.Client.{
  PairingClient, init, set_scan_channels, stop_scanning, on_paired, is_scanning_state,
}
use ungula_lib_net.Pairing.Client.Events.{
  Event, looped, received, scan_started, scan_stopped, pairing_loaded, pairing_cleared,
  channels_set, channel_set, callback_set, step, run, IsAllowed, IsAllowedAll,
}
use ungula_lib_net.Pairing.Messages.Beacon.{PairingBeacon}
use ungula_lib_net.Pairing.Messages.Beacon
use ungula_lib_net.Pairing.Messages.Confirm
use ungula_lib_net.Pairing.Messages.Confirm.{PairingConfirm}
use ungula_lib_net.Pairing.Client.Scan.{start_scanning, loop}
use ungula_lib_net.Pairing.Client.Store.{
  load_stored_pairing, store_pairing, set_paired_channel, clear_pairing,
}
use ungula_lib_net.Pairing.Client.Receive.{handle_received, handle_confirm, handle_beacon}
use ungula_lib_net.Pairing.Client.Durable.{
  IsEntry, IsDurable, keep-IsDurable, store-IsDurable, set_paired_channel-IsDurable,
  clear-IsDurable, load_cases, load-IsDurable,
}

module _ {T P : Type 0} ⦃tr : Transport T⦄ ⦃pf : Preferences P⦄ (l : IsPreferences pf) where
  start_scanning-IsDurable :
      (c : PairingClient T P) → IsDurable l c → IsDurable l (start_scanning c)
  unfolding start_scanning
  start_scanning-IsDurable c v = keep-IsDurable l c _ v refl refl refl (λ h. absurd cc)

  beacon-IsDurable :
      (src : MacAddress) (beacon : PairingBeacon) (now : ℕ) (c : PairingClient T P)
      → IsDurable l c
      → IsDurable l (handle_beacon src beacon now c)
  unfolding handle_beacon
  beacon-IsDurable src beacon now c v = keep-IsDurable l c _ v refl refl refl (λ h. absurd cc)

  confirm-IsDurable :
      (src : MacAddress) (confirm : PairingConfirm) (c : PairingClient T P)
      → is_zero src ≡ false
      → IsDurable l c
      → IsDurable l (handle_confirm src confirm c)
  unfolding handle_confirm
  confirm-IsDurable src confirm c nz v =
      let stored =
        store-IsDurable l
          (record c {
            coordinator_mac = src;
            paired_channel = confirm.channel;
            state = paired;
            transport = (tr.set_channel confirm.channel c.transport).0;
          })
          nz in
      elim (Bool-cases (confirm.accepted == 0)) [
        | inl refused ↦ rw refused (start_scanning-IsDurable c v)
        | inr accepted ↦ elim (Bool-cases c.on_paired_cb) [
          | inl told ↦
              rw (accepted, told) (keep-IsDurable l _ _ stored refl refl refl (λ h. (h, refl)))
          | inr quiet ↦
              rw (accepted, quiet) (keep-IsDurable l _ _ stored refl refl refl (λ h. (h, refl)))
        ]
      ]

  -- A received message is ignored, or handled by one of the two handlers.
  received_cases :
      (src : MacAddress) (bytes : List ℕ) (now : ℕ) (c : PairingClient T P)
      → let c' = (handle_received src bytes now c).0 in
        (c' ≡ c)
        ⊎ (c' ≡ handle_beacon src (Beacon.parse bytes) now c)
        ⊎ (c' ≡ handle_confirm src (Confirm.parse bytes) c)
  unfolding handle_received
  received_cases src bytes now c = ground arith

  received-IsDurable :
      (src : MacAddress) (bytes : List ℕ) (now : ℕ) (c : PairingClient T P)
      → is_zero src ≡ false
      → IsDurable l c
      → IsDurable l (handle_received src bytes now c).0
  received-IsDurable src bytes now c nz v = elim (received_cases src bytes now c) [
    | inl same ↦ rw same v
    | inr (inl e) ↦ rw e (beacon-IsDurable src (Beacon.parse bytes) now c v)
    | inr (inr e) ↦ rw e (confirm-IsDurable src (Confirm.parse bytes) c nz v)
  ]

  loop_keeps :
      (now : ℕ) (c : PairingClient T P)
      → let c' = loop now c in
        (c'.prefs_ns ≡ c.prefs_ns)
        × (c'.prefs ≡ c.prefs)
        × (c'.state ≡ paired → (c.state ≡ paired) × (c'.coordinator_mac ≡ c.coordinator_mac))
  unfolding loop
  loop_keeps now c = ground arith

  loop-IsDurable : (now : ℕ) (c : PairingClient T P) → IsDurable l c → IsDurable l (loop now c)
  loop-IsDurable now c v =
      let (ns, prefs, same) = loop_keeps now c in
      keep-IsDurable l c _ v ns (rw prefs refl) (rw prefs refl) same

  step-IsDurable :
      (c : PairingClient T P) (e : Event) → IsAllowed e → IsDurable l c → IsDurable l (step c e)
  unfolding step set_scan_channels stop_scanning on_paired
  step-IsDurable c (looped now) a v = loop-IsDurable now c v
  step-IsDurable c (received src bytes now) a v = received-IsDurable src bytes now c a v
  step-IsDurable c scan_started a v = start_scanning-IsDurable c v
  step-IsDurable c scan_stopped a v = elim (Bool-cases (is_scanning_state c.state)) [
    | inl on ↦ rw on (keep-IsDurable l c _ v refl refl refl (λ h. absurd cc))
    | inr off ↦ rw off v
  ]
  step-IsDurable c pairing_loaded a v = load-IsDurable l c v
  step-IsDurable c pairing_cleared a v = clear-IsDurable l c
  step-IsDurable c (channels_set channels count) a v =
      keep-IsDurable l c _ v refl refl refl (λ h. (h, refl))
  step-IsDurable c (channel_set channel) a v = set_paired_channel-IsDurable l channel c v
  step-IsDurable c (callback_set cb) a v = keep-IsDurable l c _ v refl refl refl (λ h. (h, refl))

  init-IsDurable :
      (t : T) (p : P) (ns : String) (id : ℕ) → IsEntry l ns p → IsDurable l (init t p ns id)
  unfolding init
  init-IsDurable t p ns id entry = record {
    entry = entry;
    mac_stored = λ h. absurd cc;
    flag_stored = λ h. absurd cc;
    known = λ h. absurd cc;
  }

  run-IsDurable :
      (c : PairingClient T P) (es : List Event)
      → IsAllowedAll es
      → IsDurable l c
      → IsDurable l (run c es)
  unfolding run
  run-IsDurable c [] a v = v
  run-IsDurable c (e ∷ es) (a, rest) v = run-IsDurable (step c e) es rest (step-IsDurable c e a v)

  step_ns : (c : PairingClient T P) (e : Event) → (step c e).prefs_ns ≡ c.prefs_ns
  unfolding step set_scan_channels stop_scanning on_paired start_scanning clear_pairing
      set_paired_channel handle_beacon handle_confirm store_pairing
  step_ns c (looped now) = (loop_keeps now c).0
  step_ns c (received src bytes now) = ground (arith, received_cases src bytes now c)
  step_ns c scan_started = refl
  step_ns c scan_stopped = ground arith
  step_ns c pairing_loaded = (load_cases l c).0
  step_ns c pairing_cleared = refl
  step_ns c (channels_set channels count) = refl
  step_ns c (channel_set channel) = ground arith
  step_ns c (callback_set cb) = refl

  run_ns : (c : PairingClient T P) (es : List Event) → (run c es).prefs_ns ≡ c.prefs_ns
  unfolding run
  run_ns c [] = refl
  run_ns c (e ∷ es) = run_ns (step c e) es ∙ step_ns c e

  -- A client over preferences that hold a pairing loads it, whatever the channel.
  load_known :
      (c : PairingClient T P) (mac : MacAddress)
      → l.value c.prefs_ns pref_key_paired_mac c.prefs ≡ some (blob (addr mac))
      → l.value c.prefs_ns pref_key_paired_flag c.prefs ≡ some (byte 1)
      → is_zero mac ≡ false
      → let (d, r) = load_stored_pairing c in
        (r.valid ≡ true) × (d.state ≡ paired) × (d.coordinator_mac ≡ mac)
  unfolding load_stored_pairing
  load_known c mac held flag nz = ground (
    arith,
    read_byte l c.prefs_ns pref_key_paired_flag 0 1 c.prefs flag,
    read_blob l c.prefs_ns pref_key_paired_mac addr_len (addr mac) c.prefs held (omega arith),
    write_bytes-addr mac cleared,
  )

  -- A pairing outlives a restart, whatever was called before. A client is created over preferences
  -- whose entry for the coordinator's address is absent or an address; the application calls its
  -- methods in any order, and messages come in from any senders but the address of zeros. If the
  -- client is then paired, a client that is created anew over its preferences loads the pairing
  -- with the same coordinator.
  pub restart_keeps_pairing :
      (t t' : T) (p : P) (ns : String) (id : ℕ) (es : List Event)
      → IsEntry l ns p
      → IsAllowedAll es
      → (run (init t p ns id) es).state ≡ paired
      → let c = run (init t p ns id) es in
        let (d, r) = load_stored_pairing (init t' c.prefs ns id) in
        (r.valid ≡ true) × (d.state ≡ paired) × (d.coordinator_mac ≡ c.coordinator_mac)
  unfolding init
  restart_keeps_pairing t t' p ns id es entry a known =
      let c = run (init t p ns id) es in
      let v = run-IsDurable (init t p ns id) es a (init-IsDurable t p ns id entry) in
      let same : c.prefs_ns ≡ ns = run_ns (init t p ns id) es in
      load_known (init t' c.prefs ns id) c.coordinator_mac
        (subst (λ n. l.value n pref_key_paired_mac c.prefs ≡ some (blob (addr c.coordinator_mac)))
          same (v.mac_stored known))
        (subst (λ n. l.value n pref_key_paired_flag c.prefs ≡ some (byte 1)) same
          (v.flag_stored known))
        (v.known known)
