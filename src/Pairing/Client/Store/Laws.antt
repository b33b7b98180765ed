-- ===== src/Pairing/Client/Store/Laws.antt =====
-- What a client stores, it finds again.
use Prim.Native.String.{String}
use ungula_lib_net.Base.{
  ℕ, ◌≡◌, true, false, ◌||◌, none, some, arith, ◌≤◌, ◌<◌, ltb, ◌==◌, if◌then◌else◌,
}
use ungula_lib_net.Comm.Types.{MacAddress, addr_len, addr, cleared, is_zero, write_bytes-addr}
use ungula_lib_net.Comm.Transport.{Transport}
use ungula_lib_net.Preferences.{Preferences}
use ungula_lib_net.Preferences.Rewriting.{store_laws, read_byte, read_no_byte, read_blob}
use ungula_lib_net.Preferences.Laws.{IsPreferences, byte, blob}
use ungula_lib_net.Pairing.Types.{
  paired, max_scan_channels, pref_key_paired_mac, pref_key_paired_channel, pref_key_paired_flag,
}
use ungula_lib_net.Pairing.Client.{PairingClient, fallback_channel}
use ungula_lib_net.Pairing.Client.Store.{
  channel_valid, load_stored_pairing, store_pairing, set_paired_channel, clear_pairing,
}

module _ {P : Type 0} ⦃pf : Preferences P⦄ (l : IsPreferences pf) where
  -- The store holds a pairing with `mac` on `channel`.
  pub record Holds (ns : String) (mac : MacAddress) (channel : ℕ) (p : P) : Type 0 where
    pub mac_held : l.value ns pref_key_paired_mac p ≡ some (blob (addr mac))
    pub channel_held : l.value ns pref_key_paired_channel p ≡ some (byte channel)
    pub flag_held : l.value ns pref_key_paired_flag p ≡ some (byte 1)

  pub store_pairing-Holds :
      {T : Type 0} (c : PairingClient T P)
      → Holds c.prefs_ns c.coordinator_mac c.paired_channel (store_pairing c).prefs
  unfolding store_pairing
  store_pairing-Holds c = record {
    mac_held = simp store_laws;
    channel_held = simp store_laws;
    flag_held = simp store_laws;
  }

  pub set_paired_channel-Holds :
      {T : Type 0} (c : PairingClient T P) (mac : MacAddress) (old channel : ℕ)
      → Holds c.prefs_ns mac old c.prefs
      → 0 < channel
      → channel ≤ max_scan_channels
      → Holds c.prefs_ns mac channel (set_paired_channel channel c).prefs
  unfolding set_paired_channel
  set_paired_channel-Holds c mac old channel h low high =
      let usable : (channel == 0 || ltb max_scan_channels channel) ≡ false = ground arith in
      rw usable (record {
        mac_held = simp (store_laws, h.mac_held);
        channel_held = simp store_laws;
        flag_held = simp (store_laws, h.flag_held);
      })

  clear_pairing-none :
      {T : Type 0} (c : PairingClient T P)
      → l.value c.prefs_ns pref_key_paired_flag (clear_pairing c).prefs ≡ none
  unfolding clear_pairing
  clear_pairing-none c = simp store_laws

  module _ {T : Type 0} ⦃tr : Transport T⦄ where
    -- What `loadStoredPairing` makes of a stored pairing: the address as it is, and the channel, or
    -- the first one to scan if the channel is not among those to scan.
    pub load-Holds :
        (c : PairingClient T P) (mac : MacAddress) (channel : ℕ)
        → Holds c.prefs_ns mac channel c.prefs
        → is_zero mac ≡ false
        → let (c', r) = load_stored_pairing c in
          let usable = if channel_valid c channel then channel else fallback_channel c in
          (r ≡ record { coordinator_mac = mac; channel = usable; valid = true })
          × (c'.state ≡ paired)
          × (c'.coordinator_mac ≡ mac)
          × (c'.paired_channel ≡ usable)
    unfolding load_stored_pairing
    load-Holds c mac channel h nonzero = ground (
      arith,
      read_byte l c.prefs_ns pref_key_paired_flag 0 1 c.prefs h.flag_held,
      read_byte l c.prefs_ns pref_key_paired_channel 0 channel c.prefs h.channel_held,
      read_blob l c.prefs_ns pref_key_paired_mac addr_len (addr mac) c.prefs h.mac_held
          (omega arith),
      write_bytes-addr mac cleared,
    )

    -- After `clearPairing` there is no pairing to load: the client stays as it was but for the
    -- preferences session, and the result is marked invalid.
    pub load-clear_pairing :
        (c d : PairingClient T P)
        → d.prefs_ns ≡ c.prefs_ns
        → d.prefs ≡ (clear_pairing c).prefs
        → let (d', r) = load_stored_pairing d in
          (r.valid ≡ false) × (d'.state ≡ d.state) × (d'.coordinator_mac ≡ d.coordinator_mac)
    unfolding load_stored_pairing
    load-clear_pairing c d ns p = ground (
      arith,
      read_no_byte l d.prefs_ns pref_key_paired_flag 0 d.prefs (rw (ns, p) (clear_pairing-none c)),
    )
