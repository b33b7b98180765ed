-- ===== src/Pairing/Client/Store.antt =====
-- src/pairing/pairing_client.cpp: the pairing that is kept in the preferences.
pub mod Laws
pub mod Usable
use ungula_lib_net.Base.{
  ℕ, zero, suc, Bool, true, false, not, ◌&&◌, ◌||◌, List, Option, ltb, leb, ◌==◌, if◌then◌else◌,
  length,
}
use ungula_lib_net.Comm.Types.{MacAddress, addr_len, addr, cleared, is_zero, write_bytes}
use ungula_lib_net.Comm.Transport.{Transport}
use ungula_lib_net.Preferences.{Preferences}
use ungula_lib_net.Pairing.Types.{
  idle, paired, max_scan_channels, pref_key_paired_mac, pref_key_paired_channel,
  pref_key_paired_flag,
}
use ungula_lib_net.Pairing.Client.{
  PairingClient, StoredPairing, has_scan_list, channel_at, fallback_channel,
}

-- Is the channel one of `count` entries from `i` on? The loop of `loadStoredPairing`.
pub in_scan_list : ℕ → ℕ → Option (List ℕ) → ℕ → Bool
in_scan_list zero i channels c = false
in_scan_list (suc count) i channels c =
    channel_at channels i == c || in_scan_list count (suc i) channels c

module _ {T P : Type 0} ⦃tr : Transport T⦄ ⦃pf : Preferences P⦄ where
  -- Is a stored channel in the configured scan list, or in 1 to 13 without one?
  unfoldable pub channel_valid : PairingClient T P → ℕ → Bool
  unfolding in_scan_list
  channel_valid c channel =
      ltb 0 channel
      && leb channel max_scan_channels
      && (if has_scan_list c.scan_channels c.scan_channel_count
          then in_scan_list c.scan_channel_count 0 c.scan_channels channel
          else true)

  -- The end of `loadStoredPairing`: the pairing is taken up on a channel.
  restore : MacAddress → ℕ → PairingClient T P → PairingClient T P
  restore mac channel c = record c {
    coordinator_mac = mac;
    state = paired;
    paired_channel = channel;
    transport = (tr.add_peer mac 0 (tr.set_channel channel c.transport).0).0;
  }

  unfoldable pub load_stored_pairing : PairingClient T P → PairingClient T P × StoredPairing
  unfolding channel_valid restore fallback_channel is_zero write_bytes
  load_stored_pairing c =
      let opened = (pf.begin c.prefs_ns c.prefs).0 in
      let c' = record c { prefs = pf.close opened } in
      if pf.get_u8 pref_key_paired_flag 0 opened == 1
      then (let bytes = pf.get_bytes pref_key_paired_mac addr_len opened in
          let mac = write_bytes bytes cleared in
          let channel = pf.get_u8 pref_key_paired_channel 0 opened in
          if not (length bytes == addr_len) || is_zero mac
          then (c', record { coordinator_mac = mac; channel = channel; valid = false })
          else if channel_valid c channel
          then (
            restore mac channel c',
            record { coordinator_mac = mac; channel = channel; valid = true },
          )
          else (
            restore mac (fallback_channel c) c',
            record { coordinator_mac = mac; channel = fallback_channel c; valid = true },
          ))
      else (c', record { coordinator_mac = cleared; channel = 0; valid = false })

module _ {T P : Type 0} ⦃pf : Preferences P⦄ where
  unfoldable pub store_pairing : PairingClient T P → PairingClient T P
  store_pairing c =
      let p1 = (pf.begin c.prefs_ns c.prefs).0 in
      let p2 = (pf.put_bytes pref_key_paired_mac (addr c.coordinator_mac) p1).0 in
      let p3 = pf.put_u8 pref_key_paired_channel c.paired_channel p2 in
      record c { prefs = pf.close (pf.put_u8 pref_key_paired_flag 1 p3) }

  unfoldable pub set_paired_channel : ℕ → PairingClient T P → PairingClient T P
  set_paired_channel channel c =
      if channel == 0 || ltb max_scan_channels channel then c else record c {
        paired_channel = channel;
        prefs =
            pf.close (pf.put_u8 pref_key_paired_channel channel (pf.begin c.prefs_ns c.prefs).0);
      }

  unfoldable pub clear_pairing : PairingClient T P → PairingClient T P
  clear_pairing c =
      let p1 = (pf.begin c.prefs_ns c.prefs).0 in
      let p2 = pf.remove pref_key_paired_channel (pf.remove pref_key_paired_mac p1) in
      record c {
        prefs = pf.close (pf.remove pref_key_paired_flag p2);
        coordinator_mac = cleared;
        paired_channel = 0;
        state = idle;
      }
