-- ===== src/Pairing/Client/Scan.antt =====
-- src/pairing/pairing_client.cpp: scanning the channels for a beacon, and `loop`.
pub mod Laws
use ungula_lib_net.Base.{ℕ, ◌+◌, ltb, leb, ◌==◌, if◌then◌else◌, u8, sub32}
use ungula_lib_net.Comm.Types.{cleared}
use ungula_lib_net.Comm.Transport.{Transport}
use ungula_lib_net.Pairing.Types.{
  PairingState, scanning, responding, channel_scan_dwell_ms, max_scan_channels, pairing_timeout_ms,
}
use ungula_lib_net.Pairing.Client.{PairingClient, has_scan_list, channel_at, fallback_channel}

module _ {T P : Type 0} where
  -- `scanIndex_++` and `currentScanChannel_++` wrap at 256.
  unfoldable pub next_index : PairingClient T P → ℕ
  next_index c = let i = u8 (c.scan_index + 1) in if leb c.scan_channel_count i then 0 else i

  unfoldable pub next_channel : PairingClient T P → ℕ
  next_channel c =
      if has_scan_list c.scan_channels c.scan_channel_count
      then channel_at c.scan_channels (next_index c)
      else (let i = u8 (c.current_scan_channel + 1) in if ltb max_scan_channels i then 1 else i)

module _ {T P : Type 0} ⦃tr : Transport T⦄ where
  unfoldable pub start_scanning : PairingClient T P → PairingClient T P
  unfolding fallback_channel
  start_scanning c = record c {
    state = scanning;
    scan_index = 0;
    current_scan_channel = fallback_channel c;
    channel_start_ms = 0;
    pairing_start_ms = 0;
    coordinator_mac = cleared;
    paired_channel = 0;
    transport = (tr.set_channel (fallback_channel c) c.transport).0;
  }

  unfoldable pub advance_channel : ℕ → PairingClient T P → PairingClient T P
  advance_channel now c = record c {
    scan_index =
        if has_scan_list c.scan_channels c.scan_channel_count then next_index c else c.scan_index;
    current_scan_channel = next_channel c;
    transport = (tr.set_channel (next_channel c) c.transport).0;
    channel_start_ms = now;
  }

  loop_scanning : ℕ → PairingClient T P → PairingClient T P
  unfolding advance_channel
  loop_scanning now c =
      let start = if c.channel_start_ms == 0 then now else c.channel_start_ms in
      let c' = record c { channel_start_ms = start } in
      if leb channel_scan_dwell_ms (sub32 now start) then advance_channel now c' else c'

  loop_responding : ℕ → PairingClient T P → PairingClient T P
  unfolding start_scanning
  loop_responding now c =
      if leb pairing_timeout_ms (sub32 now c.pairing_start_ms) then start_scanning c else c

  loop_state : PairingState → ℕ → PairingClient T P → PairingClient T P
  unfolding loop_scanning loop_responding
  loop_state scanning now c = loop_scanning now c
  loop_state responding now c = loop_responding now c
  loop_state _ now c = c

  unfoldable pub loop : ℕ → PairingClient T P → PairingClient T P
  unfolding loop_state
  loop now c = loop_state c.state now c
