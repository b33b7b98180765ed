-- ===== src/Pairing/Client.antt =====
-- src/pairing/pairing_client.h and pairing_client.cpp, over any transport and preferences store:
-- the state, and the methods that neither send nor store. A method takes the client and returns the
-- new one; log output is left out.
pub mod Durable
pub mod Events
pub mod Scan
pub mod Store
pub mod Receive
mod Tests
use Prim.Native.String.{String}
use ungula_lib_net.Base.{
  ℕ, zero, suc, ◌+◌, Bool, true, false, not, ◌&&◌, ◌||◌, List, [], ◌∷◌, Option, none, some, ltb,
  leb, ◌==◌, if◌then◌else◌, u8, sub32, length, get_or, memcmp_eq,
}
use ungula_lib_net.Comm.Types.{MacAddress, addr_len, addr, cleared, is_zero, write_bytes}
use ungula_lib_net.Comm.Transport.{Transport}
use ungula_lib_net.Preferences.{Preferences}
use ungula_lib_net.Pairing.Types.{
  PairingState, idle, scanning, responding, paired, pairing_magic, channel_scan_dwell_ms,
  max_scan_channels, pairing_timeout_ms, pref_key_paired_mac, pref_key_paired_channel,
  pref_key_paired_flag,
}
use ungula_lib_net.Pairing.Messages.Beacon.{PairingBeacon}
use ungula_lib_net.Pairing.Messages.Beacon
use ungula_lib_net.Pairing.Messages.Request
use ungula_lib_net.Pairing.Messages.Confirm.{PairingConfirm}
use ungula_lib_net.Pairing.Messages.Confirm

pub record StoredPairing : Type 0 where
  pub coordinator_mac : MacAddress
  pub channel : ℕ
  pub valid : Bool

-- `scan_channels` is the caller's array, or `none` for a null pointer. `on_paired_cb` says whether a
-- callback is registered, and `paired_calls` lists the calls made of it, the last one first.
pub record PairingClient (T P : Type 0) : Type 0 where
  pub transport : T
  pub prefs : P
  pub prefs_ns : String
  pub device_id : ℕ
  pub state : PairingState
  pub scan_channels : Option (List ℕ)
  pub scan_channel_count : ℕ
  pub scan_index : ℕ
  pub current_scan_channel : ℕ
  pub channel_start_ms : ℕ
  pub pairing_start_ms : ℕ
  pub coordinator_mac : MacAddress
  pub paired_channel : ℕ
  pub on_paired_cb : Bool
  pub paired_calls : List (MacAddress × ℕ)

-- The constructor.
unfoldable pub init : {T P : Type 0} → T → P → String → ℕ → PairingClient T P
init transport prefs prefs_ns device_id = record {
  transport = transport;
  prefs = prefs;
  prefs_ns = prefs_ns;
  device_id = device_id;
  state = idle;
  scan_channels = none;
  scan_channel_count = 0;
  scan_index = 0;
  current_scan_channel = 1;
  channel_start_ms = 0;
  pairing_start_ms = 0;
  coordinator_mac = cleared;
  paired_channel = 0;
  on_paired_cb = false;
  paired_calls = [];
}

-- `scanChannels_ && scanChannelCount_ > 0`.
abbrev pub has_scan_list : Option (List ℕ) → ℕ → Bool
has_scan_list none count = false
has_scan_list (some channels) count = ltb 0 count

-- `scanChannels_[i]`, read only where `has_scan_list` holds.
abbrev pub channel_at : Option (List ℕ) → ℕ → ℕ
channel_at none i = 0
channel_at (some channels) i = get_or channels i 0

abbrev pub is_scanning_state : PairingState → Bool
is_scanning_state scanning = true
is_scanning_state _ = false

abbrev pub is_responding_state : PairingState → Bool
is_responding_state responding = true
is_responding_state _ = false

abbrev pub is_paired_state : PairingState → Bool
is_paired_state paired = true
is_paired_state _ = false

module _ {T P : Type 0} where
  unfoldable pub is_scanning : PairingClient T P → Bool
  is_scanning c = is_scanning_state c.state

  unfoldable pub is_paired : PairingClient T P → Bool
  is_paired c = is_paired_state c.state

  unfoldable pub set_scan_channels : Option (List ℕ) → ℕ → PairingClient T P → PairingClient T P
  set_scan_channels channels count c = record c {
    scan_channels = channels;
    scan_channel_count = count;
  }

  unfoldable pub stop_scanning : PairingClient T P → PairingClient T P
  stop_scanning c = if is_scanning_state c.state then record c { state = idle } else c

  unfoldable pub on_paired : Bool → PairingClient T P → PairingClient T P
  on_paired cb c = record c { on_paired_cb = cb }

  -- The channel to start on: the first of the list, or channel 1 without one.
  unfoldable pub fallback_channel : PairingClient T P → ℕ
  fallback_channel c =
      if has_scan_list c.scan_channels c.scan_channel_count then channel_at c.scan_channels 0 else 1
