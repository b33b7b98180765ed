-- ===== src/Pairing/Types.antt =====
-- src/pairing/pairing_types.h.
use Prim.Native.String.{String}
use ungula_lib_net.Base.{ℕ, List, [], ◌∷◌}

pub data PairingState : Type 0 where
  idle scanning broadcasting responding confirming paired failed : PairingState

abbrev pub pairing_magic : List ℕ
pairing_magic = 0xd1 ∷ 0x5c ∷ 0x0a ∷ 0x11 ∷ []

abbrev pub channel_scan_dwell_ms : ℕ
channel_scan_dwell_ms = 200

abbrev pub max_scan_channels : ℕ
max_scan_channels = 13

abbrev pub beacon_interval_ms : ℕ
beacon_interval_ms = 100

abbrev pub pairing_timeout_ms : ℕ
pairing_timeout_ms = 10000

abbrev pub pref_key_paired_mac : String
pref_key_paired_mac = "pair_mac"

abbrev pub pref_key_paired_channel : String
pref_key_paired_channel = "pair_ch"

abbrev pub pref_key_paired_flag : String
pref_key_paired_flag = "pair_ok"

abbrev pub pairing_role_coordinator : ℕ
pairing_role_coordinator = 1

abbrev pub pairing_role_client : ℕ
pairing_role_client = 2

-- `pairingStateToString`.
pub pairing_state_to_string : PairingState → String
pairing_state_to_string idle = "IDLE"
pairing_state_to_string scanning = "SCANNING"
pairing_state_to_string broadcasting = "BROADCASTING"
pairing_state_to_string responding = "RESPONDING"
pairing_state_to_string confirming = "CONFIRMING"
pairing_state_to_string paired = "PAIRED"
pairing_state_to_string failed = "FAILED"
