-- ===== src/Pairing/Coordinator.antt =====
-- src/pairing/pairing_coordinator.h and pairing_coordinator.cpp, over any transport and preferences
-- store. A method takes the coordinator and returns the new one; log output is left out.
pub mod Store
pub mod Receive
use Prim.Native.String.{String, ◌++◌ as str_append}
use ungula_lib_net.Base.{
  ℕ, zero, suc, ◌+◌, Bool, true, false, not, ◌&&◌, List, [], ◌∷◌, Option, none, some, ltb, leb,
  ◌==◌, if◌then◌else◌, sub32, length, get_or, set, memcmp_eq, ◌||◌,
}
use ungula_lib_net.Comm.Types.{
  MacAddress, addr_len, addr, cleared, broadcast, ◌==mac◌, is_zero, write_bytes,
}
use ungula_lib_net.Comm.Transport.{Transport}
use ungula_lib_net.Preferences.{Preferences}
use ungula_lib_net.Pairing.Types.{pairing_magic, beacon_interval_ms}
use ungula_lib_net.Pairing.Messages.Beacon
use ungula_lib_net.Pairing.Messages.Request.{PairingRequest}
use ungula_lib_net.Pairing.Messages.Request
use ungula_lib_net.Pairing.Messages.Confirm
use ungula_lib_net.Pairing.Messages.Probe.{reconnect_magic}
use ungula_lib_net.Pairing.Messages.Probe
use ungula_lib_net.Pairing.Messages.Ack

abbrev pub max_paired_clients : ℕ
max_paired_clients = 2

pub record PairedClientInfo : Type 0 where
  pub mac : MacAddress
  pub device_id : ℕ
  pub active : Bool

abbrev pub empty_slot : PairedClientInfo
empty_slot = record { mac = cleared; device_id = 0; active = false }

-- `clients` is the array `clients_`. `on_paired_cb` says whether a callback is registered, and
-- `paired_calls` lists the calls made of it, the last one first.
pub record PairingCoordinator (T P : Type 0) : Type 0 where
  pub transport : T
  pub prefs : P
  pub prefs_ns : String
  pub pairing_enabled : Bool
  pub last_beacon_ms : ℕ
  pub clients : List PairedClientInfo
  pub on_paired_cb : Bool
  pub paired_calls : List (MacAddress × ℕ)

-- The constructor.
unfoldable pub init : {T P : Type 0} → T → P → String → PairingCoordinator T P
init transport prefs prefs_ns = record {
  transport = transport;
  prefs = prefs;
  prefs_ns = prefs_ns;
  pairing_enabled = false;
  last_beacon_ms = 0;
  clients = empty_slot ∷ empty_slot ∷ [];
  on_paired_cb = false;
  paired_calls = [];
}

-- `snprintf` of "%d" at a slot number, which is below `max_paired_clients`.
abbrev pub slot_digit : ℕ → String
slot_digit zero = "0"
slot_digit (suc i) = "1"

-- The keys "pair_mac_%d" and "pair_id_%d".
abbrev pub mac_key : ℕ → String
mac_key i = str_append "pair_mac_" (slot_digit i)

abbrev pub id_key : ℕ → String
id_key i = str_append "pair_id_" (slot_digit i)

-- The searches over the slots, from slot `i` on: by address, for a free slot, by device.
unfoldable pub find_mac : MacAddress → ℕ → List PairedClientInfo → Option ℕ
find_mac mac i [] = none
find_mac mac i (x ∷ xs) = if x.active && x.mac ==mac mac then some i else find_mac mac (suc i) xs

unfoldable pub find_free : ℕ → List PairedClientInfo → Option ℕ
find_free i [] = none
find_free i (x ∷ xs) = if not x.active then some i else find_free (suc i) xs

unfoldable pub find_device : ℕ → ℕ → List PairedClientInfo → Option ℕ
find_device id i [] = none
find_device id i (x ∷ xs) =
    if x.active && x.device_id == id then some i else find_device id (suc i) xs

unfoldable pub is_paired_in : MacAddress → List PairedClientInfo → Bool
is_paired_in mac [] = false
is_paired_in mac (x ∷ xs) = if x.active && x.mac ==mac mac then true else is_paired_in mac xs

unfoldable pub count_active : List PairedClientInfo → ℕ
count_active [] = 0
count_active (x ∷ xs) = if x.active then suc (count_active xs) else count_active xs

-- `clients_[i]`, read where `i` is below the array's size.
abbrev pub slot_at : List PairedClientInfo → ℕ → PairedClientInfo
slot_at xs i = get_or xs i empty_slot

module _ {T P : Type 0} where
  unfoldable pub enable_pairing : PairingCoordinator T P → PairingCoordinator T P
  enable_pairing c = record c { pairing_enabled = true; last_beacon_ms = 0 }

  unfoldable pub disable_pairing : PairingCoordinator T P → PairingCoordinator T P
  disable_pairing c = record c { pairing_enabled = false }

  unfoldable pub on_client_paired : Bool → PairingCoordinator T P → PairingCoordinator T P
  on_client_paired cb c = record c { on_paired_cb = cb }

  unfoldable pub get_paired_client : ℕ → PairingCoordinator T P → Option PairedClientInfo
  get_paired_client i c =
      if leb max_paired_clients i || not (slot_at c.clients i).active
      then none
      else some (slot_at c.clients i)

  unfoldable pub is_paired : MacAddress → PairingCoordinator T P → Bool
  unfolding is_paired_in
  is_paired mac c = is_paired_in mac c.clients

  unfoldable pub paired_client_count : PairingCoordinator T P → ℕ
  unfolding count_active
  paired_client_count c = count_active c.clients
