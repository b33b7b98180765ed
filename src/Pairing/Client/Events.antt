-- ===== src/Pairing/Client/Events.antt =====
-- The calls that a program makes of a pairing client, as events.
use ungula_lib_net.Base.{ℕ, ◌≡◌, Bool, false, List, [], ◌∷◌, Option}
use ungula_lib_net.Comm.Types.{MacAddress, is_zero}
use ungula_lib_net.Comm.Transport.{Transport}
use ungula_lib_net.Preferences.{Preferences}
use ungula_lib_net.Pairing.Client.{PairingClient, set_scan_channels, stop_scanning, on_paired}
use ungula_lib_net.Pairing.Client.Scan.{start_scanning, loop}
use ungula_lib_net.Pairing.Client.Store.{load_stored_pairing, set_paired_channel, clear_pairing}
use ungula_lib_net.Pairing.Client.Receive.{handle_received}

pub data Event : Type 0 where
  looped : ℕ → Event
  received : MacAddress → List ℕ → ℕ → Event
  scan_started scan_stopped pairing_loaded pairing_cleared : Event
  channels_set : Option (List ℕ) → ℕ → Event
  channel_set : ℕ → Event
  callback_set : Bool → Event

module _ {T P : Type 0} ⦃tr : Transport T⦄ ⦃pf : Preferences P⦄ where
  unfoldable pub step : PairingClient T P → Event → PairingClient T P
  step c (looped now) = loop now c
  step c (received src bytes now) = (handle_received src bytes now c).0
  step c scan_started = start_scanning c
  step c scan_stopped = stop_scanning c
  step c pairing_loaded = (load_stored_pairing c).0
  step c pairing_cleared = clear_pairing c
  step c (channels_set channels count) = set_scan_channels channels count c
  step c (channel_set channel) = set_paired_channel channel c
  step c (callback_set cb) = on_paired cb c

  unfoldable pub run : PairingClient T P → List Event → PairingClient T P
  unfolding step
  run c [] = c
  run c (e ∷ es) = run (step c e) es

-- No message comes from the address of zeros.
abbrev pub IsAllowed : Event → Type 0
IsAllowed (received src bytes now) = is_zero src ≡ false
IsAllowed _ = Unit {0}

abbrev pub IsAllowedAll : List Event → Type 0
IsAllowedAll [] = Unit {0}
IsAllowedAll (e ∷ es) = IsAllowed e × IsAllowedAll es
