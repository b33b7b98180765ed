-- ===== src/Pairing/Tests.antt =====
-- The theorems about pairing at concrete inputs, over the radio and the store of Fixtures.
use ungula_lib_net.Base.{
  zero, suc, ◌≡◌, ◌⊎◌, inl, inr, refl, true, false, List, [], ◌∷◌, none, some, arith,
}
use ungula_lib_net.Comm.Types.{is_zero, ◌==mac◌}
use ungula_lib_net.Fixtures.{
  Radio, radio, radio-IsTransport, Flash, flash, flash-IsPreferences, mac, quiet, blank,
}
use ungula_lib_net.Preferences.Laws.{byte, blob}
use ungula_lib_net.Pairing.Types.{idle, scanning, responding}
use ungula_lib_net.Pairing.Messages.Confirm.{PairingConfirm}
use ungula_lib_net.Pairing.Messages.Beacon
use ungula_lib_net.Pairing.Client.{PairingClient}
use ungula_lib_net.Pairing.Client.Scan.Laws.{InBand, dwell_loops}
use ungula_lib_net.Pairing.Client.Scan.{loop, start_scanning}
use ungula_lib_net.Pairing.Client.Store.{load_stored_pairing}
use ungula_lib_net.Pairing.Client.Receive.{handle_confirm, handle_received}
use ungula_lib_net.Pairing.Client.Receive.Laws.{confirm_remembered, beacon_taken_for_confirm}
use ungula_lib_net.Pairing.Coordinator.{
  PairedClientInfo, empty_slot, PairingCoordinator, is_paired_in, paired_client_count,
}
use ungula_lib_net.Pairing.Coordinator
use ungula_lib_net.Pairing.Coordinator.Receive.{
  loop as coordinator_loop, handle_received as coordinator_received,
}
use ungula_lib_net.Pairing.Coordinator.Store.{store_paired_client, load_paired_clients}
use ungula_lib_net.Pairing.Coordinator.Store.Durable.{
  IsDurable, restart_keeps_clients, store_IsDurable,
}
use ungula_lib_net.Pairing.Coordinator.Store.Update.{update_lost}
use ungula_lib_net.Pairing.Coordinator.Receive.Mode.{pairing_mode_ignored}
use ungula_lib_net.Pairing.Coordinator.Store.Table.{IsTable, device_of, store_keeps_others}
use ungula_lib_net.Pairing.Discovery.{IsMet}
use ungula_lib_net.Pairing.Encounter.{ArePaired, scan_pairs}
use ungula_lib_net.Pairing.Handshake.{handshake, request_bytes, confirm_bytes}

abbrev Seeker : Type 0
Seeker = PairingClient Radio Flash

abbrev Host : Type 0
Host = PairingCoordinator Radio Flash

-- A client with device number 7 that scans the channels 1, 6 and 11.
abbrev seeker : Seeker
seeker = record {
  transport = quiet;
  prefs = blank;
  prefs_ns = "pair";
  device_id = 7;
  state = scanning;
  scan_channels = some (1 ∷ 6 ∷ 11 ∷ []);
  scan_channel_count = 3;
  scan_index = 0;
  current_scan_channel = 1;
  channel_start_ms = 0;
  pairing_start_ms = 0;
  coordinator_mac = mac 0;
  paired_channel = 0;
  on_paired_cb = true;
  paired_calls = [];
}

abbrev asker : Seeker
asker = record seeker { state = responding; coordinator_mac = mac 9; paired_channel = 6 }

abbrev host : Host
host = record {
  transport = quiet;
  prefs = blank;
  prefs_ns = "hub";
  pairing_enabled = true;
  last_beacon_ms = 0;
  clients = empty_slot ∷ empty_slot ∷ [];
  on_paired_cb = false;
  paired_calls = [];
}

channels-InBand : InBand seeker.scan_channels 3
channels-InBand zero h = (omega arith, omega arith)
channels-InBand (suc zero) h = (omega arith, omega arith)
channels-InBand (suc (suc zero)) h = (omega arith, omega arith)
channels-InBand (suc (suc (suc i))) h = absurd (omega arith)

-- A coordinator that restarted after it stored one client.
abbrev one_client : Host
one_client = record host {
  clients = record { mac = mac 1; device_id = 7; active = true } ∷ empty_slot ∷ [];
  prefs = record {
    opened = "hub";
    writes =
        ("hub", "pair_id_0", some (byte 7))
        ∷ ("hub", "pair_mac_0", some (blob (2 ∷ 0 ∷ 0 ∷ 0 ∷ 0 ∷ 1 ∷ [])))
        ∷ [];
  };
}

one_client-IsDurable : IsDurable flash-IsPreferences one_client
unfolding flash-IsPreferences is_zero
one_client-IsDurable = record {
  held = (
    record { mac_held = λ _. refl; id_held = λ _. refl; nonzero = λ _. refl; free = λ e. cc },
    record { mac_held = λ e. cc; id_held = λ e. cc; nonzero = λ e. cc; free = λ _. (refl, refl) },
  );
}

restart_keeps_clients_example :
    (load_paired_clients (Coordinator.init quiet one_client.prefs "hub")).clients
    ≡ one_client.clients
restart_keeps_clients_example =
    restart_keeps_clients flash-IsPreferences one_client quiet one_client-IsDurable

-- A full table, the slots of device 7 and of device 8.
abbrev full : List PairedClientInfo
full =
    record { mac = mac 1; device_id = 7; active = true }
    ∷ record { mac = mac 2; device_id = 8; active = true }
    ∷ []

full-IsTable : IsTable full
unfolding ◌==mac◌
full-IsTable a b = refl

empty-IsTable : IsTable host.clients
empty-IsTable a b = cc

store_IsDurable_example : IsDurable flash-IsPreferences (store_paired_client (mac 2) 8 one_client).0
unfolding is_zero is_paired_in
store_IsDurable_example =
    store_IsDurable flash-IsPreferences (mac 2) 8 one_client one_client-IsDurable refl refl

update_lost_example :
    (load_paired_clients
      (Coordinator.init quiet (store_paired_client (mac 1) 9 one_client).0.prefs "hub")).clients
    ≡ one_client.clients
unfolding store_paired_client is_paired_in ◌==mac◌
update_lost_example =
    (update_lost flash-IsPreferences (mac 1) 9 one_client quiet one_client-IsDurable refl).2

-- A request while pairing is disabled.
pairing_mode_ignored_example :
    coordinator_received (mac 1) (request_bytes 7) (record host { pairing_enabled = false }) ≡ (
      record (coordinator_received (mac 1) (request_bytes 7) host).0 { pairing_enabled = false },
      (coordinator_received (mac 1) (request_bytes 7) host).1,
    )
pairing_mode_ignored_example = pairing_mode_ignored false (mac 1) (request_bytes 7) host

store_keeps_others_example :
    (device_of (mac 1) (store_paired_client (mac 3) 7 (record host { clients = full })).0.clients
      ≡ some 7)
    ⊎ ((device_of (mac 1) full ≡ some 7)
        × (device_of
              (mac 1)
              (store_paired_client (mac 3) 7 (record host { clients = full })).0.clients
            ≡ none)
        × (is_paired_in (mac 3) full ≡ false)
        × (paired_client_count (record host { clients = full }) ≡ 2))
unfolding ◌==mac◌
store_keeps_others_example =
    store_keeps_others (mac 3) 7 (record host { clients = full }) full-IsTable (mac 1)
      (ground arith)

handshake_example :
    (coordinator_received (mac 1) (request_bytes 7) host).0.transport.sent
    ≡ (mac 1, confirm_bytes (store_paired_client (mac 1) 7 host).1 6) ∷ []
unfolding radio-IsTransport
handshake_example =
    (handshake radio-IsTransport seeker host (mac 1) (mac 2) 100 200 refl empty-IsTable
      (omega arith) (omega arith)).2

-- The client after its confirmation, and one that starts over the same preferences.
abbrev confirm : PairingConfirm
confirm = record { magic = []; role = 1; accepted = 1; channel = 6; reserved = 0 }

abbrev restarted : Seeker
restarted = record seeker { state = idle; prefs = (handle_confirm (mac 9) confirm asker).prefs }

confirm_remembered_example : (load_stored_pairing restarted).0.paired_channel ≡ 6
unfolding is_zero
confirm_remembered_example =
    (confirm_remembered flash-IsPreferences asker restarted (mac 9) confirm (ground arith) refl refl
        refl).3
      (omega arith, omega arith, (1, omega arith, refl))

beacon_taken_for_confirm_example :
    (handle_received (mac 5) (Beacon.encode (Beacon.init 6)) 300 asker).0.paired_channel ≡ 0
beacon_taken_for_confirm_example =
    (beacon_taken_for_confirm flash-IsPreferences asker (mac 5) 6 300 refl (omega arith)).3

-- The coordinator is on channel 6, the client's second, and its loop runs every 80 ms.
scan_pairs_example :
    (m : IsMet radio-IsTransport
      (dwell_loops 1 1000 (loop 1000 (start_scanning seeker)))
      (record host { last_beacon_ms = 1190 })
      (mac 9)
      (1200 ∷ 1280 ∷ 1360 ∷ []))
    × ArePaired radio-IsTransport true
        (dwell_loops 1 1000 (loop 1000 (start_scanning seeker)))
        (coordinator_loop m.t (record host { last_beacon_ms = 1190 }))
        (mac 1)
        (mac 9)
        m.t
        1400
unfolding paired_client_count
scan_pairs_example =
    scan_pairs radio-IsTransport seeker (record host { last_beacon_ms = 1190 }) (mac 1) (mac 9) 1
      1000 1400 80 (1200 ∷ 1280 ∷ 1360 ∷ []) (omega arith) channels-InBand (omega arith)
      (omega arith) refl refl empty-IsTable (omega arith) (omega arith) (omega arith) (omega arith)
      (inr (inr (inl (omega arith))))
