-- ===== src/Connection/EspNow/Tests.antt =====
-- The theorems about the ESP-NOW provider at concrete inputs, over the radio and the store of
-- Fixtures.
use ungula_lib_net.Base.{zero, suc, ◌≡◌, refl, true, false, [], ◌∷◌, none, some, arith}
use ungula_lib_net.Comm.Types.{addr, ◌==mac◌}
use ungula_lib_net.Fixtures.{
  Radio, radio, radio-IsTransport, Flash, flash, flash-IsPreferences, mac, quiet,
}
use ungula_lib_net.Preferences.Laws.{byte, blob}
use ungula_lib_net.Pairing.Types.{paired}
use ungula_lib_net.Pairing.Messages.Ack.{ReconnectAck}
use ungula_lib_net.Pairing.Messages.Ack
use ungula_lib_net.Pairing.Client.{PairingClient}
use ungula_lib_net.Pairing.Client.Scan.Laws.{InBand}
use ungula_lib_net.Pairing.Client.Store.Laws.{Holds}
use ungula_lib_net.Pairing.Coordinator.{PairingCoordinator, empty_slot, is_paired}
use ungula_lib_net.Connection.Config.{paired_connected, reacquiring_dynamic, default_config}
use ungula_lib_net.Connection.Manager.{ConnectionManager, loop}
use ungula_lib_net.Connection.EspNow.{EspNowSessionProvider, espnow_provider, on_reconnect_ack}
use ungula_lib_net.Connection.Session.{IsSessionProvider}
use ungula_lib_net.Connection.EspNow.Contract.{espnow_provider-IsSessionProvider}
use ungula_lib_net.Connection.Manager.Invariant.{IsConsistent}
use ungula_lib_net.Connection.EspNow.Outage.{outage_ends}
use ungula_lib_net.Connection.Manager.Events.{tick, run, reacquired, session_becomes}
use ungula_lib_net.Connection.Manager.Recovery.{ticks_every}
use ungula_lib_net.Connection.EspNow.Ack.{ack_channel_abandoned, reconnect}

-- A client of the coordinator `mac 9`, last on channel 6, that scans the channels 1, 6 and 11.
abbrev client : PairingClient Radio Flash
client = record {
  transport = quiet;
  prefs = record {
    opened = "pair";
    writes =
        ("pair", "pair_ok", some (byte 1))
        ∷ ("pair", "pair_ch", some (byte 6))
        ∷ ("pair", "pair_mac", some (blob (addr (mac 9))))
        ∷ [];
  };
  prefs_ns = "pair";
  device_id = 7;
  state = paired;
  scan_channels = some (1 ∷ 6 ∷ 11 ∷ []);
  scan_channel_count = 3;
  scan_index = 0;
  current_scan_channel = 1;
  channel_start_ms = 0;
  pairing_start_ms = 0;
  coordinator_mac = mac 9;
  paired_channel = 6;
  on_paired_cb = false;
  paired_calls = [];
}

-- It reacquires, and has probed channel 1.
abbrev session : EspNowSessionProvider Radio Flash
session = record {
  pairing = client;
  probe_cb = none;
  reacquiring = true;
  reacquisition_done = false;
  scan_index = 1;
}

abbrev searching : ConnectionManager (EspNowSessionProvider Radio Flash)
searching = record {
  session = session;
  config = default_config;
  state = reacquiring_dynamic;
  last_heard_ms = 100;
  state_entered_ms = 5000;
  next_probe_ms = 5500;
  probe_count = 0;
  connected = false;
  began = true;
}

abbrev hub : PairingCoordinator Radio Flash
hub = record {
  transport = record { channel = 11; sent = [] };
  prefs = client.prefs;
  prefs_ns = "hub";
  pairing_enabled = false;
  last_beacon_ms = 0;
  clients = record { mac = mac 1; device_id = 7; active = true } ∷ empty_slot ∷ [];
  on_paired_cb = false;
  paired_calls = [];
}

client-InBand : InBand client.scan_channels 3
client-InBand zero h = (omega arith, omega arith)
client-InBand (suc zero) h = (omega arith, omega arith)
client-InBand (suc (suc zero)) h = (omega arith, omega arith)
client-InBand (suc (suc (suc i))) h = absurd (omega arith)

client-Holds : Holds flash-IsPreferences "pair" (mac 9) 6 client.prefs
unfolding flash-IsPreferences
client-Holds = record { mac_held = refl; channel_held = refl; flag_held = refl }

abbrev from_eleven : ReconnectAck
from_eleven = record { magic = []; channel = 11; reserved = [] }

-- The coordinator is on channel 11; the client ends up connected, with its radio on channel 6.
ack_channel_abandoned_example :
    (loop 5500 (record searching {
      session = (on_reconnect_ack from_eleven session).0;
    })).session.pairing.transport.channel
    ≡ 6
ack_channel_abandoned_example =
    (ack_channel_abandoned radio-IsTransport searching from_eleven 5500 refl refl refl (omega arith)
      refl refl client-InBand (omega arith) (omega arith)).4

reconnect_example :
    (on_reconnect_ack (Ack.parse (Ack.encode (Ack.init 11))) session).0.pairing.paired_channel ≡ 11
unfolding is_paired ◌==mac◌
reconnect_example =
    ((reconnect radio-IsTransport flash-IsPreferences session hub (mac 1) 6 refl client-Holds
        (omega arith) (omega arith)).3
      refl).3

espnow_provider-IsSessionProvider_example :
    IsSessionProvider (espnow_provider {T = Radio} {P = Flash} ⦃tr = radio⦄)
espnow_provider-IsSessionProvider_example =
    espnow_provider-IsSessionProvider {T = Radio} {P = Flash} ⦃tr = radio⦄

-- The client is connected on channel 6, and the coordinator moves to channel 11.
abbrev online : ConnectionManager (EspNowSessionProvider Radio Flash)
online = record searching {
  state = paired_connected;
  connected = true;
  session = record session { reacquiring = false; scan_index = 0 };
}

online-IsConsistent : IsConsistent espnow_provider online
unfolding espnow_provider
online-IsConsistent = record {
  started = refl;
  connected_state = λ h. refl;
  state_connected = λ h. refl;
  paired = λ h. refl;
  static_stays = λ h. absurd cc;
  probes_below = λ h. absurd cc;
  max_byte = omega arith;
}

abbrev outage : ConnectionManager (EspNowSessionProvider Radio Flash)
outage = run (run online (tick 2101 ∷ tick 2601 ∷ ticks_every 5 2601 1000)) (ticks_every 3 7601 500)

outage_ends_example :
    (run outage (
      session_becomes (on_reconnect_ack (Ack.parse (Ack.encode (Ack.init 11))) outage.session).0
      ∷ reacquired 9300
      ∷ [])).state
    ≡ paired_connected
unfolding is_paired ◌==mac◌
outage_ends_example =
    (outage_ends radio-IsTransport flash-IsPreferences default_config online hub (mac 1) 2 2101 2601
      7601 9300 6 refl (omega arith) (omega arith) online-IsConsistent refl refl (omega arith)
      (omega arith) (omega arith) (omega arith) (omega arith) client-InBand client-Holds refl
      refl).3
