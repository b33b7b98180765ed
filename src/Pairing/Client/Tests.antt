-- ===== src/Pairing/Client/Tests.antt =====
-- The restart of a pairing client at concrete calls, over the radio and the store of Fixtures.
use ungula_lib_net.Base.{◌≡◌, refl, true, [], ◌∷◌, List, inl}
use ungula_lib_net.Comm.Types.{is_zero}
use ungula_lib_net.Fixtures.{Radio, radio, Flash, flash, flash-IsPreferences, mac, quiet, blank}
use ungula_lib_net.Pairing.Messages.Beacon
use ungula_lib_net.Pairing.Messages.Confirm
use ungula_lib_net.Pairing.Client.{PairingClient, init}
use ungula_lib_net.Pairing.Client.Events.{Event, looped, received, scan_started, channel_set, run}
use ungula_lib_net.Pairing.Client.Store.{load_stored_pairing, set_paired_channel}
use ungula_lib_net.Pairing.Client.Scan.{loop}
use ungula_lib_net.Pairing.Client.Receive.{handle_received}
use ungula_lib_net.Pairing.Client.Durable.Restart.{restart_keeps_pairing}

-- A client scans, hears the beacon of a coordinator on channel 6, is confirmed there, and then moves
-- to channel 11.
abbrev calls : List Event
calls =
    scan_started
    ∷ received (mac 9) (Beacon.encode (Beacon.init 6)) 100
    ∷ received (mac 9) (Confirm.encode (Confirm.init true 6)) 200
    ∷ looped 250
    ∷ channel_set 11
    ∷ []

abbrev used : PairingClient Radio Flash
used = run (init quiet blank "pair" 7) calls

restart_keeps_pairing_example :
    (load_stored_pairing (init quiet used.prefs "pair" 7)).0.coordinator_mac ≡ used.coordinator_mac
unfolding flash-IsPreferences run is_zero set_paired_channel loop handle_received Confirm.encode
    Confirm.init Beacon.encode Beacon.init init
restart_keeps_pairing_example =
    (restart_keeps_pairing flash-IsPreferences quiet quiet blank "pair" 7 calls (inl refl)
      (tt, (refl, (refl, (tt, (tt, tt))))) refl).2
