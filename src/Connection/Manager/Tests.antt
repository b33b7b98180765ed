-- ===== src/Connection/Manager/Tests.antt =====
-- The theorems about the manager at concrete inputs, over a session provider that counts probes.
use ungula_lib_net.Base.{ℕ, ◌+◌, ◌≡◌, refl, Bool, true, false, List, [], ◌∷◌, arith}
use ungula_lib_net.Connection.Config.{paired_connected, reacquiring_dynamic, default_config}
use ungula_lib_net.Connection.Session.{SessionProvider, IsSessionProvider}
use ungula_lib_net.Connection.Manager.{ConnectionManager, init, begin, loop}
use ungula_lib_net.Connection.Manager.Events.{Event, tick, heartbeat, message, step, run}
use ungula_lib_net.Connection.Manager.Hearing.{steady_stays_connected}
use ungula_lib_net.Connection.Manager.Invariant.{IsConsistent, begin-IsConsistent, run-IsConsistent}
use ungula_lib_net.Connection.Manager.Recovery.{silence_escalates}

record Script : Type 0 where
  paired : Bool
  probes : ℕ
  answered : Bool

instance abbrev script : SessionProvider Script
script = record {
  has_pairing = λ s. s.paired;
  start_discovery = λ s. s;
  loop_discovery = λ now s. record s { paired = true };
  is_discovery_complete = λ s. s.paired;
  send_probe = λ s. record s { probes = s.probes + 1 };
  start_reacquisition = λ s. record s { answered = false };
  loop_reacquisition = λ now s. (record s { answered = true }, true);
  is_reacquisition_complete = λ s. s.answered;
  reset_reacquisition = λ s. record s { answered = false };
}

script-IsSessionProvider : IsSessionProvider script
script-IsSessionProvider = record {
  discovered = λ s h. h;
  has_pairing-send_probe = λ s. refl;
  has_pairing-start_reacquisition = λ s. refl;
  has_pairing-loop_reacquisition = λ now s. refl;
  has_pairing-reset_reacquisition = λ s. refl;
  start_incomplete = λ s. refl;
  reset_incomplete = λ s. refl;
}

abbrev fresh : Script
fresh = record { paired = false; probes = 0; answered = false }

abbrev known : Script
known = record { paired = true; probes = 0; answered = false }

-- Connected by discovery at 100.
abbrev online : ConnectionManager Script
online = record {
  session = known;
  config = default_config;
  state = paired_connected;
  last_heard_ms = 100;
  state_entered_ms = 100;
  next_probe_ms = 0;
  probe_count = 0;
  connected = true;
  began = true;
}

abbrev searching : ConnectionManager Script
searching = record online {
  state = reacquiring_dynamic;
  connected = false;
  next_probe_ms = 4294967000;
}

discovers : run (begin 100 (init fresh default_config)) (tick 100 ∷ []) ≡ online
unfolding run step begin init loop
discovers = refl

online-IsConsistent : IsConsistent script online
online-IsConsistent = ground arith

searching-IsConsistent : IsConsistent script searching
searching-IsConsistent = ground arith

abbrev history : List (Event Script)
history = tick 100 ∷ heartbeat 900 ∷ tick 3000 ∷ tick 3600 ∷ tick 3700 ∷ message 3800 ∷ []

run-IsConsistent_example : IsConsistent script (run (begin 50 (init fresh default_config)) history)
run-IsConsistent_example =
    run-IsConsistent script-IsSessionProvider (begin 50 (init fresh default_config)) history
      (begin-IsConsistent script-IsSessionProvider fresh default_config 50 (omega arith))
      (omega arith)

steady_stays_connected_example :
    (run online (tick 2000 ∷ heartbeat 2050 ∷ tick 4000 ∷ [])).state ≡ paired_connected
steady_stays_connected_example =
    (steady_stays_connected online (tick 2000 ∷ heartbeat 2050 ∷ tick 4000 ∷ []) online-IsConsistent
      refl (omega arith)).0

silence_escalates_example :
    (run online (
      tick 2101 ∷ tick 2601 ∷ tick 2601 ∷ tick 3601 ∷ tick 4601 ∷ tick 5601 ∷ tick 6601 ∷ [])).state
    ≡ reacquiring_dynamic
silence_escalates_example =
    (silence_escalates default_config refl (omega arith) online 2101 2601 online-IsConsistent refl
      refl (omega arith) (omega arith) (omega arith) (omega arith) (omega arith)).0.sweeping
