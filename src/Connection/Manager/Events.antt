-- ===== src/Connection/Manager/Events.antt =====
-- What happens to a connection manager between two calls of `begin`: calls of `loop`, of the three
-- notifications, and changes of the session provider that come from the radio or the application.
use ungula_lib_net.Base.{ℕ, ◌≡◌, true, List, [], ◌∷◌}
use ungula_lib_net.Connection.Session.{SessionProvider}
use ungula_lib_net.Connection.Manager.{
  ConnectionManager, loop, on_heartbeat_received, on_message_received, on_reacquisition_success,
}

pub data Event (S : Type 0) : Type 0 where
  tick heartbeat message reacquired : ℕ → Event S
  session_becomes : S → Event S

module _ {S : Type 0} ⦃p : SessionProvider S⦄ where
  unfoldable pub step : ConnectionManager S → Event S → ConnectionManager S
  step m (tick now) = loop now m
  step m (heartbeat now) = on_heartbeat_received now m
  step m (message now) = on_message_received now m
  step m (reacquired now) = on_reacquisition_success now m
  step m (session_becomes s) = record m { session = s }

  unfoldable pub run : ConnectionManager S → List (Event S) → ConnectionManager S
  run m [] = m
  run m (e ∷ es) = run (step m e) es

  -- A coordinator answers only a paired node, and nothing outside the manager drops the pairing.
  abbrev pub IsAllowed : ConnectionManager S → Event S → Type 0
  IsAllowed m (reacquired now) = p.has_pairing m.session ≡ true
  IsAllowed m (session_becomes s) = p.has_pairing m.session ≡ true → p.has_pairing s ≡ true
  IsAllowed m _ = Unit {0}

  abbrev pub IsAllowedRun : ConnectionManager S → List (Event S) → Type 0
  IsAllowedRun m [] = Unit {0}
  IsAllowedRun m (e ∷ es) = IsAllowed m e × IsAllowedRun (step m e) es
