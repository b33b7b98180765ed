-- ===== src/Connection/Manager.antt =====
-- src/connection/connection_manager.h and connection_manager.cpp, over any session provider.
-- A method takes the manager and returns the new one; `now` is the caller's uint32_t clock.
pub mod Events
pub mod Graph
pub mod Hearing
pub mod Invariant
pub mod Recovery
mod Tests
pub mod Timers
use ungula_lib_net.Base.{
  ℕ, ◌+◌, Bool, true, false, ◌&&◌, List, [], ◌∷◌, ltb, leb, if◌then◌else◌, u8, u32, sub32,
}
use ungula_lib_net.Connection.Config.{
  ConnectionPolicy, static, dynamic, ConnMgrState, unpaired_discovery, paired_connected,
  paired_degraded, reacquiring_static, reacquiring_dynamic, ConnectionConfig,
}
use ungula_lib_net.Connection.Session.{SessionProvider}

pub record ConnectionManager (S : Type 0) : Type 0 where
  pub session : S
  pub config : ConnectionConfig
  pub state : ConnMgrState
  pub last_heard_ms : ℕ
  pub state_entered_ms : ℕ
  pub next_probe_ms : ℕ
  pub probe_count : ℕ
  pub connected : Bool
  pub began : Bool

-- The constructor.
pub init : {S : Type 0} → S → ConnectionConfig → ConnectionManager S
init session config = record {
  session = session;
  config = config;
  state = unpaired_discovery;
  last_heard_ms = 0;
  state_entered_ms = 0;
  next_probe_ms = 0;
  probe_count = 0;
  connected = false;
  began = false;
}

abbrev pub is_dynamic_policy : ConnectionPolicy → Bool
is_dynamic_policy dynamic = true
is_dynamic_policy static = false

abbrev pub is_reacquiring_dynamic : ConnMgrState → Bool
is_reacquiring_dynamic reacquiring_dynamic = true
is_reacquiring_dynamic _ = false

module _ {S : Type 0} where
  transition_to : ConnMgrState → ℕ → ConnectionManager S → ConnectionManager S
  transition_to new_state now m = record m {
    state = new_state;
    state_entered_ms = now;
    probe_count = 0;
  }

module _ {S : Type 0} ⦃p : SessionProvider S⦄ where
  pub begin : ℕ → ConnectionManager S → ConnectionManager S
  unfolding transition_to
  begin now m =
      let m' = record m { began = true } in
      if p.has_pairing m.session
      then record (transition_to paired_degraded now m') {
        next_probe_ms = u32 (now + m.config.boot_grace_period_ms);
      }
      else record (transition_to unpaired_discovery now m') {
        session = p.start_discovery m.session;
      }

  handle_message_from_coordinator : ℕ → ConnectionManager S → ConnectionManager S
  unfolding transition_to
  handle_message_from_coordinator now m =
      let m' = record m { last_heard_ms = now } in
      if m.connected
      then m'
      else transition_to paired_connected now
          (record m' { connected = true; session = p.reset_reacquisition m.session })

  pub on_heartbeat_received : ℕ → ConnectionManager S → ConnectionManager S
  unfolding handle_message_from_coordinator
  on_heartbeat_received now m =
      if p.has_pairing m.session
      then if is_reacquiring_dynamic m.state then m else handle_message_from_coordinator now m
      else m

  pub on_message_received : ℕ → ConnectionManager S → ConnectionManager S
  unfolding handle_message_from_coordinator
  on_message_received now m =
      if p.has_pairing m.session
      then if is_reacquiring_dynamic m.state then m else handle_message_from_coordinator now m
      else m

  unfoldable pub on_reacquisition_success : ℕ → ConnectionManager S → ConnectionManager S
  unfolding transition_to
  on_reacquisition_success now m = transition_to paired_connected now (record m {
    last_heard_ms = now;
    connected = true;
    session = p.reset_reacquisition m.session;
  })

  handle_unpaired_discovery : ℕ → ConnectionManager S → ConnectionManager S
  unfolding transition_to
  handle_unpaired_discovery now m =
      let m' = record m { session = p.loop_discovery now m.session } in
      if p.is_discovery_complete m'.session
      then transition_to paired_connected now (record m' { connected = true; last_heard_ms = now })
      else m'

  handle_paired_connected : ℕ → ConnectionManager S → ConnectionManager S
  unfolding transition_to
  handle_paired_connected now m =
      if ltb 0 m.last_heard_ms && ltb m.config.heartbeat_timeout_ms (sub32 now m.last_heard_ms)
      then transition_to paired_degraded now (record m { connected = false })
      else m

  handle_paired_degraded : ℕ → ConnectionManager S → ConnectionManager S
  unfolding transition_to
  handle_paired_degraded now m =
      if m.connected
      then transition_to paired_connected now m
      else if ltb (sub32 now m.state_entered_ms) m.config.degraded_grace_period_ms
      then m
      else record (transition_to reacquiring_static now m) { next_probe_ms = now }

  -- `probeCount_++` wraps at 256.
  handle_reacquiring_static : ℕ → ConnectionManager S → ConnectionManager S
  unfolding transition_to
  handle_reacquiring_static now m =
      if m.connected
      then transition_to paired_connected now m
      else if ltb now m.next_probe_ms
      then m
      else (let m' = record m {
        session = p.send_probe m.session;
        probe_count = u8 (m.probe_count + 1);
        next_probe_ms = u32 (now + m.config.static_probe_interval_ms);
      } in
          if is_dynamic_policy m.config.policy && leb m.config.static_max_probes m'.probe_count
          then record (transition_to reacquiring_dynamic now m') {
            session = p.start_reacquisition m'.session;
            next_probe_ms = now;
          }
          else m')

  handle_reacquiring_dynamic : ℕ → ConnectionManager S → ConnectionManager S
  unfolding transition_to
  handle_reacquiring_dynamic now m =
      if m.connected
      then transition_to paired_connected now m
      else if ltb now m.next_probe_ms
      then m
      else (let m' = record m {
        session = (p.loop_reacquisition now m.session).0;
        next_probe_ms = u32 (now + m.config.dynamic_probe_interval_ms);
      } in
          if p.is_reacquisition_complete m'.session
          then transition_to paired_connected now (record m' {
            connected = true;
            last_heard_ms = now;
            session = p.reset_reacquisition m'.session;
          })
          else m')

  -- The `switch` of `loop`.
  dispatch : ConnMgrState → ℕ → ConnectionManager S → ConnectionManager S
  unfolding handle_unpaired_discovery handle_paired_connected handle_paired_degraded
      handle_reacquiring_static handle_reacquiring_dynamic
  dispatch unpaired_discovery now m = handle_unpaired_discovery now m
  dispatch paired_connected now m = handle_paired_connected now m
  dispatch paired_degraded now m = handle_paired_degraded now m
  dispatch reacquiring_static now m = handle_reacquiring_static now m
  dispatch reacquiring_dynamic now m = handle_reacquiring_dynamic now m

  unfoldable pub loop : ℕ → ConnectionManager S → ConnectionManager S
  unfolding dispatch
  loop now m = if m.began then dispatch m.state now m else m
