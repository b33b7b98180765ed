-- ===== src/Connection/Manager/Invariant.antt =====
-- What holds of a connection manager from `begin` on, under the events that are allowed.
use ungula_lib_net.Base.{ℕ, ◌<◌, ◌≡◌, ◌≢◌, ◌⊎◌, true, List, [], ◌∷◌, arith}
use ungula_lib_net.Connection.Config.{
  static, dynamic, unpaired_discovery, paired_connected, reacquiring_static, reacquiring_dynamic,
  ConnectionConfig,
}
use ungula_lib_net.Connection.Session.{SessionProvider, IsSessionProvider}
use ungula_lib_net.Connection.Manager.{
  ConnectionManager, init, begin, loop, on_heartbeat_received, on_message_received,
  on_reacquisition_success,
}
use ungula_lib_net.Connection.Manager.Events.{
  Event, tick, heartbeat, message, reacquired, session_becomes, step, run, IsAllowed, IsAllowedRun,
}

pub record IsConsistent {S : Type 0} (p : SessionProvider S) (m : ConnectionManager S)
    : Type 0 where
  pub started : m.began ≡ true
  pub connected_state : m.connected ≡ true → m.state ≡ paired_connected
  pub state_connected : m.state ≡ paired_connected → m.connected ≡ true
  pub paired : m.state ≢ unpaired_discovery → p.has_pairing m.session ≡ true
  pub static_stays : m.config.policy ≡ static → m.state ≢ reacquiring_dynamic
  pub probes_below :
      m.state ≡ reacquiring_static
      → m.config.policy ≡ dynamic
      → (m.probe_count ≡ 0) ⊎ (m.probe_count < m.config.static_max_probes)
  pub max_byte : m.config.static_max_probes < 256

module _ {S : Type 0} ⦃p : SessionProvider S⦄ (laws : IsSessionProvider p) where
  pub begin-IsConsistent :
      (session : S) (c : ConnectionConfig) (now : ℕ)
      → c.static_max_probes < 256
      → IsConsistent p (begin now (init session c))
  unfolding begin init
  begin-IsConsistent session c now h = ground arith

  loop-IsConsistent :
      (m : ConnectionManager S) (now : ℕ) → IsConsistent p m → IsConsistent p (loop now m)
  unfolding loop
  loop-IsConsistent m now v = ground (
    arith,
    laws.discovered (p.loop_discovery now m.session),
    laws.has_pairing-send_probe m.session,
    laws.has_pairing-start_reacquisition (p.send_probe m.session),
    laws.has_pairing-loop_reacquisition now m.session,
    laws.has_pairing-reset_reacquisition (p.loop_reacquisition now m.session).0,
  )

  pub step-IsConsistent :
      (m : ConnectionManager S) (e : Event S)
      → IsConsistent p m
      → IsAllowed m e
      → IsConsistent p (step m e)
  unfolding step on_heartbeat_received on_message_received on_reacquisition_success
  step-IsConsistent m (tick now) v a = loop-IsConsistent m now v
  step-IsConsistent m (heartbeat now) v a =
      ground (arith, laws.has_pairing-reset_reacquisition m.session)
  step-IsConsistent m (message now) v a =
      ground (arith, laws.has_pairing-reset_reacquisition m.session)
  step-IsConsistent m (reacquired now) v a =
      ground (arith, laws.has_pairing-reset_reacquisition m.session)
  step-IsConsistent m (session_becomes s) v a = ground arith

  -- Whatever allowed events follow a consistent state, the manager is consistent: it has begun, is
  -- connected exactly in the connected state, has a pairing in every state but discovery, is in broad
  -- reacquisition only under the dynamic policy, and under that policy has its probe counter at 0 or
  -- below its maximum during the static search. Allowed events do not drop the pairing, and an answer
  -- comes only to a paired node.
  pub run-IsConsistent :
      (m : ConnectionManager S) (es : List (Event S))
      → IsConsistent p m
      → IsAllowedRun m es
      → IsConsistent p (run m es)
  unfolding run
  run-IsConsistent m [] v a = v
  run-IsConsistent m (e ∷ es) v a = run-IsConsistent (step m e) es (step-IsConsistent m e v a.0) a.1
