-- ===== src/Connection/Manager/Hearing.antt =====
-- What messages from the coordinator do: they keep a connection, restore a lost one, and are not
-- believed during broad reacquisition.
use ungula_lib_net.Base.{
  ℕ, ◌≤◌, ◌≡◌, refl, true, not, ◌||◌, List, [], ◌∷◌, arith, if◌then◌else◌, sub32, All,
}
use ungula_lib_net.Connection.Config.{paired_connected, reacquiring_dynamic}
use ungula_lib_net.Connection.Session.{SessionProvider}
use ungula_lib_net.Connection.Manager.{
  ConnectionManager, is_reacquiring_dynamic, loop, on_heartbeat_received, on_message_received,
}
use ungula_lib_net.Connection.Manager.Events.{
  Event, tick, heartbeat, message, reacquired, session_becomes, step, run,
}
use ungula_lib_net.Connection.Manager.Invariant.{IsConsistent}

module _ {S : Type 0} ⦃p : SessionProvider S⦄ where
  -- A message is ignored by an unpaired node and during broad reacquisition. In every other state
  -- it leaves the node connected and heard now, and resets a reacquisition only if the node was
  -- not connected before. A heartbeat does the same.
  pub message_effect :
      (m : ConnectionManager S) (now : ℕ)
      → IsConsistent p m
      → let m' = on_message_received now m in
        let ignored = not (p.has_pairing m.session) || is_reacquiring_dynamic m.state in
        (on_heartbeat_received now m ≡ m')
        × (m'.state ≡ (if ignored then m.state else paired_connected))
        × (m'.connected ≡ (if ignored then m.connected else true))
        × (m'.last_heard_ms ≡ (if ignored then m.last_heard_ms else now))
        × (m'.session
            ≡ (if ignored || m.connected then m.session else p.reset_reacquisition m.session))
  unfolding on_message_received on_heartbeat_received
  message_effect m now v = ground arith

  abbrev pub IsChatter : Event S → Type 0
  IsChatter (heartbeat now) = Unit {0}
  IsChatter (message now) = Unit {0}
  IsChatter _ = ⊥

  chatter_step :
      (m : ConnectionManager S) (e : Event S)
      → m.state ≡ reacquiring_dynamic
      → IsChatter e
      → step m e ≡ m
  unfolding step on_message_received on_heartbeat_received
  chatter_step m (heartbeat now) s c = ground arith
  chatter_step m (message now) s c = ground arith
  chatter_step m (tick now) s c = absurd c
  chatter_step m (reacquired now) s c = absurd c
  chatter_step m (session_becomes t) s c = absurd c

  -- In broad reacquisition no sequence of heartbeats and messages changes anything.
  pub chatter_ignored :
      (m : ConnectionManager S) (es : List (Event S))
      → m.state ≡ reacquiring_dynamic
      → All IsChatter es
      → run m es ≡ m
  unfolding run
  chatter_ignored m [] s c = refl
  chatter_ignored m (e ∷ es) s c = rw (chatter_step m e s c.0) (chatter_ignored m es s c.1)

  -- `es` are calls of `loop` and messages such that each `loop` comes at most `timeout`
  -- milliseconds, on the wrapping clock, after the last message, which came at `h`.
  abbrev pub IsSteady : ℕ → ℕ → List (Event S) → Type 0
  IsSteady timeout h [] = Unit {0}
  IsSteady timeout h (tick t ∷ es) = (sub32 t h ≤ timeout) × IsSteady timeout h es
  IsSteady timeout h (heartbeat t ∷ es) = IsSteady timeout t es
  IsSteady timeout h (message t ∷ es) = IsSteady timeout t es
  IsSteady timeout h (reacquired t ∷ es) = ⊥
  IsSteady timeout h (session_becomes s ∷ es) = ⊥

  record IsHolding (timeout h : ℕ) (s : S) (m : ConnectionManager S) : Type 0 where
    session : m.session ≡ s
    state : m.state ≡ paired_connected
    connected : m.connected ≡ true
    timeout_config : m.config.heartbeat_timeout_ms ≡ timeout
    heard : m.last_heard_ms ≡ h

  module _ (timeout : ℕ) (s : S) (paired : p.has_pairing s ≡ true) where
    tick_holds :
        (h t : ℕ) (m : ConnectionManager S)
        → IsHolding timeout h s m
        → sub32 t h ≤ timeout
        → IsHolding timeout h s (loop t m)
    unfolding loop
    tick_holds h t m v l = ground arith

    message_holds :
        (h t : ℕ) (m : ConnectionManager S)
        → IsHolding timeout h s m
        → IsHolding timeout t s (on_message_received t m)
          × IsHolding timeout t s (on_heartbeat_received t m)
    unfolding on_message_received on_heartbeat_received
    message_holds h t m v = ground arith

    steady_holds :
        (h : ℕ) (m : ConnectionManager S) (es : List (Event S))
        → IsHolding timeout h s m
        → IsSteady timeout h es
        → ((run m es).state ≡ paired_connected)
          × ((run m es).connected ≡ true)
          × ((run m es).session ≡ s)
    unfolding run step
    steady_holds h m [] v g = (v.state, v.connected, v.session)
    steady_holds h m (tick t ∷ es) v g = steady_holds h (loop t m) es (tick_holds h t m v g.0) g.1
    steady_holds h m (heartbeat t ∷ es) v g =
        steady_holds t (on_heartbeat_received t m) es (message_holds h t m v).1 g
    steady_holds h m (message t ∷ es) v g =
        steady_holds t (on_message_received t m) es (message_holds h t m v).0 g
    steady_holds h m (reacquired t ∷ es) v g = absurd g
    steady_holds h m (session_becomes t ∷ es) v g = absurd g

  -- A connected node that hears its coordinator often enough never reports a loss, sends no probe
  -- and starts no search, across a wrap of the clock as well.
  pub steady_stays_connected :
      (m : ConnectionManager S) (es : List (Event S))
      → IsConsistent p m
      → m.state ≡ paired_connected
      → IsSteady m.config.heartbeat_timeout_ms m.last_heard_ms es
      → ((run m es).state ≡ paired_connected)
        × ((run m es).connected ≡ true)
        × ((run m es).session ≡ m.session)
  steady_stays_connected m es v s g =
      steady_holds m.config.heartbeat_timeout_ms m.session (v.paired (λ e. cc)) m.last_heard_ms m es
        (record {
          session = refl;
          state = s;
          connected = v.state_connected s;
          timeout_config = refl;
          heard = refl;
        })
        g
