-- ===== src/Connection/EspNow/Search.antt =====
-- A whole reacquisition over ESP-NOW: the manager's ticks, the coordinator's answer, and the return
-- to the connected state.
use ungula_lib_net.Base.{
  ℕ, zero, suc, ◌+◌, ◌*◌, ◌≤◌, ◌<◌, ◌≡◌, refl, ◌∙◌, ap, sym, subst, true, false, [], ◌∷◌, ◌++◌,
  arith, u8, u32_mod,
}
use ungula_lib_net.Comm.Types.{MacAddress}
use ungula_lib_net.Comm.Transport.{Transport, IsTransport}
use ungula_lib_net.Preferences.{Preferences}
use ungula_lib_net.Preferences.Laws.{IsPreferences}
use ungula_lib_net.Pairing.Types.{paired}
use ungula_lib_net.Pairing.Messages.Ack
use ungula_lib_net.Pairing.Messages.Probe
use ungula_lib_net.Pairing.Client.Store.Laws.{Holds}
use ungula_lib_net.Pairing.Client.Scan.Laws.{scheduled, InBand, scheduled-InBand}
use ungula_lib_net.Pairing.Coordinator.{PairingCoordinator, is_paired}
use ungula_lib_net.Pairing.Coordinator.Receive.{handle_received}
use ungula_lib_net.Connection.Config.{ConnectionConfig, paired_connected}
use ungula_lib_net.Connection.EspNow.{
  EspNowSessionProvider, espnow_provider, start_reacquisition, loop_reacquisition, on_reconnect_ack,
}
use ungula_lib_net.Connection.EspNow.Ack.{reconnect}
use ungula_lib_net.Connection.EspNow.Rounds.{probes, rounds, rounds-Rounds, reacquisition_schedule}
use ungula_lib_net.Connection.Manager.{ConnectionManager, loop, on_reacquisition_success}
use ungula_lib_net.Connection.Manager.Events.{reacquired, session_becomes, step, run}
use ungula_lib_net.Connection.Manager.Recovery.{ticks_every, IsSweeping}

module _ {T P : Type 0} ⦃tr : Transport T⦄ where
  -- Rounds leave alone what the client has stored.
  rounds-stored :
      (n : ℕ) (s : EspNowSessionProvider T P)
      → let s' = rounds n s in
        (s'.pairing.prefs ≡ s.pairing.prefs)
        × (s'.pairing.prefs_ns ≡ s.pairing.prefs_ns)
        × (s'.pairing.coordinator_mac ≡ s.pairing.coordinator_mac)
        × (s'.pairing.device_id ≡ s.pairing.device_id)
  unfolding rounds loop_reacquisition
  rounds-stored zero s = (refl, refl, refl, refl)
  rounds-stored (suc n) s =
      let rest = rounds-stored n (loop_reacquisition 0 s).0 in ground (arith, rest)

  -- The answer that reaches the client while it sweeps, and the notification after it.
  answered :
      (m : ConnectionManager (EspNowSessionProvider T P)) (s : EspNowSessionProvider T P) (now : ℕ)
      → let m' = run m (session_becomes s ∷ reacquired now ∷ []) in
        (m'.state ≡ paired_connected)
        × (m'.connected ≡ true)
        × (m'.last_heard_ms ≡ now)
        × (m'.session.reacquiring ≡ false)
        × (m'.session.pairing ≡ s.pairing)
  unfolding run step espnow_provider on_reacquisition_success
  answered m s now = (refl, refl, refl, refl, refl)

module _ {T P : Type 0} ⦃tr : Transport T⦄ (config : ConnectionConfig) where
  sweep_step :
      (m : ConnectionManager (EspNowSessionProvider T P)) (t : ℕ)
      → IsSweeping config t m
      → m.session.reacquisition_done ≡ false
      → t + config.dynamic_probe_interval_ms < u32_mod
      → let m' = loop t m in
        IsSweeping config (t + config.dynamic_probe_interval_ms) m'
        × (m'.session ≡ (loop_reacquisition 0 m.session).0)
        × (m'.session.reacquisition_done ≡ false)
  unfolding loop espnow_provider loop_reacquisition
  sweep_step m t v unanswered w = ground arith

  -- As long as no answer is taken, the manager's ticks are rounds of the provider.
  ticks_are_rounds :
      (n : ℕ) (m : ConnectionManager (EspNowSessionProvider T P)) (t : ℕ)
      → IsSweeping config t m
      → m.session.reacquisition_done ≡ false
      → t + n * config.dynamic_probe_interval_ms < u32_mod
      → (run m (ticks_every n t config.dynamic_probe_interval_ms)).session ≡ rounds n m.session
  unfolding run step rounds
  ticks_are_rounds zero m t v unanswered w = refl
  ticks_are_rounds (suc n) m t v unanswered w =
      let (v', went, unanswered') = sweep_step m t v unanswered (grind arith) in
      ticks_are_rounds n (loop t m) (t + config.dynamic_probe_interval_ms) v' unanswered'
        (grind arith)
      ∙ ap (rounds n) went

  -- What a session under the sweep still is after `n` ticks.
  swept :
      (n : ℕ) (m : ConnectionManager (EspNowSessionProvider T P)) (s : EspNowSessionProvider T P)
      (t : ℕ)
      → IsSweeping config t m
      → m.session ≡ start_reacquisition s
      → s.pairing.state ≡ paired
      → InBand s.pairing.scan_channels s.pairing.scan_channel_count
      → t + suc n * config.dynamic_probe_interval_ms < u32_mod
      → (run m (ticks_every (suc n) t config.dynamic_probe_interval_ms)).session
        ≡ rounds (suc n) (start_reacquisition s)
  unfolding start_reacquisition
  swept n m s t v begun known band w =
      ticks_are_rounds (suc n) m t v (ap (λ s. s.reacquisition_done) begun) w
      ∙ ap (rounds (suc n)) begun

module _ {T P : Type 0} ⦃tr : Transport T⦄ ⦃pf : Preferences P⦄ (air : IsTransport tr)
    (l : IsPreferences pf) where
  -- What `n + 1` rounds of a reacquisition of `s` leave.
  abbrev Swept : ℕ → ℕ → EspNowSessionProvider T P → EspNowSessionProvider T P → Type 0
  Swept old n s r =
      let c = s.pairing in
      (r.reacquiring ≡ true)
      × (air.sent r.pairing.transport
          ≡ air.sent c.transport ++ probes (suc n) c.coordinator_mac c.device_id)
      × (tr.get_channel r.pairing.transport ≡ scheduled c.scan_channels c.scan_channel_count (u8 n))
      × (r.pairing.device_id ≡ c.device_id)
      × (r.pairing.prefs_ns ≡ c.prefs_ns)
      × (r.pairing.coordinator_mac ≡ c.coordinator_mac)
      × Holds l r.pairing.prefs_ns r.pairing.coordinator_mac old r.pairing.prefs

  rounds-Swept :
      (s : EspNowSessionProvider T P) (n old : ℕ)
      → s.pairing.state ≡ paired
      → InBand s.pairing.scan_channels s.pairing.scan_channel_count
      → Holds l s.pairing.prefs_ns s.pairing.coordinator_mac old s.pairing.prefs
      → Swept old n s (rounds (suc n) (start_reacquisition s))
  unfolding start_reacquisition
  rounds-Swept s n old known band held =
      let started = start_reacquisition s in
      let (aired, tuned) = reacquisition_schedule air s n known band in
      let (kept, space, peer, id) = rounds-stored (suc n) started in
      (
        (rounds-Rounds air (suc n) started refl known (omega arith) band).0,
        aired,
        tuned,
        id,
        space,
        peer,
        rw (kept, space, peer) held,
      )

  -- A manager that sweeps for `s` with a round due at `t` finds the coordinator `k` in its round `n`
  -- and takes the answer at `now`: what is sent on both sides, and the manager and the session that
  -- come of it.
  abbrev pub Found :
      ConnectionConfig
      → EspNowSessionProvider T P
      → PairingCoordinator T P
      → MacAddress
      → ℕ
      → ℕ
      → ℕ
      → ConnectionManager (EspNowSessionProvider T P)
      → Type 0
  Found config s k client n t now m =
      let c = s.pairing in
      let ch = tr.get_channel k.transport in
      let bytes = Ack.encode (Ack.init ch) in
      let m1 = run m (ticks_every (suc n) t config.dynamic_probe_interval_ms) in
      let k' = (handle_received client (Probe.encode (Probe.init c.device_id)) k).0 in
      let s' = (on_reconnect_ack (Ack.parse bytes) m1.session).0 in
      let m2 = run m1 (session_becomes s' ∷ reacquired now ∷ []) in
      (air.sent m1.session.pairing.transport
        ≡ air.sent c.transport ++ probes (suc n) c.coordinator_mac c.device_id)
      × (tr.get_channel m1.session.pairing.transport ≡ ch)
      × (air.sent k'.transport ≡ air.sent k.transport ++ (client, bytes) ∷ [])
      × (m2.state ≡ paired_connected)
      × (m2.connected ≡ true)
      × (m2.last_heard_ms ≡ now)
      × (m2.session.reacquiring ≡ false)
      × (m2.session.pairing.paired_channel ≡ ch)
      × (tr.get_channel m2.session.pairing.transport ≡ ch)
      × Holds l c.prefs_ns c.coordinator_mac ch m2.session.pairing.prefs

  -- A lost coordinator is found again. A manager that sweeps the channels over ESP-NOW for a paired
  -- client has, after the ticks up to the one whose turn in the client's schedule is the
  -- coordinator's channel, sent one reconnect probe a tick and its radio is on that channel. The
  -- coordinator, which has the client in its table, answers the probe with its channel. When the
  -- client takes the answer and the manager is notified, the manager is connected and no longer
  -- sweeps, and the coordinator's channel is the client's in memory, in its preferences and on its
  -- radio. The entries of the scan list are channels of the band, no answer came before, and the
  -- clock does not wrap.
  pub coordinator-Found :
      (config : ConnectionConfig) (m : ConnectionManager (EspNowSessionProvider T P))
      (s : EspNowSessionProvider T P) (k : PairingCoordinator T P) (client : MacAddress)
      (n t now old : ℕ)
      → IsSweeping config t m
      → m.session ≡ start_reacquisition s
      → s.pairing.state ≡ paired
      → InBand s.pairing.scan_channels s.pairing.scan_channel_count
      → Holds l s.pairing.prefs_ns s.pairing.coordinator_mac old s.pairing.prefs
      → is_paired client k ≡ true
      → tr.get_channel k.transport
        ≡ scheduled s.pairing.scan_channels s.pairing.scan_channel_count (u8 n)
      → t + suc n * config.dynamic_probe_interval_ms < u32_mod
      → Found config s k client n t now m
  coordinator-Found config m s k client n t now old v begun known band held table turn w =
      let c = s.pairing in
      let ch = tr.get_channel k.transport in
      let r = (run m (ticks_every (suc n) t config.dynamic_probe_interval_ms)).session in
      let (low, high) = scheduled-InBand c.scan_channels c.scan_channel_count (u8 n) band in
      let (on, aired, tuned, id, space, peer, kept) =
        subst (Swept old n s) (sym (swept config n m s t v begun known band w))
          (rounds-Swept s n old known band held) in
      let (_, _, _, answers) =
        reconnect air l r k client old on kept (subst (λ i. 1 ≤ i) (sym turn) low)
          (subst (λ i. i ≤ 13) (sym turn) high) in
      let (sent, _, _, learnt, radio, stored) = answers table in
      let m1 = run m (ticks_every (suc n) t config.dynamic_probe_interval_ms) in
      let s' = (on_reconnect_ack (Ack.parse (Ack.encode (Ack.init ch))) r).0 in
      let (state, connected, heard, swept_out, same) = answered m1 s' now in
      (
        aired,
        tuned ∙ sym turn,
        subst
            (λ i.
              air.sent (handle_received client (Probe.encode (Probe.init i)) k).0.transport
              ≡ air.sent k.transport ++ (client, Ack.encode (Ack.init ch)) ∷ [])
            id sent,
        state,
        connected,
        heard,
        swept_out,
        ap (λ c. c.paired_channel) same ∙ learnt,
        ap (λ c. tr.get_channel c.transport) same ∙ radio,
        rw (same, sym space, sym peer) stored,
      )
