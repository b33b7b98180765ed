-- ===== src/Connection/EspNow/Outage.antt =====
-- A whole outage of the coordinator over ESP-NOW, from the last message heard to the connected state.
use ungula_lib_net.Base.{
  ℕ, zero, suc, ◌+◌, ◌*◌, ◌≤◌, ◌<◌, ◌≡◌, refl, true, ◌∙◌, ◌∷◌, arith, u8, u32_mod,
}
use ungula_lib_net.Comm.Types.{MacAddress}
use ungula_lib_net.Comm.Transport.{Transport, IsTransport}
use ungula_lib_net.Preferences.{Preferences}
use ungula_lib_net.Preferences.Laws.{IsPreferences}
use ungula_lib_net.Pairing.Types.{paired}
use ungula_lib_net.Pairing.Client.Store.Laws.{Holds}
use ungula_lib_net.Pairing.Client.Scan.Laws.{scheduled, InBand, InBand-transfer}
use ungula_lib_net.Pairing.Coordinator.{PairingCoordinator, is_paired}
use ungula_lib_net.Connection.Config.{ConnectionConfig, dynamic, paired_connected}
use ungula_lib_net.Connection.EspNow.{EspNowSessionProvider, espnow_provider, send_probe}
use ungula_lib_net.Connection.EspNow.Search.{Found, coordinator-Found}
use ungula_lib_net.Connection.Manager.{ConnectionManager}
use ungula_lib_net.Connection.Manager.Events.{tick, run}
use ungula_lib_net.Connection.Manager.Invariant.{IsConsistent}
use ungula_lib_net.Connection.Manager.Recovery.{iterate, ticks_every, IsSweeping, silence_escalates}

IsSweeping-later :
    {S : Type 0} (config : ConnectionConfig) (m : ConnectionManager S) (a b : ℕ)
    → IsSweeping config a m
    → a ≤ b
    → IsSweeping config b m
IsSweeping-later config m a b v l = ground arith

module _ {T P : Type 0} ⦃tr : Transport T⦄ where
  -- Probes of the application leave alone what the client knows.
  abbrev Kept : EspNowSessionProvider T P → EspNowSessionProvider T P → Type 0
  Kept s s' =
      (s'.pairing.state ≡ s.pairing.state)
      × (s'.pairing.scan_channels ≡ s.pairing.scan_channels)
      × (s'.pairing.scan_channel_count ≡ s.pairing.scan_channel_count)
      × (s'.pairing.prefs ≡ s.pairing.prefs)
      × (s'.pairing.prefs_ns ≡ s.pairing.prefs_ns)
      × (s'.pairing.coordinator_mac ≡ s.pairing.coordinator_mac)

  send_probe-Kept : (s : EspNowSessionProvider T P) → Kept s (send_probe s)
  unfolding send_probe
  send_probe-Kept s = ground arith

  probes-Kept :
      (n : ℕ) (s : EspNowSessionProvider T P) → Kept s (iterate n (espnow_provider.send_probe) s)
  unfolding espnow_provider
  probes-Kept zero s = (refl, refl, refl, refl, refl, refl)
  probes-Kept (suc n) s = ground (arith, send_probe-Kept s, probes-Kept n (send_probe s))

  connected_is_paired :
      (m : ConnectionManager (EspNowSessionProvider T P))
      → IsConsistent espnow_provider m
      → m.state ≡ paired_connected
      → m.session.pairing.state ≡ paired
  unfolding espnow_provider
  connected_is_paired m v online = ground (arith, v.paired)

module _ {T P : Type 0} ⦃tr : Transport T⦄ ⦃pf : Preferences P⦄ (air : IsTransport tr)
    (l : IsPreferences pf) where
  -- An outage of the coordinator ends. A connected node whose coordinator falls silent ticks once past
  -- the heartbeat timeout, once past the grace period, `static_max_probes` times a probe interval
  -- apart on the known channel, and then sweeps the channels. If the coordinator, with the client
  -- still in its table, is by then on a channel of the client's schedule, the sweep finds it: the
  -- round whose turn that channel is sends the probe there, the answer is sent, and the client that
  -- takes it and notifies the manager is connected, with the new channel in memory, in its
  -- preferences and on its radio. This is for the dynamic policy, a positive number of probes below
  -- 256, a scan list of channels of the band and a clock that does not wrap.
  pub outage_ends :
      (config : ConnectionConfig) (m : ConnectionManager (EspNowSessionProvider T P))
      (k : PairingCoordinator T P) (client : MacAddress) (n t t' t2 now old : ℕ)
      → config.policy ≡ dynamic
      → config.static_max_probes < 256
      → 0 < config.static_max_probes
      → IsConsistent espnow_provider m
      → m.config ≡ config
      → m.state ≡ paired_connected
      → 0 < m.last_heard_ms
      → m.last_heard_ms + config.heartbeat_timeout_ms < t
      → t + config.degraded_grace_period_ms ≤ t'
      → t' + config.static_max_probes * config.static_probe_interval_ms ≤ t2
      → t2 + suc n * config.dynamic_probe_interval_ms < u32_mod
      → InBand m.session.pairing.scan_channels m.session.pairing.scan_channel_count
      → Holds l m.session.pairing.prefs_ns m.session.pairing.coordinator_mac old
          m.session.pairing.prefs
      → is_paired client k ≡ true
      → tr.get_channel k.transport
        ≡ scheduled m.session.pairing.scan_channels m.session.pairing.scan_channel_count (u8 n)
      → let search =
          tick t
          ∷ tick t'
          ∷ ticks_every config.static_max_probes t' config.static_probe_interval_ms in
        let s = iterate config.static_max_probes (espnow_provider.send_probe) m.session in
        Found air l config s k client n t2 now (run m search)
  unfolding espnow_provider
  outage_ends config m k client n t t' t2 now old dyn byte some_probes v e online heard late grace
        later w band held table turn =
      let s = iterate config.static_max_probes (espnow_provider.send_probe) m.session in
      let (state, channels, count, prefs, ns, mac) =
        probes-Kept config.static_max_probes m.session in
      let (sweep, begun) =
        silence_escalates config dyn byte m t t' v e online heard late grace some_probes
          (omega arith) in
      let probed : Holds l s.pairing.prefs_ns s.pairing.coordinator_mac old s.pairing.prefs =
        rw (prefs, ns, mac) held in
      coordinator-Found air l config
        (run m (
          tick t
          ∷ tick t'
          ∷ ticks_every config.static_max_probes t' config.static_probe_interval_ms))
        s k client n t2 now old (IsSweeping-later config _ _ t2 sweep later) begun
        (state ∙ connected_is_paired m v online) (InBand-transfer _ _ _ _ channels count band)
        probed table (rw (channels, count) turn) w
