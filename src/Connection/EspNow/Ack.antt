-- ===== src/Connection/EspNow/Ack.antt =====
-- What becomes of the channel in a reconnect acknowledgement.
use ungula_lib_net.Base.{ℕ, ◌≤◌, ◌≡◌, refl, false, true, arith, [], ◌∷◌, ◌++◌, ◌∙◌, ap}
use ungula_lib_net.Comm.Types.{MacAddress}
use ungula_lib_net.Comm.Transport.{Transport, IsTransport}
use ungula_lib_net.Preferences.{Preferences}
use ungula_lib_net.Preferences.Laws.{IsPreferences}
use ungula_lib_net.Pairing.Types.{paired}
use ungula_lib_net.Pairing.Messages.Ack.{ReconnectAck}
use ungula_lib_net.Pairing.Messages.Ack
use ungula_lib_net.Pairing.Messages.Probe
use ungula_lib_net.Pairing.Client.Store.{set_paired_channel}
use ungula_lib_net.Pairing.Client.Store.Laws.{Holds, set_paired_channel-Holds}
use ungula_lib_net.Pairing.Client.Scan.Laws.{scheduled, InBand, InBand-transfer}
use ungula_lib_net.Pairing.Coordinator.{PairingCoordinator, is_paired}
use ungula_lib_net.Pairing.Coordinator.Receive.{handle_received}
use ungula_lib_net.Connection.Config.{reacquiring_dynamic, paired_connected}
use ungula_lib_net.Connection.EspNow.{
  EspNowSessionProvider, espnow_provider, on_reconnect_ack, loop_reacquisition,
}
use ungula_lib_net.Connection.EspNow.Rounds.{one_round}
use ungula_lib_net.Connection.Manager.{ConnectionManager, loop}

module _ {T P : Type 0} ⦃tr : Transport T⦄ ⦃pf : Preferences P⦄ (air : IsTransport tr) where
  ack_taken :
      (s : EspNowSessionProvider T P) (ack : ReconnectAck)
      → s.reacquiring ≡ true
      → 1 ≤ ack.channel
      → ack.channel ≤ 13
      → let s' = (on_reconnect_ack ack s).0 in
        (s'.reacquisition_done ≡ true)
        × (s'.reacquiring ≡ true)
        × (s'.scan_index ≡ s.scan_index)
        × (s'.pairing.state ≡ s.pairing.state)
        × (s'.pairing.scan_channels ≡ s.pairing.scan_channels)
        × (s'.pairing.scan_channel_count ≡ s.pairing.scan_channel_count)
        × (s'.pairing.paired_channel ≡ ack.channel)
        × (s'.pairing.prefs ≡ (set_paired_channel ack.channel s.pairing).prefs)
        × (tr.get_channel s'.pairing.transport ≡ ack.channel)
        × ((on_reconnect_ack ack s).1 ≡ true)
  unfolding on_reconnect_ack
  ack_taken s ack on low high =
      let t = (tr.set_channel ack.channel s.pairing.transport).0 in
      ground (
        arith,
        air.channel-set_channel ack.channel s.pairing.transport low high,
        air.channel-add_peer s.pairing.coordinator_mac 0 t,
      )

  loop_finishes :
      (m : ConnectionManager (EspNowSessionProvider T P)) (now : ℕ)
      → m.began ≡ true
      → m.state ≡ reacquiring_dynamic
      → m.connected ≡ false
      → m.next_probe_ms ≤ now
      → m.session.reacquisition_done ≡ true
      → let m' = loop now m in
        (m'.state ≡ paired_connected)
        × (m'.connected ≡ true)
        × (m'.session.pairing ≡ (loop_reacquisition now m.session).0.pairing)
  unfolding loop espnow_provider
  loop_finishes m now began searching off due done = ground arith

  -- An acknowledged channel is given up again. A manager that reacquires over ESP-NOW, when the
  -- coordinator's acknowledgement has tuned the radio to the coordinator's channel, probes once more
  -- in its next round, by a probe sent to the coordinator, before it looks at the answer: it then counts as connected, with the
  -- acknowledged channel stored, while the radio is on the next channel of the scan. The round is
  -- due, and the channels are channels of the band.
  pub ack_channel_abandoned :
      (m : ConnectionManager (EspNowSessionProvider T P)) (ack : ReconnectAck) (now : ℕ)
      → m.began ≡ true
      → m.state ≡ reacquiring_dynamic
      → m.connected ≡ false
      → m.next_probe_ms ≤ now
      → m.session.reacquiring ≡ true
      → m.session.pairing.state ≡ paired
      → InBand m.session.pairing.scan_channels m.session.pairing.scan_channel_count
      → 1 ≤ ack.channel
      → ack.channel ≤ 13
      → let answered = (on_reconnect_ack ack m.session).0 in
        let m' = loop now (record m { session = answered }) in
        let c = m.session.pairing in
        (tr.get_channel answered.pairing.transport ≡ ack.channel)
        × (m'.state ≡ paired_connected)
        × (m'.connected ≡ true)
        × (m'.session.pairing.paired_channel ≡ ack.channel)
        × (tr.get_channel m'.session.pairing.transport
            ≡ scheduled c.scan_channels c.scan_channel_count m.session.scan_index)
        × (air.sent m'.session.pairing.transport
            ≡ air.sent answered.pairing.transport
              ++ (
                answered.pairing.coordinator_mac,
                Probe.encode (Probe.init answered.pairing.device_id),
              )
                ∷ [])
  ack_channel_abandoned m ack now began searching off due on known band low high =
      let answered = (on_reconnect_ack ack m.session).0 in
      let took = ack_taken m.session ack on low high in
      let band' = InBand-transfer _ _ _ _ took.4 took.5 band in
      let round = one_round air now answered took.1 (took.3 ∙ known) band' in
      let done =
        loop_finishes (record m { session = answered }) now began searching off due took.0 in
      (
        took.8,
        done.0,
        done.1,
        ap (λ c. c.paired_channel) done.2 ∙ round.9 ∙ took.6,
        ap (λ c. tr.get_channel c.transport) done.2 ∙ round.8 ∙ rw (took.2, took.4, took.5) refl,
        ap (λ c. air.sent c.transport) done.2 ∙ round.7,
      )

  -- What a coordinator makes of a reconnect probe.
  probe_answered :
      (k : PairingCoordinator T P) (client : MacAddress) (id : ℕ)
      → let (k', used) = handle_received client (Probe.encode (Probe.init id)) k in
        (used ≡ true)
        × (k'.clients ≡ k.clients)
        × (is_paired client k ≡ false → k' ≡ k)
        × (is_paired client k ≡ true
            → air.sent k'.transport
              ≡ air.sent k.transport
                ++ (client, Ack.encode (Ack.init (tr.get_channel k.transport))) ∷ [])
  unfolding handle_received Probe.init Probe.encode
  probe_answered k client id =
      let bytes = Ack.encode (Ack.init (tr.get_channel k.transport)) in
      let t = (tr.add_peer client 0 k.transport).0 in
      ground (arith, air.sent-send client bytes t, air.sent-add_peer client 0 k.transport)

  -- A reacquiring client whose probe reaches a coordinator that has it in its table is answered, and
  -- no other: the answer goes to the client and carries the coordinator's channel, and when the
  -- client takes it, it has that channel in its memory, in its preferences and on its radio. The
  -- coordinator is on a channel of the band and does not change its table.
  pub reconnect :
      (l : IsPreferences pf) (s : EspNowSessionProvider T P) (k : PairingCoordinator T P)
      (client : MacAddress) (old : ℕ)
      → s.reacquiring ≡ true
      → Holds l s.pairing.prefs_ns s.pairing.coordinator_mac old s.pairing.prefs
      → 1 ≤ tr.get_channel k.transport
      → tr.get_channel k.transport ≤ 13
      → let ch = tr.get_channel k.transport in
        let (k', used) = handle_received client (Probe.encode (Probe.init s.pairing.device_id)) k in
        let bytes = Ack.encode (Ack.init ch) in
        let (s', taken) = on_reconnect_ack (Ack.parse bytes) s in
        (used ≡ true)
        × (k'.clients ≡ k.clients)
        × (is_paired client k ≡ false → k' ≡ k)
        × (is_paired client k ≡ true
            → (air.sent k'.transport ≡ air.sent k.transport ++ (client, bytes) ∷ [])
              × (taken ≡ true)
              × (s'.reacquisition_done ≡ true)
              × (s'.pairing.paired_channel ≡ ch)
              × (tr.get_channel s'.pairing.transport ≡ ch)
              × Holds l s.pairing.prefs_ns s.pairing.coordinator_mac ch s'.pairing.prefs)
  unfolding Ack.parse Ack.init Ack.encode
  reconnect l s k client old on held low high =
      let ch = tr.get_channel k.transport in
      let asked = probe_answered k client s.pairing.device_id in
      let took = ack_taken s (Ack.parse (Ack.encode (Ack.init ch))) on low high in
      let kept =
        set_paired_channel-Holds l s.pairing s.pairing.coordinator_mac old ch held low high in
      (
        asked.0,
        asked.1,
        asked.2,
        λ known. (asked.3 known, took.9, took.0, took.6, took.8, rw (took.7) kept),
      )
