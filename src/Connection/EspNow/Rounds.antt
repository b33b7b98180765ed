-- ===== src/Connection/EspNow/Rounds.antt =====
-- Reacquisition as the connection manager drives it: rounds of `loopReacquisition`.
use native.Mathlib.Nat.{zero-add}
use ungula_lib_net.Base.{
  append-nil, append_assoc, ℕ, zero, suc, ◌+◌, ◌<◌, ◌≡◌, refl, sym, ◌∙◌, ap, true, List, [], ◌∷◌,
  ◌++◌, arith, u8,
}
use ungula_lib_net.Comm.Types.{MacAddress}
use ungula_lib_net.Comm.Transport.{Transport, IsTransport}
use ungula_lib_net.Pairing.Types.{paired}
use ungula_lib_net.Pairing.Messages.Probe
use ungula_lib_net.Pairing.Client.Scan.Laws.{scheduled, InBand, InBand-transfer, scheduled-InBand}
use ungula_lib_net.Connection.EspNow.{
  EspNowSessionProvider, start_reacquisition, loop_reacquisition,
}

-- What the probes of `n` rounds put on the air.
abbrev pub probes : ℕ → MacAddress → ℕ → List (MacAddress × List ℕ)
probes zero mac id = []
probes (suc n) mac id = (mac, Probe.encode (Probe.init id)) ∷ probes n mac id

module _ {T P : Type 0} ⦃tr : Transport T⦄ where
  -- `n` calls of `loopReacquisition`, whose result does not depend on the clock.
  unfoldable pub rounds : ℕ → EspNowSessionProvider T P → EspNowSessionProvider T P
  rounds zero s = s
  rounds (suc n) s = rounds n (loop_reacquisition 0 s).0

module _ {T P : Type 0} ⦃tr : Transport T⦄ (air : IsTransport tr) where
  -- One round.
  abbrev Probed : EspNowSessionProvider T P → EspNowSessionProvider T P → Type 0
  Probed s s' =
      let c = s.pairing in
      (s'.reacquiring ≡ true)
      × (s'.pairing.state ≡ paired)
      × (s'.pairing.coordinator_mac ≡ c.coordinator_mac)
      × (s'.pairing.device_id ≡ c.device_id)
      × (s'.pairing.scan_channels ≡ c.scan_channels)
      × (s'.pairing.scan_channel_count ≡ c.scan_channel_count)
      × (s'.scan_index ≡ u8 (s.scan_index + 1))
      × (air.sent s'.pairing.transport
          ≡ air.sent c.transport ++ (c.coordinator_mac, Probe.encode (Probe.init c.device_id)) ∷ [])
      × (tr.get_channel s'.pairing.transport
          ≡ scheduled c.scan_channels c.scan_channel_count s.scan_index)
      × (s'.pairing.paired_channel ≡ c.paired_channel)

  pub one_round :
      (now : ℕ) (s : EspNowSessionProvider T P)
      → s.reacquiring ≡ true
      → s.pairing.state ≡ paired
      → InBand s.pairing.scan_channels s.pairing.scan_channel_count
      → Probed s (loop_reacquisition now s).0
  unfolding loop_reacquisition
  one_round now s on known band =
      let c = s.pairing in
      let ch = scheduled c.scan_channels c.scan_channel_count s.scan_index in
      let (low, high) = scheduled-InBand c.scan_channels c.scan_channel_count s.scan_index band in
      let tuned = (tr.set_channel ch c.transport).0 in
      let t = (tr.add_peer c.coordinator_mac 0 tuned).0 in
      let bytes = Probe.encode (Probe.init c.device_id) in
      ground (
        arith,
        air.sent-send c.coordinator_mac bytes t,
        air.sent-add_peer c.coordinator_mac 0 tuned,
        air.sent-set_channel ch c.transport,
        air.channel-send c.coordinator_mac bytes t,
        air.channel-add_peer c.coordinator_mac 0 tuned,
        air.channel-set_channel ch c.transport low high,
      )

  still-InBand :
      (s : EspNowSessionProvider T P)
      → s.reacquiring ≡ true
      → s.pairing.state ≡ paired
      → InBand s.pairing.scan_channels s.pairing.scan_channel_count
      → let c = (loop_reacquisition 0 s).0.pairing in InBand c.scan_channels c.scan_channel_count
  still-InBand s on known band =
      let r = one_round 0 s on known band in InBand-transfer _ _ _ _ r.4 r.5 band

  abbrev Rounds : ℕ → EspNowSessionProvider T P → EspNowSessionProvider T P → Type 0
  Rounds n s s' =
      (s'.reacquiring ≡ true)
      × (s'.pairing.state ≡ paired)
      × (s'.scan_index ≡ u8 (s.scan_index + n))
      × (air.sent s'.pairing.transport
          ≡ air.sent s.pairing.transport ++ probes n s.pairing.coordinator_mac s.pairing.device_id)

  pub rounds-Rounds :
      (n : ℕ) (s : EspNowSessionProvider T P)
      → s.reacquiring ≡ true
      → s.pairing.state ≡ paired
      → s.scan_index < 256
      → InBand s.pairing.scan_channels s.pairing.scan_channel_count
      → Rounds n s (rounds n s)
  unfolding rounds
  rounds-Rounds zero s on known byte band =
      (on, known, omega arith, sym (append-nil (air.sent s.pairing.transport)))
  rounds-Rounds (suc n) s on known byte band =
      let s' = (loop_reacquisition 0 s).0 in
      let r = one_round 0 s on known band in
      let band' = still-InBand s on known band in
      let rest = rounds-Rounds n s' r.0 r.1 (omega (arith, r.6)) band' in
      (
        rest.0,
        rest.1,
        omega (arith, rest.2, r.6),
        rest.3
            ∙ rw (r.2, r.3, r.7)
                (append_assoc (air.sent s.pairing.transport)
                  ((s.pairing.coordinator_mac, Probe.encode (Probe.init s.pairing.device_id)) ∷ [])
                  (probes n s.pairing.coordinator_mac s.pairing.device_id)),
      )

  rounds_tuned :
      (n : ℕ) (s : EspNowSessionProvider T P)
      → s.reacquiring ≡ true
      → s.pairing.state ≡ paired
      → s.scan_index < 256
      → InBand s.pairing.scan_channels s.pairing.scan_channel_count
      → tr.get_channel (rounds (suc n) s).pairing.transport
        ≡ scheduled s.pairing.scan_channels s.pairing.scan_channel_count (u8 (s.scan_index + n))
  unfolding rounds
  rounds_tuned zero s on known byte band =
      let start : u8 (s.scan_index + 0) ≡ s.scan_index = omega arith in
      rw start ((one_round 0 s on known band).8)
  rounds_tuned (suc n) s on known byte band =
      let s' = (loop_reacquisition 0 s).0 in
      let r = one_round 0 s on known band in
      let next : u8 (s'.scan_index + n) ≡ u8 (s.scan_index + suc n) = omega (arith, r.6) in
      rounds_tuned n s' r.0 r.1 (omega (arith, r.6)) (still-InBand s on known band)
      ∙ rw (r.4, r.5, next) refl

  -- A reacquisition that is started for a paired client sends one reconnect probe to the stored
  -- coordinator a round, and nothing else, and the `n`-th round, counted from 0 and up to the wrap
  -- of the counter at 256, tunes the radio to the `n`-th channel of the client's schedule, modulo
  -- its length. The entries of the client's scan list are channels of the band.
  pub reacquisition_schedule :
      (s : EspNowSessionProvider T P) (n : ℕ)
      → s.pairing.state ≡ paired
      → InBand s.pairing.scan_channels s.pairing.scan_channel_count
      → let c = s.pairing in
        let s' = rounds (suc n) (start_reacquisition s) in
        (air.sent s'.pairing.transport
          ≡ air.sent c.transport ++ probes (suc n) c.coordinator_mac c.device_id)
        × (tr.get_channel s'.pairing.transport
            ≡ scheduled c.scan_channels c.scan_channel_count (u8 n))
  unfolding start_reacquisition
  reacquisition_schedule s n known band =
      let started = start_reacquisition s in
      (
        (rounds-Rounds (suc n) started refl known (omega arith) band).3,
        rounds_tuned n started refl known (omega arith) band
            ∙ ap (λ i. scheduled s.pairing.scan_channels s.pairing.scan_channel_count (u8 i))
                (zero-add n),
      )
