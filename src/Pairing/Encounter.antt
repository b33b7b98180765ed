-- ===== src/Pairing/Encounter.antt =====
-- A client from the start of its scan to the end of the pairing.
use ungula_lib_net.Base.{
  ℕ, ◌+◌, ◌*◌, ◌≤◌, ◌<◌, ◌≡◌, sym, subst, true, Bool-cases, inl, inr, Bool, List, [], ◌∷◌, ◌++◌,
  some, arith, u32_mod,
}
use ungula_lib_net.Comm.Types.{MacAddress, broadcast}
use ungula_lib_net.Comm.Transport.{Transport, IsTransport}
use ungula_lib_net.Preferences.{Preferences}
use ungula_lib_net.Pairing.Types.{paired, scanning, channel_scan_dwell_ms, beacon_interval_ms}
use ungula_lib_net.Pairing.Messages.Beacon
use ungula_lib_net.Pairing.Client.{PairingClient}
use ungula_lib_net.Pairing.Client.Scan.{loop as client_loop, start_scanning}
use ungula_lib_net.Pairing.Client.Scan.Laws.{
  scheduled, InBand, scheduled-InBand, dwell_loops, scan_schedule,
}
use ungula_lib_net.Pairing.Client.Receive.{handle_received as client_received}
use ungula_lib_net.Pairing.Coordinator.{PairingCoordinator, paired_client_count}
use ungula_lib_net.Pairing.Coordinator.Receive.{
  loop, broadcast_beacon, handle_received as coordinator_received,
}
use ungula_lib_net.Pairing.Coordinator.Store.{store_paired_client}
use ungula_lib_net.Pairing.Coordinator.Store.Table.{IsTable, device_of, store_effect}
use ungula_lib_net.Pairing.Handshake.{handshake, beacon_bytes, request_bytes, confirm_bytes}
use ungula_lib_net.Pairing.Discovery.{IsMet, Spaced, Reaches, scan_discovers}

module _ {T P : Type 0} ⦃tr : Transport T⦄ ⦃pf : Preferences P⦄ (air : IsTransport tr) where
  loop_keeps :
      (now : ℕ) (k : PairingCoordinator T P)
      → ((loop now k).clients ≡ k.clients)
        × (tr.get_channel (loop now k).transport ≡ tr.get_channel k.transport)
  unfolding loop broadcast_beacon
  loop_keeps now k =
      let bytes = Beacon.encode (Beacon.init (tr.get_channel k.transport)) in
      ground (
        arith,
        air.channel-send broadcast bytes (tr.add_peer broadcast 0 k.transport).0,
        air.channel-add_peer broadcast 0 k.transport,
      )

  -- A table with a free slot stores every client.
  room_stores :
      (client : MacAddress) (id : ℕ) (k : PairingCoordinator T P)
      → IsTable k.clients
      → paired_client_count k < 2
      → (store_paired_client client id k).1 ≡ true
  room_stores client id k table room = elim (Bool-cases ((store_paired_client client id k).1)) [
    | inl yes_stored ↦ yes_stored
    | inr failed ↦ absurd (omega (arith, room, ((store_effect client id k table).2 failed).2))
  ]

  -- The client `c` has heard the beacon of `k` at `t`, has asked, is answered, and takes the answer
  -- at `u`: the answer goes out, the coordinator lists the client, and the client is paired with it.
  abbrev pub ArePaired :
      Bool → PairingClient T P → PairingCoordinator T P → MacAddress → MacAddress → ℕ → ℕ → Type 0
  ArePaired accepted c k client coordinator t u =
      let ch = tr.get_channel k.transport in
      let c' = (client_received coordinator (beacon_bytes ch) t c).0 in
      let k' = (coordinator_received client (request_bytes c.device_id) k).0 in
      let c'' = (client_received coordinator (confirm_bytes accepted ch) u c').0 in
      (air.sent k'.transport ≡ air.sent k.transport ++ (client, confirm_bytes accepted ch) ∷ [])
      × (device_of client k'.clients ≡ some c.device_id)
      × (c''.state ≡ paired)
      × (c''.coordinator_mac ≡ coordinator)
      × (c''.paired_channel ≡ ch)
      × (tr.get_channel c''.transport ≡ ch)

  handshake-ArePaired :
      (c : PairingClient T P) (k : PairingCoordinator T P) (client coordinator : MacAddress)
      (t u : ℕ)
      → c.state ≡ scanning
      → IsTable k.clients
      → paired_client_count k < 2
      → 1 ≤ tr.get_channel k.transport
      → tr.get_channel k.transport ≤ 13
      → ArePaired true c k client coordinator t u
  handshake-ArePaired c k client coordinator t u scans table room low high =
      let stored = room_stores client c.device_id k table room in
      let (_, _, answer, pairing, _) =
        handshake air c k client coordinator t u scans table low high in
      let (listed, state, mac, channel, radio) = pairing stored in
      subst (λ b. ArePaired b c k client coordinator t u) stored
        (answer, listed, state, mac, channel, radio)

  -- A client that scans ends up paired. It starts at `t`, and its `loop` runs then and after every
  -- dwell time; the coordinator's channel is the `n`-th of the client's schedule, modulo the
  -- schedule's length. Then the coordinator's beacon goes out while the client is on that channel,
  -- and when each answers what the other has sent, the coordinator lists the client under its
  -- device number, and the client is paired with the coordinator on its channel, with its radio
  -- there. The client's list has fewer than 256 entries, all in the band; the coordinator has
  -- pairing enabled and a free slot, its last beacon was sent before the client came to the
  -- channel, its `loop` runs from then on with less than 100 ms between two calls, until 100 ms
  -- have passed at least, and the clock does not wrap.
  pub scan_pairs :
      (c : PairingClient T P) (k : PairingCoordinator T P) (client coordinator : MacAddress)
      (n t u g : ℕ) (ts : List ℕ)
      → c.scan_channel_count < 256
      → InBand c.scan_channels c.scan_channel_count
      → 0 < t
      → t + n * channel_scan_dwell_ms + channel_scan_dwell_ms < u32_mod
      → tr.get_channel k.transport ≡ scheduled c.scan_channels c.scan_channel_count n
      → k.pairing_enabled ≡ true
      → IsTable k.clients
      → paired_client_count k < 2
      → k.last_beacon_ms ≤ t + n * channel_scan_dwell_ms
      → g + beacon_interval_ms < channel_scan_dwell_ms
      → Spaced g (t + n * channel_scan_dwell_ms) ts
      → Reaches (k.last_beacon_ms + beacon_interval_ms) ts
      → let c' = dwell_loops n t (client_loop t (start_scanning c)) in
        (m : IsMet air c' k coordinator ts) × ArePaired true c'
          (loop m.t k)
          client
          coordinator
          m.t
          u
  unfolding paired_client_count
  scan_pairs c k client coordinator n t u g ts byte band pos small turn on table room past quick
        spaced reach =
      let c' = dwell_loops n t (client_loop t (start_scanning c)) in
      let m =
        scan_discovers air c k coordinator n t g ts byte band pos small turn on past quick spaced
          reach in
      let (clients, channel) = loop_keeps m.t k in
      let (scans, _, _, _) = scan_schedule air c n t byte band pos (omega arith) in
      let (low, high) = scheduled-InBand c.scan_channels c.scan_channel_count n band in
      (
        m,
        handshake-ArePaired c' (loop m.t k) client coordinator m.t u scans
            (subst IsTable (sym clients) table) (rw clients room) (rw (channel, turn) low)
            (rw (channel, turn) high),
      )
