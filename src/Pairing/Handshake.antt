-- ===== src/Pairing/Handshake.antt =====
-- The pairing protocol between a client and a coordinator: the messages that one sends are the
-- messages that the other receives, and what both know at the end.
use ungula_lib_net.Base.{
  ℕ, ◌≤◌, ◌≡◌, refl, Bool, true, false, List, inl, inr, [], ◌∷◌, ◌++◌, some, arith,
}
use ungula_lib_net.Comm.Types.{MacAddress, broadcast}
use ungula_lib_net.Comm.Transport.{Transport, IsTransport}
use ungula_lib_net.Preferences.{Preferences}
use ungula_lib_net.Pairing.Types.{scanning, responding, paired}
use ungula_lib_net.Pairing.Messages.Beacon
use ungula_lib_net.Pairing.Messages.Request
use ungula_lib_net.Pairing.Messages.Confirm
use ungula_lib_net.Pairing.Client.{PairingClient}
use ungula_lib_net.Pairing.Client.Receive.{handle_received as client_received}
use ungula_lib_net.Pairing.Coordinator.{PairingCoordinator}
use ungula_lib_net.Pairing.Coordinator.Store.Peers.{store_peer}
use ungula_lib_net.Pairing.Coordinator.Receive.{
  broadcast_beacon, handle_received as coordinator_received,
}
use ungula_lib_net.Pairing.Coordinator.Store.{store_paired_client}
use ungula_lib_net.Pairing.Coordinator.Store.Table.{IsTable, device_of, store_effect}

-- The messages as they go over the air.
pub beacon_bytes : ℕ → List ℕ
unfolding Beacon.init Beacon.encode
beacon_bytes ch = Beacon.encode (Beacon.init ch)

pub request_bytes : ℕ → List ℕ
unfolding Request.init Request.encode
request_bytes id = Request.encode (Request.init id)

pub confirm_bytes : Bool → ℕ → List ℕ
unfolding Confirm.init Confirm.encode
confirm_bytes accept ch = Confirm.encode (Confirm.init accept ch)

module _ {T P : Type 0} ⦃tr : Transport T⦄ ⦃pf : Preferences P⦄ (air : IsTransport tr) where
  pub beacon_goes_out :
      (k : PairingCoordinator T P)
      → air.sent (broadcast_beacon k).transport
        ≡ air.sent k.transport ++ (broadcast, beacon_bytes (tr.get_channel k.transport)) ∷ []
  unfolding broadcast_beacon beacon_bytes
  beacon_goes_out k =
      let t = (tr.add_peer broadcast 0 k.transport).0 in
      ground (
        arith,
        air.sent-send broadcast (beacon_bytes (tr.get_channel k.transport)) t,
        air.sent-add_peer broadcast 0 k.transport,
      )

  -- A scanning client answers a beacon with a request under its own device number.
  pub beacon_answered :
      (c : PairingClient T P) (src : MacAddress) (ch now : ℕ)
      → c.state ≡ scanning
      → let (c', used) = client_received src (beacon_bytes ch) now c in
        (used ≡ true)
        × (c'.state ≡ responding)
        × (c'.device_id ≡ c.device_id)
        × (air.sent c'.transport ≡ air.sent c.transport ++ (src, request_bytes c.device_id) ∷ [])
  unfolding client_received beacon_bytes request_bytes
  beacon_answered c src ch now s = ground (
    arith,
    air.sent-send src (request_bytes c.device_id) (tr.add_peer src 0 c.transport).0,
    air.sent-add_peer src 0 c.transport,
  )

  -- A coordinator answers a request with a confirmation that says whether it has stored the client.
  request_answered :
      (k : PairingCoordinator T P) (src : MacAddress) (id : ℕ)
      → let (k', used) = coordinator_received src (request_bytes id) k in
        let (stored_k, stored) = store_paired_client src id k in
        (used ≡ true)
        × (k'.clients ≡ stored_k.clients)
        × (k'.prefs ≡ stored_k.prefs)
        × (air.sent k'.transport
            ≡ air.sent stored_k.transport
              ++ (src, confirm_bytes stored (tr.get_channel stored_k.transport)) ∷ [])
  unfolding coordinator_received request_bytes confirm_bytes
  request_answered k src id =
      let k' = (store_paired_client src id k).0 in
      ground (
        arith,
        air.sent-send src
            (confirm_bytes (store_paired_client src id k).1 (tr.get_channel k'.transport))
            (tr.add_peer src 0 k'.transport).0,
        air.sent-add_peer src 0 k'.transport,
        air.channel-add_peer src 0 k'.transport,
      )

  -- A responding client takes the confirmation of any sender.
  confirm_accepted :
      (c : PairingClient T P) (src : MacAddress) (ch now : ℕ)
      → c.state ≡ responding
      → 1 ≤ ch
      → ch ≤ 13
      → let (c', used) = client_received src (confirm_bytes true ch) now c in
        (used ≡ true)
        × (c'.state ≡ paired)
        × (c'.coordinator_mac ≡ src)
        × (c'.paired_channel ≡ ch)
        × (tr.get_channel c'.transport ≡ ch)
  unfolding client_received confirm_bytes
  confirm_accepted c src ch now s low high = ground (arith, air.channel-set_channel ch c.transport)

  confirm_rejected :
      (c : PairingClient T P) (src : MacAddress) (ch now : ℕ)
      → c.state ≡ responding
      → let (c', used) = client_received src (confirm_bytes false ch) now c in
        (used ≡ true) × (c'.state ≡ scanning) × (c'.prefs ≡ c.prefs)
  unfolding client_received confirm_bytes
  confirm_rejected c src ch now s = ground arith

  -- Storing a client sends nothing and leaves the channel alone.
  store_is_silent :
      (k : PairingCoordinator T P) (src : MacAddress) (id : ℕ)
      → let k' = (store_paired_client src id k).0 in
        (air.sent k'.transport ≡ air.sent k.transport)
        × (tr.get_channel k'.transport ≡ tr.get_channel k.transport)
  store_is_silent k src id = elim (store_peer src id k) [
    | inl e ↦ rw e (refl, refl)
    | inr (m, e) ↦ rw e (air.sent-remove_peer m k.transport, air.channel-remove_peer m k.transport)
  ]

  -- A coordinator broadcasts its beacon, a scanning client hears it, and the two go on as the protocol
  -- says, each answering what the other has sent. If the coordinator has room for the client, both are paired
  -- in the end: the coordinator lists the client's address under its device number, and the client
  -- has the coordinator's address and channel, with its radio on that channel. Otherwise the client
  -- scans again, and the coordinator's table is as before.
  pub handshake :
      (c : PairingClient T P) (k : PairingCoordinator T P) (client coordinator : MacAddress)
      (t t' : ℕ)
      → c.state ≡ scanning
      → IsTable k.clients
      → 1 ≤ tr.get_channel k.transport
      → tr.get_channel k.transport ≤ 13
      → let ch = tr.get_channel k.transport in
        let stored = (store_paired_client client c.device_id k).1 in
        let c' = (client_received coordinator (beacon_bytes ch) t c).0 in
        let k' = (coordinator_received client (request_bytes c.device_id) k).0 in
        let c'' = (client_received coordinator (confirm_bytes stored ch) t' c').0 in
        (air.sent (broadcast_beacon k).transport
          ≡ air.sent k.transport ++ (broadcast, beacon_bytes ch) ∷ [])
        × (air.sent c'.transport
            ≡ air.sent c.transport ++ (coordinator, request_bytes c.device_id) ∷ [])
        × (air.sent k'.transport ≡ air.sent k.transport ++ (client, confirm_bytes stored ch) ∷ [])
        × (stored ≡ true
            → (device_of client k'.clients ≡ some c.device_id)
              × (c''.state ≡ paired)
              × (c''.coordinator_mac ≡ coordinator)
              × (c''.paired_channel ≡ ch)
              × (tr.get_channel c''.transport ≡ ch))
        × (stored ≡ false → (c''.state ≡ scanning) × (k'.clients ≡ k.clients))
  handshake c k client coordinator t t' s table low high =
      let ch = tr.get_channel k.transport in
      let id = c.device_id in
      let stored = (store_paired_client client id k).1 in
      let c' = (client_received coordinator (beacon_bytes ch) t c).0 in
      let asked = beacon_answered c coordinator ch t s in
      let answered = request_answered k client id in
      let silent = store_is_silent k client id in
      let effect = store_effect client id k table in
      (
        beacon_goes_out k,
        asked.3,
        ground (arith, answered, silent),
        λ yes_stored.
            ground
              (arith, confirm_accepted c' coordinator ch t' asked.1 low high, effect, answered),
        λ not_stored.
            ground (arith, confirm_rejected c' coordinator ch t' asked.1, effect, answered),
      )
