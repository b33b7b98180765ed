-- ===== src/Pairing/Coordinator/Receive.antt =====
-- src/pairing/pairing_coordinator.cpp: beacons, pairing requests and reconnect probes.
pub mod Mode
use ungula_lib_net.Base.{
  ℕ, Bool, true, false, not, ◌&&◌, List, ◌∷◌, ltb, leb, if◌then◌else◌, sub32, length, memcmp_eq,
}
use ungula_lib_net.Comm.Types.{MacAddress, broadcast}
use ungula_lib_net.Comm.Transport.{Transport}
use ungula_lib_net.Preferences.{Preferences}
use ungula_lib_net.Pairing.Types.{pairing_magic, beacon_interval_ms}
use ungula_lib_net.Pairing.Messages.Beacon
use ungula_lib_net.Pairing.Messages.Request.{PairingRequest}
use ungula_lib_net.Pairing.Messages.Request
use ungula_lib_net.Pairing.Messages.Confirm
use ungula_lib_net.Pairing.Messages.Probe.{reconnect_magic}
use ungula_lib_net.Pairing.Messages.Probe
use ungula_lib_net.Pairing.Messages.Ack
use ungula_lib_net.Pairing.Coordinator.{PairingCoordinator, is_paired}
use ungula_lib_net.Pairing.Coordinator.Store.{store_paired_client}

module _ {T P : Type 0} ⦃tr : Transport T⦄ where
  unfoldable pub broadcast_beacon : PairingCoordinator T P → PairingCoordinator T P
  unfolding Beacon.init Beacon.encode
  broadcast_beacon c =
      let bytes = Beacon.encode (Beacon.init (tr.get_channel c.transport)) in
      let t = (tr.add_peer broadcast 0 c.transport).0 in
      record c { transport = (tr.send broadcast bytes t).0 }

  unfoldable pub loop : ℕ → PairingCoordinator T P → PairingCoordinator T P
  unfolding broadcast_beacon
  loop now c =
      if not c.pairing_enabled
      then c
      else if leb beacon_interval_ms (sub32 now c.last_beacon_ms)
      then broadcast_beacon (record c { last_beacon_ms = now })
      else c

  unfoldable pub handle_reconnect_probe :
      MacAddress → PairingCoordinator T P → PairingCoordinator T P
  unfolding Ack.init Ack.encode is_paired
  handle_reconnect_probe src c =
      if not (is_paired src c)
      then c
      else (let bytes = Ack.encode (Ack.init (tr.get_channel c.transport)) in
          let t = (tr.add_peer src 0 c.transport).0 in
          record c { transport = (tr.send src bytes t).0 })

module _ {T P : Type 0} ⦃tr : Transport T⦄ ⦃pf : Preferences P⦄ where
  unfoldable pub handle_pairing_request :
      MacAddress → PairingRequest → PairingCoordinator T P → PairingCoordinator T P
  unfolding Confirm.init Confirm.encode
  handle_pairing_request src req c =
      let (c', stored) = store_paired_client src req.device_id c in
      let t = (tr.add_peer src 0 c'.transport).0 in
      let bytes = Confirm.encode (Confirm.init stored (tr.get_channel t)) in
      record c' {
        transport = (tr.send src bytes t).0;
        paired_calls =
            if stored && c'.on_paired_cb
            then (src, req.device_id) ∷ c'.paired_calls
            else c'.paired_calls;
      }

  -- The message is `bytes`, and `len` its length.
  unfoldable pub handle_received :
      MacAddress → List ℕ → PairingCoordinator T P → PairingCoordinator T P × Bool
  unfolding handle_pairing_request handle_reconnect_probe Probe.parse Probe.is_valid Request.parse
      Request.is_valid
  handle_received src bytes c =
      if ltb (length bytes) 8
      then (c, false)
      else if memcmp_eq 4 bytes reconnect_magic && Probe.is_valid (Probe.parse bytes)
      then (handle_reconnect_probe src c, true)
      else if memcmp_eq 4 bytes pairing_magic && Request.is_valid (Request.parse bytes)
      then (handle_pairing_request src (Request.parse bytes) c, true)
      else (c, false)
