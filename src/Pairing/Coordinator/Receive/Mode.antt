-- ===== src/Pairing/Coordinator/Receive/Mode.antt =====
-- What the pairing mode has to do with the messages that a coordinator handles.
use ungula_lib_net.Base.{ℕ, ◌≡◌, refl, Bool, List, arith}
use ungula_lib_net.Comm.Types.{MacAddress}
use ungula_lib_net.Comm.Transport.{Transport}
use ungula_lib_net.Preferences.{Preferences}
use ungula_lib_net.Pairing.Coordinator.{PairingCoordinator}
use ungula_lib_net.Pairing.Coordinator.Receive.{
  handle_pairing_request, handle_reconnect_probe, handle_received,
}
use ungula_lib_net.Pairing.Coordinator.Store.Mode.{store-Ignores}
use ungula_lib_net.Pairing.Messages.Request.{PairingRequest}
use ungula_lib_net.Pairing.Messages.Request

module _ {T P : Type 0} ⦃tr : Transport T⦄ ⦃pf : Preferences P⦄ where
  request_ignores :
      (b : Bool) (src : MacAddress) (req : PairingRequest) (k : PairingCoordinator T P)
      → handle_pairing_request src req (record k { pairing_enabled = b })
        ≡ record (handle_pairing_request src req k) { pairing_enabled = b }
  unfolding handle_pairing_request
  request_ignores b src req k = rw (store-Ignores b src req.device_id k) refl

  probe_ignores :
      (b : Bool) (src : MacAddress) (k : PairingCoordinator T P)
      → handle_reconnect_probe src (record k { pairing_enabled = b })
        ≡ record (handle_reconnect_probe src k) { pairing_enabled = b }
  unfolding handle_reconnect_probe
  probe_ignores b src k = ground arith

  -- A coordinator handles every message in the same way whether pairing is enabled or not: a client
  -- can be paired while pairing is disabled. Handling a message leaves the mode as it is.
  pub pairing_mode_ignored :
      (b : Bool) (src : MacAddress) (bytes : List ℕ) (k : PairingCoordinator T P)
      → let (k', used) = handle_received src bytes k in
        handle_received src bytes (record k { pairing_enabled = b })
        ≡ (record k' { pairing_enabled = b }, used)
  unfolding handle_received
  pairing_mode_ignored b src bytes k =
      ground (arith, probe_ignores b src k, request_ignores b src (Request.parse bytes) k)
