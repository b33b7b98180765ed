-- ===== src/Pairing/Client/Receive.antt =====
-- src/pairing/pairing_client.cpp: the messages of the pairing protocol.
pub mod Laws
use ungula_lib_net.Base.{
  ℕ, Bool, true, false, not, ◌&&◌, ◌||◌, List, ◌∷◌, ltb, leb, ◌==◌, if◌then◌else◌, length,
  memcmp_eq,
}
use ungula_lib_net.Comm.Types.{MacAddress}
use ungula_lib_net.Comm.Transport.{Transport}
use ungula_lib_net.Preferences.{Preferences}
use ungula_lib_net.Pairing.Types.{responding, paired, pairing_magic}
use ungula_lib_net.Pairing.Client.{PairingClient, is_scanning_state, is_responding_state}
use ungula_lib_net.Pairing.Messages.Beacon.{PairingBeacon}
use ungula_lib_net.Pairing.Messages.Beacon
use ungula_lib_net.Pairing.Messages.Request
use ungula_lib_net.Pairing.Messages.Confirm.{PairingConfirm}
use ungula_lib_net.Pairing.Messages.Confirm
use ungula_lib_net.Pairing.Client.Scan.{start_scanning}
use ungula_lib_net.Pairing.Client.Store.{store_pairing}

module _ {T P : Type 0} ⦃tr : Transport T⦄ ⦃pf : Preferences P⦄ where
  send_pairing_request : MacAddress → PairingClient T P → PairingClient T P
  send_pairing_request mac c = record c {
    transport =
        (tr.send mac (Request.encode (Request.init c.device_id))
          (tr.add_peer mac 0 c.transport).0).0;
  }

  unfoldable pub handle_beacon :
      MacAddress → PairingBeacon → ℕ → PairingClient T P → PairingClient T P
  unfolding send_pairing_request
  handle_beacon src beacon now c = send_pairing_request src (record c {
    coordinator_mac = src;
    paired_channel = beacon.channel;
    state = responding;
    pairing_start_ms = now;
  })

  unfoldable pub handle_confirm :
      MacAddress → PairingConfirm → PairingClient T P → PairingClient T P
  unfolding start_scanning store_pairing
  handle_confirm src confirm c =
      if confirm.accepted == 0
      then start_scanning c
      else (let c' = store_pairing (record c {
        coordinator_mac = src;
        paired_channel = confirm.channel;
        state = paired;
        transport = (tr.set_channel confirm.channel c.transport).0;
      }) in
          if c.on_paired_cb
          then record c' { paired_calls = (src, confirm.channel) ∷ c.paired_calls }
          else c')

  -- The message is `bytes`, and `len` its length.
  unfoldable pub handle_received :
      MacAddress → List ℕ → ℕ → PairingClient T P → PairingClient T P × Bool
  unfolding handle_beacon handle_confirm Beacon.parse Beacon.is_valid Confirm.parse Confirm.is_valid
  handle_received src bytes now c =
      let len = length bytes in
      if ltb len 4 || not (memcmp_eq 4 bytes pairing_magic)
      then (c, false)
      else if is_scanning_state c.state && leb 8 len && Beacon.is_valid (Beacon.parse bytes)
      then (handle_beacon src (Beacon.parse bytes) now c, true)
      else if is_responding_state c.state && leb 8 len && Confirm.is_valid (Confirm.parse bytes)
      then (handle_confirm src (Confirm.parse bytes) c, true)
      else (c, false)
