-- ===== src/Connection/EspNow.antt =====
-- src/connection/espnow_session_provider.h and espnow_session_provider.cpp, over any transport and
-- preferences store. The provider's `transport_` is the one that its pairing client uses, so the
-- client's `transport` field stands for both.
pub mod Ack
pub mod Contract
pub mod Outage
pub mod Rounds
pub mod Search
mod Tests
use ungula_lib_net.Base.{
  ℕ, ◌+◌, ◌%◌, Bool, true, false, not, ◌||◌, Option, none, some, if◌then◌else◌, u8,
}
use ungula_lib_net.Comm.Types.{MacAddress}
use ungula_lib_net.Comm.Transport.{Transport}
use ungula_lib_net.Preferences.{Preferences}
use ungula_lib_net.Pairing.Types.{max_scan_channels}
use ungula_lib_net.Pairing.Messages.Probe
use ungula_lib_net.Pairing.Messages.Ack.{ReconnectAck}
use ungula_lib_net.Pairing.Client.{PairingClient, has_scan_list, channel_at, is_paired}
use ungula_lib_net.Pairing.Client.Scan.{start_scanning, loop}
use ungula_lib_net.Pairing.Client.Store.{set_paired_channel}
use ungula_lib_net.Connection.Session.{SessionProvider}

-- `probe_cb` is the application's callback, which acts on the transport, or `none` for a null
-- pointer.
pub record EspNowSessionProvider (T P : Type 0) : Type 0 where
  pub pairing : PairingClient T P
  pub probe_cb : Option (MacAddress → T → T)
  pub reacquiring : Bool
  pub reacquisition_done : Bool
  pub scan_index : ℕ

-- The constructor.
unfoldable pub init :
    {T P : Type 0} → PairingClient T P → Option (MacAddress → T → T) → EspNowSessionProvider T P
init pairing probe_cb = record {
  pairing = pairing;
  probe_cb = probe_cb;
  reacquiring = false;
  reacquisition_done = false;
  scan_index = 0;
}

module _ {T P : Type 0} where
  unfoldable pub has_pairing : EspNowSessionProvider T P → Bool
  unfolding is_paired
  has_pairing s = is_paired s.pairing

  unfoldable pub is_discovery_complete : EspNowSessionProvider T P → Bool
  unfolding is_paired
  is_discovery_complete s = is_paired s.pairing

  unfoldable pub start_reacquisition : EspNowSessionProvider T P → EspNowSessionProvider T P
  start_reacquisition s = record s {
    reacquiring = true;
    reacquisition_done = false;
    scan_index = 0;
  }

  unfoldable pub reset_reacquisition : EspNowSessionProvider T P → EspNowSessionProvider T P
  reset_reacquisition s = record s {
    reacquiring = false;
    reacquisition_done = false;
    scan_index = 0;
  }

  -- The channel that the next call of `loopReacquisition` probes.
  unfoldable pub probe_channel : EspNowSessionProvider T P → ℕ
  probe_channel s =
      let c = s.pairing in
      if has_scan_list c.scan_channels c.scan_channel_count
      then channel_at c.scan_channels (s.scan_index % c.scan_channel_count)
      else (s.scan_index % max_scan_channels) + 1

module _ {T P : Type 0} ⦃tr : Transport T⦄ where
  unfoldable pub start_discovery : EspNowSessionProvider T P → EspNowSessionProvider T P
  unfolding start_scanning
  start_discovery s = record s { pairing = start_scanning s.pairing }

  unfoldable pub loop_discovery : ℕ → EspNowSessionProvider T P → EspNowSessionProvider T P
  unfolding loop
  loop_discovery now s = record s { pairing = loop now s.pairing }

  unfoldable pub send_probe : EspNowSessionProvider T P → EspNowSessionProvider T P
  unfolding is_paired
  send_probe s = elim s.probe_cb [
    | none ↦ s
    | some cb ↦
        if not (is_paired s.pairing)
        then s
        else (let mac = s.pairing.coordinator_mac in
            record s {
              pairing = record s.pairing {
                transport = cb mac (tr.add_peer mac 0 s.pairing.transport).0;
              };
            })
  ]

  unfoldable pub send_reconnect_probe_on_channel :
      ℕ → EspNowSessionProvider T P → EspNowSessionProvider T P
  unfolding Probe.init Probe.encode
  send_reconnect_probe_on_channel channel s =
      let mac = s.pairing.coordinator_mac in
      let t = (tr.add_peer mac 0 (tr.set_channel channel s.pairing.transport).0).0 in
      let bytes = Probe.encode (Probe.init s.pairing.device_id) in
      record s { pairing = record s.pairing { transport = (tr.send mac bytes t).0 } }

  -- `scanIndex_++` wraps at 256.
  unfoldable pub loop_reacquisition :
      ℕ → EspNowSessionProvider T P → EspNowSessionProvider T P × Bool
  unfolding is_paired send_reconnect_probe_on_channel probe_channel
  loop_reacquisition now s =
      if not s.reacquiring || not (is_paired s.pairing) then (s, false) else (
        record (send_reconnect_probe_on_channel (probe_channel s) s) {
          scan_index = u8 (s.scan_index + 1);
        },
        true,
      )

module _ {T P : Type 0} ⦃tr : Transport T⦄ ⦃pf : Preferences P⦄ where
  unfoldable pub on_reconnect_ack :
      ReconnectAck → EspNowSessionProvider T P → EspNowSessionProvider T P × Bool
  unfolding set_paired_channel
  on_reconnect_ack ack s =
      if not s.reacquiring
      then (s, false)
      else (let tuned = record s.pairing {
        transport = (tr.set_channel ack.channel s.pairing.transport).0;
      } in
          let c = set_paired_channel ack.channel tuned in
          let c' = record c { transport = (tr.add_peer c.coordinator_mac 0 c.transport).0 } in
          (record s { pairing = c'; reacquisition_done = true }, true))

module _ {T P : Type 0} ⦃tr : Transport T⦄ where
  -- The methods that override those of `ISessionProvider`.
  instance unfoldable pub espnow_provider : SessionProvider (EspNowSessionProvider T P)
  unfolding has_pairing start_discovery loop_discovery is_discovery_complete send_probe
      start_reacquisition loop_reacquisition reset_reacquisition
  espnow_provider = record {
    has_pairing = has_pairing;
    start_discovery = start_discovery;
    loop_discovery = loop_discovery;
    is_discovery_complete = is_discovery_complete;
    send_probe = send_probe;
    start_reacquisition = start_reacquisition;
    loop_reacquisition = loop_reacquisition;
    is_reacquisition_complete = λ s. s.reacquisition_done;
    reset_reacquisition = reset_reacquisition;
  }
