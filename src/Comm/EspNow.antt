-- ===== src/Comm/EspNow.antt =====
-- src/comm/esp_now_transport.h and esp_now_transport.cpp, over the calls of ESP-IDF that they make.
-- Log output is left out.
pub mod Contract
pub mod Lifecycle
mod Tests
use ungula_lib_net.Base.{
  ℕ, ◌%◌, Bool, true, false, not, ◌&&◌, ◌||◌, List, [], Option, none, some, ltb, leb, ◌==◌,
  if◌then◌else◌, length, u16,
}
use ungula_lib_net.Comm.Types.{
  MacAddress, addr, cleared, copy_from, from_bytes, TransportError, ok, send_failed,
  not_initialized, invalid_argument, transport_max_payload,
}

-- The calls, over ESP-IDF's state `D`; the Boolean says whether a call returned `ESP_OK`. `get_mac`
-- and `get_peer` (the channel of a peer) are `none` on an error.
pub record Esp (D : Type 0) : Type 0 where
  pub get_mac : D → Option (List ℕ)
  pub now_init : D → D × Bool
  pub now_deinit : D → D
  pub register_recv_cb : D → D × Bool
  pub register_send_cb : D → D × Bool
  pub now_send : MacAddress → List ℕ → D → D × Bool
  pub wifi_set_channel : ℕ → D → D × Bool
  pub wifi_get_channel : D → ℕ
  pub is_peer_exist : MacAddress → D → Bool
  pub get_peer : MacAddress → D → Option ℕ
  pub mod_peer : MacAddress → ℕ → D → D × Bool
  pub now_add_peer : MacAddress → ℕ → D → D × Bool
  pub del_peer : MacAddress → D → D × Bool

-- `recv_cb` and `send_cb` say whether the static callbacks are set.
pub record EspNowTransport (D : Type 0) : Type 0 where
  pub esp : D
  pub initialized : Bool
  pub own_mac : MacAddress
  pub recv_cb : Bool
  pub send_cb : Bool

-- The constructor.
unfoldable pub create : {D : Type 0} → D → EspNowTransport D
create d = record {
  esp = d;
  initialized = false;
  own_mac = cleared;
  recv_cb = false;
  send_cb = false;
}

abbrev pub ok_or_failed : Bool → TransportError
ok_or_failed true = ok
ok_or_failed false = send_failed

-- Is the peer known on this channel?
abbrev pub same_channel : Option ℕ → ℕ → Bool
same_channel none channel = false
same_channel (some c) channel = c == channel

module _ {D : Type 0} where
  unfoldable pub on_receive : Bool → EspNowTransport D → EspNowTransport D
  on_receive cb t = record t { recv_cb = cb }

  unfoldable pub on_send_complete : Bool → EspNowTransport D → EspNowTransport D
  on_send_complete cb t = record t { send_cb = cb }

  -- What the receive callback is called with, if it is; `none` is a null pointer. The length is that
  -- of the data, as a uint16_t.
  unfoldable pub on_data_recv_cb :
      Option (List ℕ) → Option (List ℕ) → EspNowTransport D → Option (MacAddress × List ℕ × ℕ)
  unfolding from_bytes
  on_data_recv_cb none bytes t = none
  on_data_recv_cb (some src) none t = none
  on_data_recv_cb (some src) (some bytes) t =
      if t.recv_cb && ltb 0 (length bytes)
      then some (from_bytes (some src), bytes, u16 (length bytes))
      else none

  unfoldable pub on_data_sent_cb :
      Option (List ℕ) → Bool → EspNowTransport D → Option (MacAddress × Bool)
  unfolding from_bytes
  on_data_sent_cb none success t = none
  on_data_sent_cb (some mac) success t =
      if t.send_cb then some (from_bytes (some mac), success) else none

module _ {D : Type 0} ⦃e : Esp D⦄ where
  -- `init` from the registration of the callbacks on; a failure shuts ESP-NOW down again.
  register_callbacks : EspNowTransport D → EspNowTransport D × TransportError
  register_callbacks t =
      let (d1, recv_ok) = e.register_recv_cb t.esp in
      let (d2, send_ok) = e.register_send_cb d1 in
      if not recv_ok
      then (record t { esp = e.now_deinit d1 }, not_initialized)
      else if not send_ok
      then (record t { esp = e.now_deinit d2 }, not_initialized)
      else (record t { esp = d2; initialized = true }, ok)

  init_with : Option (List ℕ) → EspNowTransport D → EspNowTransport D × TransportError
  unfolding copy_from register_callbacks
  init_with none t = (t, not_initialized)
  init_with (some mac) t =
      let (d, init_ok) = e.now_init t.esp in
      let t' = record t { esp = d; own_mac = copy_from (some mac) t.own_mac } in
      if init_ok then register_callbacks t' else (t', not_initialized)

  unfoldable pub init : EspNowTransport D → EspNowTransport D × TransportError
  unfolding init_with
  init t = if t.initialized then (t, ok) else init_with (e.get_mac t.esp) t

  -- The destructor.
  unfoldable pub destroy : EspNowTransport D → EspNowTransport D
  destroy t =
      if t.initialized then record t { esp = e.now_deinit t.esp; initialized = false } else t

  -- The data is not null.
  unfoldable pub send : MacAddress → List ℕ → EspNowTransport D → EspNowTransport D × TransportError
  send dst bytes t =
      if not t.initialized
      then (t, not_initialized)
      else if ltb transport_max_payload (length bytes)
      then (t, invalid_argument)
      else (let (d, sent) = e.now_send dst bytes t.esp in (record t { esp = d }, ok_or_failed sent))

  unfoldable pub set_channel : ℕ → EspNowTransport D → EspNowTransport D × TransportError
  set_channel channel t =
      if channel == 0 || ltb 13 channel
      then (t, invalid_argument)
      else (let (d, set) = e.wifi_set_channel channel t.esp in
          (record t { esp = d }, ok_or_failed set))

  unfoldable pub get_channel : EspNowTransport D → ℕ
  get_channel t = e.wifi_get_channel t.esp

  unfoldable pub add_peer : MacAddress → ℕ → EspNowTransport D → EspNowTransport D × TransportError
  add_peer mac channel t =
      if not t.initialized
      then (t, not_initialized)
      else if e.is_peer_exist mac t.esp
      then (if same_channel (e.get_peer mac t.esp) channel
          then (t, ok)
          else (let (d, changed) = e.mod_peer mac channel t.esp in
              (record t { esp = d }, ok_or_failed changed)))
      else (let (d, added) = e.now_add_peer mac channel t.esp in
          (record t { esp = d }, ok_or_failed added))

  unfoldable pub remove_peer : MacAddress → EspNowTransport D → EspNowTransport D × TransportError
  remove_peer mac t =
      if not t.initialized
      then (t, not_initialized)
      else if not (e.is_peer_exist mac t.esp)
      then (t, ok)
      else (let (d, removed) = e.del_peer mac t.esp in (record t { esp = d }, ok_or_failed removed))

  unfoldable pub has_peer : MacAddress → EspNowTransport D → Bool
  has_peer mac t = if t.initialized then e.is_peer_exist mac t.esp else false
