-- ===== src/Comm/EspNow/Contract.antt =====
-- A started EspNowTransport implements ITransport.
use ungula_lib_net.Base.{ℕ, ◌≤◌, ◌≡◌, true, List, [], ◌∷◌, ◌++◌, arith, length}
use ungula_lib_net.Comm.Types.{MacAddress, transport_max_payload}
use ungula_lib_net.Comm.Transport.{Transport, IsTransport}
use ungula_lib_net.Comm.EspNow.{
  Esp, EspNowTransport, send, set_channel, get_channel, add_peer, remove_peer, has_peer,
}

-- What ESP-IDF does as long as its sends and channel changes succeed: `air` is what it has sent.
pub record IsRadio {D : Type 0} (e : Esp D) : Type 0 where
  pub air : D → List (MacAddress × List ℕ)
  pub air-now_send :
      (m : MacAddress) (b : List ℕ) (d : D) → air (e.now_send m b d).0 ≡ air d ++ (m, b) ∷ []
  pub air-wifi_set_channel : (c : ℕ) (d : D) → air (e.wifi_set_channel c d).0 ≡ air d
  pub air-mod_peer : (m : MacAddress) (c : ℕ) (d : D) → air (e.mod_peer m c d).0 ≡ air d
  pub air-now_add_peer : (m : MacAddress) (c : ℕ) (d : D) → air (e.now_add_peer m c d).0 ≡ air d
  pub air-del_peer : (m : MacAddress) (d : D) → air (e.del_peer m d).0 ≡ air d
  pub channel-wifi_set_channel :
      (c : ℕ) (d : D) → 1 ≤ c → c ≤ 13 → e.wifi_get_channel (e.wifi_set_channel c d).0 ≡ c
  pub channel-now_send :
      (m : MacAddress) (b : List ℕ) (d : D)
      → e.wifi_get_channel (e.now_send m b d).0 ≡ e.wifi_get_channel d
  pub channel-mod_peer :
      (m : MacAddress) (c : ℕ) (d : D)
      → e.wifi_get_channel (e.mod_peer m c d).0 ≡ e.wifi_get_channel d
  pub channel-now_add_peer :
      (m : MacAddress) (c : ℕ) (d : D)
      → e.wifi_get_channel (e.now_add_peer m c d).0 ≡ e.wifi_get_channel d
  pub channel-del_peer :
      (m : MacAddress) (d : D) → e.wifi_get_channel (e.del_peer m d).0 ≡ e.wifi_get_channel d

-- A transport after a successful `init`.
pub record Started (D : Type 0) : Type 0 where
  pub transport : EspNowTransport D
  pub started : transport.initialized ≡ true

module _ {D : Type 0} ⦃e : Esp D⦄ where
  pub send_stays :
      (m : MacAddress) (b : List ℕ) (s : Started D) → (send m b s.transport).0.initialized ≡ true
  unfolding send
  send_stays m b s = ground (arith, s.started)

  pub set_channel_stays : (c : ℕ) (s : Started D) → (set_channel c s.transport).0.initialized ≡ true
  unfolding set_channel
  set_channel_stays c s = ground (arith, s.started)

  pub add_peer_stays :
      (m : MacAddress) (c : ℕ) (s : Started D) → (add_peer m c s.transport).0.initialized ≡ true
  unfolding add_peer
  add_peer_stays m c s = ground (arith, s.started)

  pub remove_peer_stays :
      (m : MacAddress) (s : Started D) → (remove_peer m s.transport).0.initialized ≡ true
  unfolding remove_peer
  remove_peer_stays m s = ground (arith, s.started)

  -- The methods that override those of `ITransport`, on a started transport.
  instance abbrev pub started_transport : Transport (Started D)
  started_transport = record {
    send = λ m b s. (
      record { transport = (send m b s.transport).0; started = send_stays m b s },
      (send m b s.transport).1,
    );
    set_channel = λ c s. (
      record { transport = (set_channel c s.transport).0; started = set_channel_stays c s },
      (set_channel c s.transport).1,
    );
    get_channel = λ s. get_channel s.transport;
    add_peer = λ m c s. (
      record { transport = (add_peer m c s.transport).0; started = add_peer_stays m c s },
      (add_peer m c s.transport).1,
    );
    remove_peer = λ m s. (
      record { transport = (remove_peer m s.transport).0; started = remove_peer_stays m s },
      (remove_peer m s.transport).1,
    );
    has_peer = λ m s. has_peer m s.transport;
  }

module _ {D : Type 0} ⦃e : Esp D⦄ (r : IsRadio e) where
  sent_lem :
      (m : MacAddress) (b : List ℕ) (s : Started D)
      → length b ≤ transport_max_payload
      → r.air (send m b s.transport).0.esp ≡ r.air s.transport.esp ++ (m, b) ∷ []
  unfolding send
  sent_lem m b s fits = ground (arith, s.started, r.air-now_send m b s.transport.esp)

  channel_lem :
      (m : MacAddress) (b : List ℕ) (s : Started D)
      → get_channel (send m b s.transport).0 ≡ get_channel s.transport
  unfolding send get_channel
  channel_lem m b s = ground (arith, s.started, r.channel-now_send m b s.transport.esp)

  set_channel_lem :
      (c : ℕ) (s : Started D)
      → (r.air (set_channel c s.transport).0.esp ≡ r.air s.transport.esp)
        × (1 ≤ c → c ≤ 13 → get_channel (set_channel c s.transport).0 ≡ c)
  unfolding set_channel get_channel
  set_channel_lem c s = ground (
    arith,
    r.air-wifi_set_channel c s.transport.esp,
    r.channel-wifi_set_channel c s.transport.esp,
  )

  add_peer_lem :
      (m : MacAddress) (c : ℕ) (s : Started D)
      → (r.air (add_peer m c s.transport).0.esp ≡ r.air s.transport.esp)
        × (get_channel (add_peer m c s.transport).0 ≡ get_channel s.transport)
  unfolding add_peer get_channel
  add_peer_lem m c s = ground (
    arith,
    r.air-mod_peer m c s.transport.esp,
    r.air-now_add_peer m c s.transport.esp,
    r.channel-mod_peer m c s.transport.esp,
    r.channel-now_add_peer m c s.transport.esp,
  )

  remove_peer_lem :
      (m : MacAddress) (s : Started D)
      → (r.air (remove_peer m s.transport).0.esp ≡ r.air s.transport.esp)
        × (get_channel (remove_peer m s.transport).0 ≡ get_channel s.transport)
  unfolding remove_peer get_channel
  remove_peer_lem m s =
      ground (arith, r.air-del_peer m s.transport.esp, r.channel-del_peer m s.transport.esp)

  -- A started EspNowTransport, over an ESP-IDF whose sends and channel changes succeed, keeps what
  -- pairing and reconnection rely on of a transport: a payload within the limit goes out once, a
  -- channel of the band is tuned to, and the peer calls send nothing and leave the channel alone.
  pub started_transport-IsTransport : IsTransport (started_transport {D = D})
  started_transport-IsTransport = record {
    sent = λ s. r.air s.transport.esp;
    sent-send = sent_lem;
    sent-set_channel = λ c s. (set_channel_lem c s).0;
    sent-add_peer = λ m c s. (add_peer_lem m c s).0;
    sent-remove_peer = λ m s. (remove_peer_lem m s).0;
    channel-set_channel = λ c s. (set_channel_lem c s).1;
    channel-send = channel_lem;
    channel-add_peer = λ m c s. (add_peer_lem m c s).1;
    channel-remove_peer = λ m s. (remove_peer_lem m s).1;
  }
