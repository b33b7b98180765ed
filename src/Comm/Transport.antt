-- ===== src/Comm/Transport.antt =====
-- src/comm/i_transport.h: the transport interface over a transport's state `T`, and what a client
-- can observe of a radio that accepts its calls. Callbacks are the events of the models above it.
use ungula_lib_net.Base.{length, ℕ, ◌≤◌, ◌≡◌, Bool, List, [], ◌∷◌, ◌++◌}
use ungula_lib_net.Comm.Types.{MacAddress, TransportError, transport_max_payload}

pub record Transport (T : Type 0) : Type 0 where
  pub send : MacAddress → List ℕ → T → T × TransportError
  pub set_channel : ℕ → T → T × TransportError
  pub get_channel : T → ℕ
  pub add_peer : MacAddress → ℕ → T → T × TransportError
  pub remove_peer : MacAddress → T → T × TransportError
  pub has_peer : MacAddress → T → Bool

-- `sent` is what has gone out on the air so far, oldest first. Channels 1 to 13 can be set, a
-- payload within the limit is sent, and managing peers sends nothing and changes no channel.
pub record IsTransport {T : Type 0} (tr : Transport T) : Type 0 where
  pub sent : T → List (MacAddress × List ℕ)
  pub sent-send :
      (m : MacAddress) (b : List ℕ) (t : T)
      → length b ≤ transport_max_payload
      → sent (tr.send m b t).0 ≡ sent t ++ (m, b) ∷ []
  pub sent-set_channel : (c : ℕ) (t : T) → sent (tr.set_channel c t).0 ≡ sent t
  pub sent-add_peer : (m : MacAddress) (c : ℕ) (t : T) → sent (tr.add_peer m c t).0 ≡ sent t
  pub sent-remove_peer : (m : MacAddress) (t : T) → sent (tr.remove_peer m t).0 ≡ sent t
  pub channel-set_channel :
      (c : ℕ) (t : T) → 1 ≤ c → c ≤ 13 → tr.get_channel (tr.set_channel c t).0 ≡ c
  pub channel-send :
      (m : MacAddress) (b : List ℕ) (t : T) → tr.get_channel (tr.send m b t).0 ≡ tr.get_channel t
  pub channel-add_peer :
      (m : MacAddress) (c : ℕ) (t : T) → tr.get_channel (tr.add_peer m c t).0 ≡ tr.get_channel t
  pub channel-remove_peer :
      (m : MacAddress) (t : T) → tr.get_channel (tr.remove_peer m t).0 ≡ tr.get_channel t
