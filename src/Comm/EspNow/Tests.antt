-- ===== src/Comm/EspNow/Tests.antt =====
-- The theorems about EspNowTransport at concrete inputs, over a chip whose calls succeed.
use ungula_lib_net.Base.{
  ℕ, ◌≡◌, ◌↔◌, refl, Bool, true, false, List, [], ◌∷◌, ◌++◌, Option, none, some, arith,
  if◌then◌else◌,
}
use ungula_lib_net.Comm.Types.{MacAddress, ◌==mac◌, ==mac_refl, ok, cleared}
use ungula_lib_net.Comm.Transport.{IsTransport}
use ungula_lib_net.Comm.EspNow.{Esp, EspNowTransport, init}
use ungula_lib_net.Comm.EspNow.Contract.{IsRadio, started_transport, started_transport-IsTransport}
use ungula_lib_net.Comm.EspNow.Lifecycle.{IsEsp, init-AllOrNothing}

record Chip : Type 0 where
  channel : ℕ
  running : Bool
  peers : List (MacAddress × ℕ)
  air : List (MacAddress × List ℕ)

abbrev look_up : MacAddress → List (MacAddress × ℕ) → Option ℕ
look_up m [] = none
look_up m ((k, c) ∷ ps) = if k ==mac m then some c else look_up m ps

abbrev without : MacAddress → List (MacAddress × ℕ) → List (MacAddress × ℕ)
without m [] = []
without m ((k, c) ∷ ps) = let rest = without m ps in if k ==mac m then rest else (k, c) ∷ rest

abbrev known : Option ℕ → Bool
known none = false
known (some c) = true

instance abbrev chip : Esp Chip
chip = record {
  get_mac = λ d. some (2 ∷ 0 ∷ 0 ∷ 0 ∷ 0 ∷ 7 ∷ []);
  now_init = λ d. (record d { running = true }, true);
  now_deinit = λ d. record d { running = false };
  register_recv_cb = λ d. (d, true);
  register_send_cb = λ d. (d, true);
  now_send = λ m b d. (record d { air = d.air ++ (m, b) ∷ [] }, true);
  wifi_set_channel = λ c d. (record d { channel = c }, true);
  wifi_get_channel = λ d. d.channel;
  is_peer_exist = λ m d. known (look_up m d.peers);
  get_peer = λ m d. look_up m d.peers;
  mod_peer = λ m c d. (record d { peers = (m, c) ∷ d.peers }, true);
  now_add_peer = λ m c d. (record d { peers = (m, c) ∷ d.peers }, true);
  del_peer = λ m d. (record d { peers = without m d.peers }, true);
}

look_up-without : (m : MacAddress) (ps : List (MacAddress × ℕ)) → look_up m (without m ps) ≡ none
look_up-without m [] = refl
look_up-without m ((k, c) ∷ ps) = ground (arith, look_up-without m ps)

look_up-new :
    (m : MacAddress) (c : ℕ) (ps : List (MacAddress × ℕ)) → look_up m ((m, c) ∷ ps) ≡ some c
look_up-new m c ps = rw (==mac_refl m) refl

known_lem : (o : Option ℕ) → (known o ≡ false) ↔ (o ≡ none)
known_lem none = ground arith
known_lem (some c) = ground arith

chip-IsRadio : IsRadio chip
chip-IsRadio = record {
  air = λ d. d.air;
  air-now_send = λ m b d. refl;
  air-wifi_set_channel = λ c d. refl;
  air-mod_peer = λ m c d. refl;
  air-now_add_peer = λ m c d. refl;
  air-del_peer = λ m d. refl;
  channel-wifi_set_channel = λ c d low high. refl;
  channel-now_send = λ m b d. refl;
  channel-mod_peer = λ m c d. refl;
  channel-now_add_peer = λ m c d. refl;
  channel-del_peer = λ m d. refl;
}

chip-IsEsp : IsEsp chip
chip-IsEsp = record {
  up = λ d. d.running;
  up-now_init = λ d. refl;
  up-now_deinit = λ d. refl;
  up-register_recv_cb = λ d. refl;
  up-register_send_cb = λ d. refl;
  exist_lem = λ m d. known_lem (look_up m d.peers);
  get-mod = λ m c d done. look_up-new m c d.peers;
  get-add = λ m c d done. look_up-new m c d.peers;
  get-del = λ m d done. look_up-without m d.peers;
}

abbrev off : EspNowTransport Chip
off = record {
  esp = record { channel = 1; running = false; peers = []; air = [] };
  initialized = false;
  own_mac = cleared;
  recv_cb = false;
  send_cb = false;
}

started_transport-IsTransport_example : IsTransport (started_transport {D = Chip} ⦃e = chip⦄)
started_transport-IsTransport_example = started_transport-IsTransport ⦃e = chip⦄ chip-IsRadio

init-AllOrNothing_example : init (init off).0 ≡ ((init off).0, ok)
unfolding init chip-IsEsp
init-AllOrNothing_example = ((init-AllOrNothing chip-IsEsp off refl refl).1 refl).0
