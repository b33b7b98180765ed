-- ===== src/Wifi/Station/Tests.antt =====
-- The theorems about the station at concrete inputs, over a WiFi that counts its calls.
use ungula_lib_net.Base.{ℕ, ◌+◌, ◌≡◌, refl, true, false, [], ◌∷◌, none, some}
use ungula_lib_net.Text.{no_ip}
use ungula_lib_net.Wifi.Station.{
  Wifi, Station, is_reconnectable_reason, start_connect, ensure_event_handler,
}
use ungula_lib_net.Wifi.Station.Retry.{disconnected, got_ip}
use ungula_lib_net.Wifi.Station.Wait.{sta_connect, sta_connect-Connects}

record Counter : Type 0 where
  connected : ℕ
  left : ℕ

instance abbrev counter : Wifi Counter
counter = record {
  set_config = λ ssid password d. (d, true);
  connect = λ d. (record d { connected = d.connected + 1 }, true);
  disconnect = λ d. record d { left = d.left + 1 };
  dns_set_server = λ slot server d. d;
  dns_info = λ d. some (5, 0);
  register_handlers = λ d. d;
  ip_info = λ d. some (record { a = 10; b = 0; c = 0; d = 7 });
}

abbrev station : Station Counter
station = record {
  wifi = record { connected = 1; left = 0 };
  connecting = true;
  auto_reconnect = true;
  first_connect = true;
  voluntary_disconnect = false;
  cached_dns_main = 9;
  cached_dns_backup = 0;
  connected_bit = false;
  fail_bit = false;
  registered = true;
  initialized = true;
  ip = no_ip;
}

-- Reason 8, then a lost beacon, then an address.
sta_connect-Connects_example :
    (sta_connect (97 ∷ []) none (disconnected 8 ∷ disconnected 200 ∷ got_ip ∷ []) station).1 ≡ true
unfolding is_reconnectable_reason start_connect ensure_event_handler
sta_connect-Connects_example =
    (sta_connect-Connects (97 ∷ []) none (disconnected 8 ∷ disconnected 200 ∷ got_ip ∷ []) station
        refl refl).0.1
      (refl, tt)
