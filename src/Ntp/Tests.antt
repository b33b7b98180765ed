-- ===== src/Ntp/Tests.antt =====
-- Runs of an NTP client at concrete inputs, over a service that counts its servers.
use ungula_lib_net.Base.{ℕ, suc, ◌≡◌, refl, Bool, true, false, List, [], ◌∷◌, none, some, arith}
use ungula_lib_net.Ntp.{pos, negsuc, NtpConfig, Sntp, NtpClient, ntp_local_epoch, ntp_format_local}
use ungula_lib_net.Calendar.{gmtime, strftime}
use ungula_lib_net.Ntp.Format.{Denotes, ntp_format_local-Denotes}
use ungula_lib_net.Ntp.Runs.{start, stop, IsSntp, force, step_force, run, run-Reads}

record Service : Type 0 where
  running : Bool
  servers : ℕ
  interval : ℕ

instance abbrev service : Sntp Service
service = record {
  set_poll_mode = λ d. d;
  set_server_name = λ slot name d. record d { servers = suc d.servers };
  set_sync_interval = λ ms d. record d { interval = ms };
  sntp_init = λ d. record d { running = true };
  sntp_stop = λ d. record d { running = false };
}

service-IsSntp : IsSntp service
service-IsSntp = record { up = λ d. d.running; up-sntp_init = λ d. refl; up-sntp_stop = λ d. refl }

abbrev client : NtpClient Service
client = record {
  sntp = record { running = false; servers = 0; interval = 0 };
  utc_offset = pos 0;
  initialised = false;
}

-- Five hours west, without a fallback server, and an hour east.
abbrev west : NtpConfig
west = record {
  server = 97 ∷ [];
  fallback_server = none;
  utc_offset_seconds = negsuc 17999;
  sync_interval_sec = 3600;
}

abbrev east : NtpConfig
east = record {
  server = 97 ∷ [];
  fallback_server = some (98 ∷ []);
  utc_offset_seconds = pos 3600;
  sync_interval_sec = 3600;
}

run-Reads_example :
    ntp_local_epoch 1700000000 (run client (start east ∷ stop ∷ start west ∷ start east ∷ []))
    ≡ pos 1699982000
unfolding service-IsSntp force step_force
run-Reads_example =
    (run-Reads service-IsSntp (start east ∷ stop ∷ start west ∷ start east ∷ []) 1700000000 client
        refl refl).2
      (omega arith)

-- The client five hours west of UTC, and "2023-11-14 17:13:20".
abbrev west_client : NtpClient Service
west_client = record client { utc_offset = negsuc 17999; initialised = true }

abbrev evening : List ℕ
evening =
    50 ∷ 48 ∷ 50 ∷ 51 ∷ 45 ∷ 49 ∷ 49 ∷ 45 ∷ 49 ∷ 52 ∷ 32 ∷ 49 ∷ 55 ∷ 58 ∷ 49 ∷ 51 ∷ 58 ∷ 50 ∷ 48
    ∷ []

evening_text : ntp_format_local 20 1700000000 west_client ≡ evening
unfolding ntp_format_local ntp_local_epoch gmtime strftime
evening_text = refl

ntp_format_local-Denotes_example :
    Denotes (ntp_format_local 20 1700000000 west_client) (pos 1699982000)
unfolding gmtime
ntp_format_local-Denotes_example =
    (ntp_format_local-Denotes 20 1700000000 west_client (omega arith) (λ e. cc e) (omega arith)).0
      (omega arith) (omega arith)
