-- ===== src/Http/Response/Tests.antt =====
-- What handlers send, at concrete inputs.
use ungula_lib_net.Base.{
  ℕ, ◌≡◌, refl, true, false, List, [], ◌∷◌, none, some, arith, length, if◌then◌else◌,
}
use ungula_lib_net.Http.Httpd.{get}
use ungula_lib_net.Http.Server.{HttpServer}
use ungula_lib_net.Http.Request.{Param, has_param, param, parse_query_params}
use ungula_lib_net.Http.Request.Query.{print_query}
use ungula_lib_net.Http.Client.{http_result}
use ungula_lib_net.Http.Response.{send, send_json, Handler, known, serve}
use ungula_lib_net.Http.Response.Answers.{
  status_number, answered_once, query_reaches_handler, success_exactly,
}

-- A handler that answers 400 unless the request has the parameter "k".
abbrev handler : Handler
handler r = send_json (if has_param (107 ∷ []) r.params then 200 else 400) none ∷ []

abbrev server : HttpServer Handler ℕ
server = record {
  httpd = 0;
  running = true;
  routes = record { method = get; path = 47 ∷ []; handler = handler } ∷ [];
  not_found_handler = none;
  ws_client_fds = [];
  ws_enabled = false;
}

answered_once_example : length (serve (known get) (47 ∷ 120 ∷ []) none 0 (λ n. []) server).1 ≡ 1
answered_once_example =
    ((answered_once get (47 ∷ 120 ∷ []) none 0 (λ n. []) server (λ r. refl, tt) tt).0 refl).1

-- "a=1&k=2"
abbrev params : List Param
params =
    record { name = 97 ∷ []; value = 49 ∷ [] } ∷ record { name = 107 ∷ []; value = 50 ∷ [] } ∷ []

query_reaches_handler_example :
    param (107 ∷ []) (parse_query_params (some (print_query params))) ≡ 50 ∷ []
query_reaches_handler_example =
    ((query_reaches_handler params (omega arith) (ground arith) (omega arith)).0
      (record { name = 97 ∷ []; value = 49 ∷ [] } ∷ []) []
      (record { name = 107 ∷ []; value = 50 ∷ [] }) refl (λ e. absurd (ground (arith, e)), tt)).1

-- A handler that sends 503.
success_exactly_example :
    (http_result (record {
      created = true;
      pieces = [];
      performed = true;
      status = status_number (send 503 [] (some [])).status;
    })).success
    ≡ true
success_exactly_example =
    (success_exactly 503 [] [] []).1 (
      λ e. absurd (omega (arith, e)),
      λ e. absurd (omega (arith, e)),
      λ e. absurd (omega (arith, e)),
    )
