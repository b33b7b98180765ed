-- ===== src/Http/Tests.antt =====
-- The theorems about HTTP at concrete inputs, over an httpd that cannot reach client 5.
use ungula_lib_net.Base.{
  ap, ℕ, zero, suc, ◌≤◌, ◌≡◌, refl, inl, true, not, List, [], ◌∷◌, none, some, arith, length, ◌==◌,
}
use ungula_lib_net.Http.Client.{http_result}
use ungula_lib_net.Http.Client.Transfer.{result_of_exchange}
use ungula_lib_net.Http.Httpd.{get, post, delete, Uri, Frame, Httpd, IsHttpd}
use ungula_lib_net.Http.Request.{Param, generic_handler, build_request}
use ungula_lib_net.Http.Request.Query.{request_bounded}
use ungula_lib_net.Http.Server.{
  Route, HttpServer, has_fd, dispatch, find_handler, request_path, before_query, strcmp_eq,
  ws_broadcast, not_received, close_frame,
}
use ungula_lib_net.Http.Server.Delivery.{IsDistinct, broadcast_delivers}
use ungula_lib_net.Http.Server.Operations.{
  Op, apply_all, ready_op, route_op, enable_op, broadcast_op, ws_request_op, close_op, IsBounded,
  apply_all-IsBounded,
}
use ungula_lib_net.Http.Server.Routing.{route_all, this, later, request_served}

record Web : Type 0 where
  uris : List Uri
  frames : List (ℕ × Frame)

instance abbrev web : Httpd Web
web = record {
  start = λ port d. (record d { uris = [] }, true);
  stop = λ d. record d { uris = [] };
  register = λ u d. (record d { uris = u ∷ d.uris }, true);
  ws_send = λ fd f d. (record d { frames = (fd, f) ∷ d.frames }, not (fd == 5));
}

web-IsHttpd : IsHttpd web
web-IsHttpd = record {
  uris = λ d. d.uris;
  uris-start = λ port d. refl;
  uris-stop = λ d. refl;
  uris-register = λ u d. inl refl;
  uris-ws_send = λ fd f d. refl;
}

-- A handler is a number.
abbrev server : HttpServer ℕ Web
server = record {
  httpd = record { uris = []; frames = [] };
  running = true;
  routes = [];
  not_found_handler = some 404;
  ws_client_fds = 3 ∷ 5 ∷ 7 ∷ [];
  ws_enabled = true;
}

distinct : IsDistinct server.ws_client_fds
unfolding has_fd
distinct = (refl, (refl, (refl, tt)))

broadcast_delivers_example : (ws_broadcast (104 ∷ 105 ∷ []) server).1 ≡ 2
unfolding ws_broadcast
broadcast_delivers_example =
    ap (λ r. r.1) ((broadcast_delivers server (104 ∷ 105 ∷ []) distinct refl).0)

abbrev calls : List (Op ℕ)
calls =
    ws_request_op get not_received 9
    ∷ ws_request_op get not_received 11
    ∷ ws_request_op post close_frame 7
    ∷ broadcast_op (65 ∷ [])
    ∷ close_op 3
    ∷ route_op delete (47 ∷ []) 1
    ∷ ready_op
    ∷ enable_op (47 ∷ 119 ∷ 115 ∷ [])
    ∷ []

apply_all-IsBounded_example : IsBounded (apply_all server calls)
apply_all-IsBounded_example =
    apply_all-IsBounded server calls
      (record { clients = omega arith; distinct = distinct; routes = omega arith })

-- "/a" is served by 1, and "/b" by 2 on GET and by 3 on POST.
abbrev routes : List (Route ℕ)
routes =
    record { method = get; path = 47 ∷ 97 ∷ []; handler = 1 }
    ∷ record { method = get; path = 47 ∷ 98 ∷ []; handler = 2 }
    ∷ record { method = post; path = 47 ∷ 98 ∷ []; handler = 3 }
    ∷ []

-- GET "/b?x".
request_served_example : dispatch get (47 ∷ 98 ∷ 63 ∷ 120 ∷ []) (route_all routes server) ≡ some 2
unfolding request_path before_query
request_served_example =
    (request_served routes server get (47 ∷ 98 ∷ 63 ∷ 120 ∷ []) refl).0
      (record { method = get; path = 47 ∷ 98 ∷ []; handler = 2 })
      (later (λ e. absurd (ground (arith, e.1))) (this (refl, refl)))

-- "k=v" and "x=".
abbrev params : List Param
params = record { name = 107 ∷ []; value = 118 ∷ [] } ∷ record { name = 120 ∷ []; value = [] } ∷ []

abbrev incoming : ℕ → List ℕ
incoming zero = []
incoming (suc n) = 1 ∷ []

incoming-short : (n : ℕ) → length (incoming n) ≤ n
incoming-short zero = omega arith
incoming-short (suc n) = omega arith

request_bounded_example : length (build_request post (47 ∷ 98 ∷ []) none 20 incoming).uri ≤ 95
unfolding generic_handler dispatch find_handler request_path before_query strcmp_eq build_request
request_bounded_example =
    (request_bounded post (47 ∷ 98 ∷ []) none 20 incoming (record server { routes = routes }) 3
      (build_request post (47 ∷ 98 ∷ []) none 20 incoming) incoming-short refl).2

result_of_exchange_example :
    (http_result (record {
      created = true;
      pieces = (1 ∷ 2 ∷ []) ∷ (3 ∷ []) ∷ [];
      performed = true;
      status = 204;
    })).body
    ≡ 1 ∷ 2 ∷ 3 ∷ []
result_of_exchange_example =
    (result_of_exchange
      (record {
        created = true;
        pieces = (1 ∷ 2 ∷ []) ∷ (3 ∷ []) ∷ [];
        performed = true;
        status = 204;
      })
      (2 ∷ 3 ∷ [])).0
