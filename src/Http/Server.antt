-- ===== src/Http/Server.antt =====
-- src/http/http_server.h and http_server.cpp: class HttpServer, over any httpd and with handlers of
-- any type `H`. Log output is left out.
pub mod Delivery
pub mod Operations
pub mod Methods
pub mod Routing
use ungula_lib_net.Base.{
  ℕ, zero, suc, Bool, true, false, not, ◌&&◌, ◌||◌, List, [], ◌∷◌, ◌++◌, Option, none, some, ltb,
  leb, ◌==◌, if◌then◌else◌, length, get_or, take,
}
use ungula_lib_net.Http.Httpd.{
  Method, get, post, put, delete, Uri, generic_handler, ws_handler, Frame, text, ping, Httpd,
}

abbrev pub max_routes : ℕ
max_routes = 40

abbrev pub max_ws_clients : ℕ
max_ws_clients = 4

pub record Route (H : Type 0) : Type 0 where
  pub method : Method
  pub path : List ℕ
  pub handler : H

-- `running` is `impl_ != nullptr`; `routes` and `ws_client_fds` are the arrays' first `routeCount_`
-- and `wsClientCount_` entries.
pub record HttpServer (H D : Type 0) : Type 0 where
  pub httpd : D
  pub running : Bool
  pub routes : List (Route H)
  pub not_found_handler : Option H
  pub ws_client_fds : List ℕ
  pub ws_enabled : Bool

abbrev pub ==method : Method → Method → Bool
==method get get = true
==method post post = true
==method put put = true
==method delete delete = true
==method _ _ = false

-- `strcmp(a, b) == 0`.
unfoldable pub strcmp_eq : List ℕ → List ℕ → Bool
strcmp_eq [] [] = true
strcmp_eq (x ∷ xs) (y ∷ ys) = x == y && strcmp_eq xs ys
strcmp_eq _ _ = false

-- The searches over the client table and over the routes.
unfoldable pub has_fd : ℕ → List ℕ → Bool
has_fd fd [] = false
has_fd fd (x ∷ xs) = x == fd || has_fd fd xs

unfoldable pub remove_fd : ℕ → List ℕ → List ℕ
remove_fd fd [] = []
remove_fd fd (x ∷ xs) = let rest = remove_fd fd xs in if x == fd then xs else x ∷ rest

unfoldable pub find_handler : {H : Type 0} → Method → List ℕ → List (Route H) → Option H
unfolding strcmp_eq
find_handler m path [] = none
find_handler m path (r ∷ rs) =
    if ==method r.method m && strcmp_eq r.path path then some r.handler else find_handler m path rs

-- The bytes of a URI before its first '?'.
unfoldable pub before_query : List ℕ → List ℕ
before_query [] = []
before_query (c ∷ cs) = let rest = before_query cs in if c == 63 then [] else c ∷ rest

-- `path` of `generic_handler`, a buffer of 128 bytes.
unfoldable pub request_path : List ℕ → List ℕ
unfolding before_query
request_path uri = take 127 (before_query uri)

module _ {H D : Type 0} where
  unfoldable pub route : Method → List ℕ → H → HttpServer H D → HttpServer H D
  route m path handler s = if leb max_routes (length s.routes) then s else record s {
    routes = s.routes ++ record { method = m; path = path; handler = handler } ∷ [];
  }

  unfoldable pub set_not_found_handler : Option H → HttpServer H D → HttpServer H D
  set_not_found_handler h s = record s { not_found_handler = h }

  -- The handler that `generic_handler` calls, or `none` where it answers 404 itself.
  unfoldable pub dispatch : Method → List ℕ → HttpServer H D → Option H
  unfolding find_handler request_path
  dispatch m uri s = elim (find_handler m (request_path uri) s.routes) [
    | some h ↦ some h
    | none ↦ s.not_found_handler
  ]

  unfoldable pub httpd_ws_connect : ℕ → HttpServer H D → HttpServer H D
  unfolding has_fd
  httpd_ws_connect fd s =
      if leb max_ws_clients (length s.ws_client_fds) || has_fd fd s.ws_client_fds
      then s
      else record s { ws_client_fds = s.ws_client_fds ++ fd ∷ [] }

  unfoldable pub httpd_ws_disconnect : ℕ → HttpServer H D → HttpServer H D
  unfolding remove_fd
  httpd_ws_disconnect fd s = record s { ws_client_fds = remove_fd fd s.ws_client_fds }

-- The frame that `httpd_ws_recv_frame` finds: an error, a close frame or another frame.
pub data Received : Type 0 where
  not_received close_frame other_frame : Received

module _ {H D : Type 0} where
  -- What `ws_handler` does with it; the payload of another frame is read and dropped.
  unfoldable pub on_frame : Received → ℕ → HttpServer H D → HttpServer H D × Bool
  unfolding httpd_ws_disconnect
  on_frame not_received fd s = (s, false)
  on_frame close_frame fd s = (httpd_ws_disconnect fd s, true)
  on_frame other_frame fd s = (s, true)

  -- The function `ws_handler`, for a request on socket `fd`; `s_instance` is the server that runs.
  unfoldable pub on_ws_request : Method → Received → ℕ → HttpServer H D → HttpServer H D × Bool
  unfolding httpd_ws_connect on_frame
  on_ws_request m received fd s =
      if not s.running
      then (s, false)
      else if ==method m get
      then (httpd_ws_connect fd s, true)
      else on_frame received fd s

  -- The socket itself is closed as well.
  unfoldable pub on_close : ℕ → HttpServer H D → HttpServer H D
  unfolding httpd_ws_disconnect
  on_close fd s = if s.running then httpd_ws_disconnect fd s else s

-- The catch-all "/*".
abbrev pub wildcard : Method → Uri
wildcard m = record { path = 47 ∷ 42 ∷ []; method = m; handler = generic_handler }

module _ {H D : Type 0} ⦃h : Httpd D⦄ where
  unfoldable pub start : ℕ → HttpServer H D → HttpServer H D × Bool
  start port s =
      if s.running
      then (s, true)
      else (let (d, ok) = h.start port s.httpd in (record s { httpd = d; running = ok }, ok))

  unfoldable pub stop : HttpServer H D → HttpServer H D
  stop s =
      if s.running
      then record s { httpd = h.stop s.httpd; running = false; ws_client_fds = [] }
      else s

  unfoldable pub ready : HttpServer H D → HttpServer H D
  ready s =
      if s.running
      then (let d1 = (h.register (wildcard get) s.httpd).0 in
          let d2 = (h.register (wildcard post) d1).0 in
          record s { httpd = (h.register (wildcard put) d2).0 })
      else s

  unfoldable pub enable_web_socket : List ℕ → HttpServer H D → HttpServer H D × Bool
  enable_web_socket path s =
      if s.running
      then (let uri : Uri = record { path = path; method = get; handler = ws_handler } in
          let (d, ok) = h.register uri s.httpd in
          (record s { httpd = d; ws_enabled = s.ws_enabled || ok }, ok))
      else (s, false)

  -- One round of the loops of `wsBroadcast` and `wsPing`: a client that cannot be reached is removed.
  unfoldable pub ws_send_one : Frame → ℕ → HttpServer H D × ℕ → HttpServer H D × ℕ
  unfolding httpd_ws_disconnect
  ws_send_one f idx (s, sent) =
      let fd = get_or s.ws_client_fds idx 0 in
      let (d, ok) = h.ws_send fd f s.httpd in
      if ok
      then (record s { httpd = d }, suc sent)
      else (httpd_ws_disconnect fd (record s { httpd = d }), sent)

  -- The loop, from index `n - 1` down to 0.
  unfoldable pub ws_send_down : Frame → ℕ → HttpServer H D × ℕ → HttpServer H D × ℕ
  unfolding ws_send_one
  ws_send_down f zero r = r
  ws_send_down f (suc idx) r = ws_send_down f idx (ws_send_one f idx r)

  unfoldable pub ws_send_all : Frame → HttpServer H D → HttpServer H D × ℕ
  unfolding ws_send_down
  ws_send_all f s =
      if not s.running || length s.ws_client_fds == 0
      then (s, 0)
      else ws_send_down f (length s.ws_client_fds) (s, 0)

  unfoldable pub ws_broadcast : List ℕ → HttpServer H D → HttpServer H D × ℕ
  unfolding ws_send_all
  ws_broadcast bytes s = ws_send_all (text bytes) s

  unfoldable pub ws_ping : HttpServer H D → HttpServer H D × ℕ
  unfolding ws_send_all
  ws_ping s = ws_send_all ping s
