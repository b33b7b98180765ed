-- ===== src/Http/Server/Methods.antt =====
-- Which methods of a request can reach the handlers of a server.
use ungula_lib_net.Base.{
  ℕ, zero, suc, ◌≡◌, ◌≢◌, refl, sym, ◌∙◌, List, [], ◌∷◌, arith, All, get_or, Bool-cases, inl, inr,
  subst, length,
}
use ungula_lib_net.Http.Httpd.{
  Method, get, post, put, delete, Uri, Frame, text, ping, Httpd, IsHttpd, ws_handler,
}
use ungula_lib_net.Http.Server.{
  wildcard, HttpServer, Received, not_received, close_frame, other_frame, on_frame, on_ws_request,
  httpd_ws_connect, httpd_ws_disconnect, on_close, start, stop, ready, enable_web_socket,
  ws_send_one, ws_send_down, ws_send_all,
}
use ungula_lib_net.Http.Server.Operations.{
  Op, apply, apply_all, start_op, stop_op, ready_op, ping_op, route_op, not_found_op, enable_op,
  broadcast_op, ws_request_op, close_op,
}

-- No URI is registered for DELETE.
abbrev pub NoDelete : List Uri → Type 0
NoDelete us = All (λ u. u.method ≢ delete) us

get≢delete : get ≢ delete
get≢delete e = cc

post≢delete : post ≢ delete
post≢delete e = cc

put≢delete : put ≢ delete
put≢delete e = cc

module _ {D : Type 0} ⦃h : Httpd D⦄ (laws : IsHttpd h) where
  register-NoDelete :
      (u : Uri) (d : D)
      → u.method ≢ delete
      → NoDelete (laws.uris d)
      → NoDelete (laws.uris (h.register u d).0)
  register-NoDelete u d other v = elim (laws.uris-register u d) [
    | inl more ↦ subst NoDelete (sym more) (other, v)
    | inr same ↦ subst NoDelete (sym same) v
  ]

  module _ {H : Type 0} where
    send_one_uris :
        (f : Frame) (n : ℕ) (r : HttpServer H D × ℕ)
        → laws.uris (ws_send_one f n r).0.httpd ≡ laws.uris r.0.httpd
    unfolding ws_send_one
    send_one_uris f n r =
        ground (arith, laws.uris-ws_send (get_or r.0.ws_client_fds n 0) f r.0.httpd)

    send_down_uris :
        (f : Frame) (n : ℕ) (r : HttpServer H D × ℕ)
        → laws.uris (ws_send_down f n r).0.httpd ≡ laws.uris r.0.httpd
    unfolding ws_send_down
    send_down_uris f zero r = refl
    send_down_uris f (suc n) r = send_down_uris f n (ws_send_one f n r) ∙ send_one_uris f n r

    send_all_uris :
        (f : Frame) (s : HttpServer H D) → laws.uris (ws_send_all f s).0.httpd ≡ laws.uris s.httpd
    unfolding ws_send_all
    send_all_uris f s = ground (arith, send_down_uris f (length s.ws_client_fds) (s, 0))

    frame_uris :
        (received : Received) (fd : ℕ) (s : HttpServer H D)
        → laws.uris (on_frame received fd s).0.httpd ≡ laws.uris s.httpd
    unfolding on_frame httpd_ws_disconnect
    frame_uris not_received fd s = refl
    frame_uris close_frame fd s = refl
    frame_uris other_frame fd s = refl

    request_uris :
        (m : Method) (received : Received) (fd : ℕ) (s : HttpServer H D)
        → laws.uris (on_ws_request m received fd s).0.httpd ≡ laws.uris s.httpd
    unfolding on_ws_request httpd_ws_connect
    request_uris m received fd s = ground (arith, frame_uris received fd s)

    abbrev Serves : HttpServer H D → Type 0
    Serves s = NoDelete (laws.uris s.httpd)

    start-NoDelete : (port : ℕ) (s : HttpServer H D) → Serves s → Serves (start port s).0
    unfolding start
    start-NoDelete port s v = elim (Bool-cases s.running) [
      | inl on ↦ rw on v
      | inr off ↦ rw off (subst NoDelete (sym (laws.uris-start port s.httpd)) tt)
    ]

    stop-NoDelete : (s : HttpServer H D) → Serves s → Serves (stop s)
    unfolding stop
    stop-NoDelete s v = elim (Bool-cases s.running) [
      | inl on ↦ rw on (subst NoDelete (sym (laws.uris-stop s.httpd)) tt)
      | inr off ↦ rw off v
    ]

    ready-NoDelete : (s : HttpServer H D) → Serves s → Serves (ready s)
    unfolding ready
    ready-NoDelete s v = elim (Bool-cases s.running) [
      | inl on ↦
          let d1 = (h.register (wildcard get) s.httpd).0 in
          let d2 = (h.register (wildcard post) d1).0 in
          rw on (
            register-NoDelete (wildcard put) d2 put≢delete (
              register-NoDelete (wildcard post) d1 post≢delete
                (register-NoDelete (wildcard get) s.httpd get≢delete v)))
      | inr off ↦ rw off v
    ]

    enable-NoDelete :
        (path : List ℕ) (s : HttpServer H D) → Serves s → Serves (enable_web_socket path s).0
    unfolding enable_web_socket
    enable-NoDelete path s v = elim (Bool-cases s.running) [
      | inl on ↦ rw on (
          register-NoDelete (record { path = path; method = get; handler = ws_handler }) s.httpd
            get≢delete v)
      | inr off ↦ rw off v
    ]

    apply-NoDelete : (s : HttpServer H D) (o : Op H) → Serves s → Serves (apply s o)
    unfolding apply on_close httpd_ws_disconnect
    apply-NoDelete s (start_op port) v = start-NoDelete port s v
    apply-NoDelete s stop_op v = stop-NoDelete s v
    apply-NoDelete s ready_op v = ready-NoDelete s v
    apply-NoDelete s ping_op v = subst NoDelete (sym (send_all_uris ping s)) v
    apply-NoDelete s (route_op m path handler) v = ground arith
    apply-NoDelete s (not_found_op handler) v = v
    apply-NoDelete s (enable_op path) v = enable-NoDelete path s v
    apply-NoDelete s (broadcast_op bytes) v = subst NoDelete (sym (send_all_uris (text bytes) s)) v
    apply-NoDelete s (ws_request_op m received fd) v =
        subst NoDelete (sym (request_uris m received fd s)) v
    apply-NoDelete s (close_op fd) v = ground arith

    -- Whatever calls are made of a server for which no URI is registered for DELETE, none ever is: a
    -- route for DELETE can be added to the table, and no request can reach it.
    pub delete_unreachable :
        (s : HttpServer H D) (os : List (Op H))
        → NoDelete (laws.uris s.httpd)
        → NoDelete (laws.uris (apply_all s os).httpd)
    unfolding apply_all
    delete_unreachable s [] v = v
    delete_unreachable s (o ∷ os) v = delete_unreachable (apply s o) os (apply-NoDelete s o v)
