-- ===== src/Http/Server/Operations.antt =====
-- What holds of a server whatever calls are made of it.
use ungula_lib_net.Base.{
  ℕ, zero, suc, ◌≤◌, ◌≡◌, false, List, [], ◌∷◌, ◌++◌, Option, arith, length, get_or, length-append,
}
use ungula_lib_net.Http.Httpd.{Method, Frame, text, ping, Httpd}
use ungula_lib_net.Http.Server.{
  max_routes, max_ws_clients, HttpServer, has_fd, remove_fd, route, set_not_found_handler,
  httpd_ws_connect, httpd_ws_disconnect, Received, not_received, close_frame, other_frame, on_frame,
  on_ws_request, on_close, start, stop, ready, enable_web_socket, ws_send_one, ws_send_down,
  ws_send_all, ws_broadcast, ws_ping,
}
use ungula_lib_net.Http.Server.Delivery.{IsDistinct, remove_fd-IsDistinct}

-- A call of the server's interface, or of the callbacks that httpd makes of it.
pub data Op (H : Type 0) : Type 0 where
  start_op : ℕ → Op H
  stop_op ready_op ping_op : Op H
  route_op : Method → List ℕ → H → Op H
  not_found_op : Option H → Op H
  enable_op broadcast_op : List ℕ → Op H
  ws_request_op : Method → Received → ℕ → Op H
  close_op : ℕ → Op H

module _ {H D : Type 0} ⦃h : Httpd D⦄ where
  unfoldable pub apply : HttpServer H D → Op H → HttpServer H D
  unfolding start stop ready route set_not_found_handler enable_web_socket ws_broadcast ws_ping
      on_ws_request on_close
  apply s (start_op port) = (start port s).0
  apply s stop_op = stop s
  apply s ready_op = ready s
  apply s ping_op = (ws_ping s).0
  apply s (route_op m path handler) = route m path handler s
  apply s (not_found_op handler) = set_not_found_handler handler s
  apply s (enable_op path) = (enable_web_socket path s).0
  apply s (broadcast_op bytes) = (ws_broadcast bytes s).0
  apply s (ws_request_op m received fd) = (on_ws_request m received fd s).0
  apply s (close_op fd) = on_close fd s

  unfoldable pub apply_all : HttpServer H D → List (Op H) → HttpServer H D
  unfolding apply
  apply_all s [] = s
  apply_all s (o ∷ os) = apply_all (apply s o) os

-- The tables are within their arrays, and no WebSocket client is listed twice.
pub record IsBounded {H D : Type 0} (s : HttpServer H D) : Type 0 where
  pub clients : length s.ws_client_fds ≤ max_ws_clients
  pub distinct : IsDistinct s.ws_client_fds
  pub routes : length s.routes ≤ max_routes

has_fd-append :
    (x y : ℕ) (xs : List ℕ)
    → has_fd x xs ≡ false
    → has_fd y xs ≡ false
    → has_fd y (x ∷ []) ≡ false
    → has_fd y (xs ++ x ∷ []) ≡ false
unfolding has_fd
has_fd-append x y [] h g e = e
has_fd-append x y (z ∷ xs) h g e = ground (arith, has_fd-append x y xs)

append-IsDistinct :
    (x : ℕ) (xs : List ℕ) → has_fd x xs ≡ false → IsDistinct xs → IsDistinct (xs ++ x ∷ [])
unfolding has_fd
append-IsDistinct x [] h d = ground arith
append-IsDistinct x (z ∷ xs) h d = ground (arith, append-IsDistinct x xs, has_fd-append x z xs)

remove_fd-length : (y : ℕ) (xs : List ℕ) → length (remove_fd y xs) ≤ length xs
unfolding remove_fd
remove_fd-length y [] = omega arith
remove_fd-length y (x ∷ xs) = ground (arith, remove_fd-length y xs)

module _ {H D : Type 0} ⦃h : Httpd D⦄ where
  disconnect-IsBounded :
      (fd : ℕ) (s : HttpServer H D) → IsBounded s → IsBounded (httpd_ws_disconnect fd s)
  unfolding httpd_ws_disconnect
  disconnect-IsBounded fd s v = record {
    clients = omega (arith, remove_fd-length fd s.ws_client_fds, v.clients);
    distinct = remove_fd-IsDistinct fd s.ws_client_fds v.distinct;
    routes = v.routes;
  }

  connect-IsBounded :
      (fd : ℕ) (s : HttpServer H D) → IsBounded s → IsBounded (httpd_ws_connect fd s)
  unfolding httpd_ws_connect
  connect-IsBounded fd s v =
      ground (arith, append-IsDistinct fd s.ws_client_fds, length-append s.ws_client_fds (fd ∷ []))

  route-IsBounded :
      (m : Method) (path : List ℕ) (handler : H) (s : HttpServer H D)
      → IsBounded s
      → IsBounded (route m path handler s)
  unfolding route
  route-IsBounded m path handler s v =
      ground
        (arith, length-append s.routes (record { method = m; path = path; handler = handler } ∷ []))

  send_one-IsBounded :
      (f : Frame) (n : ℕ) (r : HttpServer H D × ℕ) → IsBounded r.0 → IsBounded (ws_send_one f n r).0
  unfolding ws_send_one httpd_ws_disconnect
  send_one-IsBounded f n r v =
      ground (arith, disconnect-IsBounded (get_or r.0.ws_client_fds n 0) r.0 v)

  send_down-IsBounded :
      (f : Frame) (n : ℕ) (r : HttpServer H D × ℕ)
      → IsBounded r.0
      → IsBounded (ws_send_down f n r).0
  unfolding ws_send_down
  send_down-IsBounded f zero r v = v
  send_down-IsBounded f (suc n) r v =
      send_down-IsBounded f n (ws_send_one f n r) (send_one-IsBounded f n r v)

  send_all-IsBounded :
      (f : Frame) (s : HttpServer H D) → IsBounded s → IsBounded (ws_send_all f s).0
  unfolding ws_send_all
  send_all-IsBounded f s v = ground (arith, send_down-IsBounded f (length s.ws_client_fds) (s, 0) v)

  frame-IsBounded :
      (received : Received) (fd : ℕ) (s : HttpServer H D)
      → IsBounded s
      → IsBounded (on_frame received fd s).0
  unfolding on_frame
  frame-IsBounded not_received fd s v = v
  frame-IsBounded close_frame fd s v = disconnect-IsBounded fd s v
  frame-IsBounded other_frame fd s v = v

  request-IsBounded :
      (m : Method) (received : Received) (fd : ℕ) (s : HttpServer H D)
      → IsBounded s
      → IsBounded (on_ws_request m received fd s).0
  unfolding on_ws_request
  request-IsBounded m received fd s v =
      ground (arith, connect-IsBounded fd s v, frame-IsBounded received fd s v)

  apply-IsBounded : (s : HttpServer H D) (o : Op H) → IsBounded s → IsBounded (apply s o)
  unfolding apply on_close
  apply-IsBounded s (start_op port) v = ground arith
  apply-IsBounded s stop_op v = ground arith
  apply-IsBounded s ready_op v = ground arith
  apply-IsBounded s ping_op v = send_all-IsBounded ping s v
  apply-IsBounded s (route_op m path handler) v = route-IsBounded m path handler s v
  apply-IsBounded s (not_found_op handler) v = ground arith
  apply-IsBounded s (enable_op path) v = ground arith
  apply-IsBounded s (broadcast_op bytes) v = send_all-IsBounded (text bytes) s v
  apply-IsBounded s (ws_request_op m received fd) v = request-IsBounded m received fd s v
  apply-IsBounded s (close_op fd) v = ground (arith, disconnect-IsBounded fd s v)

  -- Whatever calls are made of a server, and whatever httpd answers, the route table and the client
  -- table stay within their arrays, and no client is listed twice.
  pub apply_all-IsBounded :
      (s : HttpServer H D) (os : List (Op H)) → IsBounded s → IsBounded (apply_all s os)
  unfolding apply_all
  apply_all-IsBounded s [] v = v
  apply_all-IsBounded s (o ∷ os) v = apply_all-IsBounded (apply s o) os (apply-IsBounded s o v)
