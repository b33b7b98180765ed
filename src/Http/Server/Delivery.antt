-- ===== src/Http/Server/Delivery.antt =====
-- Broadcasts against their specification: the clients are served from the last to the first, and the
-- ones that could be served remain.
use ungula_lib_net.Base.{
  ℕ, Bool-cases, inl, inr, ◌≤◌, zero, suc, ◌<◌, ◌≡◌, refl, sym, ◌∙◌, ap, true, false, List, [], ◌∷◌,
  arith, ◌==◌, if◌then◌else◌, length, get_or,
}
use ungula_lib_net.Http.Httpd.{Frame, text, ping, Httpd}
use ungula_lib_net.Http.Server.{
  HttpServer, has_fd, remove_fd, ws_send_one, ws_send_down, ws_send_all, ws_broadcast, ws_ping,
}

-- No client is in the table twice.
abbrev pub IsDistinct : List ℕ → Type 0
IsDistinct [] = Unit {0}
IsDistinct (x ∷ xs) = (has_fd x xs ≡ false) × IsDistinct xs

pub has_fd-remove_fd :
    (x y : ℕ) (xs : List ℕ) → has_fd x xs ≡ false → has_fd x (remove_fd y xs) ≡ false
unfolding has_fd remove_fd
has_fd-remove_fd x y [] h = refl
has_fd-remove_fd x y (z ∷ xs) h = ground (arith, has_fd-remove_fd x y xs)

pub remove_fd-IsDistinct : (y : ℕ) (xs : List ℕ) → IsDistinct xs → IsDistinct (remove_fd y xs)
unfolding remove_fd
remove_fd-IsDistinct y [] d = d
remove_fd-IsDistinct y (z ∷ xs) d =
    ground (arith, remove_fd-IsDistinct y xs d.1, has_fd-remove_fd z y xs d.0)

has_fd-get_or :
    (x i : ℕ) (xs : List ℕ) → has_fd x xs ≡ false → i < length xs → (x == get_or xs i 0) ≡ false
unfolding has_fd
has_fd-get_or x i [] h l = ground arith
has_fd-get_or x zero (y ∷ xs) h l = ground arith
has_fd-get_or x (suc i) (y ∷ xs) h l = ground (arith, has_fd-get_or x i xs)

module _ {D : Type 0} ⦃h : Httpd D⦄ where
  -- The specification: the later clients first, and then this one.
  abbrev pub deliver : Frame → List ℕ → D → D × List ℕ
  deliver f [] d = (d, [])
  deliver f (x ∷ xs) d =
      let (d', kept) = deliver f xs d in
      let (d'', ok) = h.ws_send x f d' in (d'', if ok then x ∷ kept else kept)

length-remove_fd : (y : ℕ) (xs : List ℕ) → length xs ≤ suc (length (remove_fd y xs))
unfolding remove_fd
length-remove_fd y [] = omega arith
length-remove_fd y (x ∷ xs) = ground (arith, length-remove_fd y xs)

module _ {H D : Type 0} ⦃h : Httpd D⦄ (f : Frame) (s : HttpServer H D) where
  abbrev with_clients : D → List ℕ → HttpServer H D
  with_clients d xs = record s { httpd = d; ws_client_fds = xs }

  one_ok :
      (i sent : ℕ) (d : D) (xs : List ℕ)
      → (h.ws_send (get_or xs i 0) f d).1 ≡ true
      → ws_send_one f i (with_clients d xs, sent)
        ≡ (with_clients (h.ws_send (get_or xs i 0) f d).0 xs, suc sent)
  unfolding ws_send_one
  one_ok i sent d xs ok = rw ok refl

  one_fails :
      (i sent : ℕ) (d : D) (xs : List ℕ)
      → (h.ws_send (get_or xs i 0) f d).1 ≡ false
      → ws_send_one f i (with_clients d xs, sent)
        ≡ (with_clients (h.ws_send (get_or xs i 0) f d).0 (remove_fd (get_or xs i 0) xs), sent)
  unfolding ws_send_one
  one_fails i sent d xs fails = rw fails refl

  remove_other :
      (x i : ℕ) (xs : List ℕ)
      → has_fd x xs ≡ false
      → i < length xs
      → remove_fd (get_or xs i 0) (x ∷ xs) ≡ x ∷ remove_fd (get_or xs i 0) xs
  unfolding remove_fd
  remove_other x i xs new l = ground (arith, has_fd-get_or x i xs new l)

  -- The round for a client that stands before the table of `r`.
  abbrev last_one : ℕ → HttpServer H D × ℕ → HttpServer H D × ℕ
  last_one x r = ws_send_one f 0 (with_clients r.0.httpd (x ∷ r.0.ws_client_fds), r.1)

  -- The first client is served after the others, which do not depend on it.
  abbrev Shifted : ℕ → ℕ → D → ℕ → List ℕ → Type 0
  Shifted n sent d x xs =
      ws_send_down f (suc n) (with_clients d (x ∷ xs), sent)
      ≡ last_one x (ws_send_down f n (with_clients d xs, sent))

  shifted :
      (n sent : ℕ) (d : D) (x : ℕ) (xs : List ℕ)
      → n ≤ length xs
      → IsDistinct (x ∷ xs)
      → Shifted n sent d x xs
  unfolding ws_send_down
  shifted zero sent d x xs le distinct = refl
  shifted (suc n) sent d x xs le distinct =
      let fd = get_or xs n 0 in
      let d' = (h.ws_send fd f d).0 in
      elim (Bool-cases (h.ws_send fd f d).1) [
        | inl ok ↦
            ap (ws_send_down f (suc n)) (one_ok (suc n) sent d (x ∷ xs) ok)
            ∙ shifted n (suc sent) d' x xs (omega arith) distinct
            ∙ sym (ap (λ r. last_one x (ws_send_down f n r)) (one_ok n sent d xs ok))
        | inr fails ↦
            ap (ws_send_down f (suc n)) (
              one_fails (suc n) sent d (x ∷ xs) fails
              ∙ ap (λ ys. (with_clients d' ys, sent))
                  (remove_other x n xs distinct.0 (omega arith)))
            ∙ shifted n sent d' x (remove_fd fd xs) (omega (arith, length-remove_fd fd xs))
                (has_fd-remove_fd x fd xs distinct.0, remove_fd-IsDistinct fd xs distinct.1)
            ∙ sym (ap (λ r. last_one x (ws_send_down f n r)) (one_fails n sent d xs fails))
      ]

  last_lem :
      (d : D) (x : ℕ) (kept : List ℕ)
      → let (d', ok) = h.ws_send x f d in
        let ys = if ok then x ∷ kept else kept in
        last_one x (with_clients d kept, length kept) ≡ (with_clients d' ys, length ys)
  unfolding ws_send_one remove_fd
  last_lem d x kept = ground arith

  delivers :
      (d : D) (xs : List ℕ)
      → IsDistinct xs
      → let (d', kept) = deliver f xs d in
        ws_send_down f (length xs) (with_clients d xs, 0) ≡ (with_clients d' kept, length kept)
  unfolding ws_send_down
  delivers d [] distinct = refl
  delivers d (x ∷ xs) distinct =
      let (d', kept) = deliver f xs d in
      shifted (length xs) 0 d x xs (omega arith) distinct
      ∙ ap (last_one x) (delivers d xs distinct.1)
      ∙ last_lem d' x kept

  send_all_delivers :
      IsDistinct s.ws_client_fds
      → s.running ≡ true
      → let (d, kept) = deliver f s.ws_client_fds s.httpd in
        ws_send_all f s ≡ (with_clients d kept, length kept)
  unfolding ws_send_all
  send_all_delivers distinct on = ground (arith, delivers s.httpd s.ws_client_fds distinct)

module _ {H D : Type 0} ⦃h : Httpd D⦄ (s : HttpServer H D) where
  -- A broadcast and a ping of a running server whose client table has no doubles send the frame to
  -- every client once, from the last to the first. Exactly the clients that the frame could be sent
  -- to remain, in their order, and their number is the result.
  pub broadcast_delivers :
      (bytes : List ℕ)
      → IsDistinct s.ws_client_fds
      → s.running ≡ true
      → (let (d, kept) = deliver (text bytes) s.ws_client_fds s.httpd in
          ws_broadcast bytes s ≡ (record s { httpd = d; ws_client_fds = kept }, length kept))
        × (let (d, kept) = deliver ping s.ws_client_fds s.httpd in
            ws_ping s ≡ (record s { httpd = d; ws_client_fds = kept }, length kept))
  unfolding ws_broadcast ws_ping
  broadcast_delivers bytes distinct on =
      (send_all_delivers (text bytes) s distinct on, send_all_delivers ping s distinct on)
