-- ===== src/Http/Response/Answers.antt =====
-- Every request gets its answer, and what the client makes of it.
use ungula_lib_net.Base.{
  ℕ, suc, map, ◌≤◌, ◌<◌, ◌≡◌, ◌≢◌, ◌↔◌, inl, inr, Bool-cases, subst, refl, ◌∙◌, ap, true, false,
  ◌&&◌, List, [], ◌∷◌, ◌++◌, Option, none, some, arith, All, length, Option-cases,
}
use ungula_lib_net.Http.Httpd.{Method}
use ungula_lib_net.Http.Server.{
  Route, HttpServer, find_handler, request_path, dispatch, ==method, strcmp_eq,
}
use ungula_lib_net.Http.Server.Routing.{strcmp_eq_iff}
use ungula_lib_net.Http.Request.{
  max_params, Param, HttpRequest, generic_handler, build_request, has_param, param, with_request,
  parse_query_params,
}
use ungula_lib_net.Http.Request.Query.{IsPlain, print_query, parse-print}
use ungula_lib_net.Http.Response.{
  StatusLine, ok_200, not_found_404, bad_request_400, internal_server_error_500, status_line, send,
  respond, known, unknown, Handler, run_handler, serve,
}
use ungula_lib_net.Http.Client.{http_result}
use ungula_lib_net.Http.Client.Transfer.{result_of_exchange}

-- A handler that sends one response to every request.
abbrev pub AnswersOnce : Handler → Type 0
AnswersOnce h = (r : HttpRequest) → length (h r) ≡ 1

abbrev pub AllAnswer : Option Handler → Type 0
AllAnswer none = Unit {0}
AllAnswer (some h) = AnswersOnce h

find-AllAnswer :
    (m : Method) (path : List ℕ) (rs : List (Route Handler))
    → All (λ q. AnswersOnce q.handler) rs
    → AllAnswer (find_handler m path rs)
unfolding find_handler
find-AllAnswer m path [] v = tt
find-AllAnswer m path (q ∷ rs) v =
    elim (Bool-cases (==method q.method m && strcmp_eq q.path path)) [
      | inl this ↦ rw this v.0
      | inr other ↦ rw other (find-AllAnswer m path rs v.1)
    ]

length-map : {A B : Type 0} (f : A → B) (xs : List A) → length (map f xs) ≡ length xs
length-map f [] = refl
length-map f (x ∷ xs) = ap (λ n. suc n) (length-map f xs)

run-once :
    (o : Option Handler) (r : HttpRequest)
    → AllAnswer o
    → length (run_handler (with_request o r)) ≡ 1
run-once none r v = refl
run-once (some h) r v = length-map respond (h r) ∙ v r

module _ {D : Type 0} where
  dispatch-AllAnswer :
      (m : Method) (uri : List ℕ) (s : HttpServer Handler D)
      → All (λ q. AnswersOnce q.handler) s.routes
      → AllAnswer s.not_found_handler
      → AllAnswer (dispatch m uri s)
  unfolding dispatch
  dispatch-AllAnswer m uri s v w =
      let found = find-AllAnswer m (request_path uri) s.routes v in
      elim (Option-cases (find_handler m (request_path uri) s.routes)) [
        | inl missing ↦ rw (missing, AllAnswer) w
        | inr (h, there) ↦ rw (there, AllAnswer) (subst AllAnswer there found)
      ]

  -- A run of `generic_handler`, for a server whose handlers each send one response: if the server runs
  -- and the request that httpd hands over has one of the four methods, exactly one answer is sent,
  -- whatever the URI, query and body, and the run returns that all is well. With another method, or
  -- without a running server, none is sent and the run returns an error. Which requests httpd hands
  -- over is left to it.
  pub answered_once :
      (m : Method) (uri : List ℕ) (query : Option (List ℕ)) (n : ℕ) (recv : ℕ → List ℕ)
      (s : HttpServer Handler D)
      → All (λ q. AnswersOnce q.handler) s.routes
      → AllAnswer s.not_found_handler
      → (s.running ≡ true
          → ((serve (known m) uri query n recv s).0 ≡ true)
            × (length (serve (known m) uri query n recv s).1 ≡ 1))
        × (s.running ≡ false → serve (known m) uri query n recv s ≡ (false, []))
        × (serve unknown uri query n recv s ≡ (false, []))
  unfolding serve generic_handler dispatch
  answered_once m uri query n recv s v w =
      let once =
        run-once (dispatch m uri s) (build_request m uri query n recv)
          (dispatch-AllAnswer m uri s v w) in
      (λ on. rw on (refl, once), λ off. rw off refl, refl)

others :
    (name : List ℕ) (ps : List Param)
    → All (λ q. q.name ≢ name) ps
    → (has_param name ps ≡ false) × (param name ps ≡ [])
unfolding has_param param
others name [] v = (refl, refl)
others name (q ∷ ps) v = ground (arith, others name ps v.1, strcmp_eq_iff q.name name)

first_named :
    (before after : List Param) (p : Param)
    → All (λ q. q.name ≢ p.name) before
    → (has_param p.name (before ++ p ∷ after) ≡ true)
      × (param p.name (before ++ p ∷ after) ≡ p.value)
unfolding has_param param
first_named [] after p v = ground (arith, strcmp_eq_iff p.name p.name)
first_named (q ∷ before) after p v =
    ground (arith, first_named before after p v.1, strcmp_eq_iff q.name p.name)

-- A handler reads from its request what the query was printed from. Of up to ten parameters that fit
-- their buffers, with no '&' in them and no '=' in a name, in a query of at most 255 bytes, `param`
-- finds the value of the first one with the name asked for; for a name that none has it is empty.
-- `hasParam` tells the two apart.
pub query_reaches_handler :
    (ps : List Param)
    → length ps ≤ max_params
    → All IsPlain ps
    → length (print_query ps) ≤ 255
    → ((before after : List Param) (p : Param)
        → ps ≡ before ++ p ∷ after
        → All (λ q. q.name ≢ p.name) before
        → (has_param p.name (parse_query_params (some (print_query ps))) ≡ true)
          × (param p.name (parse_query_params (some (print_query ps))) ≡ p.value))
      × ((name : List ℕ)
          → All (λ q. q.name ≢ name) ps
          → (has_param name (parse_query_params (some (print_query ps))) ≡ false)
            × (param name (parse_query_params (some (print_query ps))) ≡ []))
query_reaches_handler ps few plain short =
    let parsed = parse-print ps few plain short in
    (
      λ before after p split v. rw (parsed, split) (first_named before after p v),
      λ name v. rw parsed (others name ps v),
    )

-- The status that a client reads from a status line.
abbrev pub status_number : StatusLine → ℕ
status_number ok_200 = 200
status_number not_found_404 = 404
status_number bad_request_400 = 400
status_number internal_server_error_500 = 500

line_lem :
    (code : ℕ)
    → ((200 ≤ status_number (status_line code)) × (status_number (status_line code) < 300))
      ↔ ((code ≢ 400) × (code ≢ 404) × (code ≢ 500))
unfolding status_line
line_lem code = ground arith

-- A client of the library that gets the response of a handler counts the request as a success exactly
-- if the handler's code is not one of 400, 404 and 500: every other code, 401 or 503 among them, goes
-- out as 200.
pub success_exactly :
    (code : ℕ) (type body : List ℕ) (pieces : List (List ℕ))
    → ((http_result (record {
      created = true;
      pieces = pieces;
      performed = true;
      status = status_number (send code type (some body)).status;
    })).success
        ≡ true)
      ↔ ((code ≢ 400) × (code ≢ 404) × (code ≢ 500))
unfolding send
success_exactly code type body pieces =
    let (into, back) =
      (result_of_exchange
        (record {
          created = true;
          pieces = pieces;
          performed = true;
          status = status_number (status_line code);
        })
        []).2 in
    let (line, line_back) = line_lem code in
    (
      λ h. let (_, _, low, high) = into h in line (low, high),
      λ v. let (low, high) = line_back v in back (refl, refl, low, high),
    )
