-- ===== src/Http/Request/Query.antt =====
-- Query strings: what is parsed stays within its buffers, and a query that is printed from parameters
-- is parsed back to them.
use ungula_lib_net.Base.{
  take_all, ℕ, suc, ◌+◌, ◌≤◌, ◌<◌, ◌≡◌, refl, sym, ◌∙◌, ap, false, List, [], ◌∷◌, ◌++◌, Option,
  none, some, arith, leb, ltb, ◌==◌, if◌then◌else◌, length, length-take, length-append, All,
  append-nil, append_assoc, map,
}
use ungula_lib_net.Http.Httpd.{Method}
use ungula_lib_net.Http.Server.{HttpServer, request_path, dispatch}
use ungula_lib_net.Http.Request.{
  max_params, Param, HttpRequest, tokens, push, split_eq, bounded_param, append_param, add_param,
  add_params, parse_query_params, read_body, has_body, build_request, with_request, generic_handler,
}

-- A parameter that fits its buffers.
abbrev pub Fits : Param → Type 0
Fits p = (length p.name ≤ 23) × (length p.value ≤ 47)

append-All :
    (P : Param → Type 0) (xs : List Param) (p : Param) → All P xs → P p → All P (xs ++ p ∷ [])
append-All P [] p v h = (h, tt)
append-All P (x ∷ xs) p v h = (v.0, append-All P xs p v.1 h)

bounded_param-Fits : (name value : List ℕ) → Fits (bounded_param name value)
bounded_param-Fits name value =
    (omega (arith, length-take 23 name), omega (arith, length-take 47 value))

append_param-Fits :
    (ps : List Param) (o : Option (List ℕ × List ℕ)) → All Fits ps → All Fits (append_param ps o)
append_param-Fits ps none v = v
append_param-Fits ps (some (name, value)) v = append-All Fits ps _ v (bounded_param-Fits name value)

length-append_param :
    (ps : List Param) (o : Option (List ℕ × List ℕ)) → length (append_param ps o) ≤ suc (length ps)
length-append_param ps none = omega arith
length-append_param ps (some (name, value)) =
    omega (arith, length-append ps (bounded_param name value ∷ []))

abbrev Bounded : List Param → Type 0
Bounded ps = (length ps ≤ max_params) × All Fits ps

add_param-Bounded : (ps : List Param) (t : List ℕ) → Bounded ps → Bounded (add_param ps t)
unfolding add_param
add_param-Bounded ps t v =
    ground (arith, length-append_param ps (split_eq t), append_param-Fits ps (split_eq t) v.1)

add_params-Bounded :
    (ts : List (List ℕ)) (ps : List Param) → Bounded ps → Bounded (add_params ps ts)
unfolding add_params
add_params-Bounded [] ps v = v
add_params-Bounded (t ∷ ts) ps v = add_params-Bounded ts (add_param ps t) (add_param-Bounded ps t v)

-- The parameters of a request are at most ten, each within its buffers, whatever the query.
pub params_bounded :
    (query : Option (List ℕ))
    → (length (parse_query_params query) ≤ max_params) × All Fits (parse_query_params query)
unfolding parse_query_params
params_bounded none = (omega arith, tt)
params_bounded (some q) = ground (arith, add_params-Bounded (tokens q) [] (omega arith, tt))

read_body_lem :
    (content_len : ℕ) (recv : ℕ → List ℕ)
    → ((n : ℕ) → length (recv n) ≤ n)
    → length (read_body content_len recv) ≤ 383
unfolding read_body
read_body_lem content_len recv reads = ground (arith, reads 383, reads content_len)

body_lem :
    (m : Method) (content_len : ℕ) (recv : ℕ → List ℕ)
    → ((n : ℕ) → length (recv n) ≤ n)
    → length (if has_body m then read_body content_len recv else []) ≤ 383
body_lem m content_len recv reads = ground (arith, read_body_lem content_len recv reads)

with_request_lem :
    {H : Type 0} (o : Option H) (b r : HttpRequest) (handler : H)
    → with_request o b ≡ some (handler, r)
    → r ≡ b
with_request_lem none b r handler h = ground arith
with_request_lem (some g) b r handler h = ground arith

build_request_lem :
    (m : Method) (uri : List ℕ) (query : Option (List ℕ)) (content_len : ℕ) (recv : ℕ → List ℕ)
    → ((n : ℕ) → length (recv n) ≤ n)
    → let r = build_request m uri query content_len recv in
      (length r.params ≤ max_params)
      × All Fits r.params
      × (length r.uri ≤ 95)
      × (length r.body ≤ 383)
unfolding build_request
build_request_lem m uri query content_len recv reads =
    let params = params_bounded query in
    (
      params.0,
      params.1,
      omega (arith, length-take 95 (request_path uri)),
      body_lem m content_len recv reads,
    )

-- Every handler gets a request whose parameters, URI and body are within their buffers, provided
-- that httpd reads no more bytes than it is asked for.
pub request_bounded :
    {H D : Type 0} (m : Method) (uri : List ℕ) (query : Option (List ℕ)) (content_len : ℕ)
    (recv : ℕ → List ℕ) (s : HttpServer H D) (handler : H) (r : HttpRequest)
    → ((n : ℕ) → length (recv n) ≤ n)
    → generic_handler m uri query content_len recv s ≡ some (handler, r)
    → (length r.params ≤ max_params)
      × All Fits r.params
      × (length r.uri ≤ 95)
      × (length r.body ≤ 383)
unfolding generic_handler
request_bounded m uri query content_len recv s handler r reads h =
    rw
      (with_request_lem (dispatch m uri s) (build_request m uri query content_len recv) r handler h)
      (build_request_lem m uri query content_len recv reads)

-- No byte of a string is `b`.
abbrev pub Lacks : ℕ → List ℕ → Type 0
Lacks b xs = All (λ c. (c == b) ≡ false) xs

append-Lacks : (b : ℕ) (xs ys : List ℕ) → Lacks b xs → Lacks b ys → Lacks b (xs ++ ys)
append-Lacks b [] ys v w = w
append-Lacks b (x ∷ xs) ys v w = (v.0, append-Lacks b xs ys v.1 w)

-- A parameter that fits its buffers and can be written in a query.
abbrev pub IsPlain : Param → Type 0
IsPlain p = Fits p × Lacks 61 p.name × Lacks 38 p.name × Lacks 38 p.value

abbrev pub token_of : Param → List ℕ
token_of p = p.name ++ 61 ∷ p.value

abbrev print_more : List Param → List ℕ
print_more [] = []
print_more (p ∷ ps) = 38 ∷ (token_of p ++ print_more ps)

-- "name=value&name=value".
abbrev pub print_query : List Param → List ℕ
print_query [] = []
print_query (p ∷ ps) = token_of p ++ print_more ps

abbrev push_all : List ℕ → List (List ℕ) → List (List ℕ)
push_all [] ts = ts
push_all (c ∷ cs) ts = push c (push_all cs ts)

push_all_lem : (t : List ℕ) (ts : List (List ℕ)) → push_all t ([] ∷ ts) ≡ t ∷ ts
push_all_lem [] ts = refl
push_all_lem (c ∷ cs) ts = ap (push c) (push_all_lem cs ts)

tokens-append : (t cs : List ℕ) → Lacks 38 t → tokens (t ++ cs) ≡ push_all t (tokens cs)
unfolding tokens
tokens-append [] cs v = refl
tokens-append (c ∷ t) cs v = rw (v.0) (ap (push c) (tokens-append t cs v.1))

token-Lacks : (p : Param) → IsPlain p → Lacks 38 (token_of p)
token-Lacks p v = append-Lacks 38 p.name (61 ∷ p.value) v.2 (refl, v.3)

tokens-print_more :
    (t : List ℕ) (ps : List Param)
    → Lacks 38 t
    → All IsPlain ps
    → tokens (t ++ print_more ps) ≡ t ∷ map token_of ps
unfolding tokens
tokens-print_more t [] v w = tokens-append t [] v ∙ push_all_lem t []
tokens-print_more t (p ∷ ps) v w =
    tokens-append t (print_more (p ∷ ps)) v
    ∙ push_all_lem t (tokens (token_of p ++ print_more ps))
    ∙ ap (λ ts. t ∷ ts) (tokens-print_more (token_of p) ps (token-Lacks p w.0) w.1)

token-length : (p : Param) → 0 < length (token_of p)
token-length p = omega (arith, length-append p.name (61 ∷ p.value))

split_eq-token :
    (name value : List ℕ) → Lacks 61 name → split_eq (name ++ 61 ∷ value) ≡ some (name, value)
unfolding split_eq
split_eq-token [] value v = refl
split_eq-token (c ∷ name) value v = rw (v.0, split_eq-token name value v.1) refl

bounded_param_lem : (p : Param) → Fits p → bounded_param p.name p.value ≡ p
bounded_param_lem p v = ground (arith, take_all 23 p.name v.0, take_all 47 p.value v.1)

add_param-token :
    (ps : List Param) (p : Param)
    → length ps < max_params
    → IsPlain p
    → add_param ps (token_of p) ≡ ps ++ p ∷ []
unfolding add_param
add_param-token ps p room v =
    let few : leb max_params (length ps) ≡ false = ground arith in
    rw (few, split_eq-token p.name p.value v.1, bounded_param_lem p v.0) refl

add_params-tokens :
    (ps qs : List Param)
    → length ps + length qs ≤ max_params
    → All IsPlain qs
    → add_params ps (map token_of qs) ≡ ps ++ qs
unfolding add_params
add_params-tokens ps [] room v = sym (append-nil ps)
add_params-tokens ps (q ∷ qs) room v =
    ap (λ rs. add_params rs (map token_of qs)) (add_param-token ps q (omega (arith, room)) v.0)
    ∙ add_params-tokens (ps ++ q ∷ []) qs (omega (arith, length-append ps (q ∷ []))) v.1
    ∙ append_assoc ps (q ∷ []) qs

-- Up to ten parameters that fit their buffers, with no '&' in them and no '=' in a name, are parsed
-- back from the query that is printed from them, in their order, if it has at most 255 bytes.
pub parse-print :
    (ps : List Param)
    → length ps ≤ max_params
    → All IsPlain ps
    → length (print_query ps) ≤ 255
    → parse_query_params (some (print_query ps)) ≡ ps
unfolding parse_query_params tokens add_params add_param split_eq
parse-print [] room v short = refl
parse-print (p ∷ ps) room v short =
    let parsed : add_params [] (tokens (print_query (p ∷ ps))) ≡ p ∷ ps =
      ap (add_params []) (tokens-print_more (token_of p) ps (token-Lacks p v.0) v.1)
      ∙ add_params-tokens [] (p ∷ ps) (omega (arith, room)) v in
    let some_bytes : (length (print_query (p ∷ ps)) == 0) ≡ false =
      ground (arith, token-length p, length-append (token_of p) (print_more ps)) in
    let fits : ltb 255 (length (print_query (p ∷ ps))) ≡ false = ground arith in
    rw (some_bytes, fits) parsed
