-- ===== src/Http/Request.antt =====
-- src/http/http_server.h and http_server.cpp: class HttpRequest, and how `generic_handler` fills it.
-- A C string is the list of its bytes before the final zero.
pub mod Query
use ungula_lib_net.Base.{
  ℕ, zero, suc, Bool, true, false, ◌||◌, List, [], ◌∷◌, ◌++◌, Option, none, some, ltb, leb, ◌==◌,
  if◌then◌else◌, length, take,
}
use ungula_lib_net.Http.Httpd.{Method, get, post, put, delete}
use ungula_lib_net.Http.Server.{HttpServer, strcmp_eq, request_path, dispatch}

abbrev pub max_params : ℕ
max_params = 10

pub record Param : Type 0 where
  pub name : List ℕ
  pub value : List ℕ

-- `params` is the array's first `paramCount_` entries.
pub record HttpRequest : Type 0 where
  pub params : List Param
  pub uri : List ℕ
  pub body : List ℕ

-- The loops of `hasParam` and `param`.
unfoldable pub has_param : List ℕ → List Param → Bool
unfolding strcmp_eq
has_param name [] = false
has_param name (p ∷ ps) = strcmp_eq p.name name || has_param name ps

unfoldable pub param : List ℕ → List Param → List ℕ
unfolding strcmp_eq
param name [] = []
param name (p ∷ ps) = let rest = param name ps in if strcmp_eq p.name name then p.value else rest

abbrev pub push : ℕ → List (List ℕ) → List (List ℕ)
push c [] = (c ∷ []) ∷ []
push c (t ∷ ts) = (c ∷ t) ∷ ts

-- The pieces of a string between its '&', which `strtok_r` goes through. It skips the empty ones,
-- and `add_param` does so too, since they have no '='.
unfoldable pub tokens : List ℕ → List (List ℕ)
tokens [] = [] ∷ []
tokens (c ∷ cs) = let rest = tokens cs in if c == 38 then [] ∷ rest else push c rest

abbrev pub push_name : ℕ → Option (List ℕ × List ℕ) → Option (List ℕ × List ℕ)
push_name c none = none
push_name c (some (name, value)) = some (c ∷ name, value)

-- What stands before and after the first '=' of a token.
unfoldable pub split_eq : List ℕ → Option (List ℕ × List ℕ)
split_eq [] = none
split_eq (c ∷ cs) = let rest = split_eq cs in if c == 61 then some ([], cs) else push_name c rest

-- `strncpy` into `char name[24]` and `char value[48]`, which are zero before.
abbrev pub bounded_param : List ℕ → List ℕ → Param
bounded_param name value = record { name = take 23 name; value = take 47 value }

abbrev pub append_param : List Param → Option (List ℕ × List ℕ) → List Param
append_param ps none = ps
append_param ps (some (name, value)) = ps ++ bounded_param name value ∷ []

-- One round of the loop of `parseQueryParams`. At `max_params` the loop ends, and the rounds that
-- this model goes on with change nothing.
unfoldable pub add_param : List Param → List ℕ → List Param
unfolding split_eq
add_param ps token = if leb max_params (length ps) then ps else append_param ps (split_eq token)

unfoldable pub add_params : List Param → List (List ℕ) → List Param
unfolding add_param
add_params ps [] = ps
add_params ps (t ∷ ts) = add_params (add_param ps t) ts

-- The query of the URL, or `none` without one. `httpd_req_get_url_query_str` succeeds if the query
-- and its final zero fit `char query[256]`.
unfoldable pub parse_query_params : Option (List ℕ) → List Param
unfolding tokens add_params
parse_query_params none = []
parse_query_params (some query) =
    if length query == 0
    then []
    else if ltb 255 (length query)
    then []
    else add_params [] (tokens query)

-- `httpd_req_recv` gets the number of bytes to read and returns them, or none on an error. A length
-- from 2^31 on is negative as an `int`.
unfoldable pub read_body : ℕ → (ℕ → List ℕ) → List ℕ
read_body content_len recv =
    if content_len == 0 || leb 2147483648 content_len
    then []
    else if leb 384 content_len
    then recv 383
    else recv content_len

abbrev pub has_body : Method → Bool
has_body get = false
has_body post = true
has_body put = true
has_body delete = false

-- The request that is built for the handler.
unfoldable pub build_request : Method → List ℕ → Option (List ℕ) → ℕ → (ℕ → List ℕ) → HttpRequest
build_request m uri query content_len recv = record {
  params = parse_query_params query;
  uri = take 95 (request_path uri);
  body = if has_body m then read_body content_len recv else [];
}

abbrev pub with_request : {H : Type 0} → Option H → HttpRequest → Option (H × HttpRequest)
with_request none r = none
with_request (some handler) r = some (handler, r)

-- The handler that is called and the request that it is called with, or `none` for a 404.
unfoldable pub generic_handler :
    {H D : Type 0}
    → Method
    → List ℕ
    → Option (List ℕ)
    → ℕ
    → (ℕ → List ℕ)
    → HttpServer H D
    → Option (H × HttpRequest)
generic_handler m uri query content_len recv s =
    with_request (dispatch m uri s) (build_request m uri query content_len recv)
