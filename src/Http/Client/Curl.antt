-- ===== src/Http/Client/Curl.antt =====
-- src/http/http_client.cpp as built for desktop tests: the requests, over libcurl.
use ungula_lib_net.Base.{
  ℕ, ◌-◌, Bool, ◌&&◌, ◌++◌, List, [], ◌∷◌, Option, none, some, ltb, leb, if◌then◌else◌, length,
  take,
}
use ungula_lib_net.Http.Client.{HttpResult, empty_result}

-- The options that are set on a handle; the write callback and following redirects always are.
pub record CurlOptions : Type 0 where
  pub url : List ℕ
  pub timeout_ms : ℕ
  pub post_fields : Option (List ℕ)
  pub headers : List (List ℕ)

-- `slist_append` makes a list of one header; a call of `easy_perform` runs the write callback on
-- pieces of `size * nmemb` bytes.
pub record CurlHttp (D : Type 0) : Type 0 where
  pub easy_init : D → D × Bool
  pub slist_append : List ℕ → D → D
  pub easy_setopt : CurlOptions → D → D
  pub easy_perform : D → D × (List (List ℕ)) × Bool
  pub response_code : D → ℕ
  pub slist_free_all : D → D
  pub easy_cleanup : D → D

-- The write callback, and the number of bytes that it says it took.
unfoldable pub curl_write_callback : List ℕ → HttpResult → HttpResult × ℕ
curl_write_callback bytes r =
    let total = length bytes in
    let space = 1024 - length r.body - 1 in
    let copy = if ltb total space then total else space in
    (if ltb 0 space then record r { body = r.body ++ take copy bytes } else r, total)

unfoldable pub write_all : List (List ℕ) → HttpResult → HttpResult
unfolding curl_write_callback
write_all [] r = r
write_all (b ∷ bs) r = write_all bs (curl_write_callback b r).0

-- "Content-Type: application/json"
abbrev pub json_header : List ℕ
json_header =
    67 ∷ 111 ∷ 110 ∷ 116 ∷ 101 ∷ 110 ∷ 116 ∷ 45 ∷ 84 ∷ 121 ∷ 112 ∷ 101 ∷ 58 ∷ 32 ∷ 97 ∷ 112 ∷ 112
    ∷ 108 ∷ 105 ∷ 99 ∷ 97 ∷ 116 ∷ 105 ∷ 111 ∷ 110 ∷ 47 ∷ 106 ∷ 115 ∷ 111 ∷ 110 ∷ []

abbrev pub get_options : List ℕ → ℕ → CurlOptions
get_options url timeout_ms = record {
  url = url;
  timeout_ms = timeout_ms;
  post_fields = none;
  headers = [];
}

abbrev pub post_options : List ℕ → List ℕ → ℕ → CurlOptions
post_options url json timeout_ms = record {
  url = url;
  timeout_ms = timeout_ms;
  post_fields = some json;
  headers = json_header ∷ [];
}

module _ {D : Type 0} ⦃c : CurlHttp D⦄ where
  unfoldable pub perform_request : CurlOptions → D → D × HttpResult
  unfolding write_all
  perform_request options d =
      let (d', pieces, done) = c.easy_perform (c.easy_setopt options d) in
      let r = write_all pieces empty_result in
      let code = c.response_code d' in
      (
        d',
        if done then record r { status_code = code; success = leb 200 code && ltb code 300 } else r,
      )

  unfoldable pub http_get : List ℕ → ℕ → D → D × HttpResult
  unfolding perform_request
  http_get url timeout_ms d =
      let (d1, created) = c.easy_init d in
      let (d2, r) = perform_request (get_options url timeout_ms) d1 in
      if created then (c.easy_cleanup d2, r) else (d1, empty_result)

  unfoldable pub http_post : List ℕ → List ℕ → ℕ → D → D × HttpResult
  unfolding perform_request
  http_post url json timeout_ms d =
      let (d1, created) = c.easy_init d in
      let d2 = c.slist_append json_header d1 in
      let (d3, r) = perform_request (post_options url json timeout_ms) d2 in
      if created then (c.easy_cleanup (c.slist_free_all d3), r) else (d1, empty_result)
