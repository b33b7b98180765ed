-- ===== src/Http/Client.antt =====
-- src/http/http_client.h and http_client.cpp: GET and POST for ESP-IDF. The build for desktop tests
-- fills the result in the same way from libcurl.
pub mod Transfer
pub mod Esp
pub mod Curl
pub mod Builds
pub mod Handles
mod Tests
use ungula_lib_net.Strings.{c_string, has_substring}
use ungula_lib_net.Base.{
  ℕ, ◌+◌, ◌-◌, Bool, true, false, ◌&&◌, List, [], ◌∷◌, ◌++◌, ltb, leb, if◌then◌else◌, length, take,
}

-- `body` is the first `bodyLen` bytes of the array of 1024.
pub record HttpResult : Type 0 where
  pub success : Bool
  pub status_code : ℕ
  pub body : List ℕ

-- The default member initialisers.
abbrev pub empty_result : HttpResult
empty_result = record { success = false; status_code = 0; body = [] }

-- `body` is zero from its end on, so that it is a C string.
unfoldable pub body_contains : List ℕ → HttpResult → Bool
unfolding has_substring
body_contains needle r = ltb 0 (length r.body) && has_substring (c_string r.body) (c_string needle)

-- What the calls of `esp_http_client` return for one request: whether a client is created, the
-- pieces of the response body that it delivers, whether the transfer succeeds, and the status.
pub record Exchange : Type 0 where
  pub created : Bool
  pub pieces : List (List ℕ)
  pub performed : Bool
  pub status : ℕ

-- The event handler at HTTP_EVENT_ON_DATA: at most `space` bytes of the piece are copied.
unfoldable pub on_data : List ℕ → HttpResult → HttpResult
on_data piece r =
    let space = 1024 - length r.body - 1 in
    if ltb 0 space then record r { body = r.body ++ take space piece } else r

unfoldable pub on_data_all : List (List ℕ) → HttpResult → HttpResult
unfolding on_data
on_data_all [] r = r
on_data_all (piece ∷ pieces) r = on_data_all pieces (on_data piece r)

-- What `httpGet` and `httpPost` make of the exchange; they differ in the request alone.
unfoldable pub http_result : Exchange → HttpResult
unfolding on_data_all
http_result e =
    if e.created
    then (let r = on_data_all e.pieces empty_result in
        if e.performed
        then record r { status_code = e.status; success = leb 200 e.status && ltb e.status 300 }
        else r)
    else empty_result
