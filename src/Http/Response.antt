-- ===== src/Http/Response.antt =====
-- src/http/http_server.cpp: what a handler sends, and the whole of generic_handler. A handler is the
-- list of the responses that it sends for a request.
pub mod Answers
mod Tests
use ungula_lib_net.Base.{
  ℕ, Bool, true, false, List, [], ◌∷◌, Option, none, some, ◌==◌, if◌then◌else◌, map,
}
use ungula_lib_net.Http.Httpd.{Method}
use ungula_lib_net.Http.Server.{HttpServer}
use ungula_lib_net.Http.Request.{HttpRequest, generic_handler}

-- The status lines.
pub data StatusLine : Type 0 where
  ok_200 not_found_404 bad_request_400 internal_server_error_500 : StatusLine

-- `cors` is the header "Access-Control-Allow-Origin: *".
pub record Response : Type 0 where
  pub status : StatusLine
  pub content_type : List ℕ
  pub cors : Bool
  pub body : List ℕ

-- The chain of conditions in `HttpRequest::send`.
unfoldable pub status_line : ℕ → StatusLine
status_line code =
    if code == 200
    then ok_200
    else if code == 404
    then not_found_404
    else if code == 400
    then bad_request_400
    else if code == 500
    then internal_server_error_500
    else ok_200

-- A null body is an empty one.
abbrev pub body_or_empty : Option (List ℕ) → List ℕ
body_or_empty none = []
body_or_empty (some text) = text

unfoldable pub send : ℕ → List ℕ → Option (List ℕ) → Response
unfolding status_line
send code content_type text = record {
  status = status_line code;
  content_type = content_type;
  cors = true;
  body = body_or_empty text;
}

unfoldable pub send_progmem : ℕ → List ℕ → Option (List ℕ) → Response
unfolding send
send_progmem code content_type text = send code content_type text

-- "application/json"
abbrev pub json_type : List ℕ
json_type =
    97 ∷ 112 ∷ 112 ∷ 108 ∷ 105 ∷ 99 ∷ 97 ∷ 116 ∷ 105 ∷ 111 ∷ 110 ∷ 47 ∷ 106 ∷ 115 ∷ 111 ∷ 110 ∷ []

unfoldable pub send_json : ℕ → Option (List ℕ) → Response
unfolding send
send_json code json = send code json_type json

-- What goes out: a response, or `httpd_resp_send_err` at HTTPD_404_NOT_FOUND with its message.
pub data Answer : Type 0 where
  respond : Response → Answer
  send_err_404 : List ℕ → Answer

-- "Not found"
abbrev pub not_found_message : List ℕ
not_found_message = 78 ∷ 111 ∷ 116 ∷ 32 ∷ 102 ∷ 111 ∷ 117 ∷ 110 ∷ 100 ∷ []

-- A method of httpd: one of the four, or another.
pub data HttpdMethod : Type 0 where
  known : Method → HttpdMethod
  unknown : HttpdMethod

abbrev pub Handler : Type 0
Handler = HttpRequest → List Response

abbrev pub run_handler : Option (Handler × HttpRequest) → List Answer
run_handler none = send_err_404 not_found_message ∷ []
run_handler (some (handler, r)) = map respond (handler r)

-- A run of `generic_handler`, on a request that httpd hands over to it: whether it returns `ESP_OK`,
-- and what is sent.
unfoldable pub serve :
    {D : Type 0}
    → HttpdMethod
    → List ℕ
    → Option (List ℕ)
    → ℕ
    → (ℕ → List ℕ)
    → HttpServer Handler D
    → Bool × List Answer
serve unknown uri query content_len recv s = (false, [])
serve (known m) uri query content_len recv s =
    if s.running
    then (true, run_handler (generic_handler m uri query content_len recv s))
    else (false, [])
