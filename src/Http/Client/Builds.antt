-- ===== src/Http/Client/Builds.antt =====
-- The build for ESP-IDF and the build for desktop tests.
use ungula_lib_net.Base.{
  Bool-cases, inl, inr, ℕ, ◌-◌, ◌≡◌, refl, sym, ◌∙◌, ap, Bool, true, List, [], ◌∷◌, ◌++◌, arith,
  ltb, length, take, take_all, if◌then◌else◌,
}
use ungula_lib_net.Http.Client.{
  HttpResult, empty_result, Exchange, on_data, on_data_all, http_result,
}
use ungula_lib_net.Http.Client.Esp.{
  ClientConfig, HttpEvent, data_event, other_event, EspHttp, on_event, on_events, finish_request,
  content_type, application_json,
}
use ungula_lib_net.Http.Client.Esp
use ungula_lib_net.Http.Client.Curl.{
  CurlOptions, CurlHttp, curl_write_callback, write_all, perform_request, json_header, get_options,
  post_options,
}
use ungula_lib_net.Http.Client.Curl

abbrev pub pieces_of : List HttpEvent → List (List ℕ)
pieces_of [] = []
pieces_of (data_event piece ∷ es) = piece ∷ pieces_of es
pieces_of (other_event ∷ es) = pieces_of es

on_events_lem :
    (es : List HttpEvent) (r : HttpResult) → on_events es r ≡ on_data_all (pieces_of es) r
unfolding on_events on_data_all
on_events_lem [] r = refl
on_events_lem (data_event piece ∷ es) r = on_events_lem es (on_data piece r)
on_events_lem (other_event ∷ es) r = on_events_lem es r

take_min : (n : ℕ) (xs : List ℕ) → take (if ltb (length xs) n then length xs else n) xs ≡ take n xs
take_min n xs = elim (Bool-cases (ltb (length xs) n)) [
  | inl short ↦
      rw short (take_all (length xs) xs (omega arith) ∙ sym (take_all n xs (ground arith)))
  | inr long ↦ rw long refl
]

callback_lem : (bytes : List ℕ) (r : HttpResult) → (curl_write_callback bytes r).0 ≡ on_data bytes r
unfolding curl_write_callback on_data
callback_lem bytes r =
    let space = 1024 - length r.body - 1 in
    ap (λ b. if ltb 0 space then record r { body = r.body ++ b } else r) (take_min space bytes)

write_all_lem : (ps : List (List ℕ)) (r : HttpResult) → write_all ps r ≡ on_data_all ps r
unfolding write_all on_data_all
write_all_lem [] r = refl
write_all_lem (p ∷ ps) r = ap (write_all ps) (callback_lem p r) ∙ write_all_lem ps (on_data p r)

-- What an exchange over either library comes to; `d` is the state once the request is prepared.
abbrev pub esp_exchange : {D : Type 0} ⦃c : EspHttp D⦄ → Bool → D → Exchange
esp_exchange ⦃c⦄ created d =
    let (d', events, done) = c.perform d in
    record {
      created = created;
      pieces = pieces_of events;
      performed = done;
      status = c.get_status_code d';
    }

abbrev pub curl_exchange : {D : Type 0} ⦃c : CurlHttp D⦄ → Bool → D → Exchange
curl_exchange ⦃c⦄ created d =
    let (d', pieces, done) = c.easy_perform d in
    record { created = created; pieces = pieces; performed = done; status = c.response_code d' }

-- The state of either library once a request is prepared, and whether it could be.
module _ {D : Type 0} ⦃c : EspHttp D⦄ where
  abbrev pub esp_get_exchange : List ℕ → ℕ → D → Exchange
  esp_get_exchange url timeout_ms d =
      let (d', created) =
        c.client_init (record { url = url; method = Esp.get; timeout_ms = timeout_ms }) d in
      esp_exchange created d'

  abbrev pub esp_post_exchange : List ℕ → List ℕ → ℕ → D → Exchange
  esp_post_exchange url json timeout_ms d =
      let (d', created) =
        c.client_init (record { url = url; method = Esp.post; timeout_ms = timeout_ms }) d in
      esp_exchange created (c.set_post_field json (c.set_header content_type application_json d'))

  finish_lem : (d : D) → (finish_request d).1 ≡ http_result (esp_exchange true d)
  unfolding finish_request http_result
  finish_lem d = rw (on_events_lem (c.perform d).1 empty_result) refl

  esp_get_lem :
      (url : List ℕ) (t : ℕ) (d : D)
      → (Esp.http_get url t d).1 ≡ http_result (esp_get_exchange url t d)
  unfolding Esp.http_get
  esp_get_lem url t d =
      let config : ClientConfig = record { url = url; method = Esp.get; timeout_ms = t } in
      let d' = (c.client_init config d).0 in
      elim (Bool-cases (c.client_init config d).1) [
        | inl created ↦ rw created (finish_lem d')
        | inr missing ↦ rw missing (unfold http_result in refl)
      ]

  esp_post_lem :
      (url json : List ℕ) (t : ℕ) (d : D)
      → (Esp.http_post url json t d).1 ≡ http_result (esp_post_exchange url json t d)
  unfolding Esp.http_post
  esp_post_lem url json t d =
      let config : ClientConfig = record { url = url; method = Esp.post; timeout_ms = t } in
      let d' = (c.client_init config d).0 in
      elim (Bool-cases (c.client_init config d).1) [
        | inl created ↦
            rw created
              (finish_lem (c.set_post_field json (c.set_header content_type application_json d')))
        | inr missing ↦ rw missing (unfold http_result in refl)
      ]

module _ {D : Type 0} ⦃c : CurlHttp D⦄ where
  abbrev pub curl_get_exchange : List ℕ → ℕ → D → Exchange
  curl_get_exchange url t d =
      let (d', created) = c.easy_init d in
      curl_exchange created (c.easy_setopt (get_options url t) d')

  abbrev pub curl_post_exchange : List ℕ → List ℕ → ℕ → D → Exchange
  curl_post_exchange url json t d =
      let (d', created) = c.easy_init d in
      curl_exchange created
        (c.easy_setopt (post_options url json t) (c.slist_append json_header d'))

  perform_lem :
      (o : CurlOptions) (d : D)
      → (perform_request o d).1 ≡ http_result (curl_exchange true (c.easy_setopt o d))
  unfolding perform_request http_result
  perform_lem o d = rw (write_all_lem (c.easy_perform (c.easy_setopt o d)).1 empty_result) refl

  curl_get_lem :
      (url : List ℕ) (t : ℕ) (d : D)
      → (Curl.http_get url t d).1 ≡ http_result (curl_get_exchange url t d)
  unfolding Curl.http_get
  curl_get_lem url t d = elim (Bool-cases (c.easy_init d).1) [
    | inl created ↦ rw created (perform_lem (get_options url t) (c.easy_init d).0)
    | inr missing ↦ rw missing (unfold http_result in refl)
  ]

  curl_post_lem :
      (url json : List ℕ) (t : ℕ) (d : D)
      → (Curl.http_post url json t d).1 ≡ http_result (curl_post_exchange url json t d)
  unfolding Curl.http_post
  curl_post_lem url json t d = elim (Bool-cases (c.easy_init d).1) [
    | inl created ↦
        rw created
          (perform_lem (post_options url json t) (c.slist_append json_header (c.easy_init d).0))
    | inr missing ↦ rw missing (unfold http_result in refl)
  ]

-- The two builds agree. Where both libraries report the same of a GET, whether a client is created,
-- the pieces of the body, whether the transfer succeeds, and the status, both return the same result,
-- and so for a POST; events of other kinds and the sizes of the pieces make no difference.
pub builds_agree :
    {D E : Type 0} ⦃c : EspHttp D⦄ ⦃k : CurlHttp E⦄
    → (url json : List ℕ) (t : ℕ) (d : D) (e : E)
    → (esp_get_exchange url t d ≡ curl_get_exchange url t e
        → (Esp.http_get url t d).1 ≡ (Curl.http_get url t e).1)
      × (esp_post_exchange url json t d ≡ curl_post_exchange url json t e
          → (Esp.http_post url json t d).1 ≡ (Curl.http_post url json t e).1)
builds_agree url json t d e = (
  λ same. esp_get_lem url t d ∙ ap http_result same ∙ sym (curl_get_lem url t e),
  λ same. esp_post_lem url json t d ∙ ap http_result same ∙ sym (curl_post_lem url json t e),
)
