-- ===== src/Http/Client/Esp.antt =====
-- src/http/http_client.cpp as built for ESP_PLATFORM: the requests, over esp_http_client.
use ungula_lib_net.Base.{ℕ, Bool, ◌&&◌, List, [], ◌∷◌, ltb, leb, if◌then◌else◌}
use ungula_lib_net.Http.Client.{HttpResult, empty_result, on_data}

pub data HttpMethod : Type 0 where
  get post : HttpMethod

-- The fields of `esp_http_client_config_t` that differ between requests.
pub record ClientConfig : Type 0 where
  pub url : List ℕ
  pub method : HttpMethod
  pub timeout_ms : ℕ

-- What the event handler is called with: HTTP_EVENT_ON_DATA with its bytes, or another event.
pub data HttpEvent : Type 0 where
  data_event : List ℕ → HttpEvent
  other_event : HttpEvent

-- A call of `esp_http_client_perform` runs the handler on its events; the Boolean is its success.
pub record EspHttp (D : Type 0) : Type 0 where
  pub client_init : ClientConfig → D → D × Bool
  pub set_header : List ℕ → List ℕ → D → D
  pub set_post_field : List ℕ → D → D
  pub perform : D → D × (List HttpEvent) × Bool
  pub get_status_code : D → ℕ
  pub client_cleanup : D → D

-- The event handler.
unfoldable pub on_event : HttpEvent → HttpResult → HttpResult
unfolding on_data
on_event (data_event piece) r = on_data piece r
on_event other_event r = r

unfoldable pub on_events : List HttpEvent → HttpResult → HttpResult
unfolding on_event
on_events [] r = r
on_events (e ∷ es) r = on_events es (on_event e r)

-- "Content-Type" and "application/json".
abbrev pub content_type : List ℕ
content_type = 67 ∷ 111 ∷ 110 ∷ 116 ∷ 101 ∷ 110 ∷ 116 ∷ 45 ∷ 84 ∷ 121 ∷ 112 ∷ 101 ∷ []

abbrev pub application_json : List ℕ
application_json =
    97 ∷ 112 ∷ 112 ∷ 108 ∷ 105 ∷ 99 ∷ 97 ∷ 116 ∷ 105 ∷ 111 ∷ 110 ∷ 47 ∷ 106 ∷ 115 ∷ 111 ∷ 110 ∷ []

module _ {D : Type 0} ⦃c : EspHttp D⦄ where
  -- What both requests do with a client: perform, read the status, clean up.
  unfoldable pub finish_request : D → D × HttpResult
  unfolding on_events
  finish_request d =
      let (d', events, done) = c.perform d in
      let r = on_events events empty_result in
      let status = c.get_status_code d' in
      (
        c.client_cleanup d',
        if done
            then record r { status_code = status; success = leb 200 status && ltb status 300 }
            else r,
      )

  unfoldable pub http_get : List ℕ → ℕ → D → D × HttpResult
  unfolding finish_request
  http_get url timeout_ms d =
      let (d', created) =
        c.client_init (record { url = url; method = get; timeout_ms = timeout_ms }) d in
      if created then finish_request d' else (d', empty_result)

  unfoldable pub http_post : List ℕ → List ℕ → ℕ → D → D × HttpResult
  unfolding finish_request
  http_post url json timeout_ms d =
      let (d', created) =
        c.client_init (record { url = url; method = post; timeout_ms = timeout_ms }) d in
      if created
      then finish_request (c.set_post_field json (c.set_header content_type application_json d'))
      else (d', empty_result)
