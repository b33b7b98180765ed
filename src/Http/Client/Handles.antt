-- ===== src/Http/Client/Handles.antt =====
-- The handles of the two HTTP libraries.
use ungula_lib_net.Base.{ℕ, suc, ◌≡◌, ◌∙◌, List, arith, if◌then◌else◌}
use ungula_lib_net.Http.Client.Esp.{
  ClientConfig, EspHttp, finish_request, content_type, application_json, HttpMethod,
}
use ungula_lib_net.Http.Client.Esp
use ungula_lib_net.Http.Client.Curl.{
  CurlOptions, CurlHttp, perform_request, json_header, get_options, post_options,
}
use ungula_lib_net.Http.Client.Curl

-- What the libraries document: `clients` counts the clients that are open, and `handles` and `lists`
-- the handles and header lists of libcurl.
pub record IsEspHttp {D : Type 0} (c : EspHttp D) : Type 0 where
  pub clients : D → ℕ
  pub clients-init :
      (o : ClientConfig) (d : D)
      → clients (c.client_init o d).0
        ≡ (if (c.client_init o d).1 then suc (clients d) else clients d)
  pub clients-set_header : (n v : List ℕ) (d : D) → clients (c.set_header n v d) ≡ clients d
  pub clients-set_post_field : (b : List ℕ) (d : D) → clients (c.set_post_field b d) ≡ clients d
  pub clients-perform : (d : D) → clients (c.perform d).0 ≡ clients d
  pub clients-cleanup : (n : ℕ) (d : D) → clients d ≡ suc n → clients (c.client_cleanup d) ≡ n

pub record IsCurlHttp {D : Type 0} (c : CurlHttp D) : Type 0 where
  pub handles : D → ℕ
  pub lists : D → ℕ
  pub handles-init :
      (d : D)
      → handles (c.easy_init d).0 ≡ (if (c.easy_init d).1 then suc (handles d) else handles d)
  pub lists-init : (d : D) → lists (c.easy_init d).0 ≡ lists d
  pub handles-append : (h : List ℕ) (d : D) → handles (c.slist_append h d) ≡ handles d
  pub lists-append : (h : List ℕ) (d : D) → lists (c.slist_append h d) ≡ suc (lists d)
  pub handles-setopt : (o : CurlOptions) (d : D) → handles (c.easy_setopt o d) ≡ handles d
  pub lists-setopt : (o : CurlOptions) (d : D) → lists (c.easy_setopt o d) ≡ lists d
  pub handles-perform : (d : D) → handles (c.easy_perform d).0 ≡ handles d
  pub lists-perform : (d : D) → lists (c.easy_perform d).0 ≡ lists d
  pub handles-free : (d : D) → handles (c.slist_free_all d) ≡ handles d
  pub lists-free : (n : ℕ) (d : D) → lists d ≡ suc n → lists (c.slist_free_all d) ≡ n
  pub handles-cleanup : (n : ℕ) (d : D) → handles d ≡ suc n → handles (c.easy_cleanup d) ≡ n
  pub lists-cleanup : (d : D) → lists (c.easy_cleanup d) ≡ lists d

module _ {D : Type 0} ⦃c : EspHttp D⦄ (l : IsEspHttp c) where
  finish-clients : (n : ℕ) (d : D) → l.clients d ≡ suc n → l.clients (finish_request d).0 ≡ n
  unfolding finish_request
  finish-clients n d e = l.clients-cleanup n (c.perform d).0 (l.clients-perform d ∙ e)

  esp_get-clients :
      (url : List ℕ) (t : ℕ) (d : D) → l.clients (Esp.http_get url t d).0 ≡ l.clients d
  unfolding Esp.http_get
  esp_get-clients url t d =
      let config : ClientConfig = record { url = url; method = Esp.get; timeout_ms = t } in
      let d1 = (c.client_init config d).0 in
      ground (arith, l.clients-init config d, finish-clients (l.clients d) d1)

  esp_post-clients :
      (url json : List ℕ) (t : ℕ) (d : D) → l.clients (Esp.http_post url json t d).0 ≡ l.clients d
  unfolding Esp.http_post
  esp_post-clients url json t d =
      let config : ClientConfig = record { url = url; method = Esp.post; timeout_ms = t } in
      let d1 = (c.client_init config d).0 in
      let d2 = c.set_header content_type application_json d1 in
      ground (
        arith,
        l.clients-init config d,
        l.clients-set_header content_type application_json d1,
        l.clients-set_post_field json d2,
        finish-clients (l.clients d) (c.set_post_field json d2),
      )

module _ {D : Type 0} ⦃c : CurlHttp D⦄ (l : IsCurlHttp c) where
  abbrev Same : D → D → Type 0
  Same d e = (l.handles d ≡ l.handles e) × (l.lists d ≡ l.lists e)

  perform-Same : (o : CurlOptions) (d : D) → Same (perform_request o d).0 d
  unfolding perform_request
  perform-Same o d =
      let d1 = c.easy_setopt o d in
      (l.handles-perform d1 ∙ l.handles-setopt o d, l.lists-perform d1 ∙ l.lists-setopt o d)

  curl_get-Same : (url : List ℕ) (t : ℕ) (d : D) → Same (Curl.http_get url t d).0 d
  unfolding Curl.http_get
  curl_get-Same url t d =
      let d1 = (c.easy_init d).0 in
      let d2 = (perform_request (get_options url t) d1).0 in
      ground (
        arith,
        l.handles-init d,
        l.lists-init d,
        perform-Same (get_options url t) d1,
        l.handles-cleanup (l.handles d) d2,
        l.lists-cleanup d2,
      )

  curl_post-Same : (url json : List ℕ) (t : ℕ) (d : D) → Same (Curl.http_post url json t d).0 d
  unfolding Curl.http_post
  curl_post-Same url json t d =
      let d1 = (c.easy_init d).0 in
      let d2 = c.slist_append json_header d1 in
      let d3 = (perform_request (post_options url json t) d2).0 in
      let d4 = c.slist_free_all d3 in
      ground (
        arith,
        l.handles-init d,
        l.lists-init d,
        l.handles-append json_header d1,
        l.lists-append json_header d1,
        perform-Same (post_options url json t) d2,
        l.handles-free d3,
        l.lists-free (l.lists d) d3,
        l.handles-cleanup (l.handles d) d4,
        l.lists-cleanup d4,
      )

-- A GET and a POST, in either build and whatever becomes of the transfer, leave as many clients,
-- handles and header lists as there were before: what a request opens is closed, on every path.
pub handles_released :
    {D E : Type 0} ⦃c : EspHttp D⦄ ⦃k : CurlHttp E⦄ (l : IsEspHttp c) (m : IsCurlHttp k)
    → (url json : List ℕ) (t : ℕ) (d : D) (e : E)
    → (l.clients (Esp.http_get url t d).0 ≡ l.clients d)
      × (l.clients (Esp.http_post url json t d).0 ≡ l.clients d)
      × Same m (Curl.http_get url t e).0 e
      × Same m (Curl.http_post url json t e).0 e
handles_released l m url json t d e = (
  esp_get-clients l url t d,
  esp_post-clients l url json t d,
  curl_get-Same m url t e,
  curl_post-Same m url json t e,
)
