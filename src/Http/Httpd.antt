-- ===== src/Http/Httpd.antt =====
-- What the server takes from the HTTP server of ESP-IDF (esp_http_server.h), over its state `D`.
use ungula_lib_net.Base.{ℕ, ◌≡◌, ◌⊎◌, Bool, List, [], ◌∷◌}

-- The methods of src/http/http_server.h.
pub data Method : Type 0 where
  get post put delete : Method

-- Which of the server's two handlers a URI is registered with.
pub data UriHandler : Type 0 where
  generic_handler ws_handler : UriHandler

-- `httpd_uri_t`; a path is the list of its bytes.
pub record Uri : Type 0 where
  pub path : List ℕ
  pub method : Method
  pub handler : UriHandler

pub data Frame : Type 0 where
  text : List ℕ → Frame
  ping : Frame

-- `httpd_start`, `httpd_stop`, `httpd_register_uri_handler` and `httpd_ws_send_frame_async`; the
-- result says whether the call returned `ESP_OK`.
pub record Httpd (D : Type 0) : Type 0 where
  pub start : ℕ → D → D × Bool
  pub stop : D → D
  pub register : Uri → D → D × Bool
  pub ws_send : ℕ → Frame → D → D × Bool

-- The URIs that are registered: a start and a stop leave none, a registration adds its URI or
-- fails, and sending changes none.
pub record IsHttpd {D : Type 0} (h : Httpd D) : Type 0 where
  pub uris : D → List Uri
  pub uris-start : (port : ℕ) (d : D) → uris (h.start port d).0 ≡ []
  pub uris-stop : (d : D) → uris (h.stop d) ≡ []
  pub uris-register :
      (u : Uri) (d : D)
      → (uris (h.register u d).0 ≡ u ∷ uris d) ⊎ (uris (h.register u d).0 ≡ uris d)
  pub uris-ws_send : (fd : ℕ) (f : Frame) (d : D) → uris (h.ws_send fd f d).0 ≡ uris d
