-- ===== src/Http/Client/Tests.antt =====
-- The two builds of the HTTP client at concrete inputs, over libraries that answer "hi" with 200.
use ungula_lib_net.Base.{ℕ, suc, ◌-◌, ◌≡◌, refl, true, [], ◌∷◌, arith}
use ungula_lib_net.Http.Client.Esp.{EspHttp, data_event, other_event}
use ungula_lib_net.Http.Client.Esp
use ungula_lib_net.Http.Client.Curl.{CurlHttp}
use ungula_lib_net.Http.Client.Curl
use ungula_lib_net.Http.Client.Builds.{builds_agree}
use ungula_lib_net.Http.Client.Handles.{IsEspHttp, IsCurlHttp, handles_released}

record Library : Type 0 where
  handles : ℕ
  lists : ℕ

instance abbrev esp : EspHttp Library
esp = record {
  client_init = λ o d. (record d { handles = suc d.handles }, true);
  set_header = λ n v d. d;
  set_post_field = λ b d. d;
  perform = λ d.
      (d, other_event ∷ data_event (104 ∷ []) ∷ data_event (105 ∷ []) ∷ other_event ∷ [], true);
  get_status_code = λ d. 200;
  client_cleanup = λ d. record d { handles = d.handles - 1 };
}

instance abbrev curl : CurlHttp Library
curl = record {
  easy_init = λ d. (record d { handles = suc d.handles }, true);
  slist_append = λ h d. record d { lists = suc d.lists };
  easy_setopt = λ o d. d;
  easy_perform = λ d. (d, (104 ∷ []) ∷ (105 ∷ []) ∷ [], true);
  response_code = λ d. 200;
  slist_free_all = λ d. record d { lists = d.lists - 1 };
  easy_cleanup = λ d. record d { handles = d.handles - 1 };
}

esp-IsEspHttp : IsEspHttp esp
esp-IsEspHttp = record {
  clients = λ d. d.handles;
  clients-init = λ o d. refl;
  clients-set_header = λ n v d. refl;
  clients-set_post_field = λ b d. refl;
  clients-perform = λ d. refl;
  clients-cleanup = λ n d e. omega arith;
}

curl-IsCurlHttp : IsCurlHttp curl
curl-IsCurlHttp = record {
  handles = λ d. d.handles;
  lists = λ d. d.lists;
  handles-init = λ d. refl;
  lists-init = λ d. refl;
  handles-append = λ h d. refl;
  lists-append = λ h d. refl;
  handles-setopt = λ o d. refl;
  lists-setopt = λ o d. refl;
  handles-perform = λ d. refl;
  lists-perform = λ d. refl;
  handles-free = λ d. refl;
  lists-free = λ n d e. omega arith;
  handles-cleanup = λ n d e. omega arith;
  lists-cleanup = λ d. refl;
}

abbrev closed : Library
closed = record { handles = 0; lists = 0 }

builds_agree_example :
    (Esp.http_get (47 ∷ []) 1000 closed).1 ≡ (Curl.http_get (47 ∷ []) 1000 closed).1
builds_agree_example = (builds_agree (47 ∷ []) [] 1000 closed closed).0 refl

handles_released_example : (Esp.http_post (47 ∷ []) (123 ∷ []) 1000 closed).0.handles ≡ 0
unfolding esp-IsEspHttp
handles_released_example =
    (handles_released esp-IsEspHttp curl-IsCurlHttp (47 ∷ []) (123 ∷ []) 1000 closed closed).1
