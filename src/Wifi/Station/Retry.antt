-- ===== src/Wifi/Station/Retry.antt =====
-- Retries after a disconnection, cached name servers, and what reaches the radio of credentials.
use ungula_lib_net.Base.{
  ℕ, zero, suc, ◌≤◌, ◌≡◌, ◌≢◌, ◌↔◌, refl, sym, ◌∙◌, ap, true, false, List, [], ◌∷◌, Option, none,
  some, arith, length, take, length-take, take_all, All,
}
use ungula_lib_net.Wifi.Station.{
  Wifi, Station, is_reconnectable_reason, sta_ssid, sta_password, apply_with,
  apply_sta_dns_and_route, on_disconnected, on_got_ip, start_connect, finish_connect,
  sta_disconnect,
}

-- What the event loop and the application do to a station.
pub data StationEvent : Type 0 where
  disconnected : ℕ → StationEvent
  got_ip leave : StationEvent

module _ {D : Type 0} ⦃w : Wifi D⦄ where
  unfoldable pub handle : Station D → StationEvent → Station D
  unfolding on_disconnected on_got_ip sta_disconnect
  handle s (disconnected reason) = on_disconnected reason s
  handle s got_ip = on_got_ip s
  handle s leave = sta_disconnect s

  pub handle_all : Station D → List StationEvent → Station D
  unfolding handle
  handle_all s [] = s
  handle_all s (e ∷ es) = handle_all (handle s e) es

  pub losses : Station D → List ℕ → Station D
  unfolding on_disconnected
  losses s [] = s
  losses s (r ∷ rs) = losses (on_disconnected r s) rs

  -- `n` calls of `esp_wifi_connect`.
  pub connects : ℕ → D → D
  connects zero d = d
  connects (suc n) d = connects n (w.connect d).0

  abbrev IsRetrying : Station D → Type 0
  IsRetrying s =
      (s.voluntary_disconnect ≡ false) × (s.first_connect ≡ false) × (s.auto_reconnect ≡ true)

  transient :
      (r : ℕ) (s : Station D)
      → IsRetrying s
      → is_reconnectable_reason r ≡ true
      → on_disconnected r s ≡ record s { wifi = (w.connect s.wifi).0 }
  unfolding on_disconnected
  transient r s v yes_transient = ground (arith, v)

  transients :
      (rs : List ℕ) (s : Station D)
      → IsRetrying s
      → All (λ r. is_reconnectable_reason r ≡ true) rs
      → losses s rs ≡ record s { wifi = connects (length rs) s.wifi }
  unfolding losses connects
  transients [] s v all = refl
  transients (r ∷ rs) s v all =
      ap (λ s'. losses s' rs) (transient r s v all.0)
      ∙ transients rs (record s { wifi = (w.connect s.wifi).0 }) v all.1

  first :
      (r : ℕ) (s : Station D)
      → s.voluntary_disconnect ≡ false
      → s.first_connect ≡ true
      → on_disconnected r s ≡ record s { first_connect = false; wifi = (w.connect s.wifi).0 }
  unfolding on_disconnected
  first r s v f = ground arith

  permanent :
      (r : ℕ) (s : Station D)
      → IsRetrying s
      → is_reconnectable_reason r ≡ false
      → on_disconnected r s ≡ record s { fail_bit = true }
  unfolding on_disconnected
  permanent r s v not_transient = ground (arith, v)

  -- A station that has started to connect, and connects by itself, tries again after its first
  -- disconnection whatever the reason, and after each one with a transient reason that follows. The
  -- first permanent reason after that ends the attempts: it is signalled as a failure, and no further
  -- connection is tried.
  pub retries_until_permanent :
      (s : Station D) (r0 : ℕ) (rs : List ℕ) (r : ℕ)
      → s.voluntary_disconnect ≡ false
      → s.first_connect ≡ true
      → s.auto_reconnect ≡ true
      → All (λ q. is_reconnectable_reason q ≡ true) rs
      → is_reconnectable_reason r ≡ false
      → let s1 = losses s (r0 ∷ rs) in
        let s2 = on_disconnected r s1 in
        (s1.fail_bit ≡ s.fail_bit)
        × (s1.wifi ≡ connects (suc (length rs)) s.wifi)
        × (s2.fail_bit ≡ true)
        × (s2.wifi ≡ s1.wifi)
  unfolding losses connects
  retries_until_permanent s r0 rs r v f auto all not_transient =
      let s0 = record s { first_connect = false; wifi = (w.connect s.wifi).0 } in
      let tried : losses s (r0 ∷ rs) ≡ record s0 { wifi = connects (length rs) s0.wifi } =
        ap (λ s'. losses s' rs) (first r0 s v f) ∙ transients rs s0 (v, refl, auto) all in
      let over =
        permanent r (record s0 { wifi = connects (length rs) s0.wifi }) (v, refl, auto)
          not_transient in
      let ended = ap (on_disconnected r) tried ∙ over in
      (
        ap (λ s'. s'.fail_bit) tried,
        ap (λ s'. s'.wifi) tried,
        ap (λ s'. s'.fail_bit) ended,
        ap (λ s'. s'.wifi) ended ∙ sym (ap (λ s'. s'.wifi) tried),
      )

  -- A connection attempt whose wait runs out before any event is reported as failed, and the station
  -- leaves; but the disconnection that this causes is taken for the first one of the attempt, whatever
  -- its reason, so that the station connects again.
  pub timeout_reconnects :
      (s : Station D) (ssid : List ℕ) (password : Option (List ℕ)) (reason : ℕ)
      → (start_connect ssid password s).1 ≡ true
      → let s1 = (start_connect ssid password s).0 in
        let (s2, connected) = finish_connect s1 in
        (connected ≡ false)
        × (s2.wifi ≡ w.disconnect s1.wifi)
        × ((on_disconnected reason s2).wifi ≡ (w.connect s2.wifi).0)
  unfolding start_connect finish_connect on_disconnected
  timeout_reconnects s ssid password reason started = ground arith

  apply_dns :
      (o : Option (ℕ × ℕ)) (s : Station D)
      → s.cached_dns_main ≢ 0
      → ((apply_with o s).cached_dns_main ≡ s.cached_dns_main)
        × ((apply_with o s).cached_dns_backup ≡ s.cached_dns_backup)
  unfolding apply_with
  apply_dns none s some_main = (refl, refl)
  apply_dns (some (main, backup)) s some_main = ground arith

  handle_dns :
      (s : Station D) (e : StationEvent)
      → s.cached_dns_main ≢ 0
      → ((handle s e).cached_dns_main ≡ s.cached_dns_main)
        × ((handle s e).cached_dns_backup ≡ s.cached_dns_backup)
  unfolding handle apply_sta_dns_and_route
  handle_dns s (disconnected reason) some_main = ground arith
  handle_dns s got_ip some_main = apply_dns (w.dns_info s.wifi) s some_main
  handle_dns s leave some_main = ground arith

  -- The name servers of the first connection that had a main one stay, whatever happens later.
  pub dns_stays :
      (s : Station D) (es : List StationEvent)
      → s.cached_dns_main ≢ 0
      → ((handle_all s es).cached_dns_main ≡ s.cached_dns_main)
        × ((handle_all s es).cached_dns_backup ≡ s.cached_dns_backup)
  unfolding handle_all
  dns_stays s [] some_main = (refl, refl)
  dns_stays s (e ∷ es) some_main =
      let now = handle_dns s e some_main in
      let later = dns_stays (handle s e) es (λ gone. some_main (sym now.0 ∙ gone)) in
      (later.0 ∙ now.0, later.1 ∙ now.1)

take_iff : (n : ℕ) (xs : List ℕ) → (take n xs ≡ xs) ↔ (length xs ≤ n)
take_iff n xs = (λ e. omega (arith, length-take n xs, ap length e), take_all n xs)

-- The SSID and the password reach the radio as they are exactly up to 31 and up to 63 bytes.
pub credentials_exact :
    (ssid password : List ℕ)
    → ((sta_ssid ssid ≡ ssid) ↔ (length ssid ≤ 31))
      × ((sta_password (some password) ≡ password) ↔ (length password ≤ 63))
unfolding sta_ssid sta_password
credentials_exact ssid password = (take_iff 31 ssid, take_iff 63 password)
