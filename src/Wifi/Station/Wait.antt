-- ===== src/Wifi/Station/Wait.antt =====
-- src/wifi/wifi_sta.cpp: the whole of sta_connect. Its wait goes over the events that arrive until it
-- ends, the time-out being the end of the list.
use ungula_lib_net.Base.{
  ℕ, ◌≡◌, ◌↔◌, refl, sym, ◌∙◌, inl, inr, Bool-cases, Bool, true, false, ◌||◌, List, [], ◌∷◌, Option,
  arith, if◌then◌else◌,
}
use ungula_lib_net.Wifi.Station.{
  Wifi, Station, is_reconnectable_reason, on_disconnected, ensure_event_handler, start_connect,
  finish_connect,
}
use ungula_lib_net.Wifi.Station.Retry.{StationEvent, disconnected, got_ip, leave, handle}

-- Whether the attempt is at its first disconnection, past it, or given up by the user.
pub data Attempt : Type 0 where
  first again leaving : Attempt

-- The events bring an address before the attempt ends: the first disconnection is always survived,
-- later ones if their reason is transient, and none after the user has left.
abbrev pub Connects : Attempt → List StationEvent → Type 0
Connects a [] = ⊥
Connects a (got_ip ∷ es) = Unit {0}
Connects a (leave ∷ es) = Connects leaving es
Connects first (disconnected r ∷ es) = Connects again es
Connects again (disconnected r ∷ es) = (is_reconnectable_reason r ≡ true) × Connects again es
Connects leaving (disconnected r ∷ es) = ⊥

module _ {D : Type 0} ⦃w : Wifi D⦄ where
  -- `xEventGroupWaitBits`, while the handler runs.
  unfoldable pub wait : List StationEvent → Station D → Station D
  unfolding handle
  wait [] s = s
  wait (e ∷ es) s =
      let rest = wait es (handle s e) in if s.connected_bit || s.fail_bit then s else rest

  unfoldable pub sta_connect :
      List ℕ → Option (List ℕ) → List StationEvent → Station D → Station D × Bool
  unfolding start_connect wait finish_connect
  sta_connect ssid password es s =
      let (s1, waiting) = start_connect ssid password s in
      if waiting then finish_connect (wait es s1) else (s1, false)

  -- The flags of a station whose attempt stands as given; nothing is signalled yet.
  abbrev Stands : Attempt → Station D → Type 0
  Stands first s = (s.voluntary_disconnect ≡ false) × (s.first_connect ≡ true)
  Stands again s = (s.voluntary_disconnect ≡ false) × (s.first_connect ≡ false)
  Stands leaving s = s.voluntary_disconnect ≡ true

  record IsPending (a : Attempt) (s : Station D) : Type 0 where
    stands : Stands a s
    auto : s.auto_reconnect ≡ true
    not_connected : s.connected_bit ≡ false
    not_failed : s.fail_bit ≡ false

  wait_over :
      (es : List StationEvent) (s : Station D)
      → (s.connected_bit || s.fail_bit) ≡ true
      → wait es s ≡ s
  unfolding wait
  wait_over [] s over = refl
  wait_over (e ∷ es) s over = rw over refl

  wait_on :
      (a : Attempt) (e : StationEvent) (es : List StationEvent) (s : Station D)
      → IsPending a s
      → wait (e ∷ es) s ≡ wait es (handle s e)
  unfolding wait
  wait_on a e es s v = rw (v.not_connected, v.not_failed) refl

  -- A signal ends the wait with its bit.
  signalled :
      (es : List StationEvent) (s : Station D)
      → (s.connected_bit || s.fail_bit) ≡ true
      → ((wait es s).connected_bit ≡ true) ↔ (s.connected_bit ≡ true)
  signalled es s over = rw (wait_over es s over) (λ h. h, λ h. h)

  left-IsPending :
      (a : Attempt) (s : Station D) → IsPending a s → IsPending leaving (handle s leave)
  unfolding handle
  left-IsPending a s v = ground arith

  lost-IsPending :
      (r : ℕ) (s : Station D) → IsPending first s → IsPending again (handle s (disconnected r))
  unfolding handle
  lost-IsPending r s v = ground arith

  retried-IsPending :
      (r : ℕ) (s : Station D)
      → IsPending again s
      → is_reconnectable_reason r ≡ true
      → IsPending again (handle s (disconnected r))
  unfolding handle on_disconnected
  retried-IsPending r s v transient = ground arith

  refused :
      (r : ℕ) (s : Station D)
      → IsPending again s
      → is_reconnectable_reason r ≡ false
      → ((handle s (disconnected r)).connected_bit ≡ false)
        × ((handle s (disconnected r)).fail_bit ≡ true)
  unfolding handle on_disconnected
  refused r s v permanent = ground arith

  given_up :
      (r : ℕ) (s : Station D)
      → IsPending leaving s
      → ((handle s (disconnected r)).connected_bit ≡ false)
        × ((handle s (disconnected r)).fail_bit ≡ true)
  unfolding handle on_disconnected
  given_up r s v = ground arith

  failed :
      (es : List StationEvent) (s : Station D)
      → (s.connected_bit ≡ false) × (s.fail_bit ≡ true)
      → (wait es s).connected_bit ≡ true
      → ⊥
  failed es s f connected =
      let up = (signalled es s (ground (arith, f))).0 connected in ground (arith, f, up)

  got_ip_lem : (s : Station D) → (handle s got_ip).connected_bit ≡ true
  unfolding handle
  got_ip_lem s = refl

  got_ip_over :
      (s : Station D) → ((handle s got_ip).connected_bit || (handle s got_ip).fail_bit) ≡ true
  unfolding handle
  got_ip_over s = refl

  wait_lem :
      (a : Attempt) (es : List StationEvent) (s : Station D)
      → IsPending a s
      → ((wait es s).connected_bit ≡ true) ↔ Connects a es
  wait_lem a [] s v = unfold wait in (λ h. ground (arith, v, h), λ h. absurd h)
  wait_lem a (got_ip ∷ es) s v =
      rw (wait_on a got_ip es s v)
        (λ h. tt, λ h. (signalled es (handle s got_ip) (got_ip_over s)).1 (got_ip_lem s))
  wait_lem a (leave ∷ es) s v =
      rw (wait_on a leave es s v) (wait_lem leaving es (handle s leave) (left-IsPending a s v))
  wait_lem first (disconnected r ∷ es) s v =
      rw (wait_on first (disconnected r) es s v)
        (wait_lem again es (handle s (disconnected r)) (lost-IsPending r s v))
  wait_lem again (disconnected r ∷ es) s v = elim (Bool-cases (is_reconnectable_reason r)) [
    | inl transient ↦
        let later =
          wait_lem again es (handle s (disconnected r)) (retried-IsPending r s v transient) in
        rw (wait_on again (disconnected r) es s v) (λ h. (transient, later.0 h), λ c. later.1 c.1)
    | inr permanent ↦ rw (wait_on again (disconnected r) es s v) (
      λ h. absurd (failed es (handle s (disconnected r)) (refused r s v permanent) h),
      λ c. cc (c.0, permanent),
    )
  ]
  wait_lem leaving (disconnected r ∷ es) s v =
      rw (wait_on leaving (disconnected r) es s v)
        (λ h. failed es (handle s (disconnected r)) (given_up r s v) h, λ c. absurd c)

  start-IsPending :
      (ssid : List ℕ) (password : Option (List ℕ)) (s : Station D)
      → s.auto_reconnect ≡ true
      → (start_connect ssid password s).1 ≡ true
      → IsPending first (start_connect ssid password s).0
  unfolding start_connect ensure_event_handler
  start-IsPending ssid password s auto started = ground arith

  finish_lem :
      (s : Station D)
      → ((finish_connect s).1 ≡ s.connected_bit)
        × ((finish_connect s).0.connecting ≡ false)
        × ((finish_connect s).0.connected_bit ≡ false)
        × ((finish_connect s).0.fail_bit ≡ false)
  unfolding finish_connect
  finish_lem s = ground arith

  -- A call of `sta_connect` whose attempt is started, on a station that reconnects by itself, ends
  -- with the flag of a running attempt and both signals cleared, whatever events arrive. It reports
  -- success exactly if the events bring an address before the attempt ends: the first disconnection is
  -- survived for any reason, a later one for a transient reason alone, and none once the user has
  -- disconnected.
  pub sta_connect-Connects :
      (ssid : List ℕ) (password : Option (List ℕ)) (es : List StationEvent) (s : Station D)
      → s.auto_reconnect ≡ true
      → (start_connect ssid password s).1 ≡ true
      → let r = sta_connect ssid password es s in
        ((r.1 ≡ true) ↔ Connects first es)
        × (r.0.connecting ≡ false)
        × (r.0.connected_bit ≡ false)
        × (r.0.fail_bit ≡ false)
  unfolding sta_connect
  sta_connect-Connects ssid password es s auto started =
      let s1 = (start_connect ssid password s).0 in
      let seen = wait_lem first es s1 (start-IsPending ssid password s auto started) in
      let ended = finish_lem (wait es s1) in
      rw started
        ((λ h. seen.0 (sym ended.0 ∙ h), λ c. ended.0 ∙ seen.1 c), ended.1, ended.2, ended.3)
