-- ===== src/Comm/EspNow/Lifecycle.antt =====
-- Starting and stopping an EspNowTransport, and its peers.
use ungula_lib_net.Base.{
  ℕ, ◌≡◌, ◌↔◌, ◌⊎◌, refl, sym, ◌∙◌, Bool, true, false, List, Option, none, some, arith,
  if◌then◌else◌, ap, subst, Bool-cases, inl, inr,
}
use ungula_lib_net.Comm.Types.{MacAddress, TransportError, ok, not_initialized, copy_from}
use ungula_lib_net.Comm.EspNow.{
  Esp, EspNowTransport, init, init_with, register_callbacks, destroy, add_peer, remove_peer,
  has_peer,
}

-- What ESP-IDF documents of starting and stopping ESP-NOW, and of its peers: `up` says whether
-- ESP-NOW runs, and a call that fails changes no peer.
pub record IsEsp {D : Type 0} (e : Esp D) : Type 0 where
  pub up : D → Bool
  pub up-now_init : (d : D) → up (e.now_init d).0 ≡ (e.now_init d).1
  pub up-now_deinit : (d : D) → up (e.now_deinit d) ≡ false
  pub up-register_recv_cb : (d : D) → up (e.register_recv_cb d).0 ≡ up d
  pub up-register_send_cb : (d : D) → up (e.register_send_cb d).0 ≡ up d
  pub exist_lem : (m : MacAddress) (d : D) → (e.is_peer_exist m d ≡ false) ↔ (e.get_peer m d ≡ none)
  pub get-mod :
      (m : MacAddress) (c : ℕ) (d : D)
      → (e.mod_peer m c d).1 ≡ true
      → e.get_peer m (e.mod_peer m c d).0 ≡ some c
  pub get-add :
      (m : MacAddress) (c : ℕ) (d : D)
      → (e.now_add_peer m c d).1 ≡ true
      → e.get_peer m (e.now_add_peer m c d).0 ≡ some c
  pub get-del :
      (m : MacAddress) (d : D) → (e.del_peer m d).1 ≡ true → e.get_peer m (e.del_peer m d).0 ≡ none

module _ {D : Type 0} ⦃e : Esp D⦄ (l : IsEsp e) where
  abbrev AllOrNothing : EspNowTransport D × TransportError → Type 0
  AllOrNothing r =
      ((r.1 ≡ ok) × (r.0.initialized ≡ true) × (l.up r.0.esp ≡ true))
      ⊎ ((r.1 ≡ not_initialized) × (r.0.initialized ≡ false) × (l.up r.0.esp ≡ false))

  register_lem :
      (t : EspNowTransport D)
      → t.initialized ≡ false
      → l.up t.esp ≡ true
      → AllOrNothing (register_callbacks t)
  unfolding register_callbacks
  register_lem t off up =
      let d1 = (e.register_recv_cb t.esp).0 in
      ground (
        arith,
        l.up-register_recv_cb t.esp,
        l.up-register_send_cb d1,
        l.up-now_deinit d1,
        l.up-now_deinit (e.register_send_cb d1).0,
      )

  init_with_lem :
      (o : Option (List ℕ)) (t : EspNowTransport D)
      → t.initialized ≡ false
      → l.up t.esp ≡ false
      → AllOrNothing (init_with o t)
  unfolding init_with
  init_with_lem none t off down = inr (refl, off, down)
  init_with_lem (some mac) t off down =
      let started = (e.now_init t.esp).0 in
      let t' = record t { esp = started; own_mac = copy_from (some mac) t.own_mac } in
      elim (Bool-cases (e.now_init t.esp).1) [
        | inl init_ok ↦ rw init_ok (register_lem t' off (l.up-now_init t.esp ∙ init_ok))
        | inr failed ↦ rw failed (inr (refl, off, l.up-now_init t.esp ∙ failed))
      ]

  init_down :
      (t : EspNowTransport D) → t.initialized ≡ false → init t ≡ init_with (e.get_mac t.esp) t
  unfolding init
  init_down t off = ap (λ b. if b then (t, ok) else init_with (e.get_mac t.esp) t) off

  init_again : (t : EspNowTransport D) → t.initialized ≡ true → init t ≡ (t, ok)
  unfolding init
  init_again t on = ap (λ b. if b then (t, ok) else init_with (e.get_mac t.esp) t) on

  destroy_lem : (t : EspNowTransport D) → t.initialized ≡ true → l.up (destroy t).esp ≡ false
  unfolding destroy
  destroy_lem t on = ground (arith, l.up-now_deinit t.esp)

  -- Starting a transport whose ESP-NOW is down is all or nothing. Either it succeeds, and the
  -- transport is initialised with ESP-NOW running, or it reports that it is not, and ESP-NOW is down
  -- as before, even where a later step than its start has failed. Starting once more changes nothing,
  -- and destroying a started transport takes ESP-NOW down.
  pub init-AllOrNothing :
      (t : EspNowTransport D)
      → t.initialized ≡ false
      → l.up t.esp ≡ false
      → AllOrNothing (init t)
        × ((init t).0.initialized ≡ true
            → (init (init t).0 ≡ ((init t).0, ok)) × (l.up (destroy (init t).0).esp ≡ false))
  init-AllOrNothing t off down = (
    subst AllOrNothing (sym (init_down t off)) (init_with_lem (e.get_mac t.esp) t off down),
    λ on. (init_again (init t).0 on, destroy_lem (init t).0 on),
  )

  -- A peer that was added successfully is known on the channel it was added for, whether it was new,
  -- known on that channel or known on another one; a peer that was removed successfully is not known.
  pub peers_follow :
      (m : MacAddress) (c : ℕ) (t : EspNowTransport D)
      → ((add_peer m c t).1 ≡ ok
          → (e.get_peer m (add_peer m c t).0.esp ≡ some c) × (has_peer m (add_peer m c t).0 ≡ true))
        × ((remove_peer m t).1 ≡ ok
            → (e.get_peer m (remove_peer m t).0.esp ≡ none)
              × (has_peer m (remove_peer m t).0 ≡ false))
  unfolding add_peer remove_peer has_peer
  peers_follow m c t =
      let modified = (e.mod_peer m c t.esp).0 in
      let added = (e.now_add_peer m c t.esp).0 in
      let removed = (e.del_peer m t.esp).0 in
      ground (
        arith,
        l.exist_lem m t.esp,
        l.exist_lem m modified,
        l.exist_lem m added,
        l.exist_lem m removed,
        l.get-mod m c t.esp,
        l.get-add m c t.esp,
        l.get-del m t.esp,
      )
