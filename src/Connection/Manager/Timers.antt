-- ===== src/Connection/Manager/Timers.antt =====
-- Two places where a timer of the manager does not do what its name says: the boot grace period,
-- which the first search overwrites, and the probe deadline, which is compared without regard to
-- the wrap of the clock.
use ungula_lib_net.Base.{
  ℕ, ◌+◌, ◌≤◌, ◌<◌, ◌≡◌, refl, ◌⊎◌, true, false, List, [], ◌∷◌, arith, u32_mod, All, map, ap, ◌∙◌,
}
use ungula_lib_net.Connection.Config.{
  static, reacquiring_static, reacquiring_dynamic, ConnectionConfig,
}
use ungula_lib_net.Connection.Session.{SessionProvider}
use ungula_lib_net.Connection.Manager.{ConnectionManager, init, begin, loop}
use ungula_lib_net.Connection.Manager.Events.{tick, step, run}

module _ {S : Type 0} ⦃p : SessionProvider S⦄ where
  -- A paired node boots at `t`. Its first `loop` after the degraded grace period starts a search,
  -- and the next one probes the coordinator, both before the boot grace period is over.
  pub boot_grace_ignored :
      (s : S) (c : ConnectionConfig) (t t' t'' : ℕ)
      → p.has_pairing s ≡ true
      → (c.policy ≡ static) ⊎ (1 < c.static_max_probes)
      → c.static_max_probes < 256
      → t + c.degraded_grace_period_ms ≤ t'
      → t' ≤ t''
      → t'' < t + c.boot_grace_period_ms
      → t + c.boot_grace_period_ms < u32_mod
      → let m = run (begin t (init s c)) (tick t' ∷ tick t'' ∷ []) in
        (m.session ≡ p.send_probe s) × (m.state ≡ reacquiring_static)
  unfolding run step begin loop init
  boot_grace_ignored s c t t' t'' paired policy byte grace order early w = ground arith

  abbrev pub IsSearchState : ConnectionManager S → Type 0
  IsSearchState m = (m.state ≡ reacquiring_static) ⊎ (m.state ≡ reacquiring_dynamic)

  early_tick :
      (m : ConnectionManager S) (t : ℕ)
      → m.connected ≡ false
      → IsSearchState m
      → t < m.next_probe_ms
      → loop t m ≡ m
  unfolding loop
  early_tick m t lost searching early = ground arith

  -- While the clock reads less than the deadline of the next probe, no number of calls of `loop`
  -- does anything. So a clock that wraps just before a deadline that did not wrap silences the
  -- search until the clock reads that deadline again.
  pub deadline_silences :
      (m : ConnectionManager S) (ts : List ℕ)
      → m.connected ≡ false
      → IsSearchState m
      → All (λ t. t < m.next_probe_ms) ts
      → run m (map tick ts) ≡ m
  unfolding run step
  deadline_silences m [] lost searching early = refl
  deadline_silences m (t ∷ ts) lost searching early =
      ap (λ m'. run m' (map tick ts)) (early_tick m t lost searching early.0)
      ∙ deadline_silences m ts lost searching early.1
