-- ===== src/Connection/Manager/Recovery.antt =====
-- How a lost coordinator is noticed and searched for: heartbeat timeout, grace, static probes,
-- escalation. Ticks are calls of `loop`; between them nothing is heard.
use ungula_lib_net.Base.{
  ℕ, zero, suc, ◌+◌, ◌*◌, ◌≤◌, ◌<◌, ◌≡◌, refl, ◌∙◌, ap, true, false, List, [], ◌∷◌, ◌++◌, arith,
  ltb, if◌then◌else◌, u32, u32_mod, sub32-elapsed,
}
use ungula_lib_net.Connection.Config.{
  dynamic, paired_connected, paired_degraded, reacquiring_static, reacquiring_dynamic,
  ConnectionConfig,
}
use ungula_lib_net.Connection.Session.{SessionProvider}
use ungula_lib_net.Connection.Manager.{ConnectionManager, loop}
use ungula_lib_net.Connection.Manager.Events.{Event, tick, step, run}
use ungula_lib_net.Connection.Manager.Invariant.{IsConsistent}

-- `n` calls of `loop`, the first at `t` and each an interval after the one before.
abbrev pub ticks_every : {S : Type 0} → ℕ → ℕ → ℕ → List (Event S)
ticks_every zero t interval = []
ticks_every (suc n) t interval = tick t ∷ ticks_every n (t + interval) interval

abbrev pub iterate : {S : Type 0} → ℕ → (S → S) → S → S
iterate zero f s = s
iterate (suc n) f s = iterate n f (f s)

module _ {S : Type 0} ⦃p : SessionProvider S⦄ where
  run-append :
      (m : ConnectionManager S) (es fs : List (Event S)) → run m (es ++ fs) ≡ run (run m es) fs
  unfolding run
  run-append m [] fs = refl
  run-append m (e ∷ es) fs = run-append (step m e) es fs

  -- The coordinator was last heard at `h`, and `loop` runs `d` milliseconds later, on a clock that
  -- may have wrapped in between. The connection is given up exactly if `d` passes the timeout.
  pub timeout_exact :
      (m : ConnectionManager S) (h d : ℕ)
      → IsConsistent p m
      → m.state ≡ paired_connected
      → m.last_heard_ms ≡ u32 h
      → 0 < u32 h
      → d < u32_mod
      → let m' = loop (u32 (h + d)) m in
        let lost = ltb m.config.heartbeat_timeout_ms d in
        (m'.state ≡ (if lost then paired_degraded else paired_connected))
        × (m'.connected ≡ (if lost then false else true))
        × (m'.session ≡ m.session)
  unfolding loop
  timeout_exact m h d v s e pos l = ground (arith, sub32-elapsed h d)

-- The state of a search for a lost coordinator on its last channel, under a configuration `c`.
pub record IsSearching {S : Type 0} (c : ConnectionConfig) (count next : ℕ)
    (m : ConnectionManager S) : Type 0 where
  pub started : m.began ≡ true
  pub lost : m.connected ≡ false
  pub searching : m.state ≡ reacquiring_static
  pub configured : m.config ≡ c
  pub counted : m.probe_count ≡ count
  pub due : m.next_probe_ms ≤ next

-- The state of a search for it on all channels, with a round due at `next`.
pub record IsSweeping {S : Type 0} (c : ConnectionConfig) (next : ℕ) (m : ConnectionManager S)
    : Type 0 where
  pub started : m.began ≡ true
  pub lost : m.connected ≡ false
  pub sweeping : m.state ≡ reacquiring_dynamic
  pub configured : m.config ≡ c
  pub due : m.next_probe_ms ≤ next

module _ {S : Type 0} ⦃p : SessionProvider S⦄ (c : ConnectionConfig) (dyn : c.policy ≡ dynamic)
    (byte : c.static_max_probes < 256) where
  probe_step :
      (m : ConnectionManager S) (count t : ℕ)
      → IsSearching c count t m
      → suc count < c.static_max_probes
      → t + c.static_probe_interval_ms < u32_mod
      → IsSearching c (suc count) (t + c.static_probe_interval_ms) (loop t m)
        × ((loop t m).session ≡ p.send_probe m.session)
  unfolding loop
  probe_step m count t v b w = ground arith

  escalate_step :
      (m : ConnectionManager S) (count t next : ℕ)
      → IsSearching c count t m
      → suc count ≡ c.static_max_probes
      → t ≤ next
      → IsSweeping c next (loop t m)
        × ((loop t m).session ≡ p.start_reacquisition (p.send_probe m.session))
  unfolding loop
  escalate_step m count t next v b l = ground arith

  -- Due ticks below the limit send a probe each and go on searching; the next one escalates.
  search_escalates :
      (n : ℕ) (m : ConnectionManager S) (s : S) (count t next : ℕ)
      → IsSearching c count t m
      → m.session ≡ s
      → count + suc n ≡ c.static_max_probes
      → t + n * c.static_probe_interval_ms ≤ next
      → next < u32_mod
      → let m' = run m (ticks_every (suc n) t c.static_probe_interval_ms) in
        IsSweeping c next m' × (m'.session ≡ p.start_reacquisition (iterate (suc n) p.send_probe s))
  unfolding run step
  search_escalates zero m s count t next v same b l w =
      let (v', started) = escalate_step m count t next v (omega arith) (grind arith) in
      (v', started ∙ ap (λ s. p.start_reacquisition (p.send_probe s)) same)
  search_escalates (suc n) m s count t next v same b l w =
      let (v', sent) = probe_step m count t v (omega arith) (grind arith) in
      search_escalates n (loop t m) (p.send_probe s) (suc count) (t + c.static_probe_interval_ms)
        next v' (sent ∙ ap p.send_probe same) (omega arith) (grind arith) w

  -- The first two ticks after the coordinator falls silent: one notices, one starts the search.
  search_starts :
      (m : ConnectionManager S) (t t' : ℕ)
      → IsConsistent p m
      → m.config ≡ c
      → m.state ≡ paired_connected
      → 0 < m.last_heard_ms
      → m.last_heard_ms + c.heartbeat_timeout_ms < t
      → t + c.degraded_grace_period_ms ≤ t'
      → t' < u32_mod
      → IsSearching c 0 t' (loop t' (loop t m)) × ((loop t' (loop t m)).session ≡ m.session)
  unfolding loop
  search_starts m t t' v e s pos late grace w = ground arith

  silence_run :
      (n : ℕ) (m : ConnectionManager S) (t t' : ℕ)
      → IsConsistent p m
      → m.config ≡ c
      → m.state ≡ paired_connected
      → 0 < m.last_heard_ms
      → m.last_heard_ms + c.heartbeat_timeout_ms < t
      → t + c.degraded_grace_period_ms ≤ t'
      → n ≡ c.static_max_probes
      → 0 < n
      → t' + n * c.static_probe_interval_ms < u32_mod
      → let m' = run m (tick t ∷ tick t' ∷ ticks_every n t' c.static_probe_interval_ms) in
        IsSweeping c (t' + n * c.static_probe_interval_ms) m'
        × (m'.session ≡ p.start_reacquisition (iterate n p.send_probe m.session))
  unfolding run step
  silence_run zero m t t' v e s pos late grace limit some_probes w = absurd (omega arith)
  silence_run (suc n) m t t' v e s pos late grace limit some_probes w =
      let (search, same) = search_starts m t t' v e s pos late grace (grind arith) in
      search_escalates n (loop t' (loop t m)) m.session 0 t'
        (t' + suc n * c.static_probe_interval_ms) search same (omega arith) (grind arith)
        (grind arith)

  -- A connected node whose coordinator falls silent is, after one tick past the heartbeat timeout,
  -- one past the grace period and `static_max_probes` ticks a probe interval apart, in broad
  -- reacquisition with a round due, and has sent exactly `static_max_probes` probes before starting
  -- it. This is for the dynamic policy, a positive number of probes below 256 and a clock that does
  -- not wrap.
  pub silence_escalates :
      (m : ConnectionManager S) (t t' : ℕ)
      → IsConsistent p m
      → m.config ≡ c
      → m.state ≡ paired_connected
      → 0 < m.last_heard_ms
      → m.last_heard_ms + c.heartbeat_timeout_ms < t
      → t + c.degraded_grace_period_ms ≤ t'
      → 0 < c.static_max_probes
      → t' + c.static_max_probes * c.static_probe_interval_ms < u32_mod
      → let ticks =
          tick t ∷ tick t' ∷ ticks_every c.static_max_probes t' c.static_probe_interval_ms in
        IsSweeping c (t' + c.static_max_probes * c.static_probe_interval_ms) (run m ticks)
        × ((run m ticks).session
            ≡ p.start_reacquisition (iterate c.static_max_probes p.send_probe m.session))
  silence_escalates m t t' v e s pos late grace some_probes w =
      silence_run c.static_max_probes m t t' v e s pos late grace refl some_probes w
