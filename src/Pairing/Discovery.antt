-- ===== src/Pairing/Discovery.antt =====
-- A scanning client meets a coordinator: the dwell time of the one and the beacon interval of the
-- other, on a clock that both read.
use ungula_lib_net.Base.{
  ℕ, ◌+◌, ◌*◌, sym, subst, ◌≤◌, ◌<◌, ◌≡◌, ◌⊎◌, inl, inr, refl, ◌∙◌, ap, true, false, List, [], ◌∷◌,
  ◌++◌, arith, leb, sub32, u32_mod, Bool-cases,
}
use ungula_lib_net.Comm.Types.{MacAddress, broadcast}
use ungula_lib_net.Comm.Transport.{Transport, IsTransport}
use ungula_lib_net.Preferences.{Preferences}
use ungula_lib_net.Pairing.Types.{scanning, responding, channel_scan_dwell_ms, beacon_interval_ms}
use ungula_lib_net.Pairing.Client.{PairingClient}
use ungula_lib_net.Pairing.Client.Scan.{loop as client_loop, start_scanning}
use ungula_lib_net.Pairing.Client.Scan.Laws.{scheduled, InBand, dwell_loops, scan_schedule}
use ungula_lib_net.Pairing.Client.Receive.{handle_received as client_received}
use ungula_lib_net.Pairing.Coordinator.{PairingCoordinator}
use ungula_lib_net.Pairing.Coordinator.Receive.{loop, broadcast_beacon}
use ungula_lib_net.Pairing.Handshake.{beacon_bytes, request_bytes, beacon_goes_out, beacon_answered}

-- The times at which `loop` runs, each at most `g` after the one before, the first one after `t`.
abbrev pub Spaced : ℕ → ℕ → List ℕ → Type 0
Spaced g t [] = Unit {0}
Spaced g t (u ∷ us) = (t ≤ u) × (u ≤ t + g) × Spaced g u us

abbrev pub Reaches : ℕ → List ℕ → Type 0
Reaches m [] = ⊥
Reaches m (u ∷ us) = (m ≤ u) ⊎ Reaches m us

module _ {T P : Type 0} ⦃tr : Transport T⦄ where
  pub loops : PairingCoordinator T P → List ℕ → PairingCoordinator T P
  loops k [] = k
  loops k (t ∷ ts) = loops (loop t k) ts

  -- Among the times there is a first one at which a beacon is due, from `t` on and up to `limit`.
  pub record FirstDue (k : PairingCoordinator T P) (t : ℕ) (ts : List ℕ) (limit : ℕ) : Type 0 where
    pub before : List ℕ
    pub due : ℕ
    pub after : List ℕ
    pub split : ts ≡ before ++ due ∷ after
    pub from : t ≤ due
    pub in_time : due ≤ limit
    pub quiet : loops k before ≡ k
    pub fires : loop due k ≡ broadcast_beacon (record k { last_beacon_ms = due })

  loop_fires :
      (t : ℕ) (k : PairingCoordinator T P)
      → k.pairing_enabled ≡ true
      → leb beacon_interval_ms (sub32 t k.last_beacon_ms) ≡ true
      → loop t k ≡ broadcast_beacon (record k { last_beacon_ms = t })
  unfolding loop
  loop_fires t k on due = simp (on, due)

  loop_waits :
      (t : ℕ) (k : PairingCoordinator T P)
      → k.pairing_enabled ≡ true
      → leb beacon_interval_ms (sub32 t k.last_beacon_ms) ≡ false
      → loop t k ≡ k
  unfolding loop
  loop_waits t k on early = simp (on, early)

  first_due :
      (ts : List ℕ) (g t limit : ℕ) (k : PairingCoordinator T P)
      → k.pairing_enabled ≡ true
      → k.last_beacon_ms ≤ t
      → t + g ≤ limit
      → k.last_beacon_ms + beacon_interval_ms + g ≤ limit
      → limit < u32_mod
      → Spaced g t ts
      → Reaches (k.last_beacon_ms + beacon_interval_ms) ts
      → FirstDue k t ts limit
  unfolding loops
  first_due [] g t limit k on past near next small spaced reach = absurd reach
  first_due (u ∷ us) g t limit k on past near next small spaced reach =
      let (lo, hi, rest) = spaced in
      elim (Bool-cases (leb beacon_interval_ms (sub32 u k.last_beacon_ms))) [
        | inl due ↦ record {
          before = [];
          due = u;
          after = us;
          split = refl;
          from = lo;
          in_time = omega arith;
          quiet = refl;
          fires = loop_fires u k on due;
        }
        | inr early ↦
            let still : u < k.last_beacon_ms + beacon_interval_ms = ground arith in
            let on_reach : Reaches (k.last_beacon_ms + beacon_interval_ms) us = elim reach [
              | inl here ↦ absurd (omega (arith, here, still))
              | inr there ↦ there
            ] in
            let r =
              first_due us g u limit k on (omega arith) (omega arith) next small rest on_reach in
            record {
              before = u ∷ r.before;
              due = r.due;
              after = r.after;
              split = ap (λ xs. u ∷ xs) r.split;
              from = omega (arith, r.from, lo);
              in_time = r.in_time;
              quiet = ap (λ k'. loops k' r.before) (loop_waits u k on early) ∙ r.quiet;
              fires = r.fires;
            }
      ]

  dwell_on :
      (t : ℕ) (c : PairingClient T P)
      → c.state ≡ scanning
      → 0 < c.channel_start_ms
      → c.channel_start_ms ≤ t
      → t < c.channel_start_ms + channel_scan_dwell_ms
      → t < u32_mod
      → client_loop t c ≡ c
  unfolding client_loop
  dwell_on t c s started past early small = ground arith

module _ {T P : Type 0} ⦃tr : Transport T⦄ ⦃pf : Preferences P⦄ (air : IsTransport tr) where
  -- The coordinator runs at the times `before`, which change nothing, and then at `t`, within the
  -- client's stay on the channel: it sends its beacon, the client, whose own `loop` has left it where
  -- it was, is on the same channel, and on hearing the beacon it asks to be paired.
  pub record IsMet (c : PairingClient T P) (k : PairingCoordinator T P) (coordinator : MacAddress)
      (ts : List ℕ) : Type 0 where
    pub before : List ℕ
    pub t : ℕ
    pub after : List ℕ
    pub split : ts ≡ before ++ t ∷ after
    pub in_time : t < c.channel_start_ms + channel_scan_dwell_ms
    pub quiet : loops k before ≡ k
    pub sends :
        air.sent (loop t k).transport
        ≡ air.sent k.transport ++ (broadcast, beacon_bytes (tr.get_channel k.transport)) ∷ []
    pub stays : client_loop t c ≡ c
    pub tuned : tr.get_channel c.transport ≡ tr.get_channel k.transport
    pub asks :
        let c' = (client_received coordinator (beacon_bytes (tr.get_channel k.transport)) t c).0 in
        (c'.state ≡ responding)
        × (air.sent c'.transport
            ≡ air.sent c.transport ++ (coordinator, request_bytes c.device_id) ∷ [])

  -- One stay of a scanning client on the coordinator's channel is enough to be met. The coordinator
  -- has pairing enabled, its last beacon was sent before the stay began, its `loop` runs from then on
  -- with less than 100 ms between two calls, until 100 ms have passed at least, and the clock does
  -- not wrap. Then a beacon goes out while the client is still there, and it asks to be paired.
  pub discovered :
      (c : PairingClient T P) (k : PairingCoordinator T P) (coordinator : MacAddress) (g : ℕ)
      (ts : List ℕ)
      → c.state ≡ scanning
      → 0 < c.channel_start_ms
      → c.channel_start_ms + channel_scan_dwell_ms < u32_mod
      → tr.get_channel c.transport ≡ tr.get_channel k.transport
      → k.pairing_enabled ≡ true
      → k.last_beacon_ms ≤ c.channel_start_ms
      → g + beacon_interval_ms < channel_scan_dwell_ms
      → Spaced g c.channel_start_ms ts
      → Reaches (k.last_beacon_ms + beacon_interval_ms) ts
      → IsMet c k coordinator ts
  discovered c k coordinator g ts scans started small same on past quick spaced reach =
      let s = c.channel_start_ms in
      let d =
        first_due ts g s (s + beacon_interval_ms + g) k on past (omega arith) (omega arith)
          (omega arith) spaced reach in
      let early : d.due < s + channel_scan_dwell_ms = omega (arith, d.in_time) in
      let asked = beacon_answered air c coordinator (tr.get_channel k.transport) d.due scans in
      record {
        before = d.before;
        t = d.due;
        after = d.after;
        split = d.split;
        in_time = early;
        quiet = d.quiet;
        sends =
            ap (λ k'. air.sent k'.transport) d.fires
            ∙ beacon_goes_out air (record k { last_beacon_ms = d.due });
        stays = dwell_on d.due c scans started d.from early (omega (arith, early));
        tuned = same;
        asks = (asked.1, asked.3);
      }

  -- A client that scans is met. It starts at `t`, and its `loop` runs then and after every dwell time;
  -- the coordinator's channel is the `n`-th of the client's schedule, modulo the schedule's length.
  -- Then, after `n` dwell times, the client's stay on that channel is enough: a beacon goes out while
  -- it is there, and it asks to be paired. The client's list has fewer than 256 entries, all in the
  -- band; the coordinator has pairing enabled, its last beacon was sent before that stay began, its
  -- `loop` runs from then on with less than 100 ms between two calls, until 100 ms have passed at
  -- least, and the clock does not wrap.
  pub scan_discovers :
      (c : PairingClient T P) (k : PairingCoordinator T P) (coordinator : MacAddress) (n t g : ℕ)
      (ts : List ℕ)
      → c.scan_channel_count < 256
      → InBand c.scan_channels c.scan_channel_count
      → 0 < t
      → t + n * channel_scan_dwell_ms + channel_scan_dwell_ms < u32_mod
      → tr.get_channel k.transport ≡ scheduled c.scan_channels c.scan_channel_count n
      → k.pairing_enabled ≡ true
      → k.last_beacon_ms ≤ t + n * channel_scan_dwell_ms
      → g + beacon_interval_ms < channel_scan_dwell_ms
      → Spaced g (t + n * channel_scan_dwell_ms) ts
      → Reaches (k.last_beacon_ms + beacon_interval_ms) ts
      → IsMet (dwell_loops n t (client_loop t (start_scanning c))) k coordinator ts
  scan_discovers c k coordinator n t g ts byte band pos small turn on past quick spaced reach =
      let (scans, _, tuned, since) = scan_schedule air c n t byte band pos (omega arith) in
      discovered (dwell_loops n t (client_loop t (start_scanning c))) k coordinator g ts scans
        (omega (arith, since)) (omega (arith, since)) (tuned ∙ sym turn) on (omega (arith, since))
        quick (subst (λ u. Spaced g u ts) (sym since) spaced) reach
