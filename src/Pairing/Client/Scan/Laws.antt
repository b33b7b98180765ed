-- ===== src/Pairing/Client/Scan/Laws.antt =====
-- The scan visits every channel in turn, one dwell time on each.
use native.Mathlib.Nat.{zero-mod, zero-add, mod-lt, mod-add-mod, mod_self, mod-eq_of_lt}
use ungula_lib_net.Base.{
  subst, sym, Bool-cases, inl, inr, ℕ, zero, suc, ◌+◌, ◌*◌, ◌%◌, ◌≤◌, ◌<◌, ◌≡◌, refl, ap, ◌∙◌, true,
  List, Option, none, some, arith, ltb, leb, u32_mod, if◌then◌else◌,
}
use ungula_lib_net.Comm.Transport.{Transport, IsTransport}
use ungula_lib_net.Pairing.Types.{scanning, channel_scan_dwell_ms, max_scan_channels}
use ungula_lib_net.Pairing.Client.{PairingClient, has_scan_list, channel_at, fallback_channel}
use ungula_lib_net.Pairing.Client.Scan.{
  start_scanning, next_channel, next_index, advance_channel, loop,
}

-- The `k`-th channel of the scan: an entry of the list, or one of 1 to 13.
abbrev pub scheduled : Option (List ℕ) → ℕ → ℕ → ℕ
scheduled channels count k =
    if has_scan_list channels count
    then channel_at channels (k % count)
    else (k % max_scan_channels) + 1

-- Every entry of the list is a channel of the band.
abbrev pub InBand : Option (List ℕ) → ℕ → Type 0
InBand channels count =
    (i : ℕ) → i < count → (1 ≤ channel_at channels i) × (channel_at channels i ≤ max_scan_channels)

pub InBand-transfer :
    (channels channels' : Option (List ℕ)) (count count' : ℕ)
    → channels' ≡ channels
    → count' ≡ count
    → InBand channels count
    → InBand channels' count'
InBand-transfer channels channels' count count' p q band =
    subst (λ n. InBand channels' n) (sym q) (subst (λ c. InBand c count) (sym p) band)

next_mod : (k n : ℕ) → 0 < n → (k + 1) % n ≡ (if leb n (k % n + 1) then 0 else k % n + 1)
next_mod k n h = elim (Bool-cases (leb n (k % n + 1))) [
  | inl full ↦
      let last : k % n + 1 ≡ n = ground (arith, mod-lt k h) in
      rw full (sym (mod-add-mod k n 1) ∙ ap (λ i. i % n) last ∙ mod_self n)
  | inr room ↦
      let below : k % n + 1 < n = ground arith in
      rw room (sym (mod-add-mod k n 1) ∙ mod-eq_of_lt below)
]

has_scan_list-pos :
    (channels : Option (List ℕ)) (count : ℕ) → has_scan_list channels count ≡ true → 0 < count
has_scan_list-pos none count h = cc
has_scan_list-pos (some channels) count h = ground arith

pub scheduled-InBand :
    (channels : Option (List ℕ)) (count k : ℕ)
    → InBand channels count
    → (1 ≤ scheduled channels count k) × (scheduled channels count k ≤ max_scan_channels)
scheduled-InBand none count k band = omega arith
scheduled-InBand (some channels) count k band = elim (Bool-cases (ltb 0 count)) [
  | inl full ↦ rw full (band (k % count) (ground (arith, mod-lt k {m = count})))
  | inr empty ↦ rw empty (omega arith)
]

module _ {T P : Type 0} ⦃tr : Transport T⦄ where
  -- `n` calls of `loop`, a dwell time apart, the first one a dwell time after `t`.
  pub dwell_loops : ℕ → ℕ → PairingClient T P → PairingClient T P
  dwell_loops zero t c = c
  dwell_loops (suc n) t c =
      dwell_loops n (t + channel_scan_dwell_ms) (loop (t + channel_scan_dwell_ms) c)

module _ {T P : Type 0} ⦃tr : Transport T⦄ (l : IsTransport tr) where
  -- The client scans, has reached the `k`-th channel of its schedule, came there at `t`, and its
  -- radio listens on that channel.
  pub record IsAt (channels : Option (List ℕ)) (count k t : ℕ) (c : PairingClient T P)
      : Type 0 where
    pub state : c.state ≡ scanning
    pub channels_set : c.scan_channels ≡ channels
    pub count_set : c.scan_channel_count ≡ count
    pub index : has_scan_list channels count ≡ true → c.scan_index ≡ k % count
    pub channel : c.current_scan_channel ≡ scheduled channels count k
    pub tuned : tr.get_channel c.transport ≡ scheduled channels count k
    pub since : c.channel_start_ms ≡ t

  module _ (channels : Option (List ℕ)) (count : ℕ) (byte : count < 256)
      (band : InBand channels count) where
    start-IsAt :
        (c : PairingClient T P)
        → c.scan_channels ≡ channels
        → c.scan_channel_count ≡ count
        → IsAt channels count 0 0 (start_scanning c)
    unfolding start_scanning
    start-IsAt c ch co =
        let first : fallback_channel c ≡ scheduled channels count 0 =
          ground (arith, zero-mod count) in
        let (low, high) = scheduled-InBand channels count 0 band in
        record {
          state = refl;
          channels_set = ch;
          count_set = co;
          index = λ _. sym (zero-mod count);
          channel = first;
          tuned = rw first (l.channel-set_channel _ c.transport low high);
          since = refl;
        }

    next_index_lem :
        (k t : ℕ) (c : PairingClient T P)
        → IsAt channels count k t c
        → has_scan_list channels count ≡ true
        → next_index c ≡ (k + 1) % count
    unfolding next_index
    next_index_lem k t c v listed =
        ground
          (arith, next_mod k count, mod-lt k {m = count}, has_scan_list-pos channels count listed)

    next_channel_lem :
        (k t : ℕ) (c : PairingClient T P)
        → IsAt channels count k t c
        → next_channel c ≡ scheduled channels count (k + 1)
    unfolding next_channel
    next_channel_lem k t c v = elim (Bool-cases (has_scan_list channels count)) [
      | inl listed ↦ ground (arith, next_index_lem k t c v)
      | inr free ↦ ground arith
    ]

    advance-IsAt :
        (k t t' : ℕ) (c : PairingClient T P)
        → IsAt channels count k t c
        → IsAt channels count (k + 1) t' (advance_channel t' c)
    unfolding advance_channel
    advance-IsAt k t t' c v =
        let next = next_channel_lem k t c v in
        let (low, high) = scheduled-InBand channels count (k + 1) band in
        record {
          state = v.state;
          channels_set = v.channels_set;
          count_set = v.count_set;
          index = λ listed. ground (arith, next_index_lem k t c v listed);
          channel = next;
          tuned = rw next (l.channel-set_channel _ c.transport low high);
          since = refl;
        }

    dwell_over :
        (t : ℕ) (c : PairingClient T P)
        → c.state ≡ scanning
        → c.channel_start_ms ≡ t
        → 0 < t
        → t + channel_scan_dwell_ms < u32_mod
        → loop (t + channel_scan_dwell_ms) c ≡ advance_channel (t + channel_scan_dwell_ms) c
    unfolding loop
    dwell_over t c s e pos w = ground arith

    loop-IsAt :
        (k t : ℕ) (c : PairingClient T P)
        → IsAt channels count k t c
        → 0 < t
        → t + channel_scan_dwell_ms < u32_mod
        → IsAt channels count
            (k + 1)
            (t + channel_scan_dwell_ms)
            (loop (t + channel_scan_dwell_ms) c)
    loop-IsAt k t c v pos w =
        rw (dwell_over t c v.state v.since pos w) (advance-IsAt k t (t + channel_scan_dwell_ms) c v)

    first_loop :
        (t : ℕ) (c : PairingClient T P)
        → IsAt channels count 0 0 c
        → t < u32_mod
        → IsAt channels count 0 t (loop t c)
    unfolding loop
    first_loop t c v w = ground arith

    dwell_loops-IsAt :
        (n k t : ℕ) (c : PairingClient T P)
        → IsAt channels count k t c
        → 0 < t
        → t + n * channel_scan_dwell_ms < u32_mod
        → IsAt channels count (k + n) (t + n * channel_scan_dwell_ms) (dwell_loops n t c)
    unfolding dwell_loops
    dwell_loops-IsAt zero k t c v pos w = ground arith
    dwell_loops-IsAt (suc n) k t c v pos w = ground (
      arith,
      dwell_loops-IsAt n (k + 1) (t + channel_scan_dwell_ms) (loop (t + channel_scan_dwell_ms) c)
          (loop-IsAt k t c v pos (omega arith)),
    )

  -- A client that starts to scan at `t`, and whose `loop` runs then and after every dwell time,
  -- has after `n` dwell times just come to the `n`-th channel of its schedule, modulo the
  -- schedule's length, and its radio listens there: every channel of the list (or each of 1 to 13) gets its
  -- turn. The list has fewer than 256 entries, all in the band, and the clock does not wrap.
  pub scan_schedule :
      (c : PairingClient T P) (n t : ℕ)
      → c.scan_channel_count < 256
      → InBand c.scan_channels c.scan_channel_count
      → 0 < t
      → t + n * channel_scan_dwell_ms < u32_mod
      → let c' = dwell_loops n t (loop t (start_scanning c)) in
        (c'.state ≡ scanning)
        × (c'.current_scan_channel ≡ scheduled c.scan_channels c.scan_channel_count n)
        × (tr.get_channel c'.transport ≡ scheduled c.scan_channels c.scan_channel_count n)
        × (c'.channel_start_ms ≡ t + n * channel_scan_dwell_ms)
  scan_schedule c n t byte band pos w =
      let start =
        first_loop c.scan_channels c.scan_channel_count byte band t (start_scanning c)
          (start-IsAt c.scan_channels c.scan_channel_count byte band c refl refl) (omega arith) in
      let v =
        dwell_loops-IsAt c.scan_channels c.scan_channel_count byte band n 0 t
          (loop t (start_scanning c)) start pos w in
      let same = ap (scheduled c.scan_channels c.scan_channel_count) (zero-add n) in
      (v.state, v.channel ∙ same, v.tuned ∙ same, v.since)
