-- ===== src/Wifi/Scan/Filter.antt =====
-- What a scan returns, against its specification as a relation.
use ungula_lib_net.Strings.Laws.{StartsWith, has_prefix-StartsWith, prefix_found}
use ungula_lib_net.Strings.{has_prefix}
use ungula_lib_net.Base.{
  ltb, ℕ, zero, suc, ◌≤◌, ◌<◌, ◌≡◌, ◌≢◌, ◌↔◌, ◌⊎◌, refl, ◌∙◌, ap, Bool, true, false, not, ◌&&◌,
  List, [], ◌∷◌, Option, none, some, arith, length, take, length-take, map, min, ◌==◌,
  if◌then◌else◌, Bool-cases, inl, inr,
}
use ungula_lib_net.Wifi.Scan.{
  ApRecord, ScanResult, has_any_prefix, matches_prefix, copy_record, collect, sta_scan,
  wifi_max_scan_results, Scanner,
}

-- Is the record of a network with a name that matches?
abbrev is_wanted : List (Option (List ℕ)) → ApRecord → Bool
is_wanted prefixes r = not (length r.ssid == 0) && matches_prefix r.ssid prefixes

abbrev select : (ApRecord → Bool) → List ApRecord → List ApRecord
select p [] = []
select p (x ∷ xs) = let rest = select p xs in if p x then x ∷ rest else rest

collect_lem :
    (prefixes : List (Option (List ℕ))) (rs : List ApRecord) (max : ℕ)
    → collect prefixes max rs ≡ take max (map copy_record (select (is_wanted prefixes) rs))
unfolding collect
collect_lem prefixes [] zero = refl
collect_lem prefixes [] (suc max) = refl
collect_lem prefixes (r ∷ rs) zero = refl
collect_lem prefixes (r ∷ rs) (suc max) =
    ground (arith, collect_lem prefixes rs max, collect_lem prefixes rs (suc max))

-- Some prefix of the list that is not null starts the name.
abbrev StartsWithAny : List ℕ → List (Option (List ℕ)) → Type 0
StartsWithAny ssid [] = ⊥
StartsWithAny ssid (none ∷ ps) = StartsWithAny ssid ps
StartsWithAny ssid (some p ∷ ps) = StartsWith ssid p ⊎ StartsWithAny ssid ps

any_sound :
    (ssid : List ℕ) (ps : List (Option (List ℕ)))
    → has_any_prefix ssid ps ≡ true
    → StartsWithAny ssid ps
unfolding has_any_prefix
any_sound ssid [] h = absurd (ground arith)
any_sound ssid (none ∷ ps) h = any_sound ssid ps h
any_sound ssid (some p ∷ ps) h = elim (Bool-cases (has_prefix ssid p)) [
  | inl yes_prefix ↦ inl (has_prefix-StartsWith ssid p yes_prefix)
  | inr other ↦ inr (any_sound ssid ps (ground arith))
]

any_complete :
    (ssid : List ℕ) (ps : List (Option (List ℕ)))
    → StartsWithAny ssid ps
    → has_any_prefix ssid ps ≡ true
unfolding has_any_prefix
any_complete ssid [] s = elim s [ ]
any_complete ssid (none ∷ ps) s = any_complete ssid ps s
any_complete ssid (some p ∷ ps) (inl (rest, e)) =
    let found : has_prefix ssid p ≡ true = ap (λ n. has_prefix n p) e ∙ prefix_found p rest in
    ground arith
any_complete ssid (some p ∷ ps) (inr s) = ground (arith, any_complete ssid ps s)

match_complete :
    (ssid : List ℕ) (p : Option (List ℕ)) (ps : List (Option (List ℕ)))
    → ((p ∷ ps) ≡ []) ⊎ StartsWithAny ssid (p ∷ ps)
    → has_any_prefix ssid (p ∷ ps) ≡ true
match_complete ssid p ps (inl e) = cc
match_complete ssid p ps (inr s) = any_complete ssid (p ∷ ps) s

-- A name matches exactly if the list of prefixes is empty or one of its prefixes starts the name.
matches_exactly :
    (ssid : List ℕ) (ps : List (Option (List ℕ)))
    → (matches_prefix ssid ps ≡ true) ↔ ((ps ≡ []) ⊎ StartsWithAny ssid ps)
unfolding matches_prefix
matches_exactly ssid [] = (λ h. inl refl, λ s. refl)
matches_exactly ssid (p ∷ ps) = (λ h. inr (any_sound ssid (p ∷ ps) h), match_complete ssid p ps)

-- A result shows the network of a record: its name, cut to 32 bytes, its signal strength and
-- channel, and that it is encrypted exactly if its authentication is not WIFI_AUTH_OPEN, 0.
abbrev IsReported : ApRecord → ScanResult → Type 0
IsReported r x =
    (x.ssid ≡ take 32 r.ssid)
    × (x.rssi ≡ r.rssi)
    × (x.channel ≡ r.primary)
    × ((x.encrypted ≡ true) ↔ (r.authmode ≢ 0))

-- A network is wanted if it has a name and, unless there are no prefixes, one of them starts it.
abbrev IsWanted : List (Option (List ℕ)) → ApRecord → Type 0
IsWanted ps r = (r.ssid ≢ []) × ((ps ≡ []) ⊎ StartsWithAny r.ssid ps)

-- The results of the wanted networks of a list, in its order.
pub data Picks (ps : List (Option (List ℕ))) : List ApRecord → List ScanResult → Type 0 where
  none_left : Picks ps [] []
  picked :
      {r : ApRecord} {x : ScanResult} {rs : List ApRecord} {xs : List ScanResult}
      → IsWanted ps r
      → IsReported r x
      → Picks ps rs xs
      → Picks ps (r ∷ rs) (x ∷ xs)
  skipped :
      {r : ApRecord} {rs : List ApRecord} {xs : List ScanResult}
      → ¬ IsWanted ps r
      → Picks ps rs xs
      → Picks ps (r ∷ rs) xs

copy-IsReported : (r : ApRecord) → IsReported r (copy_record r)
copy-IsReported r = (refl, refl, refl, (λ h. ground arith, λ h. ground arith))

empty_name : (ssid : List ℕ) → (length ssid == 0) ≡ true → ssid ≡ []
empty_name [] h = refl
empty_name (b ∷ bs) h = absurd (ground arith)

IsWanted-sound :
    (ps : List (Option (List ℕ))) (r : ApRecord) → is_wanted ps r ≡ true → IsWanted ps r
IsWanted-sound ps r h = (
  λ no_name. absurd (ground (arith, ap (λ n. length n) no_name)),
  (matches_exactly r.ssid ps).0 (ground arith),
)

IsWanted-complete :
    (ps : List (Option (List ℕ))) (r : ApRecord) → is_wanted ps r ≡ false → ¬ IsWanted ps r
IsWanted-complete ps r h (named, matching) =
    let found = (matches_exactly r.ssid ps).1 matching in
    let no_name : (length r.ssid == 0) ≡ true = ground arith in named (empty_name r.ssid no_name)

-- The networks selected, and so what the loop copies, are the wanted ones.
select-Picks :
    (ps : List (Option (List ℕ))) (rs : List ApRecord)
    → Picks ps rs (map copy_record (select (is_wanted ps) rs))
select-Picks ps [] = none_left
select-Picks ps (r ∷ rs) = elim (Bool-cases (is_wanted ps r)) [
  | inl wanted ↦
      rw wanted (picked (IsWanted-sound ps r wanted) (copy-IsReported r) (select-Picks ps rs))
  | inr other ↦ rw other (skipped (IsWanted-complete ps r other) (select-Picks ps rs))
]

-- What the driver documents of a scan's list `found`: its length, its first entries, and that
-- clearing frees it.
pub record IsScanner {D : Type 0} (sc : Scanner D) : Type 0 where
  pub found : D → List ApRecord
  pub get_ap_num-found : (d : D) → sc.get_ap_num d ≡ length (found d)
  pub get_ap_records-found : (n : ℕ) (d : D) → (sc.get_ap_records n d).1 ≡ take n (found d)
  pub clear_ap_list-found : (d : D) → found (sc.clear_ap_list d) ≡ []

take_min :
    {A : Type 0} (n : ℕ) (xs : List A)
    → take (if ltb n (length xs) then n else length xs) xs ≡ take n xs
take_min zero [] = ground arith
take_min (suc n) [] = ground arith
take_min zero (x ∷ xs) = ground arith
take_min (suc n) (x ∷ xs) = ground (arith, take_min n xs)

-- The results of the first sixteen access points of `found`.
abbrev wanted_of : ℕ → List (Option (List ℕ)) → List ApRecord → List ScanResult
wanted_of max ps found = take (min max 16) (map copy_record (select (is_wanted ps) (take 16 found)))

collect_wanted :
    (max : ℕ) (ps : List (Option (List ℕ))) (found : List ApRecord)
    → collect ps
        (if ltb wifi_max_scan_results max then wifi_max_scan_results else max)
        (take (if ltb 16 (length found) then 16 else length found) found)
      ≡ wanted_of max ps found
collect_wanted max ps found =
    let room : (if ltb wifi_max_scan_results max then wifi_max_scan_results else max) ≡ min max 16 =
      ground arith in
    rw (room, take_min 16 found) (collect_lem ps (take 16 found) (min max 16))

take_nil : {A : Type 0} (n : ℕ) → take {A = A} n [] ≡ []
take_nil zero = refl
take_nil (suc n) = refl

wanted_none :
    (max : ℕ) (ps : List (Option (List ℕ))) (found : List ApRecord)
    → length found ≡ 0
    → wanted_of max ps found ≡ []
wanted_none max ps [] none_found = take_nil (min max 16)
wanted_none max ps (r ∷ rs) none_found = absurd (omega (arith, none_found))

wanted_bounded :
    (max : ℕ) (ps : List (Option (List ℕ))) (found : List ApRecord)
    → (length (wanted_of max ps found) ≤ max) × (length (wanted_of max ps found) ≤ 16)
wanted_bounded max ps found =
    let len = length-take (min max 16) (map copy_record (select (is_wanted ps) (take 16 found))) in
    (omega (arith, len), omega (arith, len))

module _ {D : Type 0} ⦃sc : Scanner D⦄ (l : IsScanner sc) where
  -- What the loop makes of the records that were fetched.
  fetched_wanted :
      (max : ℕ) (ps : List (Option (List ℕ))) (d : D)
      → let count = sc.get_ap_num d in
        let fetched = sc.get_ap_records (if ltb 16 count then 16 else count) d in
        collect ps (if ltb wifi_max_scan_results max then wifi_max_scan_results else max) fetched.1
        ≡ wanted_of max ps (l.found d)
  fetched_wanted max ps d =
      let count = sc.get_ap_num d in
      rw (l.get_ap_records-found (if ltb 16 count then 16 else count) d, l.get_ap_num-found d)
        (collect_wanted max ps (l.found d))

  -- What a scan returns.
  scan_wanted :
      (max : ℕ) (ps : List (Option (List ℕ))) (d : D)
      → let started = sc.scan_start d in
        let (d', results) = sta_scan true max ps d in
        (length results ≤ max)
        × (length results ≤ 16)
        × (started.1 ≡ false → results ≡ [])
        × (0 < max
            → started.1 ≡ true
            → (results ≡ wanted_of max ps (l.found started.0)) × (l.found d' ≡ []))
        × (sta_scan true 0 ps d ≡ (d, []))
        × (sta_scan false max ps d ≡ (d, []))
  unfolding sta_scan
  scan_wanted max ps d =
      let d1 = (sc.scan_start d).0 in
      let count = sc.get_ap_num d1 in
      let fetched = sc.get_ap_records (if ltb 16 count then 16 else count) d1 in
      let none_there = wanted_none max ps (l.found d1) in
      ground (
        arith,
        fetched_wanted max ps d1,
        wanted_bounded max ps (l.found d1),
        none_there,
        l.get_ap_num-found d1,
        l.clear_ap_list-found d1,
        l.clear_ap_list-found fetched.0,
      )

  -- A scan into an array with room for at least one result either cannot be started, and then returns
  -- nothing, or returns the results of the wanted networks among the first sixteen access points
  -- found, in their order: of these the first ones, as many as there is room for, sixteen at most. A
  -- network is wanted if it has a name and one of the prefixes starts it, or if it has a name and no
  -- prefixes are given. Its result has the name cut to 32 bytes, the signal strength, the channel and
  -- whether the network is encrypted. The scan then leaves no list of access points behind in the
  -- driver. Without such an array it does nothing.
  pub scan_filters :
      (max : ℕ) (ps : List (Option (List ℕ))) (d : D)
      → let started = sc.scan_start d in
        let (d', results) = sta_scan true max ps d in
        (length results ≤ max)
        × (length results ≤ 16)
        × (started.1 ≡ false → results ≡ [])
        × (0 < max
            → started.1 ≡ true
            → ((xs : List ScanResult) × Picks ps (take 16 (l.found started.0)) xs
                × (results ≡ take (min max 16) xs))
              × (l.found d' ≡ []))
        × (sta_scan true 0 ps d ≡ (d, []))
        × (sta_scan false max ps d ≡ (d, []))
  scan_filters max ps d =
      let (some_room, bounded, failed, done, no_room, unwritable) = scan_wanted max ps d in
      let found = take 16 (l.found (sc.scan_start d).0) in
      let xs = map copy_record (select (is_wanted ps) found) in
      (
        some_room,
        bounded,
        failed,
        λ room up. ((xs, select-Picks ps found, (done room up).0), (done room up).1),
        no_room,
        unwritable,
      )
