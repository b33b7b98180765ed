-- ===== src/Calendar/Laws.antt =====
-- The text of a time denotes that time.
use ungula_lib_net.Base.{
  ℕ, ◌+◌, ◌-◌, ◌*◌, ◌/◌, ◌%◌, ◌≤◌, ◌<◌, ◌≡◌, refl, List, [], ◌∷◌, Option, none, some, arith, length,
}
use ungula_lib_net.Calendar.{
  base_year, find_year, find_month, Tm, gmtime, digits, two_digits, strftime,
}
use ungula_lib_net.Calendar.Days.{
  year_days, month_days, month_length, find_year_lem, find_month_lem,
}

-- The seconds since 1570 of a broken-down time.
pub seconds_of : Tm → ℕ
seconds_of t =
    (year_days (t.year - base_year) + month_days t.year (t.month - 1) + (t.day - 1)) * 86400
    + t.hour * 3600
    + t.minute * 60
    + t.second

pub record IsTime (t : Tm) : Type 0 where
  pub year : base_year ≤ t.year
  pub month : (1 ≤ t.month) × (t.month ≤ 12)
  pub day : (1 ≤ t.day) × (t.day ≤ 31)
  pub hour : t.hour < 24
  pub minute : t.minute < 60
  pub second : t.second < 60

-- `gmtime` finds the day of a time, and its time of day.
gmtime_days :
    (t : ℕ)
    → let g = gmtime t in
      IsTime g
      × (year_days (g.year - base_year) + month_days g.year (g.month - 1) + (g.day - 1) ≡ t / 86400)
unfolding gmtime
gmtime_days t =
    let days = t / 86400 in
    let (k, d) = find_year days 0 days in
    let (m, d') = find_month 12 (base_year + k) 0 d in
    let (sum, inside) = find_year_lem days 0 days (omega arith) in
    let begin : month_days (base_year + k) 0 ≡ 0 = unfold month_days in refl in
    let start : year_days 0 ≡ 0 = unfold year_days in refl in
    let (sum', inside', few) =
      find_month_lem 12 (base_year + k) 0 d (omega arith) (omega (arith, begin, inside)) in
    let length = month_length (base_year + k) m in
    let years : base_year + k - base_year ≡ k = omega arith in
    let months : m + 1 - 1 ≡ m = omega arith in
    (
      record {
        year = omega arith;
        month = omega (arith, few);
        day = omega (arith, inside', length);
        hour = omega arith;
        minute = omega arith;
        second = omega arith;
      },
      rw (years, months) (omega (arith, sum, sum', begin, start)),
    )

clock_lem :
    (t : ℕ) → (gmtime t).hour * 3600 + (gmtime t).minute * 60 + (gmtime t).second ≡ t % 86400
unfolding gmtime
clock_lem t = omega arith

pub gmtime_lem : (t : ℕ) → IsTime (gmtime t) × (seconds_of (gmtime t) ≡ t)
unfolding seconds_of
gmtime_lem t =
    let (is_time, days) = gmtime_days t in
    let time = clock_lem t in (is_time, omega (arith, days, time))

-- A reader of such texts, by their positions.
abbrev digit : ℕ → ℕ
digit c = c - 48

abbrev pair : ℕ → ℕ → ℕ
pair a b = digit a * 10 + digit b

pub read_time : List ℕ → Option Tm
read_time
      (y3 ∷ y2 ∷ y1 ∷ y0 ∷ _ ∷ m1 ∷ m0 ∷ _ ∷ d1 ∷ d0 ∷ _ ∷ h1 ∷ h0 ∷ _ ∷ n1 ∷ n0 ∷ _ ∷ s1 ∷ s0
        ∷ []) =
    some (record {
      year = pair y3 y2 * 100 + pair y1 y0;
      month = pair m1 m0;
      day = pair d1 d0;
      hour = pair h1 h0;
      minute = pair n1 n0;
      second = pair s1 s0;
    })
read_time _ = none

year_digits :
    (y : ℕ) (rest : List ℕ)
    → 1000 ≤ y
    → y < 10000
    → digits 10 y rest
      ≡ (48 + y / 1000) ∷ (48 + y / 100 % 10) ∷ (48 + y / 10 % 10) ∷ (48 + y % 10) ∷ rest
unfolding digits
year_digits y rest low high = ground arith

pair_lem : (n : ℕ) → n < 100 → pair (48 + n / 10) (48 + n % 10) ≡ n
pair_lem n h = omega arith

-- The 19 characters of a time, its year printed.
stamp : Tm → List ℕ
stamp t =
    (48 + t.year / 1000)
    ∷ (48 + t.year / 100 % 10)
    ∷ (48 + t.year / 10 % 10)
    ∷ (48 + t.year % 10)
    ∷ 45
    ∷ two_digits t.month (
        45
        ∷ two_digits t.day
            (32 ∷ two_digits t.hour (58 ∷ two_digits t.minute (58 ∷ two_digits t.second []))))

strftime_lem :
    (size : ℕ) (t : Tm)
    → 20 ≤ size
    → base_year ≤ t.year
    → t.year < 10000
    → strftime size t ≡ stamp t
unfolding strftime stamp
strftime_lem size t room low high =
    let rest =
      45
      ∷ two_digits t.month (
          45
          ∷ two_digits t.day
              (32 ∷ two_digits t.hour (58 ∷ two_digits t.minute (58 ∷ two_digits t.second [])))) in
    rw (year_digits t.year rest (omega (arith, low)) high) (ground arith)

year_back :
    (y : ℕ)
    → y < 10000
    → pair (48 + y / 1000) (48 + y / 100 % 10) * 100 + pair (48 + y / 10 % 10) (48 + y % 10) ≡ y
year_back y h = omega arith

read-stamp : (t : Tm) → IsTime t → t.year < 10000 → read_time (stamp t) ≡ some t
unfolding stamp read_time
read-stamp t v high = ground (
  arith,
  year_back t.year high,
  pair_lem t.month,
  pair_lem t.day,
  pair_lem t.hour,
  pair_lem t.minute,
  pair_lem t.second,
)

-- A time of four-digit year is printed by 19 characters, from which it is read back.
pub read-strftime :
    (size : ℕ) (t : Tm)
    → 20 ≤ size
    → IsTime t
    → t.year < 10000
    → (length (strftime size t) ≡ 19) × (read_time (strftime size t) ≡ some t)
read-strftime size t room v high =
    rw (strftime_lem size t room v.year high) (unfold stamp in refl, read-stamp t v high)
