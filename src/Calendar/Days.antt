-- ===== src/Calendar/Days.antt =====
-- Days as dates.
use ungula_lib_net.Base.{ℕ, zero, suc, ◌+◌, ◌-◌, ◌≤◌, ◌<◌, ◌≡◌, refl, ap, arith}
use ungula_lib_net.Calendar.{days_in_year, days_in_month, base_year, find_year, find_month}

-- The days before a year, counted from 1570, and before a month.
unfoldable pub year_days : ℕ → ℕ
year_days zero = 0
year_days (suc k) = year_days k + days_in_year (base_year + k)

unfoldable pub month_days : ℕ → ℕ → ℕ
month_days y zero = 0
month_days y (suc m) = month_days y m + days_in_month y m

year_length : (y : ℕ) → (365 ≤ days_in_year y) × (days_in_year y ≤ 366)
unfolding days_in_year
year_length y = ground arith

pub month_length : (y m : ℕ) → (28 ≤ days_in_month y m) × (days_in_month y m ≤ 31)
unfolding days_in_month
month_length y m = ground arith

twelve_months : (y : ℕ) → month_days y 12 ≡ days_in_year y
unfolding month_days days_in_month days_in_year
twelve_months y = ground arith

year_step : (k : ℕ) → year_days (k + 1) ≡ year_days k + days_in_year (base_year + k)
year_step k = let e : k + 1 ≡ suc k = omega arith in rw e (unfold year_days in refl)

month_step : (y m : ℕ) → month_days y (m + 1) ≡ month_days y m + days_in_month y m
month_step y m = let e : m + 1 ≡ suc m = omega arith in rw e (unfold month_days in refl)

pub find_year_lem :
    (fuel k d : ℕ)
    → d ≤ fuel
    → let (k', d') = find_year fuel k d in
      (year_days k' + d' ≡ year_days k + d) × (d' < days_in_year (base_year + k'))
unfolding find_year
find_year_lem zero k d enough = ground (arith, year_length (base_year + k))
find_year_lem (suc fuel) k d enough = ground (
  arith,
  year_length (base_year + k),
  year_step k,
  find_year_lem fuel (k + 1) (d - days_in_year (base_year + k)),
)

pub find_month_lem :
    (fuel y m d : ℕ)
    → m + fuel ≡ 12
    → month_days y m + d < days_in_year y
    → let (m', d') = find_month fuel y m d in
      (month_days y m' + d' ≡ month_days y m + d) × (d' < days_in_month y m') × (m' < 12)
unfolding find_month
find_month_lem zero y m d enough inside =
    let all : m ≡ 12 = omega arith in
    absurd (omega (arith, twelve_months y, ap (month_days y) all, inside))
find_month_lem (suc fuel) y m d enough inside =
    ground (arith, month_step y m, find_month_lem fuel y (m + 1) (d - days_in_month y m))
