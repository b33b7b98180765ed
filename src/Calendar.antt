-- ===== src/Calendar.antt =====
-- What src/ntp/ntp_client.cpp takes from <ctime>: gmtime_r, and strftime with "%Y-%m-%d %H:%M:%S". Days
-- and years are counted from 1570, a whole cycle of 400 years before 1970, so that no local time that
-- can occur lies before them.
pub mod Days
pub mod Laws
use ungula_lib_net.Base.{
  ℕ, zero, suc, ◌+◌, ◌-◌, ◌*◌, ◌/◌, ◌%◌, Bool, true, false, not, ◌&&◌, ◌||◌, List, [], ◌∷◌, ◌++◌,
  ltb, ◌==◌, if◌then◌else◌, length,
}

unfoldable pub is_leap : ℕ → Bool
is_leap y = y % 4 == 0 && (not (y % 100 == 0) || y % 400 == 0)

unfoldable pub days_in_year : ℕ → ℕ
unfolding is_leap
days_in_year y = if is_leap y then 366 else 365

-- Months count from 0 here, as `tm_mon` does.
unfoldable pub days_in_month : ℕ → ℕ → ℕ
unfolding is_leap
days_in_month y m =
    if m == 1
    then (if is_leap y then 29 else 28)
    else if m == 3 || m == 5 || m == 8 || m == 10
    then 30
    else 31

abbrev pub base_year : ℕ
base_year = 1570

-- The year that day `d` of year 1570 + k falls into, as a count from 1570, and the day in it.
unfoldable pub find_year : ℕ → ℕ → ℕ → ℕ × ℕ
find_year zero k d = (k, d)
find_year (suc fuel) k d =
    let later = find_year fuel (k + 1) (d - days_in_year (base_year + k)) in
    if ltb d (days_in_year (base_year + k)) then (k, d) else later

-- The month that day `d` after the start of month `m` falls into, and the day in it.
unfoldable pub find_month : ℕ → ℕ → ℕ → ℕ → ℕ × ℕ
find_month zero y m d = (m, d)
find_month (suc fuel) y m d =
    let later = find_month fuel y (m + 1) (d - days_in_month y m) in
    if ltb d (days_in_month y m) then (m, d) else later

-- `struct tm`, but with the year and the month as they are printed.
pub record Tm : Type 0 where
  pub year : ℕ
  pub month : ℕ
  pub day : ℕ
  pub hour : ℕ
  pub minute : ℕ
  pub second : ℕ

-- `gmtime_r` at a number of seconds since 1570. A year has more than one day, and twelve months.
unfoldable pub gmtime : ℕ → Tm
unfolding find_year find_month days_in_year days_in_month
gmtime t =
    let days = t / 86400 in
    let (k, d) = find_year days 0 days in
    let (m, d') = find_month 12 (base_year + k) 0 d in
    record {
      year = base_year + k;
      month = m + 1;
      day = d' + 1;
      hour = t % 86400 / 3600;
      minute = t % 3600 / 60;
      second = t % 60;
    }

-- "%d" of an int that is not negative, which has at most ten digits, before a text.
unfoldable pub digits : ℕ → ℕ → List ℕ → List ℕ
digits zero n rest = rest
digits (suc fuel) n rest =
    let more = digits fuel (n / 10) ((48 + n % 10) ∷ rest) in
    if ltb n 10 then (48 + n) ∷ rest else more

abbrev pub two_digits : ℕ → List ℕ → List ℕ
two_digits n rest = (48 + n / 10) ∷ (48 + n % 10) ∷ rest

-- The text, where it fits with its final zero, and otherwise none.
unfoldable pub strftime : ℕ → Tm → List ℕ
unfolding digits
strftime size t =
    let text = digits 10 t.year (
      45
      ∷ two_digits t.month (
          45
          ∷ two_digits t.day
              (32 ∷ two_digits t.hour (58 ∷ two_digits t.minute (58 ∷ two_digits t.second []))))) in
    if ltb (length text) size then text else []
