-- ===== src/Ntp/Format.antt =====
-- The local time as text.
use ungula_lib_net.Base.{
  ℕ, ◌*◌, ◌≤◌, ◌<◌, ◌≡◌, ◌≢◌, refl, sym, ◌∙◌, ap, false, List, [], some, arith, ltb, length,
  Bool-cases, inl, inr,
}
use ungula_lib_net.Calendar.{Tm, gmtime, strftime, days_in_year}
use ungula_lib_net.Calendar.Days.{year_days}
use ungula_lib_net.Calendar.Laws.{IsTime, seconds_of, gmtime_lem, read_time, read-strftime}
use ungula_lib_net.Ntp.{
  ℤ, pos, negsuc, ◌+ℤ◌, NtpClient, year_2020, cycle, since_1570, is_zero_time, ntp_local_epoch,
  ntp_epoch, ntp_format_local,
}

-- The cycle is that of the calendar.
cycle_lem : year_days 400 * 86400 ≡ cycle
unfolding year_days days_in_year
cycle_lem = refl

-- An offset of 32 bits.
abbrev pub IsInt32 : ℤ → Type 0
IsInt32 (pos n) = n < 2147483648
IsInt32 (negsuc n) = n < 2147483648

local_lem :
    (now : ℕ) (z : ℤ)
    → year_2020 ≤ now
    → IsInt32 z
    → pos (since_1570 (pos now +ℤ z)) ≡ (pos now +ℤ z) +ℤ pos cycle
local_lem now (pos k) late small = ground arith
local_lem now (negsuc k) late small = ground arith

zero_time : (z : ℤ) → z ≢ pos 0 → is_zero_time z ≡ false
zero_time (pos n) other = ground arith
zero_time (negsuc n) other = refl

-- The text denotes a time: it has 19 characters, from which a date and a time of day are read, and
-- the seconds from 1570 to them are those of the time `z` and of the 400 years from 1570 to 1970.
abbrev pub Denotes : List ℕ → ℤ → Type 0
Denotes text z =
    (length text ≡ 19)
    × ((t : Tm) × (read_time text ≡ some t)
        × IsTime t
        × (pos (seconds_of t) ≡ z +ℤ pos (year_days 400 * 86400)))

module _ {D : Type 0} where
  pub local_late :
      (now : ℕ) (n : NtpClient D)
      → year_2020 ≤ now
      → ntp_local_epoch now n ≡ pos now +ℤ n.utc_offset
  unfolding ntp_local_epoch ntp_epoch
  local_late now n late = ground arith

  pub local_early : (now : ℕ) (n : NtpClient D) → now < year_2020 → ntp_local_epoch now n ≡ pos 0
  unfolding ntp_local_epoch ntp_epoch
  local_early now n early = ground arith

  formatted :
      (size now : ℕ) (n : NtpClient D)
      → 20 ≤ size
      → year_2020 ≤ now
      → (pos now +ℤ n.utc_offset) ≢ pos 0
      → ntp_format_local size now n ≡ strftime size (gmtime (since_1570 (pos now +ℤ n.utc_offset)))
  unfolding ntp_format_local
  formatted size now n room late other =
      let fits : ltb size 20 ≡ false = ground arith in
      rw (local_late now n late, fits, zero_time (pos now +ℤ n.utc_offset) other) refl

  no_room : (size now : ℕ) (n : NtpClient D) → size < 20 → ntp_format_local size now n ≡ []
  unfolding ntp_format_local
  no_room size now n small = ground arith

  too_early : (size now : ℕ) (n : NtpClient D) → now < year_2020 → ntp_format_local size now n ≡ []
  unfolding ntp_format_local
  too_early size now n early =
      rw (local_early now n early)
        (elim (Bool-cases (ltb size 20)) [ inl small ↦ rw small refl | inr room ↦ rw room refl ])

  -- With 20 bytes of room, a clock past the start of 2020, an offset of 32 bits and a local time that
  -- is not 0 and lies before the year 10000, the text printed denotes the clock's time plus the
  -- offset, in the calendar and back. With less room, or before 2020, nothing is printed.
  pub ntp_format_local-Denotes :
      (size now : ℕ) (n : NtpClient D)
      → IsInt32 n.utc_offset
      → let z = pos now +ℤ n.utc_offset in
        z ≢ pos 0
        → (gmtime (since_1570 z)).year < 10000
        → (20 ≤ size → year_2020 ≤ now → Denotes (ntp_format_local size now n) z)
          × (size < 20 → ntp_format_local size now n ≡ [])
          × (now < year_2020 → ntp_format_local size now n ≡ [])
  ntp_format_local-Denotes size now n small other before = (
    λ room late.
        let z = pos now +ℤ n.utc_offset in
        let t = gmtime (since_1570 z) in
        let (is_time, seconds) = gmtime_lem (since_1570 z) in
        let (length, read) = read-strftime size t room is_time before in
        let same = formatted size now n room late other in
        (
          rw same length,
          (
            t,
            rw same read,
            is_time,
            ap pos seconds
                ∙ local_lem now n.utc_offset late small
                ∙ ap (λ c. z +ℤ pos c) (sym cycle_lem),
          ),
        ),
    no_room size now n,
    too_early size now n,
  )
