-- ===== src/Kernel/Clock.antt =====
-- The calendar of kernel/sched.c: the system time from the CMOS clock at boot, and back by
-- `stime`. `bcd2i` and `i2bcd` stand in include/thix/proc/i386.h.
pub mod Years
pub mod Months
pub mod RoundTrip
use os_thix.Prelude.{
  ℕ, zero, suc, ◌+◌, ◌-◌, ◌*◌, ◌/◌, ◌%◌, ◌^◌, Bool, true, false, not, ◌&&◌, ◌||◌, ◌==◌, ltb, leb,
  if◌then◌else◌, List, [], ◌∷◌, set, get_or, Result, ok, err, Errno, efault, eperm, Option, none,
  some,
}

-- `leap`
unfoldable pub leap : ℕ → Bool
leap year = (year % 4 == 0) && (not (year % 100 == 0) || (year % 400 == 0))

unfoldable pub bcd2i : ℕ → ℕ
bcd2i x = x / 16 * 10 + x % 16

unfoldable pub i2bcd : ℕ → ℕ
i2bcd x = x / 10 * 16 + x % 10

-- `days_per_month[12]`
abbrev pub days_per_month : List ℕ
days_per_month = 31 ∷ 28 ∷ 31 ∷ 30 ∷ 31 ∷ 30 ∷ 31 ∷ 31 ∷ 30 ∷ 31 ∷ 30 ∷ 31 ∷ []

-- The table between `days_per_month[1]++` and `days_per_month[1]--`.
unfoldable pub months_of : ℕ → List ℕ
unfolding leap
months_of year = if leap year then set days_per_month 1 29 else days_per_month

abbrev pub day_seconds : ℕ
day_seconds = 24 * 60 * 60

-- The clock's registers, in binary coded decimal: addresses 0x00, 0x02, 0x04, 0x07, 0x08, 0x09
-- and 0x32.
pub record Cmos : Type 0 where
  pub second : ℕ
  pub minute : ℕ
  pub hour : ℕ
  pub day : ℕ
  pub month : ℕ
  pub year : ℕ
  pub century : ℕ

-- `leap_years` of `get_CMOS_time`, for years from 1970 on: `((year - 1972) >> 2)` is the first
-- quotient less one.
unfoldable pub leap_years : ℕ → ℕ
leap_years year =
    let n = (year + 4 - 1972) / 4 + (if year % 4 == 0 then 0 else 1) - 1 in
    if ltb 2000 year then n - 1 else n

-- `for (m = 0; m < month - 1; m++) seconds += days_per_month[m]*24*60*60;`
unfoldable pub add_months : List ℕ → ℕ → ℕ → ℕ
add_months months zero seconds = seconds
add_months [] (suc left) seconds = seconds
add_months (m ∷ months) (suc left) seconds = add_months months left (seconds + m * day_seconds)

-- `get_CMOS_time`: the new value of `seconds`, an unsigned 32-bit number.
unfoldable pub get_cmos_time : Cmos → ℕ
get_cmos_time c =
    let year = bcd2i c.century * 100 + bcd2i c.year in
    let years = ((year - 1970) * 365 + leap_years year) * day_seconds in
    let months = add_months (months_of year) (bcd2i c.month - 1) years in
    (months
      + (bcd2i c.day - 1) * day_seconds
      + bcd2i c.hour * 3600
      + bcd2i c.minute * 60
      + bcd2i c.second)
    % 2 ^ 32

-- `(leap(year) ? 366 : 365) * 24 * 60 * 60`
unfoldable pub year_seconds : ℕ → ℕ
unfolding leap
year_seconds year = (if leap year then 366 else 365) * day_seconds

-- The loop over the years of `sys_stime`, with fuel: the year and the seconds left.
unfoldable pub split_years : ℕ → ℕ → ℕ → ℕ × ℕ
unfolding year_seconds
split_years zero year left = (year, left)
split_years (suc fuel) year left = elim (ltb left (year_seconds year)) [
  | true ↦ (year, left)
  | false ↦ split_years fuel (suc year) (left - year_seconds year)
]

-- The loop over the months, from `month` on: the month and the seconds left.
unfoldable pub split_months : List ℕ → ℕ → ℕ → ℕ × ℕ
split_months [] month left = (month, left)
split_months (m ∷ months) month left = elim (leb (m * day_seconds) left) [
  | true ↦ split_months months (suc month) (left - m * day_seconds)
  | false ↦ (month, left)
]

-- A loop `for (n = …; left >= unit; left -= unit, n++);` with fuel.
unfoldable pub split_units : ℕ → ℕ → ℕ → ℕ → ℕ × ℕ
split_units zero unit n left = (n, left)
split_units (suc fuel) unit n left = elim (leb unit left) [
  | true ↦ split_units fuel unit (suc n) (left - unit)
  | false ↦ (n, left)
]

-- The writes into the CMOS memory at the end of `sys_stime`.
unfoldable pub write_registers : (year month day hour minute second : ℕ) → Cmos
write_registers year month day hour minute second = record {
  second = i2bcd second;
  minute = i2bcd minute;
  hour = i2bcd hour;
  day = i2bcd day;
  month = i2bcd month;
  year = i2bcd (year % 100);
  century = i2bcd ((year - year % 100) / 100);
}

-- The loops of `sys_stime` and the registers that it writes. A time below 2 ^ 31 needs at most 69
-- years; 31 days, 24 hours and 60 minutes bound the other loops.
unfoldable pub registers_at : ℕ → Cmos
registers_at t =
    let (year, left₁) = split_years 70 1970 t in
    let (month, left₂) = split_months (months_of year) 1 left₁ in
    let (day, left₃) = split_units 31 day_seconds 1 left₂ in
    let (hour, left₄) = split_units 24 3600 0 left₃ in
    let (minute, second) = split_units 60 60 0 left₄ in
    write_registers year month day hour minute second

-- `sys_stime`: the registers and `seconds`. `readable` is `ok_to_read_area`.
unfoldable pub sys_stime : Bool → Bool → ℕ → Result (Cmos × ℕ)
sys_stime readable superuser t =
    if readable then (if superuser then ok (registers_at t, t) else err eperm) else err efault
