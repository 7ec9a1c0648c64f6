-- ===== src/Kernel/Clock/RoundTrip.antt =====
-- Setting the clock by `stime` and reading it back by `get_CMOS_time` (kernel/sched.c).
use os_thix.Prelude.{
  ℕ, suc, ◌+◌, ◌-◌, ◌*◌, ◌/◌, ◌%◌, ◌^◌, ◌<◌, ◌≤◌, ◌≡◌, ap, arith, Bool-cases, inl, inr, length,
}
use native.Mathlib.Decide.{dec_lt}
use os_thix.Kernel.Clock.{
  leap, bcd2i, i2bcd, leap_years, split_years, split_months, split_units, add_months, day_seconds,
  months_of, registers_at, get_cmos_time, year_seconds, write_registers,
}
use os_thix.Kernel.Clock.Years.{
  days_before, days_before_zero, days_before_31, days_before_69, year_seconds_days,
  days_before_mono, split_years-YearSplit, leap_years_early, leap_years_late,
}
use os_thix.Kernel.Clock.Months.{AllMonths, sum_months, split_months_lem, split_units_lem}

bcd2i-i2bcd : (x : ℕ) → bcd2i (i2bcd x) ≡ x
unfolding bcd2i i2bcd
bcd2i-i2bcd x = omega arith

months_lem :
    (year : ℕ)
    → AllMonths (months_of year)
      × (sum_months (months_of year) ≡ year_seconds year)
      × (length (months_of year) ≡ 12)
unfolding months_of year_seconds
months_lem year = elim (Bool-cases (leap year)) [
  | inl e ↦ rw e (omega arith)
  | inr e ↦ rw e (omega arith)
]

-- The seconds that `get_CMOS_time` finds, before the cut to 32 bits, for a date in parts.
abbrev read_back : (year month day hour minute second : ℕ) → ℕ
read_back year month day hour minute second =
    add_months (months_of year) (month - 1) (((year - 1970) * 365 + leap_years year) * day_seconds)
    + (day - 1) * day_seconds
    + hour * 3600
    + minute * 60
    + second

get-write_registers :
    (year month day hour minute second : ℕ)
    → get_cmos_time (write_registers year month day hour minute second)
      ≡ read_back year month day hour minute second % 2 ^ 32
unfolding get_cmos_time write_registers
get-write_registers year month day hour minute second = simp (bcd2i-i2bcd, whole)
  where
    whole : (year - year % 100) / 100 * 100 + year % 100 ≡ year
    whole = omega arith

-- What `get_CMOS_time` reads back after `sys_stime` has set the time `t`: `t`, but for the days
-- that it counts before the year.
record IsRestored (t seconds : ℕ) : Type 0 where
  years : ℕ
  in_time : days_before years * day_seconds ≤ t
  before_next : t < days_before (suc years) * day_seconds
  value :
      seconds + days_before years * day_seconds
      ≡ t + (years * 365 + leap_years (1970 + years)) * day_seconds

-- The sums over the parts of a date undo the splitting of `t`.
read_back_sum :
    (t year month day hour minute second n k d left₁ left₂ left₃ left₄ : ℕ)
    → year ≡ 1970 + n
    → t ≡ days_before n * day_seconds + left₁
    → left₁ < year_seconds year
    → month ≡ 1 + k
    → add_months (months_of year) k (((year - 1970) * 365 + leap_years year) * day_seconds) + left₂
      ≡ ((year - 1970) * 365 + leap_years year) * day_seconds + left₁
    → day ≡ 1 + d
    → d * day_seconds + left₃ ≡ left₂
    → hour * 3600 + left₄ ≡ left₃
    → minute * 60 + second ≡ left₄
    → IsRestored t (read_back year month day hour minute second)
read_back_sum t year month day hour minute second n k d left₁ left₂ left₃ left₄ ye te rest me ms de
      ds hs ns =
    record {
      years = n;
      in_time = omega (arith, te);
      before_next = omega (arith, te, (year_seconds_days n).0, rw ye at rest);
      value = omega (arith, at_month, at_year);
    }
  where
    base : ℕ
    base = ((year - 1970) * 365 + leap_years year) * day_seconds

    at_month :
        add_months
          (months_of year)
          (month - 1)
          (((year - 1970) * 365 + leap_years year) * day_seconds)
        ≡ add_months (months_of year) k (((year - 1970) * 365 + leap_years year) * day_seconds)
    at_month = ap (λ j. add_months (months_of year) j base) (omega arith)

    at_year : (year - 1970) * 365 + leap_years year ≡ n * 365 + leap_years (1970 + n)
    at_year = rw ye (ap (λ (j : ℕ). j * 365 + leap_years (1970 + n)) (omega arith))

read_back-IsRestored :
    (t : ℕ) → t < 2 ^ 31 → (s : ℕ) × (get_cmos_time (registers_at t) ≡ s % 2 ^ 32) × IsRestored t s
unfolding registers_at
read_back-IsRestored t h =
    let (year, left₁) = split_years 70 1970 t in
    let (month, left₂) = split_months (months_of year) 1 left₁ in
    let (day, left₃) = split_units 31 day_seconds 1 left₂ in
    let (hour, left₄) = split_units 24 3600 0 left₃ in
    let (minute, second) = split_units 60 60 0 left₄ in
    let y = split_years-YearSplit 70 0 t t (days_zero t) (omega arith) in
    let (m_all, m_sum, m_length) = months_lem year in
    let base = ((year - 1970) * 365 + leap_years year) * day_seconds in
    let (k, month_at, k_short, months, rest) =
      split_months_lem (months_of year) 1 left₁ base m_all (rw m_sum (y.rest)) in
    let (d, day_at, d_short, days, day_rest) = split_units_lem 31 day_seconds 1 left₂ rest in
    let (hh, hour_at, h_short, hours, hour_rest) = split_units_lem 24 3600 0 left₃ day_rest in
    let (mm, minute_at, mm_short, minutes, second_rest) = split_units_lem 60 60 0 left₄ hour_rest in
    (
      read_back year month day hour minute second,
      get-write_registers year month day hour minute second,
      read_back_sum t year month day hour minute second y.years k d left₁ left₂ left₃ left₄
          y.year_at y.total y.rest month_at months day_at days
          (scaled 3600 hour hh left₄ left₃ hour_at hours)
          (scaled 60 minute mm second left₄ minute_at minutes),
    )
  where
    scaled :
        (unit n k left total : ℕ) → n ≡ 0 + k → k * unit + left ≡ total → n * unit + left ≡ total
    scaled unit n k left total e f = rw e (omega (arith, f))

    days_zero : (t : ℕ) → t ≡ days_before 0 * day_seconds + t
    days_zero t = omega (arith, days_before_zero)

-- Fewer days before a year: an earlier year.
not_below : (n m : ℕ) → days_before n < days_before m → n < m
not_below n m h = elim (dec_lt n m) [
  | yes lt ↦ lt
  | no ge ↦ absurd (omega (arith, days_before_mono m n (omega arith)))
]

-- A time set by `stime` before the year 2001 is the time that the clock gives back at boot.
pub get_cmos_time-registers_at :
    (t : ℕ) → t < days_before 31 * day_seconds → get_cmos_time (registers_at t) ≡ t
get_cmos_time-registers_at t h =
    let (s, e, r) = read_back-IsRestored t (omega (arith, days_before_31)) in
    let n = r.years in
    let short = not_below n 31 (omega (arith, r.in_time)) in
    omega (arith, e, r.value, leap_years_early n short, days_before_31)

-- A time from 2001 on, below 2 ^ 31, comes back a day early: `get_CMOS_time` takes the leap day of
-- the year 2000 off again.
pub get_cmos_time-late :
    (t : ℕ)
    → days_before 31 * day_seconds ≤ t
    → t < 2 ^ 31
    → get_cmos_time (registers_at t) ≡ t - day_seconds
get_cmos_time-late t lo hi =
    let (s, e, r) = read_back-IsRestored t hi in
    let n = r.years in
    let short = not_below n 69 (omega (arith, r.in_time, days_before_69)) in
    let long = not_below 31 (suc n) (omega (arith, r.before_next)) in
    omega (arith, e, r.value, late_at n (omega (arith, long)) short)
  where
    split : (n : ℕ) → 31 ≤ n → n - 31 + 31 ≡ n
    split n lo = omega arith

    same_year : (n : ℕ) → 31 ≤ n → leap_years (2001 + (n - 31)) ≡ leap_years (1970 + n)
    same_year n lo = ap leap_years (omega arith)

    late_at : (n : ℕ) → 31 ≤ n → n < 69 → n * 365 + leap_years (1970 + n) + 1 ≡ days_before n
    late_at n lo hi =
        omega (
          arith,
          leap_years_late (n - 31) (omega arith),
          ap days_before (split n lo),
          same_year n lo,
        )
