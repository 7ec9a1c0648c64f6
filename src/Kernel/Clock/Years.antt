-- ===== src/Kernel/Clock/Years.antt =====
-- The days before a year, as `get_CMOS_time` computes them and as the calendar has them.
use os_thix.Prelude.{
  ℕ, zero, suc, ◌+◌, ◌-◌, ◌*◌, ◌<◌, ◌≤◌, ◌≡◌, refl, true, ◌==◌, ltb, if◌then◌else◌, arith, ==→eq,
  Bool-cases, eq-cases, inl, inr, each_from, from_table,
}
use os_thix.Kernel.Clock.{leap, leap_years, year_seconds, split_years, day_seconds}

-- The days from 1 January 1970 to 1 January of the year `1970 + n`.
unfoldable pub days_before : ℕ → ℕ
days_before zero = 0
days_before (suc n) = days_before n + (if leap (1970 + n) then 366 else 365)

early : each_from (λ n. n * 365 + leap_years (1970 + n) == days_before n) 0 31 ≡ true
unfolding each_from leap_years days_before leap
early = refl

late :
    each_from (λ n. (n + 31) * 365 + leap_years (2001 + n) + 1 == days_before (n + 31)) 0 69 ≡ true
unfolding each_from leap_years days_before leap
late = refl

-- Up to the year 2000 `get_CMOS_time` counts the days before a year right.
pub leap_years_early : (n : ℕ) → n < 31 → n * 365 + leap_years (1970 + n) ≡ days_before n
leap_years_early n h = ==→eq _ _ (from_table _ early h)

-- From 2001 to 2069 it counts one day too few: it takes off the leap day of 2000.
pub leap_years_late :
    (n : ℕ) → n < 69 → (n + 31) * 365 + leap_years (2001 + n) + 1 ≡ days_before (n + 31)
leap_years_late n h = ==→eq _ _ (from_table _ late h)

-- What the loop over the years finds: `n` whole years and fewer seconds than the next one has.
pub record YearSplit (t year left : ℕ) : Type 0 where
  pub years : ℕ
  pub year_at : year ≡ 1970 + years
  pub total : t ≡ days_before years * day_seconds + left
  pub rest : left < year_seconds year

pub year_seconds_days :
    (n : ℕ)
    → (days_before n * day_seconds + year_seconds (1970 + n) ≡ days_before (suc n) * day_seconds)
      × (365 * day_seconds ≤ year_seconds (1970 + n))
unfolding year_seconds days_before
year_seconds_days n = ground arith

pub split_years-YearSplit :
    (fuel n left t : ℕ)
    → t ≡ days_before n * day_seconds + left
    → left < fuel * (365 * day_seconds)
    → let r = split_years fuel (1970 + n) left in YearSplit t r.0 r.1
unfolding split_years
split_years-YearSplit zero n left t e h = absurd (omega arith)
split_years-YearSplit (suc fuel) n left t e h =
    let y = year_seconds_days n in
    elim (Bool-cases (ltb left (year_seconds (1970 + n)))) [
      | inl lt ↦
          rw (lt, split_years)
            (record { years = n; year_at = refl; total = e; rest = ground arith })
      | inr ge ↦
          rw (ge, split_years)
            (rw next (
              split_years-YearSplit fuel (suc n) (left - year_seconds (1970 + n)) t
                (ground (arith, y)) (ground (arith, y))))
    ]
  where
    next : suc (1970 + n) ≡ 1970 + suc n
    next = omega arith

pub days_before_zero : days_before 0 ≡ 0
unfolding days_before
days_before_zero = refl

pub days_before_31 : days_before 31 ≡ 11323
unfolding days_before leap
days_before_31 = refl

pub days_before_69 : days_before 69 ≡ 25202
unfolding days_before leap
days_before_69 = refl

pub days_before_mono : (n m : ℕ) → n ≤ m → days_before n ≤ days_before m
unfolding days_before
days_before_mono n zero h = rw (le_zero n h) (omega arith)
  where
    le_zero : (n : ℕ) → n ≤ 0 → n ≡ 0
    le_zero n h = omega arith
days_before_mono n (suc m) h = elim (eq-cases n (suc m)) [
  | inl e ↦ rw e (omega arith)
  | inr ne ↦ omega (arith, days_before_mono n m (omega arith))
]
