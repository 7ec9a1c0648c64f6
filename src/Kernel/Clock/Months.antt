-- ===== src/Kernel/Clock/Months.antt =====
-- The loops of `sys_stime` below the year undone by the sums of `get_CMOS_time`.
use os_thix.Prelude.{
  ℕ, zero, suc, ◌+◌, ◌-◌, ◌*◌, ◌<◌, ◌≤◌, ◌≡◌, leb, List, [], ◌∷◌, arith, Bool-cases, inl, inr,
  length,
}
use os_thix.Kernel.Clock.{split_months, split_units, add_months, day_seconds}

-- The seconds of a list of months.
abbrev pub sum_months : List ℕ → ℕ
sum_months [] = 0
sum_months (m ∷ months) = m * day_seconds + sum_months months

-- No month is longer than 31 days.
abbrev pub AllMonths : List ℕ → Type 0
AllMonths [] = Unit
AllMonths (m ∷ months) = (m ≤ 31) × AllMonths months

-- The month that the loop finds lies `k` ahead, adding up the `k` months before it gives back what
-- the loop took off, and less than 31 days are left.
pub split_months_lem :
    (months : List ℕ) (month left base : ℕ)
    → AllMonths months
    → left < sum_months months
    → let r = split_months months month left in
      (k : ℕ) × (r.0 ≡ month + k)
      × (k < length months)
      × (add_months months k base + r.1 ≡ base + left)
      × (r.1 < 31 * day_seconds)
unfolding split_months add_months
split_months_lem [] month left base all h = absurd (omega arith)
split_months_lem (m ∷ months) month left base all h =
    elim (Bool-cases (leb (m * day_seconds) left)) [
      | inl ge ↦
          let (k, at, short, sum, rest) =
            split_months_lem months (suc month) (left - m * day_seconds) (base + m * day_seconds)
              all.1 (ground arith) in
          rw (ge, split_months)
            (suc k, omega (arith, at), omega (arith, short), ground (arith, sum), rest)
      | inr lt ↦
          rw (lt, split_months) (0, omega arith, omega arith, omega arith, ground (arith, all.0))
    ]

-- The loop takes off `k` whole units and leaves less than one, if its fuel covers them.
pub split_units_lem :
    (fuel unit n left : ℕ)
    → left < fuel * unit
    → let r = split_units fuel unit n left in
      (k : ℕ) × (r.0 ≡ n + k) × (k < fuel) × (k * unit + r.1 ≡ left) × (r.1 < unit)
unfolding split_units
split_units_lem zero unit n left h = absurd (omega arith)
split_units_lem (suc fuel) unit n left h = elim (Bool-cases (leb unit left)) [
  | inl ge ↦
      let below : unit ≤ left = ground arith in
      let (k, at, short, sum, rest) =
        split_units_lem fuel unit (suc n) (left - unit) (omega arith) in
      rw (ge, split_units)
        (suc k, omega (arith, at), omega (arith, short), omega (arith, sum), rest)
  | inr lt ↦ rw (lt, split_units) (0, omega arith, omega arith, omega arith, ground arith)
]
