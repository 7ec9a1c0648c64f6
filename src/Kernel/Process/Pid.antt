-- ===== src/Kernel/Process/Pid.antt =====
-- `find_unused_pid` of kernel/process.c: it ends, and its number is in use by no process.
use os_thix.Prelude.{
  ℕ, zero, suc, ◌+◌, ◌≤◌, ◌<◌, ◌≡◌, ◌≢◌, ◌⊎◌, inl, inr, false, some, List, [], ◌∷◌, arith, refl, ap,
  Bool-cases,
}
use os_thix.Kernel.Tss.{Identity}
use os_thix.Kernel.Process.{next_pid, pid_used, find_unused_pid}

-- No process has `n` as its process id, process group or session.
abbrev pub IsFresh : ℕ → List Identity → Type 0
IsFresh n [] = Unit
IsFresh n (p ∷ ps) = (n ≢ p.pid) × (n ≢ p.pgrp) × (n ≢ p.session) × IsFresh n ps

pid_used-IsFresh : (n : ℕ) (ps : List Identity) → pid_used n ps ≡ false → IsFresh n ps
unfolding pid_used
pid_used-IsFresh n [] h = tt
pid_used-IsFresh n (p ∷ ps) h =
    (ground arith, ground arith, ground arith, pid_used-IsFresh n ps (ground arith))

-- How many rounds lead from `latest` to `p`, at most `fuel`.
abbrev Within : ℕ → ℕ → ℕ → Type 0
Within fuel latest p =
    ((latest < p) × (p ≤ latest + fuel)) ⊎ ((p ≤ latest) × (32767 + p ≤ latest + fuel + 1))

step-Within :
    (fuel latest p : ℕ)
    → 2 ≤ p
    → p ≤ 32767
    → latest ≤ 32767
    → p ≢ next_pid latest
    → Within (suc fuel) latest p
    → Within fuel (next_pid latest) p
unfolding next_pid
step-Within fuel latest p lo hi top ne w = ground arith

next_pid_range : (latest : ℕ) → latest ≤ 32767 → (1 ≤ next_pid latest) × (next_pid latest ≤ 32767)
unfolding next_pid
next_pid_range latest h = ground arith

find-total :
    (fuel latest p : ℕ) (ps : List Identity)
    → latest ≤ 32767
    → 2 ≤ p
    → p ≤ 32767
    → pid_used p ps ≡ false
    → Within fuel latest p
    → (n : ℕ) × (find_unused_pid fuel ps latest ≡ some n) × IsFresh n ps × (1 ≤ n) × (n ≤ 32767)
unfolding find_unused_pid
find-total zero latest p ps top lo hi free w = absurd (omega arith)
find-total (suc fuel) latest p ps top lo hi free w =
    let range = next_pid_range latest top in
    elim (Bool-cases (pid_used (next_pid latest) ps)) [
      | inl u ↦
          rw (u, find_unused_pid)
            (find-total fuel (next_pid latest) p ps range.1 lo hi free
              (step-Within fuel latest p lo hi top (λ e. cc (ap (λ k. pid_used k ps) e)) w))
      | inr u ↦
          (next_pid latest, rw (u, find_unused_pid) refl, pid_used-IsFresh _ ps u, range.0, range.1)
    ]

-- Where one number from 2 to 32767 is unused, `find_unused_pid` returns a number from 1 to 32767
-- that no process has as process id, process group or session; it needs at most 65535 rounds.
pub find_unused_pid-IsFresh :
    (latest p : ℕ) (ps : List Identity)
    → latest ≤ 32767
    → 2 ≤ p
    → p ≤ 32767
    → pid_used p ps ≡ false
    → (n : ℕ) × (find_unused_pid 65535 ps latest ≡ some n) × IsFresh n ps × (1 ≤ n) × (n ≤ 32767)
find_unused_pid-IsFresh latest p ps top lo hi free =
    find-total 65535 latest p ps top lo hi free (enough latest p top lo hi)
  where
    enough : (latest p : ℕ) → latest ≤ 32767 → 2 ≤ p → p ≤ 32767 → Within 65535 latest p
    enough latest p top lo hi = ground arith
