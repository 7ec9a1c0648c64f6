-- ===== src/Kernel/Priority/Calls.antt =====
-- The priority calls of kernel/sched.c.
use os_thix.Prelude.{
  ℕ, ◌≤◌, ◌≡◌, refl, Bool, true, false, List, [], ◌∷◌, min, if◌then◌else◌, arith, ok, err, esrch, ℤ,
  pos, negsuc, Bool-cases, inl, inr,
}
use os_thix.Kernel.Run.{SchedStruct}
use os_thix.Kernel.Priority.{
  Scheduled, Target, prio_pgrp, prio_user, prio_process, selects, min_priority, default_who,
  sys_getpriority, sys_setpriority, base_priority, set_target,
}

min_priority-zero :
    (which : Target) (who : ℕ) (d : ℕ → SchedStruct) (ps : List Scheduled)
    → min_priority which who d ps 0 ≡ 0
unfolding min_priority
min_priority-zero which who d [] = refl
min_priority-zero which who d (p ∷ ps) = elim (Bool-cases (selects which who p)) [
  | inl e ↦ rw e (rw (none_less ((d (p.kpid)).priority)) (min_priority-zero which who d ps))
  | inr e ↦ rw e (min_priority-zero which who d ps)
]
  where
    none_less : (n : ℕ) → min 0 n ≡ 0
    none_less n = omega arith

-- `sys_getpriority` of a process group or of a user fails with ESRCH, whatever processes there
-- are: the least priority is sought from 0 on.
pub sys_getpriority-esrch :
    (who : ℕ) (current : Scheduled) (ps : List Scheduled) (d : ℕ → SchedStruct)
    → (sys_getpriority prio_pgrp who current ps d ≡ err esrch)
      × (sys_getpriority prio_user who current ps d ≡ err esrch)
unfolding sys_getpriority
sys_getpriority-esrch who current ps d = (
  rw (min_priority-zero prio_pgrp (default_who prio_pgrp who current) d ps) refl,
  rw (min_priority-zero prio_user (default_who prio_user who current) d ps) refl,
)

-- A call of `sys_setpriority` that the process may make for itself, at any number, sets `sched_touched` and leaves a
-- priority from 1 to 39, which `sys_getpriority` returns; without the superuser's rights it is at
-- most 20.
pub sys_getpriority-sys_setpriority :
    (priority : ℤ) (is_superuser : Bool) (current : Scheduled) (ps : List Scheduled)
    (d d' : ℕ → SchedStruct) (is_touched : Bool)
    → sys_setpriority prio_process 0 priority is_superuser current ps d ≡ ok (d', is_touched)
    → (is_touched ≡ true)
      × (sys_getpriority prio_process 0 current ps d' ≡ ok (base_priority priority))
      × (1 ≤ base_priority priority)
      × (base_priority priority ≤ (if is_superuser then 39 else 20))
unfolding sys_getpriority sys_setpriority set_target base_priority
sys_getpriority-sys_setpriority (pos n) true current ps d d' t e =
    (ground arith, ground arith, omega arith, omega arith)
sys_getpriority-sys_setpriority (pos n) false current ps d d' t e =
    (ground arith, ground arith, omega arith, omega arith)
sys_getpriority-sys_setpriority (negsuc n) true current ps d d' t e =
    (ground arith, ground arith, omega arith, omega arith)
sys_getpriority-sys_setpriority (negsuc n) false current ps d d' t e = absurd (ground arith)
