-- ===== src/Kernel/Resource/Limits.antt =====
-- What `setrlimit` of kernel/resource.c lets a process raise.
use os_thix.Prelude.{ℕ, ◌≡◌, ◌⊎◌, Bool, true, ok, ℤ, pos, pos_part, ◌≤ℤ◌, arith}
use os_thix.Kernel.Resource.{Rlimit, sys_setrlimit, sys_getrlimit, rlimit_data}

-- The current limit is not negative and not above the maximum.
pub record IsLimit (l : Rlimit) : Type 0 where
  pub nonneg : pos 0 ≤ℤ l.rlim_cur
  pub below : l.rlim_cur ≤ℤ l.rlim_max

-- A `setrlimit` that succeeds leaves every limit of the process in order if it was, and without
-- superuser rights it changes no maximum.
pub sys_setrlimit-IsLimit :
    (readable superuser : Bool) (resource : ℤ) (rl : Rlimit) (limits : ℕ → Rlimit)
    {limits' : ℕ → Rlimit}
    → sys_setrlimit readable superuser resource rl limits ≡ ok limits'
    → (j : ℕ) → IsLimit (limits j)
    → IsLimit (limits' j) × ((superuser ≡ true) ⊎ ((limits' j).rlim_max ≡ (limits j).rlim_max))
unfolding sys_setrlimit
sys_setrlimit-IsLimit readable superuser resource rl limits {limits'} e j v = ground arith

-- The limit that `setrlimit` has set is the one that `getrlimit` returns, but for the data limit.
pub getrlimit-setrlimit :
    (resource : ℤ) (rl : Rlimit) (limits : ℕ → Rlimit) (brk : ℤ) {limits' : ℕ → Rlimit}
    → sys_setrlimit true true resource rl limits ≡ ok limits'
    → (pos_part resource ≡ rlimit_data → ⊥)
    → sys_getrlimit true brk resource limits' ≡ ok rl
unfolding sys_setrlimit sys_getrlimit
getrlimit-setrlimit resource rl limits brk {limits'} e ne = ground arith
