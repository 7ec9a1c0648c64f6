-- ===== src/Kernel/Resource.antt =====
-- kernel/resource.c: resource limits and usage.
pub mod Limits
pub mod Usage
use os_thix.Prelude.{
  ℕ, suc, ◌+◌, ◌-◌, Bool, true, false, not, ◌&&◌, ◌||◌, ◌==◌, ltb, leb, if◌then◌else◌, update, ℤ,
  pos, negsuc, pos_part, ltb_ℤ, eqb_ℤ, Result, ok, err, Errno, eperm, efault, einval, Option, none,
  some, List, [], ◌∷◌,
}

-- `struct rlimit`
pub record Rlimit : Type 0 where
  pub rlim_cur : ℤ
  pub rlim_max : ℤ

abbrev pub rlimit_nlimits : ℤ
rlimit_nlimits = pos 9

abbrev pub rlimit_data : ℕ
rlimit_data = 2

-- `RLIMIT_INFINITY`
abbrev pub rlimit_infinity : ℤ
rlimit_infinity = pos 0x7FFF_FFFF

-- `resource < 0 || resource >= RLIMIT_NLIMITS`
abbrev pub bad_resource : ℤ → Bool
bad_resource resource =
    ltb_ℤ resource (pos 0) || (if ltb_ℤ resource rlimit_nlimits then false else true)

-- `sys_getrlimit`. `writable` is `ok_to_write_area`, `brk` is `this->brk`; a result is what is
-- stored through `rlp`.
unfoldable pub sys_getrlimit : Bool → ℤ → ℤ → (ℕ → Rlimit) → Result Rlimit
sys_getrlimit writable brk resource limits =
    if writable
    then (if bad_resource resource
        then err einval
        else ok (
            if pos_part resource == rlimit_data
            then record { rlim_cur = brk; rlim_max = rlimit_infinity }
            else limits (pos_part resource)))
    else err efault

-- `sys_setrlimit`. `readable` is `ok_to_read_area`, `rl` what `rlp` points to; a result is the new
-- limits of the process.
unfoldable pub sys_setrlimit : Bool → Bool → ℤ → Rlimit → (ℕ → Rlimit) → Result (ℕ → Rlimit)
sys_setrlimit readable superuser resource rl limits =
    let limit = limits (pos_part resource) in
    if readable
    then (if bad_resource resource
        then err einval
        else if ltb_ℤ rl.rlim_cur (pos 0) || ltb_ℤ rl.rlim_max (pos 0)
        then err einval
        else if ltb_ℤ rl.rlim_max rl.rlim_cur
        then err einval
        else if superuser
        then ok (update limits (pos_part resource) rl)
        else if ltb_ℤ limit.rlim_max rl.rlim_max || ltb_ℤ limit.rlim_max rl.rlim_cur
        then err eperm
        else ok (update limits (pos_part resource) (record limit { rlim_cur = rl.rlim_cur })))
    else err efault

-- `struct timeval`, where it is not negative
pub record Timeval : Type 0 where
  pub tv_sec : ℕ
  pub tv_usec : ℕ

-- `struct rusage`
pub record Rusage : Type 0 where
  pub ru_utime : Timeval
  pub ru_stime : Timeval
  pub ru_maxrss : ℕ
  pub ru_ixrss : ℕ
  pub ru_idrss : ℕ
  pub ru_isrss : ℕ
  pub ru_minflt : ℕ
  pub ru_majflt : ℕ
  pub ru_nswap : ℕ
  pub ru_inblock : ℕ
  pub ru_oublock : ℕ
  pub ru_msgsnd : ℕ
  pub ru_msgrcv : ℕ
  pub ru_nsignals : ℕ
  pub ru_nvcsw : ℕ
  pub ru_nivcsw : ℕ

-- The addition with carry that `add_rusage` does on each of the two times.
unfoldable pub add_timeval : Timeval → Timeval → Timeval
add_timeval a b =
    let usec = a.tv_usec + b.tv_usec in
    if leb 1_000_000 usec
    then record { tv_sec = suc (a.tv_sec + b.tv_sec); tv_usec = usec - 1_000_000 }
    else record { tv_sec = a.tv_sec + b.tv_sec; tv_usec = usec }

-- `add_rusage`
unfoldable pub add_rusage : Rusage → Rusage → Rusage
unfolding add_timeval
add_rusage a b = record {
  ru_utime = add_timeval a.ru_utime b.ru_utime;
  ru_stime = add_timeval a.ru_stime b.ru_stime;
  ru_maxrss = a.ru_maxrss + b.ru_maxrss;
  ru_ixrss = a.ru_ixrss + b.ru_ixrss;
  ru_idrss = a.ru_idrss + b.ru_idrss;
  ru_isrss = a.ru_isrss + b.ru_isrss;
  ru_minflt = a.ru_minflt + b.ru_minflt;
  ru_majflt = a.ru_majflt + b.ru_majflt;
  ru_nswap = a.ru_nswap + b.ru_nswap;
  ru_inblock = a.ru_inblock + b.ru_inblock;
  ru_oublock = a.ru_oublock + b.ru_oublock;
  ru_msgsnd = a.ru_msgsnd + b.ru_msgsnd;
  ru_msgrcv = a.ru_msgrcv + b.ru_msgrcv;
  ru_nsignals = a.ru_nsignals + b.ru_nsignals;
  ru_nvcsw = a.ru_nvcsw + b.ru_nvcsw;
  ru_nivcsw = a.ru_nivcsw + b.ru_nivcsw;
}

-- A process as `sys_getrusage` sees it: whether it is a zombie, its pid and its usage.
pub record ProcessUsage : Type 0 where
  pub zombie : Bool
  pub pid : ℕ
  pub usage : Rusage

-- The loop of `sys_getrusage` over the processes from INIT on.
unfoldable pub usage_of : ℕ → List ProcessUsage → Option Rusage
usage_of who [] = none
usage_of who (p ∷ ps) = if not p.zombie && (p.pid == who) then some p.usage else usage_of who ps

-- `sys_getrusage`: `RUSAGE_SELF` is 0 and `RUSAGE_CHILDREN` is -1.
unfoldable pub sys_getrusage : Bool → ℤ → Rusage → Rusage → List ProcessUsage → Result Rusage
unfolding usage_of
sys_getrusage writable who usage cusage ps =
    if writable
    then (if eqb_ℤ who (pos 0)
        then ok usage
        else if eqb_ℤ who (negsuc 0)
        then ok cusage
        else if ltb_ℤ who (pos 0)
        then err einval
        else elim (usage_of (pos_part who) ps) [ none ↦ err einval | some u ↦ ok u ])
    else err efault
