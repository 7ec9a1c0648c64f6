-- ===== src/Kernel/Resource/Usage.antt =====
-- The addition of resource usage in kernel/resource.c.
use os_thix.Prelude.{ℕ, ◌+◌, ◌*◌, ◌<◌, ◌≡◌, refl, arith}
use os_thix.Kernel.Resource.{Timeval, Rusage, add_timeval, add_rusage}

-- A time in microseconds.
abbrev pub microseconds : Timeval → ℕ
microseconds t = t.tv_sec * 1_000_000 + t.tv_usec

-- A time whose microseconds are less than a second.
abbrev pub IsTime : Timeval → Type 0
IsTime t = t.tv_usec < 1_000_000

add_timeval_lem :
    (a b : Timeval)
    → IsTime a
    → IsTime b
    → IsTime (add_timeval a b) × (microseconds (add_timeval a b) ≡ microseconds a + microseconds b)
unfolding add_timeval
add_timeval_lem a b h k = ground arith

-- `add_rusage` of two usages with normal times has normal times, and its user and system times are
-- the sums of the two; so are its counts of page faults and of signals.
pub add_rusage_lem :
    (a b : Rusage)
    → IsTime a.ru_utime
    → IsTime b.ru_utime
    → IsTime a.ru_stime
    → IsTime b.ru_stime
    → let r = add_rusage a b in
      IsTime r.ru_utime
      × IsTime r.ru_stime
      × (microseconds r.ru_utime ≡ microseconds a.ru_utime + microseconds b.ru_utime)
      × (microseconds r.ru_stime ≡ microseconds a.ru_stime + microseconds b.ru_stime)
      × (r.ru_majflt ≡ a.ru_majflt + b.ru_majflt)
      × (r.ru_nsignals ≡ a.ru_nsignals + b.ru_nsignals)
unfolding add_rusage
add_rusage_lem a b ua ub sa sb =
    let u = add_timeval_lem a.ru_utime b.ru_utime ua ub in
    let s = add_timeval_lem a.ru_stime b.ru_stime sa sb in (u.0, s.0, u.1, s.1, refl, refl)
