-- ===== src/Kernel/Itimer/Interval.antt =====
-- The system calls on interval timers (kernel/sched.c), whose values are kept in ticks of 10 ms.
use os_thix.Prelude.{Option, some, area, refl, ℕ, ◌*◌, ◌/◌, ◌<◌, ◌≡◌, true, arith, ok}
use os_thix.Kernel.Resource.{Timeval}
use os_thix.Kernel.Alarm.{Alarms}
use os_thix.Kernel.Itimer.{
  ItimerArg, Timers, timeval2int, int2timeval, from_ticks, sys_setitimer, sys_getitimer, Which,
  itimer_real, itimer_other, itimer_virtual, itimer_prof,
}

-- A time rounded down to whole ticks.
abbrev pub round_down : Timeval → Timeval
round_down tv = record { tv_sec = tv.tv_sec; tv_usec = tv.tv_usec / 10000 * 10000 }

-- A proper time whose number of ticks fits a word.
abbrev pub IsTime : Timeval → Type 0
IsTime tv = (tv.tv_sec < 42949672) × (tv.tv_usec < 1000000)

int2timeval-timeval2int : (tv : Timeval) → IsTime tv → int2timeval (timeval2int tv) ≡ round_down tv
unfolding int2timeval timeval2int
int2timeval-timeval2int tv (s, u) = ground arith

-- The timers that no alarm goes with.
abbrev pub IsCounted : Which → Type 0
IsCounted itimer_virtual = Unit
IsCounted itimer_prof = Unit
IsCounted itimer_real = ⊥
IsCounted itimer_other = ⊥

-- What `sys_setitimer` stores for the virtual and for the profiling timer is what `sys_getitimer`
-- gives back, rounded down to whole ticks, and what it returns as the old value is what
-- `sys_getitimer` gave before; the alarms stay as they are. The times are proper and their ticks
-- fit a word.
pub sys_getitimer-sys_setitimer :
    (which : Which) (new : ItimerArg) (old : Option ItimerArg) (kpid ticks : ℕ) (t t' : Timers)
    (s s' : Alarms)
    → IsCounted which
    → IsTime (new.it_value)
    → IsTime (new.it_interval)
    → sys_setitimer which (some new) (area tt) kpid ticks t s ≡ ok (old, (t', s'))
    → (sys_getitimer true which kpid ticks t' s'
        ≡ ok (record {
          it_interval = round_down (new.it_interval);
          it_value = round_down (new.it_value);
        }))
      × ((before : ItimerArg) × (sys_getitimer true which kpid ticks t s ≡ ok before)
          × (old ≡ some before))
      × (s' ≡ s)
unfolding sys_getitimer sys_setitimer
sys_getitimer-sys_setitimer itimer_virtual new old kpid ticks t t' s s' c v i e =
    let ev = int2timeval-timeval2int (new.it_value) v in
    let ei = int2timeval-timeval2int (new.it_interval) i in
    (ground (arith, ev, ei), (from_ticks (t.virtual), refl, ground arith), ground arith)
sys_getitimer-sys_setitimer itimer_prof new old kpid ticks t t' s s' c v i e =
    let ev = int2timeval-timeval2int (new.it_value) v in
    let ei = int2timeval-timeval2int (new.it_interval) i in
    (ground (arith, ev, ei), (from_ticks (t.prof), refl, ground arith), ground arith)
sys_getitimer-sys_setitimer itimer_real new old kpid ticks t t' s s' c v i e = absurd c
sys_getitimer-sys_setitimer itimer_other new old kpid ticks t t' s s' c v i e = absurd c
