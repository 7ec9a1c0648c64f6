-- ===== src/Kernel/Itimer.antt =====
-- kernel/sched.c: interval timers, which the calls read and set in ticks.
pub mod Interval
use os_thix.Prelude.{
  ℕ, zero, suc, ◌+◌, ◌-◌, ◌*◌, ◌/◌, ◌%◌, ◌^◌, Bool, true, false, not, ◌&&◌, ◌||◌, Option, none,
  some, ◌==◌, ltb, leb, if◌then◌else◌, update, Result, ok, err, Errno, efault, einval, Pointer,
  user_null, bad_area, area,
}
use os_thix.Kernel.Resource.{Timeval}
use os_thix.Kernel.Alarm.{Alarms, AlarmStruct, set_alarm}

-- `struct itimerval`, with its `long`s as 32-bit words.
pub record ItimerArg : Type 0 where
  pub it_interval : Timeval
  pub it_value : Timeval

-- `_itimerval`, in ticks
pub record Itimer : Type 0 where
  pub ticks_value : ℕ
  pub ticks_interval : ℕ

-- `l >= 0` for a `long`
abbrev pub nonnegative : ℕ → Bool
nonnegative w = ltb w 2147483648

unfoldable pub itimer_ok : ItimerArg → Bool
itimer_ok i =
    nonnegative (i.it_value.tv_sec)
    && nonnegative (i.it_value.tv_usec)
    && nonnegative (i.it_interval.tv_sec)
    && nonnegative (i.it_interval.tv_usec)
    && (not (i.it_value.tv_sec == 0) || not (i.it_value.tv_usec == 0))

-- `timeval2int`, with HZ 100, of a time that is not negative
unfoldable pub timeval2int : Timeval → ℕ
timeval2int tv = (tv.tv_sec * 100 + tv.tv_usec / 10000) % 2 ^ 32

unfoldable pub int2timeval : ℕ → Timeval
int2timeval value = record { tv_sec = value / 100; tv_usec = value % 100 * 10000 }

-- `itimerval2_itimerval`
unfoldable pub to_ticks : ItimerArg → Itimer
unfolding timeval2int
to_ticks i = record {
  ticks_value = timeval2int (i.it_value);
  ticks_interval = timeval2int (i.it_interval);
}

-- `_itimerval2itimerval`
unfoldable pub from_ticks : Itimer → ItimerArg
unfolding int2timeval
from_ticks i = record {
  it_interval = int2timeval (i.ticks_interval);
  it_value = int2timeval (i.ticks_value);
}

-- The timers of a process.
pub record Timers : Type 0 where
  pub real : Itimer
  pub virtual : Itimer
  pub prof : Itimer

-- `ITIMER_REAL`, `ITIMER_VIRTUAL`, `ITIMER_PROF` and any other number
pub data Which : Type 0 where
  itimer_real itimer_virtual itimer_prof itimer_other : Which

-- `sys_getitimer`: the value of `*old`. `writable` is what `ok_to_write_area` says.
unfoldable pub sys_getitimer : Bool → Which → ℕ → ℕ → Timers → Alarms → Result ItimerArg
unfolding from_ticks int2timeval
sys_getitimer writable which kpid ticks t s =
    if writable
    then elim which [
      | itimer_real ↦ ok (record {
        it_interval = int2timeval (t.real.ticks_interval);
        it_value =
            if ltb ticks ((s.alarms kpid).alarm_time)
            then int2timeval ((s.alarms kpid).alarm_time - ticks)
            else int2timeval 0;
      })
      | itimer_virtual ↦ ok (from_ticks (t.virtual))
      | itimer_prof ↦ ok (from_ticks (t.prof))
      | itimer_other ↦ err einval
    ]
    else err efault

-- `sys_setitimer` once the checks are done: the old timer, and the new timers and alarms.
unfoldable pub set_timer :
    Which → ItimerArg → ℕ → ℕ → Timers → Alarms → Result (ItimerArg × (Timers × Alarms))
unfolding to_ticks from_ticks set_alarm
set_timer which new kpid ticks t s = elim which [
  | itimer_real ↦ ok (
    from_ticks (t.real),
    (record t { real = to_ticks new }, set_alarm kpid ticks (timeval2int (new.it_value)) s),
  )
  | itimer_virtual ↦ ok (from_ticks (t.virtual), (record t { virtual = to_ticks new }, s))
  | itimer_prof ↦ ok (from_ticks (t.prof), (record t { prof = to_ticks new }, s))
  | itimer_other ↦ err einval
]

-- What is stored through `old`.
abbrev pub stored_timer :
    Pointer (Unit {0})
    → Result (ItimerArg × (Timers × Alarms))
    → Result (Option ItimerArg × (Timers × Alarms))
stored_timer user_null (ok (i, r)) = ok (none, r)
stored_timer bad_area (ok (i, r)) = err efault
stored_timer (area u) (ok (i, r)) = ok (some i, r)
stored_timer old (err e) = err e

-- `sys_setitimer`: the value of `*old`, if `old` is not NULL, and the new timers and alarms. `new`
-- is `none` where the check of its area fails.
unfoldable pub sys_setitimer :
    Which
    → Option ItimerArg
    → Pointer (Unit {0})
    → ℕ
    → ℕ
    → Timers
    → Alarms
    → Result (Option ItimerArg × (Timers × Alarms))
unfolding itimer_ok set_timer
sys_setitimer which none old kpid ticks t s = err efault
sys_setitimer which (some new) bad_area kpid ticks t s = err efault
sys_setitimer which (some new) user_null kpid ticks t s =
    if not (itimer_ok new)
    then err einval
    else stored_timer user_null (set_timer which new kpid ticks t s)
sys_setitimer which (some new) (area u) kpid ticks t s =
    if not (itimer_ok new)
    then err einval
    else stored_timer (area u) (set_timer which new kpid ticks t s)
