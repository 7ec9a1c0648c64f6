-- ===== src/Kernel/Timer.antt =====
-- The clock interrupt of kernel/sched.c, `timer`: the time of day, the usage and the timers of the
-- running process, and the alarms. The functions that drivers register are not part of the model.
pub mod Usage
use os_thix.Prelude.{
  ℕ, zero, suc, ◌+◌, ◌-◌, ◌%◌, ◌^◌, Bool, true, false, not, ◌&&◌, Option, none, some, List, [], ◌∷◌,
  ◌==◌, leb, if◌then◌else◌, update, Result, ok, err, Errno, efault, Pointer, user_null, bad_area,
  area,
}
use os_thix.Word.{set_bit}
use os_thix.Kernel.Resource.{Timeval, Rusage}
use os_thix.Kernel.Alarm.{Alarms, reset_alarm, set_alarm}
use os_thix.Kernel.Itimer.{Itimer}

abbrev pub sigvtalrm : ℕ
sigvtalrm = 28

abbrev pub sigprof : ℕ
sigprof = 29

-- `ticks` and `seconds`, unsigned 32-bit numbers
pub record Time : Type 0 where
  pub ticks : ℕ
  pub seconds : ℕ

-- `if (++ticks % HZ == 0) seconds++;`
unfoldable pub count_tick : Time → Time
count_tick t =
    let ticks = suc (t.ticks) % 2 ^ 32 in
    record {
      ticks = ticks;
      seconds = if ticks % 100 == 0 then suc (t.seconds) % 2 ^ 32 else t.seconds;
    }

-- What an interrupt changes of the running process: the two times of its usage, two of its timers,
-- its pending signals and their count.
pub record Account : Type 0 where
  pub utime : Timeval
  pub stime : Timeval
  pub virtual : Itimer
  pub prof : Itimer
  pub sigpending : ℕ
  pub ru_nsignals : ℕ

-- A tick (1000000 / HZ microseconds) more
unfoldable pub charge : Timeval → Timeval
charge tv =
    let usec = tv.tv_usec + 10000 in
    if leb 1_000_000 usec
    then record { tv_sec = suc (tv.tv_sec); tv_usec = usec - 1_000_000 }
    else record { tv_sec = tv.tv_sec; tv_usec = usec }

-- `it_value && --it_value == 0`
unfoldable pub expires : Itimer → Bool
expires i = not (i.ticks_value == 0) && (i.ticks_value - 1 == 0)

-- The timer afterwards.
unfoldable pub count_down : Itimer → Itimer
unfolding expires
count_down i = record i {
  ticks_value =
      if expires i && not (i.ticks_interval == 0) then i.ticks_interval else i.ticks_value - 1;
}

-- The signal of a timer that expires.
unfoldable pub notify : Bool → ℕ → Account → Account
unfolding set_bit
notify due signum p =
    if due
    then record p { sigpending = set_bit (p.sigpending) signum; ru_nsignals = suc (p.ru_nsignals) }
    else p

unfoldable pub count_virtual : Account → Account
unfolding notify expires count_down
count_virtual p = record (notify (expires (p.virtual)) sigvtalrm p) {
  virtual = count_down (p.virtual);
}

unfoldable pub count_prof : Account → Account
unfolding notify expires count_down
count_prof p = record (notify (expires (p.prof)) sigprof p) { prof = count_down (p.prof) }

-- The part of `timer` about the running process; `in_kernel` is `CS == 8`.
unfoldable pub account : Bool → Account → Account
unfolding charge count_virtual count_prof
account in_kernel p =
    if in_kernel
    then count_prof (record p { stime = charge (p.stime) })
    else count_prof (count_virtual (record p { utime = charge (p.utime) }))

-- The real timers: the process that gets SIGALRM, if one does, the timers and the alarms. One alarm
-- is handled at each tick.
unfoldable pub fire_alarm : ℕ → (ℕ → Itimer) → Alarms → Option ℕ × ((ℕ → Itimer) × Alarms)
unfolding reset_alarm set_alarm
fire_alarm ticks real s = elim (s.alarms_head) [
  | none ↦ (none, (real, s))
  | some kpid ↦
      if leb ((s.alarms kpid).alarm_time) ticks
      then if (real kpid).ticks_interval == 0
        then (some kpid, (real, reset_alarm kpid s))
        else (let i = (real kpid).ticks_interval in
            (
              some kpid,
              (
                update real kpid (record (real kpid) { ticks_value = i }),
                set_alarm kpid ticks i (reset_alarm kpid s),
              ),
            ))
      else (none, (real, s))
]

-- `sys_time`: what is stored through `tptr`, if it is not NULL, and the result.
unfoldable pub sys_time : Pointer (Unit {0}) → ℕ → Result (Option ℕ × ℕ)
sys_time user_null seconds = ok (none, seconds)
sys_time bad_area seconds = err efault
sys_time (area u) seconds = ok (some seconds, seconds)

-- `struct tms`
pub record Tms : Type 0 where
  pub tms_utime : ℕ
  pub tms_stime : ℕ
  pub tms_cutime : ℕ
  pub tms_cstime : ℕ

-- `sys_times`: what is stored through `tmsptr`, and the result. `writable` is `ok_to_write_area`.
unfoldable pub sys_times : Bool → Rusage → Rusage → ℕ → Result (Tms × ℕ)
sys_times writable usage cusage ticks =
    if writable
    then ok (
      record {
        tms_utime = usage.ru_utime.tv_sec;
        tms_stime = usage.ru_stime.tv_sec;
        tms_cutime = cusage.ru_utime.tv_sec;
        tms_cstime = cusage.ru_stime.tv_sec;
      },
      ticks,
    )
    else err efault
