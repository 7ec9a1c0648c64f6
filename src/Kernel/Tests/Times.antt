-- ===== src/Kernel/Tests/Times.antt =====
-- The clock, the alarms and the interval timers on small cases.
use os_thix.Prelude.{
  ℕ, ◌-◌, ◌≡◌, refl, true, false, some, none, [], ◌∷◌, ◌==◌, if◌then◌else◌, arith, ok,
}
use os_thix.Kernel.Resource.{Timeval}
use os_thix.Kernel.Clock.{
  get_cmos_time, registers_at, write_registers, i2bcd, split_units, split_months, split_years,
  months_of, day_seconds,
}
use os_thix.Kernel.Clock.Years.{days_before_31}
use os_thix.Kernel.Clock.RoundTrip.{get_cmos_time-registers_at, get_cmos_time-late}
use os_thix.Word.{test_bit}
use os_thix.Kernel.Timer.{Account, account, sigvtalrm, fire_alarm}
use os_thix.Kernel.Timer.Usage.{run_ticks, run_ticks-virtual}
use os_thix.Kernel.Alarm.{AlarmStruct, Alarms, set_alarm}
use os_thix.Kernel.Itimer.{ItimerArg, Itimer, Timers, sys_getitimer, sys_setitimer, itimer_virtual}
use os_thix.Kernel.Alarm.Chain.{Chain, Distinct}
use os_thix.Kernel.Alarm.Insert.{insert, set_alarm-insert}
use os_thix.Kernel.Alarm.Rearm.{set_alarm-lost}
use os_thix.Kernel.Itimer.Interval.{round_down, sys_getitimer-sys_setitimer}

-- Noon of 1 March 1996 and of 1 March 2004.
get_cmos_time-registers_at_example : get_cmos_time (registers_at 825681600) ≡ 825681600
get_cmos_time-registers_at_example =
    get_cmos_time-registers_at 825681600 (omega (arith, days_before_31))

get_cmos_time-late_example : get_cmos_time (registers_at 1078142400) ≡ 1078142400 - day_seconds
get_cmos_time-late_example =
    get_cmos_time-late 1078142400 (omega (arith, days_before_31)) (omega arith)

registers_1996 : registers_at 825681600 ≡ record {
  second = 0;
  minute = 0;
  hour = 0x12;
  day = 0x01;
  month = 0x03;
  year = 0x96;
  century = 0x19;
}
unfolding registers_at write_registers i2bcd split_units split_months split_years months_of
registers_1996 = refl

-- Alarms at 100 (process 3), 200 (process 4) and 300 (process 5).
abbrev table : ℕ → AlarmStruct
table k =
    if k == 3
    then record { alarm_time = 100; next = some 4 }
    else if k == 4
    then record { alarm_time = 200; next = some 5 }
    else if k == 5
    then record { alarm_time = 300; next = none }
    else record { alarm_time = 0; next = none }

abbrev waiting : Alarms
waiting = record { alarms = table; alarms_head = some 3 }

tail-Chain : Chain table (some 4) (4 ∷ 5 ∷ [])
unfolding Chain
tail-Chain = (refl, (refl, refl))

set_alarm-insert_example :
    let s = set_alarm 7 50 170 waiting in
    Chain (s.alarms) (s.alarms_head) (3 ∷ insert table 220 7 (4 ∷ 5 ∷ []))
    × ((s.alarms 7).alarm_time ≡ 220)
unfolding Distinct
set_alarm-insert_example =
    set_alarm-insert waiting 3 (4 ∷ 5 ∷ []) 7 50 170 refl tail-Chain (refl, (refl, (refl, refl)))
      refl (omega arith) (omega arith)

inserted : insert table 220 7 (4 ∷ 5 ∷ []) ≡ 4 ∷ 7 ∷ 5 ∷ []
unfolding insert
inserted = refl

last-Chain : Chain table (some 5) (5 ∷ [])
unfolding Chain
last-Chain = (refl, refl)

-- The new alarm at 250 of process 3 is lost.
set_alarm-lost_example :
    let s = set_alarm 3 50 200 waiting in
    Chain (s.alarms) (s.alarms_head) (4 ∷ 5 ∷ [])
    × ((s.alarms 3).alarm_time ≡ 250)
    × ((s.alarms 3).next ≡ some 3)
set_alarm-lost_example =
    set_alarm-lost waiting 3 4 (5 ∷ []) 50 200 refl refl last-Chain refl refl (omega arith)
      (λ k e. ground arith)

abbrev idle_timer : Itimer
idle_timer = record { ticks_value = 0; ticks_interval = 0 }

abbrev timers : Timers
timers = record { real = idle_timer; virtual = idle_timer; prof = idle_timer }

abbrev half_second : Timeval
half_second = record { tv_sec = 0; tv_usec = 505000 }

abbrev new_timer : ItimerArg
new_timer = record { it_interval = half_second; it_value = half_second }

abbrev timers_after : Timers
timers_after = record timers { virtual = record { ticks_value = 50; ticks_interval = 50 } }

abbrev no_time : ItimerArg
no_time = record {
  it_interval = record { tv_sec = 0; tv_usec = 0 };
  it_value = record { tv_sec = 0; tv_usec = 0 };
}

sys_getitimer-sys_setitimer_example :
    (sys_getitimer true itimer_virtual 3 0 timers_after waiting
      ≡ ok (record { it_interval = round_down half_second; it_value = round_down half_second }))
    × ((before : ItimerArg) × (sys_getitimer true itimer_virtual 3 0 timers waiting ≡ ok before)
        × (some no_time ≡ some before))
    × (waiting ≡ waiting)
unfolding sys_setitimer
sys_getitimer-sys_setitimer_example =
    sys_getitimer-sys_setitimer itimer_virtual new_timer (some no_time) 3 0 timers timers_after
      waiting waiting tt (omega arith) (omega arith) refl

-- A process with two ticks left on its virtual timer, which is set to five.
abbrev counted : Account
counted = record {
  utime = record { tv_sec = 4; tv_usec = 990000 };
  stime = record { tv_sec = 0; tv_usec = 0 };
  virtual = record { ticks_value = 2; ticks_interval = 5 };
  prof = record { ticks_value = 1; ticks_interval = 0 };
  sigpending = 0;
  ru_nsignals = 0;
}

run_ticks-virtual_example :
    let before = run_ticks (true ∷ false ∷ []) counted in
    let after = account false before in
    (test_bit (before.sigpending) sigvtalrm ≡ test_bit 0 sigvtalrm)
    × (test_bit (after.sigpending) sigvtalrm ≡ true)
    × (after.virtual.ticks_value ≡ 5)
run_ticks-virtual_example = run_ticks-virtual (true ∷ false ∷ []) counted refl

-- The alarm at the head of the list is due.
fired : (fire_alarm 500 (λ k. record { ticks_value = 0; ticks_interval = 0 }) waiting).0 ≡ some 3
unfolding fire_alarm
fired = refl
