-- ===== src/Kernel/Alarm.antt =====
-- kernel/sched.c: the list of alarms in the order of their time.
pub mod Chain
pub mod Insert
pub mod Rearm
use os_thix.Prelude.{
  ℕ, zero, suc, ◌+◌, ◌-◌, ◌*◌, ◌/◌, ◌%◌, ◌^◌, Bool, true, false, not, ◌&&◌, ◌||◌, Option, none,
  some, ◌==◌, ltb, leb, if◌then◌else◌, update, Result, ok, err, Errno, efault, einval, Pointer,
  user_null, bad_area, area,
}
use os_thix.Kernel.Resource.{Timeval}

-- `alarm_struct`; a pointer into `alarms` is the entry's index, and `none` for NULL.
pub record AlarmStruct : Type 0 where
  pub alarm_time : ℕ
  pub next : Option ℕ

-- `alarms` and `alarms_head`
pub record Alarms : Type 0 where
  pub alarms : ℕ → AlarmStruct
  pub alarms_head : Option ℕ

-- `SYSTEM_PROCESS_MAX`: no list through `alarms` without a repeated entry is longer, so the walks
-- take this much fuel.
abbrev pub alarm_entries : ℕ
alarm_entries = 64

-- `e == &alarms[k]`
abbrev pub points_to : Option ℕ → ℕ → Bool
points_to none k = false
points_to (some j) k = j == k

-- `alarms[k].next = p`
abbrev pub set_next : (ℕ → AlarmStruct) → ℕ → Option ℕ → ℕ → AlarmStruct
set_next a k p = update a k (record (a k) { next = p })

-- `alarms[k].alarm_time = t`
abbrev pub set_time : (ℕ → AlarmStruct) → ℕ → ℕ → ℕ → AlarmStruct
set_time a k t = update a k (record (a k) { alarm_time = t })

-- The loop of `reset_alarm`, from the entry `ap` on.
unfoldable pub unlink : ℕ → (ℕ → AlarmStruct) → ℕ → Option ℕ → ℕ → AlarmStruct
unlink zero a kpid ap = a
unlink (suc fuel) a kpid none = a
unlink (suc fuel) a kpid (some k) = elim (points_to ((a k).next) kpid) [
  | true ↦ set_next a k ((a kpid).next)
  | false ↦ unlink fuel a kpid ((a k).next)
]

-- `reset_alarm` on a list that is not empty, once the alarm's time is 0.
unfoldable pub reset_linked : ℕ → (ℕ → AlarmStruct) → ℕ → Alarms
unfolding unlink
reset_linked kpid a h =
    if h == kpid
    then record { alarms = a; alarms_head = (a kpid).next }
    else record { alarms = unlink alarm_entries a kpid (some h); alarms_head = some h }

unfoldable pub reset_alarm : ℕ → Alarms → Alarms
unfolding reset_linked
reset_alarm kpid s = elim (s.alarms_head) [
  | none ↦ s
  | some h ↦ reset_linked kpid (set_time (s.alarms) kpid 0) h
]

-- The loop of `set_alarm`: the entry after which the alarm goes, and the one before which it goes.
unfoldable pub insert_point : ℕ → (ℕ → AlarmStruct) → ℕ → Option ℕ → Option ℕ → Option ℕ × Option ℕ
insert_point zero a time prev ap = (prev, ap)
insert_point (suc fuel) a time prev none = (prev, none)
insert_point (suc fuel) a time prev (some k) = elim (leb ((a k).alarm_time) time) [
  | true ↦ insert_point fuel a time (some k) ((a k).next)
  | false ↦ (prev, some k)
]

-- `current->next = ap; prev->next = current`; `prev` is not NULL where the source gets here.
unfoldable pub link : (ℕ → AlarmStruct) → ℕ → Option ℕ × Option ℕ → ℕ → AlarmStruct
link a kpid (none, ap) = set_next a kpid ap
link a kpid (some prev, ap) = set_next (set_next a kpid ap) prev (some kpid)

-- `set_alarm` after the call of `reset_alarm`, for the `prev` of before that call.
unfoldable pub place_alarm : ℕ → ℕ → Option ℕ → Alarms → Alarms
unfolding insert_point link
place_alarm kpid time prev s =
    let a = set_time (s.alarms) kpid time in
    elim (s.alarms_head) [
      | none ↦ record { alarms = set_next a kpid none; alarms_head = some kpid }
      | some h ↦
          if ltb time ((a h).alarm_time)
          then record { alarms = set_next a kpid ((a kpid).next); alarms_head = some kpid }
          else record {
            alarms = link a kpid (insert_point alarm_entries a time prev ((a h).next));
            alarms_head = some h;
          }
    ]

-- `set_alarm`, for `it_value` ticks from the tick `ticks` on.
unfoldable pub set_alarm : ℕ → ℕ → ℕ → Alarms → Alarms
unfolding reset_alarm place_alarm
set_alarm kpid ticks it_value s =
    place_alarm kpid ((ticks + it_value) % 2 ^ 32) (s.alarms_head) (reset_alarm kpid s)
