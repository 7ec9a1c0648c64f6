-- ===== src/Kernel/Alarm/Rearm.antt =====
-- What `set_alarm` (kernel/sched.c) does to the alarm at the head of the list.
use os_thix.Prelude.{
  ℕ, suc, ◌+◌, ◌%◌, ◌^◌, ◌<◌, ◌≤◌, ◌≡◌, refl, true, false, List, [], ◌∷◌, has, ◌==◌, ltb, arith,
  Option, none, some,
}
use os_thix.Kernel.Alarm.{
  AlarmStruct, Alarms, set_next, set_time, insert_point, link, place_alarm, set_alarm, reset_alarm,
  reset_linked, alarm_entries,
}
use os_thix.Kernel.Alarm.Chain.{Chain, Chain-frame, Chain-cons}

-- The search of `set_alarm` stops at its first entry.
insert_point-stops :
    (fuel : ℕ) (a : ℕ → AlarmStruct) (time : ℕ) (prev ap : Option ℕ)
    → ((k : ℕ) → ap ≡ some k → time < (a k).alarm_time)
    → insert_point (suc fuel) a time prev ap ≡ (prev, ap)
unfolding insert_point
insert_point-stops fuel a time prev none later = refl
insert_point-stops fuel a time prev (some k) later = ground (arith, later k refl)

-- The first entry of a list is on it.
Chain-head :
    (a : ℕ → AlarmStruct) (p : Option ℕ) (k : ℕ) (ks : List ℕ)
    → Chain a p ks
    → p ≡ some k
    → has k ks ≡ true
unfolding Chain
Chain-head a p k [] c e = absurd (ground arith)
Chain-head a p k (x ∷ ks) c e = ground arith

module _ (s : Alarms) (kpid j : ℕ) (ks : List ℕ) (ticks it_value : ℕ)
    (at_head : s.alarms_head ≡ some kpid) (second : (s.alarms kpid).next ≡ some j)
    (chain : Chain (s.alarms) ((s.alarms j).next) ks) (other : (kpid == j) ≡ false)
    (absent : has kpid ks ≡ false)
    (not_before : (s.alarms j).alarm_time ≤ (ticks + it_value) % 2 ^ 32)
    (later : (k : ℕ)
      → (s.alarms j).next ≡ some k
      → (ticks + it_value) % 2 ^ 32 < (s.alarms k).alarm_time) where
  abbrev time : ℕ
  time = (ticks + it_value) % 2 ^ 32

  abbrev a : ℕ → AlarmStruct
  a = set_time (set_time (s.alarms) kpid 0) kpid time

  reset : reset_alarm kpid s ≡ record { alarms = set_time (s.alarms) kpid 0; alarms_head = some j }
  unfolding reset_alarm reset_linked
  reset = rw (at_head, reset_alarm) (ground (arith, second))

  same : (k : ℕ) → (a k).next ≡ (s.alarms k).next
  same k = ground arith

  stops :
      insert_point alarm_entries a time (some kpid) ((a j).next) ≡ (some kpid, (s.alarms j).next)
  stops = rw (same j) (
      insert_point-stops 63 a time (some kpid) ((s.alarms j).next)
        (λ k e. ground (arith, later k e, same_time k e)))
    where
      same_time : (k : ℕ) → (s.alarms j).next ≡ some k → (a k).alarm_time ≡ (s.alarms k).alarm_time
      same_time k e = ground (arith, Chain-head (s.alarms) ((s.alarms j).next) k ks chain e)

  late : ltb time ((a j).alarm_time) ≡ false
  late = ground arith

  placed : set_alarm kpid ticks it_value s ≡ record {
    alarms = set_next (set_next a kpid ((s.alarms j).next)) kpid (some kpid);
    alarms_head = some j;
  }
  unfolding set_alarm place_alarm link
  placed = rw (reset, at_head) (rw late (rw stops refl))

-- Setting anew the alarm at the head of the list loses it, where its time is not before that of the
-- second alarm and is before that of the third, if there is one: the list goes on from the second
-- alarm as it was, and the entry, which has the new time, is linked to itself.
pub set_alarm-lost :
    (s : Alarms) (kpid j : ℕ) (ks : List ℕ) (ticks it_value : ℕ)
    → s.alarms_head ≡ some kpid
    → (s.alarms kpid).next ≡ some j
    → Chain (s.alarms) ((s.alarms j).next) ks
    → (kpid == j) ≡ false
    → has kpid ks ≡ false
    → (s.alarms j).alarm_time ≤ (ticks + it_value) % 2 ^ 32
    → ((k : ℕ) → (s.alarms j).next ≡ some k → (ticks + it_value) % 2 ^ 32 < (s.alarms k).alarm_time)
    → let s' = set_alarm kpid ticks it_value s in
      Chain (s'.alarms) (s'.alarms_head) (j ∷ ks)
      × ((s'.alarms kpid).alarm_time ≡ (ticks + it_value) % 2 ^ 32)
      × ((s'.alarms kpid).next ≡ some kpid)
set_alarm-lost s kpid j ks ticks it_value at_head second chain other absent not_before later =
    rw (placed s kpid j ks ticks it_value at_head second chain other absent not_before later) (
      Chain-cons b j ks (
          rw (still j other) (
            Chain-frame (s.alarms) b ((s.alarms j).next) ks (λ k h. still k (ground arith)) chain)),
      ground arith,
      ground arith,
    )
  where
    t : ℕ
    t = (ticks + it_value) % 2 ^ 32

    b : ℕ → AlarmStruct
    b =
        set_next (set_next (set_time (set_time (s.alarms) kpid 0) kpid t) kpid ((s.alarms j).next))
          kpid (some kpid)

    still : (k : ℕ) → (kpid == k) ≡ false → (b k).next ≡ (s.alarms k).next
    still k ne = ground arith
