-- ===== src/Kernel/Alarm/Insert.antt =====
-- Where `set_alarm` (kernel/sched.c) puts an alarm.
use os_thix.Prelude.{
  ℕ, zero, suc, ◌+◌, ◌%◌, ◌^◌, ◌<◌, ◌≤◌, ◌≡◌, ◌≢◌, ◌∙◌, refl, ap, true, false, List, [], ◌∷◌,
  length, has, ◌==◌, ltb, leb, if◌then◌else◌, arith, none, some, Bool-cases, inl, inr,
}
use os_thix.Kernel.Alarm.{
  AlarmStruct, Alarms, set_next, set_time, unlink, reset_linked, insert_point, link, place_alarm,
  set_alarm, reset_alarm, alarm_entries,
}
use os_thix.Kernel.Alarm.Chain.{Chain, Distinct, Chain-frame, Chain-cons, Distinct-tail}

-- The list with `kpid` put before the first alarm that is later than `time`.
unfoldable pub insert : (ℕ → AlarmStruct) → ℕ → ℕ → List ℕ → List ℕ
insert a time kpid [] = kpid ∷ []
insert a time kpid (k ∷ ks) =
    if leb ((a k).alarm_time) time then k ∷ insert a time kpid ks else kpid ∷ k ∷ ks

-- The list from `prev` on after the insertion, and the entries that it leaves alone.
record Linked (a b : ℕ → AlarmStruct) (time kpid prev : ℕ) (ks : List ℕ) : Type 0 where
  chain : Chain b (some prev) (prev ∷ insert a time kpid ks)
  frame : (j : ℕ) → j ≢ kpid → j ≢ prev → has j ks ≡ false → b j ≡ a j
  times : (j : ℕ) → (b j).alarm_time ≡ (a j).alarm_time

link-Linked :
    (ks : List ℕ) (fuel : ℕ) (a : ℕ → AlarmStruct) (time kpid prev : ℕ)
    → length ks < fuel
    → Chain a ((a prev).next) ks
    → has prev ks ≡ false
    → Distinct ks
    → has kpid ks ≡ false
    → prev ≢ kpid
    → Linked a
        (link a kpid (insert_point fuel a time (some prev) ((a prev).next)))
        time
        kpid
        prev
        ks
unfolding insert insert_point link Chain Distinct
link-Linked [] zero a time kpid prev short c apart distinct new ne = elim short [ ]
link-Linked (k ∷ ks) zero a time kpid prev short c apart distinct new ne = elim short [ ]
link-Linked [] (suc fuel) a time kpid prev short c apart distinct new ne = rw c (record {
  chain = (refl, (ground (arith, ne), ground (arith, ne)));
  frame = λ j nk np h. ground (arith, nk, np);
  times = λ j. ground arith;
})
link-Linked (k ∷ ks) (suc fuel) a time kpid prev short (e, c) apart (once, distinct) new ne =
    elim (Bool-cases (leb ((a k).alarm_time) time)) [
      | inl later ↦
          rw (e, later, insert_point)
            (after_k later (
              link-Linked ks fuel a time kpid k (omega arith) c once distinct (ground arith)
                (ground arith)))
      | inr here ↦ rw (e, here, insert_point) (before_k here)
    ]
  where
    after_k :
        leb ((a k).alarm_time) time ≡ true
        → Linked a (link a kpid (insert_point fuel a time (some k) ((a k).next))) time kpid k ks
        → Linked a
            (link a kpid (insert_point fuel a time (some k) ((a k).next)))
            time
            kpid
            prev
            (k ∷ ks)
    after_k later l = record {
      chain = (
        refl,
        rw later (rw (l.frame prev ne (ground arith) (ground arith), e) (refl, l.chain.1)),
      );
      frame = λ j nk np h. l.frame j nk (ground arith) (ground arith);
      times = l.times;
    }

    b : ℕ → AlarmStruct
    b = set_next (set_next a kpid (some k)) prev (some kpid)

    k_same : (b k).next ≡ (a k).next
    k_same = ground (arith, new, apart)

    tail : Chain b ((a k).next) ks
    tail = Chain-frame a b ((a k).next) ks (λ j h. ground (arith, h, new, apart)) c

    before_k :
        leb ((a k).alarm_time) time ≡ false
        → Linked a (set_next (set_next a kpid (some k)) prev (some kpid)) time kpid prev (k ∷ ks)
    before_k here = record {
      chain = (refl, rw here (ground (arith, ne), (ground (arith, ne), rw (k_same) tail)));
      frame = λ j nk np h. ground (arith, nk, np);
      times = λ j. ground arith;
    }

-- An alarm that is not in the list is not taken off it.
unlink-absent :
    (ks : List ℕ) (fuel : ℕ) (a : ℕ → AlarmStruct) (kpid k : ℕ)
    → Chain a ((a k).next) ks
    → has kpid ks ≡ false
    → unlink fuel a kpid (some k) ≡ a
unfolding unlink Chain
unlink-absent ks zero a kpid k c new = refl
unlink-absent [] (suc fuel) a kpid k c new = rw (c, unlink) (rw c (ended fuel))
  where
    ended : (fuel : ℕ) → unlink fuel a kpid none ≡ a
    ended zero = refl
    ended (suc fuel) = refl
unlink-absent (j ∷ ks) (suc fuel) a kpid k (e, c) new =
    rw (e, unlink) (rw (other, unlink) (rw e (unlink-absent ks fuel a kpid j c (ground arith))))
  where
    other : (j == kpid) ≡ false
    other = ground (arith, new)

-- `reset_alarm` of an alarm outside the list.
reset-absent :
    (s : Alarms) (h : ℕ) (ks : List ℕ) (kpid : ℕ)
    → s.alarms_head ≡ some h
    → Chain (s.alarms) ((s.alarms h).next) ks
    → has kpid (h ∷ ks) ≡ false
    → reset_alarm kpid s ≡ record { alarms = set_time (s.alarms) kpid 0; alarms_head = some h }
unfolding reset_alarm reset_linked
reset-absent s h ks kpid e c new =
    rw (e, reset_alarm) (rw (other, reset_linked) (rw left_alone refl))
  where
    other : (h == kpid) ≡ false
    other = ground (arith, new)

    a : ℕ → AlarmStruct
    a = set_time (s.alarms) kpid 0

    h_same : (a h).next ≡ (s.alarms h).next
    h_same = ground arith

    left_alone : unlink alarm_entries a kpid (some h) ≡ a
    left_alone =
        unlink-absent ks alarm_entries a kpid h
          (rw h_same (Chain-frame (s.alarms) a ((s.alarms h).next) ks (λ j i. ground arith) c))
          (ground arith)

-- `set_alarm` of an alarm outside the list, once `reset_alarm` is done.
set_alarm-place :
    (s : Alarms) (h : ℕ) (ks : List ℕ) (kpid ticks it_value : ℕ)
    → s.alarms_head ≡ some h
    → Chain (s.alarms) ((s.alarms h).next) ks
    → has kpid (h ∷ ks) ≡ false
    → set_alarm kpid ticks it_value s
      ≡ place_alarm kpid
          ((ticks + it_value) % 2 ^ 32)
          (some h)
          (record { alarms = set_time (s.alarms) kpid 0; alarms_head = some h })
unfolding set_alarm
set_alarm-place s h ks kpid ticks it_value e c new = rw (reset-absent s h ks kpid e c new) (
    ap
      (λ p.
        place_alarm kpid ((ticks + it_value) % 2 ^ 32) p
          (record { alarms = set_time (s.alarms) kpid 0; alarms_head = some h }))
      e)

-- The alarms of a list after the new alarm's time is written.
abbrev timed : Alarms → ℕ → ℕ → ℕ → AlarmStruct
timed s kpid time = set_time (set_time (s.alarms) kpid 0) kpid time

insert-timed :
    (s : Alarms) (kpid t time : ℕ) (ks : List ℕ)
    → has kpid ks ≡ false
    → insert (timed s kpid t) time kpid ks ≡ insert (s.alarms) time kpid ks
unfolding insert
insert-timed s kpid t time [] absent = refl
insert-timed s kpid t time (k ∷ ks) absent =
    rw (same, insert-timed s kpid t time ks (ground (arith, absent))) refl
  where
    same : (timed s kpid t k).alarm_time ≡ (s.alarms k).alarm_time
    same = ground (arith, absent)

module _ (s : Alarms) (h : ℕ) (ks : List ℕ) (kpid ticks it_value : ℕ) (e : s.alarms_head ≡ some h)
    (c : Chain (s.alarms) ((s.alarms h).next) ks) (new : has kpid (h ∷ ks) ≡ false) where
  abbrev time : ℕ
  time = (ticks + it_value) % 2 ^ 32

  abbrev a : ℕ → AlarmStruct
  a = timed s kpid time

  h_time : (a h).alarm_time ≡ (s.alarms h).alarm_time
  h_time = ground (arith, new)

  placed_early :
      ltb time ((s.alarms h).alarm_time) ≡ true
      → set_alarm kpid ticks it_value s
        ≡ record { alarms = set_next a kpid ((a kpid).next); alarms_head = some kpid }
  unfolding place_alarm
  placed_early early =
      set_alarm-place s h ks kpid ticks it_value e c new ∙ rw h_time (rw early refl)

  placed_late :
      ltb time ((s.alarms h).alarm_time) ≡ false
      → set_alarm kpid ticks it_value s ≡ record {
        alarms = link a kpid (insert_point alarm_entries a time (some h) ((a h).next));
        alarms_head = some h;
      }
  unfolding place_alarm
  placed_late late = set_alarm-place s h ks kpid ticks it_value e c new ∙ rw h_time (rw late refl)

-- Setting an alarm that is not in the list, for a time that is not before the first alarm's, puts
-- it before the first later alarm and keeps the rest of the list as it is, whatever its order.
pub set_alarm-insert :
    (s : Alarms) (h : ℕ) (ks : List ℕ) (kpid ticks it_value : ℕ)
    → s.alarms_head ≡ some h
    → Chain (s.alarms) ((s.alarms h).next) ks
    → Distinct (h ∷ ks)
    → has kpid (h ∷ ks) ≡ false
    → length ks < alarm_entries
    → (s.alarms h).alarm_time ≤ (ticks + it_value) % 2 ^ 32
    → let s' = set_alarm kpid ticks it_value s in
      Chain
        (s'.alarms)
        (s'.alarms_head)
        (h ∷ insert (s.alarms) ((ticks + it_value) % 2 ^ 32) kpid ks)
      × ((s'.alarms kpid).alarm_time ≡ (ticks + it_value) % 2 ^ 32)
set_alarm-insert s h ks kpid ticks it_value e c distinct new short late =
    rw (placed_late s h ks kpid ticks it_value e c new (ground arith)) (
      rw
          (← insert-timed s kpid ((ticks + it_value) % 2 ^ 32) ((ticks + it_value) % 2 ^ 32) ks
            (ground (arith, new)))
          (linked.chain),
      linked.times kpid ∙ ground arith,
    )
  where
    t : ℕ
    t = (ticks + it_value) % 2 ^ 32

    b : ℕ → AlarmStruct
    b = timed s kpid t

    h_next : (b h).next ≡ (s.alarms h).next
    h_next = ground arith

    linked :
        Linked b (link b kpid (insert_point alarm_entries b t (some h) ((b h).next))) t kpid h ks
    linked =
        let (once, others) = Distinct-tail h ks distinct in
        link-Linked ks alarm_entries b t kpid h short
          (rw h_next (Chain-frame (s.alarms) b ((s.alarms h).next) ks (λ j i. ground arith) c)) once
          others (ground arith) (ground arith)

-- Setting an alarm that is not in the list, for a time before the first alarm's, makes it the
-- first and leaves its own `next` as it was: the list goes on where that pointer led before, and
-- the other alarms are no longer on it.
set_alarm-early :
    (s : Alarms) (h : ℕ) (ks rest : List ℕ) (kpid ticks it_value : ℕ)
    → s.alarms_head ≡ some h
    → Chain (s.alarms) ((s.alarms h).next) ks
    → has kpid (h ∷ ks) ≡ false
    → (ticks + it_value) % 2 ^ 32 < (s.alarms h).alarm_time
    → Chain (s.alarms) ((s.alarms kpid).next) rest
    → let s' = set_alarm kpid ticks it_value s in Chain (s'.alarms) (s'.alarms_head) (kpid ∷ rest)
set_alarm-early s h ks rest kpid ticks it_value e c new early stale =
    rw (placed_early s h ks kpid ticks it_value e c new (ground arith)) (
      Chain-cons b kpid rest (
        rw (same kpid)
          (Chain-frame (s.alarms) b ((s.alarms kpid).next) rest (λ j i. same j) stale)))
  where
    t : ℕ
    t = (ticks + it_value) % 2 ^ 32

    b : ℕ → AlarmStruct
    b = set_next (timed s kpid t) kpid ((timed s kpid t kpid).next)

    same : (j : ℕ) → (b j).next ≡ (s.alarms j).next
    same j = ground arith
