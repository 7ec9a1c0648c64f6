-- ===== src/Kernel/Tests/Runs.antt =====
-- The run lists and the scheduler on a small case.
use os_thix.Prelude.{
  ℕ, ◌≡◌, refl, inl, inr, false, [], ◌∷◌, ◌==◌, if◌then◌else◌, eq-cases, arith, pos, negsuc, err,
  esrch,
}
use os_thix.Kernel.Run.{
  RunLists, Sched, SchedStruct, scheduler, find_head, requeue, less_usage, first_priority_level,
  new_schedulable_process, delete_schedulable_process,
}
use os_thix.Kernel.Priority.{Scheduled, sys_getpriority, prio_pgrp, prio_user}
use os_thix.Kernel.Run.Queue.{Linked, last}
use os_thix.Kernel.Run.Refine.{Queues, AreQueues}
use os_thix.Kernel.Run.Drain.{next}
use os_thix.Kernel.Run.Schedule.{requeued, scheduler-next}
use os_thix.Kernel.Priority.Calls.{sys_getpriority-esrch}

-- The processes 3 and 4 wait at priority 20 and process 5 at priority 10; each has base priority 20.
abbrev entry : ℕ → ℕ → SchedStruct
entry next usage = record { next = next; priority = 20; cpu_usage = usage }

abbrev entries : ℕ → SchedStruct
entries k =
    if k == 3
    then entry 4 20
    else if k == 4
    then entry 0 20
    else if k == 5
    then entry 0 10
    else entry 0 0

abbrev heads : ℕ → ℕ
heads p = if p == 20 then 3 else if p == 10 then 5 else 0

abbrev tails : ℕ → ℕ
tails p = if p == 20 then 4 else if p == 10 then 5 else 0

abbrev lists : RunLists
lists = record { sched_head = heads; sched_tail = tails; sched_data = entries }

abbrev queues : Queues
queues p = if p == 20 then 3 ∷ 4 ∷ [] else if p == 10 then 5 ∷ [] else []

lists-queues : AreQueues lists queues
unfolding Linked last
lists-queues = record {
  queue = λ p. elim (eq-cases p 20) [
    | inl e ↦ rw e (record { linked = ground arith; tail = refl })
    | inr ne ↦ elim (eq-cases p 10) [
      | inl e ↦ rw e (record { linked = ground arith; tail = refl })
      | inr ne' ↦
          let empty : queues p ≡ [] = ground arith in
          rw empty (record { linked = ground arith; tail = ground arith })
    ]
  ];
  usage = λ k p h. ground arith;
}

-- Process 3 runs.
abbrev running : Sched
running = record { lists = lists; current_kpid = 3; sched_touched = false; ru_nivcsw = λ k. 0 }

scheduler-next_example :
    let qs₁ = requeued 3 false 20 queues in
    let (result, s') = scheduler false running in
    let (kpid, qs') = next (first_priority_level 3 false lists) (λ j. 20) qs₁ in
    (s'.current_kpid ≡ kpid)
    × AreQueues (s'.lists) qs'
    × (s'.sched_touched ≡ false)
    × (result ≡ (if kpid == 0 then pos 0 else if kpid == 3 then negsuc 0 else pos kpid))
unfolding requeued
scheduler-next_example =
    scheduler-next running queues (λ j. 20) false lists-queues (λ j. ground arith)
      (inr (4 ∷ [], refl, omega arith, omega arith)) (omega arith) (λ k h. omega arith)

-- Process 4 is next.
four_next : (scheduler false running).0 ≡ pos 4
unfolding scheduler find_head first_priority_level requeue new_schedulable_process
    delete_schedulable_process less_usage
four_next = refl

abbrev user : ℕ → ℕ → Scheduled
user kpid pid = record { kpid = kpid; pid = pid; pgrp = 7; ruid = 500 }

sys_getpriority-esrch_example :
    (sys_getpriority prio_pgrp 7 (user 3 30) (user 3 30 ∷ user 4 31 ∷ []) entries ≡ err esrch)
    × (sys_getpriority prio_user 7 (user 3 30) (user 3 30 ∷ user 4 31 ∷ []) entries ≡ err esrch)
sys_getpriority-esrch_example =
    sys_getpriority-esrch 7 (user 3 30) (user 3 30 ∷ user 4 31 ∷ []) entries
