-- ===== src/Kernel/Tests/Sleepers.antt =====
-- Sleeping processes and semaphores on small cases.
use os_thix.Prelude.{
  ℕ, ◌≡◌, refl, true, false, List, [], ◌∷◌, has, ◌==◌, if◌then◌else◌, update, eq-cases, inl, inr,
  arith, ne→==, some,
}
use os_thix.Word.{test_bit}
use os_thix.Kernel.Tss.{Tss, sleeping, running}
use os_thix.Kernel.Signal.{woken}
use os_thix.Kernel.Run.{RunLists}
use os_thix.Kernel.Sleep.{SleepTable, awake, wakeup, wakeup_process, wakeup_and_kill}
use os_thix.Kernel.Sleep.Table.{Linked, IsSleepTable, enqueue_all}
use os_thix.Kernel.Sleep.Refine.{wakeup-IsSleepTable}
use os_thix.Kernel.Sleep.One.{wakeup_process-IsSleepTable}
use os_thix.Kernel.Sleep.Lost.{wakeup_and_kill-lost}
use os_thix.Kernel.Semaphore.{down, up}
use os_thix.Kernel.Semaphore.Region.{
  Region, Reach, start, enters, leaves, entered, exited, Guarded, Reach-Guarded,
}

abbrev nobody : RunLists
nobody = record {
  sched_head = λ p. 0;
  sched_tail = λ p. 0;
  sched_data = λ k. record { next = 0; priority = 20; cpu_usage = 20 };
}

abbrev process : ℕ → Tss
process a = record {
  cred = record { ruid = 0; euid = 0; suid = 0; rgid = 0; egid = 0; sgid = 0 };
  ids = record { pid = 10; ppid = 1; pgrp = 10; session = 10; leader = false; ctty = 0 };
  sig = record {
    sigpending = 0;
    sigblocked = 0;
    sigoldmask = 0;
    sigactions = λ n. record { sa_handler = 0; sa_mask = 0; sa_flags = 0 };
  };
  status = if a == 0 then running else sleeping;
  wakeup_priority = 40;
  sleep_address = a;
  children = 0;
  ru_nsignals = 0;
}

-- The processes 3 and 5 sleep on the address 1000, and process 4 on the address 1067, which is in
-- the same bucket, 62.
abbrev slept_on : ℕ → ℕ
slept_on k = if k == 3 then 1000 else if k == 4 then 1067 else if k == 5 then 1000 else 0

abbrev three : SleepTable
three = record {
  sleep_hash = λ i. if i == 62 then 3 else 0;
  address = slept_on;
  next = λ k. if k == 3 then 4 else if k == 4 then 5 else 0;
  u_area = λ k. process (slept_on k);
  old_cpu_usage = λ k. 0;
  lists = nobody;
  sched_touched = false;
}

abbrev buckets : List ℕ → ℕ → List ℕ
buckets ks i = if i == 62 then ks else []

three-IsSleepTable : IsSleepTable three (buckets (3 ∷ 4 ∷ 5 ∷ []))
unfolding Linked
three-IsSleepTable = record {
  linked =
      λ i. elim (eq-cases i 62) [ inl e ↦ rw e (ground arith) | inr ne ↦ rw (ne→== i 62 ne) refl ];
  hashed = λ i k h. ground (arith, h);
}

wakeup-IsSleepTable_example :
    IsSleepTable (wakeup 1000 three) (update (buckets (3 ∷ 4 ∷ 5 ∷ [])) 62 (4 ∷ []))
    × ((k : ℕ)
        → (wakeup 1000 three).u_area k
          ≡ (if has k (3 ∷ 5 ∷ []) then awake (three.u_area k) else three.u_area k))
    × ((wakeup 1000 three).lists ≡ enqueue_all (three.u_area) (3 ∷ 5 ∷ []) nobody)
wakeup-IsSleepTable_example =
    wakeup-IsSleepTable 1000 three (buckets (3 ∷ 4 ∷ 5 ∷ [])) three-IsSleepTable (omega arith)

wakeup_process-IsSleepTable_example :
    (s' : SleepTable) × (wakeup_process 5 three ≡ some s')
    × IsSleepTable s' (update (buckets (3 ∷ 4 ∷ 5 ∷ [])) 62 (3 ∷ 4 ∷ []))
    × ((k : ℕ) → s'.u_area k ≡ (if k == 5 then woken (three.u_area k) else three.u_area k))
    × (s'.lists ≡ enqueue_all (three.u_area) (5 ∷ []) nobody)
wakeup_process-IsSleepTable_example =
    wakeup_process-IsSleepTable 5 three (buckets (3 ∷ 4 ∷ 5 ∷ [])) three-IsSleepTable refl refl
      (omega arith)

-- Process 3 alone sleeps.
abbrev lone : SleepTable
lone = record three { next = λ k. 0 }

lone-IsSleepTable : IsSleepTable lone (buckets (3 ∷ []))
unfolding Linked
lone-IsSleepTable = record {
  linked =
      λ i. elim (eq-cases i 62) [ inl e ↦ rw e (ground arith) | inr ne ↦ rw (ne→== i 62 ne) refl ];
  hashed = λ i k h. ground (arith, h);
}

wakeup_and_kill-lost_example :
    (s' : SleepTable) × (wakeup_and_kill 1000 13 lone ≡ some s')
    × ((s'.u_area 3).sig.sigpending ≡ 0)
    × (test_bit ((s'.u_area 0).sig.sigpending) 13 ≡ true)
wakeup_and_kill-lost_example =
    wakeup_and_kill-lost 1000 13 3 lone (buckets (3 ∷ [])) lone-IsSleepTable refl refl
      (omega arith, refl)

-- A semaphore of value 1: process 7 enters, process 8 sleeps, process 7 leaves.
abbrev free : Region
free = record { value = 1; inside = 0; table = three; queues = buckets (3 ∷ 4 ∷ 5 ∷ []) }

abbrev contended : Region
contended = exited 2000 53 (entered 2000 53 8 (entered 2000 53 7 free))

contended-Reach : Reach 2000 53 1 contended
unfolding down
contended-Reach =
    leaves
      (enters 8
        (enters 7 (start three (buckets (3 ∷ 4 ∷ 5 ∷ [])) three-IsSleepTable refl) (omega arith)
          (λ i. ground arith))
        (omega arith) (λ i. ground arith))
      (omega arith) (omega arith)

Reach-Guarded_example : Guarded 2000 53 1 contended
Reach-Guarded_example = Reach-Guarded 2000 53 1 contended contended-Reach

-- Process 8 has taken the place of process 7.
handed_over :
    (contended.value ≡ 0) × (contended.inside ≡ 1) × ((contended.table.u_area 8).status ≡ running)
unfolding down up
handed_over = (refl, refl, refl)
