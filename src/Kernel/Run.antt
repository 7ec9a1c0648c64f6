-- ===== src/Kernel/Run.antt =====
-- kernel/sched.c: the lists of runnable processes, one for each priority, and the scheduler.
pub mod Queue
pub mod Refine
pub mod Drain
pub mod Schedule
use os_thix.Prelude.{
  ℕ, zero, suc, ◌+◌, ◌-◌, ◌%◌, min, Bool, true, false, not, ◌&&◌, ◌||◌, Option, none, some, List,
  [], ◌∷◌, ◌==◌, ltb, leb, if◌then◌else◌, update, Result, ok, err, Errno, esrch, einval, eacces, ℤ,
  pos, negsuc, ltb_ℤ,
}

abbrev pub max_priority_level : ℕ
max_priority_level = 55

-- `sched_struct`; `prev` is not used. A `next` of 0 ends a list.
pub record SchedStruct : Type 0 where
  pub next : ℕ
  pub priority : ℕ
  pub cpu_usage : ℕ

-- `sched_head`, `sched_tail` and `sched_data`
pub record RunLists : Type 0 where
  pub sched_head : ℕ → ℕ
  pub sched_tail : ℕ → ℕ
  pub sched_data : ℕ → SchedStruct

-- `sched_data[kpid].cpu_usage = c; sched_data[kpid].next = n`
abbrev pub set_entry : (ℕ → SchedStruct) → ℕ → ℕ → ℕ → ℕ → SchedStruct
set_entry d kpid c n = update d kpid (record (d kpid) { cpu_usage = c; next = n })

unfoldable pub new_schedulable_process : ℕ → ℕ → RunLists → RunLists
new_schedulable_process kpid priority s =
    let d = set_entry (s.sched_data) kpid priority 0 in
    let tail = s.sched_tail priority in
    if s.sched_head priority == 0
    then record {
      sched_head = update (s.sched_head) priority kpid;
      sched_tail = update (s.sched_tail) priority kpid;
      sched_data = d;
    }
    else record {
      sched_head = s.sched_head;
      sched_tail = update (s.sched_tail) priority kpid;
      sched_data = update d tail (record (d tail) { next = kpid });
    }

-- `delete_schedulable_process`, without its result
unfoldable pub delete_schedulable_process : ℕ → RunLists → RunLists
delete_schedulable_process kpid s =
    let current_priority = (s.sched_data kpid).cpu_usage in
    let next = (s.sched_data kpid).next in
    record s {
      sched_head = update (s.sched_head) current_priority next;
      sched_tail = if next == 0 then update (s.sched_tail) current_priority 0 else s.sched_tail;
    }

unfoldable pub restore_schedulable_process : ℕ → ℕ → RunLists → RunLists
restore_schedulable_process kpid priority s = record {
  sched_head = update (s.sched_head) priority kpid;
  sched_tail =
      if s.sched_tail priority == 0 then update (s.sched_tail) priority kpid else s.sched_tail;
  sched_data = set_entry (s.sched_data) kpid priority (s.sched_head priority);
}

-- The loop of `scheduler` over the priorities, from the given one down to 1.
unfoldable pub find_head : ℕ → (ℕ → ℕ) → Option ℕ
find_head zero head = none
find_head (suc p) head = elim (head (suc p) == 0) [
  | true ↦ find_head p head
  | false ↦ some (head (suc p))
]

-- The loop that gives the processes at priority 0 their base priority back. Each turn takes one
-- off the list, so the number of processes is enough fuel.
unfoldable pub refill : ℕ → RunLists → RunLists
refill zero s = s
refill (suc fuel) s =
    let kpid = s.sched_head 0 in
    let rest = refill fuel (
      new_schedulable_process kpid ((s.sched_data kpid).priority)
        (delete_schedulable_process kpid s)) in
    if kpid == 0 then s else rest

-- `--sched_data[kpid].cpu_usage`, an `unsigned char`
unfoldable pub less_usage : ℕ → ℕ
less_usage c = (c + 255) % 256

-- The start of `scheduler`: the process that ran goes to the end of the next lower list, unless
-- it sleeps or has exited (`IDLE` is 0).
unfoldable pub requeue : ℕ → Bool → RunLists → RunLists
requeue current_kpid is_asleep s =
    if (current_kpid == 0) || is_asleep
    then s
    else new_schedulable_process current_kpid (less_usage ((s.sched_data current_kpid).cpu_usage))
        (delete_schedulable_process current_kpid s)

-- `first_priority_level`
unfoldable pub first_priority_level : ℕ → Bool → RunLists → ℕ
first_priority_level current_kpid sched_touched s =
    if (current_kpid == 0) || sched_touched
    then max_priority_level
    else (s.sched_data current_kpid).cpu_usage

-- The body of `scheduler` up to the label `found`: the process to run next, and the lists.
unfoldable pub choose : ℕ → Bool → Bool → RunLists → ℕ × RunLists
choose current_kpid sched_touched is_asleep s =
    let s₁ = requeue current_kpid is_asleep s in
    let s₂ = refill 64 s₁ in
    elim (find_head (first_priority_level current_kpid sched_touched s) (s₁.sched_head)) [
      | some kpid ↦ (kpid, s₁)
      | none ↦ elim (find_head max_priority_level (s₂.sched_head)) [
        | some kpid ↦ (kpid, s₂)
        | none ↦ (0, s₂)
      ]
    ]

-- The variables that `scheduler` works on: the lists, `current_kpid`, `sched_touched` and the
-- `ru_nivcsw` of each process.
pub record Sched : Type 0 where
  pub lists : RunLists
  pub current_kpid : ℕ
  pub sched_touched : Bool
  pub ru_nivcsw : ℕ → ℕ

-- `scheduler` from the label `found` on, for the process `kpid`: the result, and the variables.
-- IDLE (0) is found only where `old_kpid` is set to -1. The flags of the process's TSS descriptor
-- are left out.
unfoldable pub switch_to : ℕ → RunLists → Sched → ℤ × Sched
switch_to kpid lists s =
    let old = s.current_kpid in
    let s' : Sched = record s { lists = lists; current_kpid = kpid; sched_touched = false } in
    if kpid == 0
    then (pos 0, s')
    else if kpid == old
    then (negsuc 0, s')
    else (pos kpid, record s' { ru_nivcsw = update (s.ru_nivcsw) old (suc (s.ru_nivcsw old)) })

-- `scheduler`; `is_asleep` is whether the status of the current process is PROCESS_ASLEEP.
unfoldable pub scheduler : Bool → Sched → ℤ × Sched
unfolding choose switch_to
scheduler is_asleep s =
    let chosen = choose (s.current_kpid) (s.sched_touched) is_asleep (s.lists) in
    switch_to chosen.0 chosen.1 s
