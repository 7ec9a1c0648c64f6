-- ===== src/Kernel/Priority.antt =====
-- kernel/sched.c: the calls that read and set the base priorities of processes.
pub mod Calls
use os_thix.Prelude.{
  ℕ, zero, suc, ◌+◌, ◌-◌, ◌%◌, min, Bool, true, false, not, ◌&&◌, ◌||◌, Option, none, some, List,
  [], ◌∷◌, ◌==◌, ltb, leb, if◌then◌else◌, update, Result, ok, err, Errno, esrch, einval, eacces, ℤ,
  pos, negsuc, ltb_ℤ,
}
use os_thix.Kernel.Run.{SchedStruct}

-- What the priority calls read of a process.
pub record Scheduled : Type 0 where
  pub kpid : ℕ
  pub pid : ℕ
  pub pgrp : ℕ
  pub ruid : ℕ

-- `PRIO_PROCESS`, `PRIO_PGRP`, `PRIO_USER` and any other number
pub data Target : Type 0 where
  prio_process prio_pgrp prio_user prio_other : Target

-- The processes that a call is about.
unfoldable pub selects : Target → ℕ → Scheduled → Bool
selects prio_process who p = p.pid == who
selects prio_pgrp who p = p.pgrp == who
selects prio_user who p = p.ruid == who
selects prio_other who p = false

-- `if (who == 0) who = …`, for the current process
unfoldable pub default_who : Target → ℕ → Scheduled → ℕ
default_who which who current =
    if who == 0
    then elim which [
      | prio_process ↦ current.pid
      | prio_pgrp ↦ current.pgrp
      | prio_user ↦ current.ruid
      | prio_other ↦ who
    ]
    else who

-- The loops of `sys_getpriority` over a group or a user's processes.
unfoldable pub min_priority : Target → ℕ → (ℕ → SchedStruct) → List Scheduled → ℕ → ℕ
min_priority which who d [] max_priority = max_priority
min_priority which who d (p ∷ ps) max_priority =
    min_priority which who d ps
      (if selects which who p then min max_priority ((d (p.kpid)).priority) else max_priority)

-- The loop of `sys_getpriority` over the processes, for a process id.
unfoldable pub priority_of : ℕ → (ℕ → SchedStruct) → List Scheduled → Result ℕ
priority_of who d [] = err esrch
priority_of who d (p ∷ ps) = elim (p.pid == who) [
  | true ↦ ok ((d (p.kpid)).priority)
  | false ↦ priority_of who d ps
]

-- `max_priority ? max_priority : -ESRCH`
abbrev pub found_priority : ℕ → Result ℕ
found_priority n = if n == 0 then err esrch else ok n

-- `sys_getpriority`, over the processes from SWAPPER on.
unfoldable pub sys_getpriority :
    Target → ℕ → Scheduled → List Scheduled → (ℕ → SchedStruct) → Result ℕ
unfolding min_priority priority_of default_who
sys_getpriority prio_process who current ps d =
    if who == 0 then ok ((d (current.kpid)).priority) else priority_of who d ps
sys_getpriority prio_pgrp who current ps d =
    found_priority (min_priority prio_pgrp (default_who prio_pgrp who current) d ps 0)
sys_getpriority prio_user who current ps d =
    found_priority (min_priority prio_user (default_who prio_user who current) d ps 0)
sys_getpriority prio_other who current ps d = err einval

-- `20 - priority`, once the priority is between PRIO_MIN (-19) and PRIO_MAX (19)
unfoldable pub base_priority : ℤ → ℕ
base_priority (pos n) = 20 - min n 19
base_priority (negsuc n) = 20 + min (suc n) 19

-- `sched_data[kpid].priority = b`
abbrev pub set_priority : (ℕ → SchedStruct) → ℕ → ℕ → ℕ → SchedStruct
set_priority d kpid b = update d kpid (record (d kpid) { priority = b })

-- The loop of `sys_setpriority` over the processes of a group or a user, and `found`.
unfoldable pub set_all :
    Target → ℕ → ℕ → List Scheduled → (ℕ → SchedStruct) → Bool × (ℕ → SchedStruct)
set_all which who b [] d = (false, d)
set_all which who b (p ∷ ps) d =
    let hit = set_all which who b ps (set_priority d (p.kpid) b) in
    let miss = set_all which who b ps d in if selects which who p then (true, hit.1) else miss

-- The loop of `sys_setpriority` over the processes, for a process id.
unfoldable pub set_first : ℕ → ℕ → List Scheduled → (ℕ → SchedStruct) → Result (ℕ → SchedStruct)
set_first who b [] d = err esrch
set_first who b (p ∷ ps) d = elim (p.pid == who) [
  | true ↦ ok (set_priority d (p.kpid) b)
  | false ↦ set_first who b ps d
]

-- `found ? 0 : -ESRCH`
abbrev pub if_found : Bool × (ℕ → SchedStruct) → Result (ℕ → SchedStruct)
if_found (found, d) = if found then ok d else err esrch

-- `sys_setpriority` once the rights are checked, over the processes from INIT on: the new entries.
unfoldable pub set_target :
    Target → ℕ → ℕ → Scheduled → List Scheduled → (ℕ → SchedStruct) → Result (ℕ → SchedStruct)
unfolding set_all set_first default_who
set_target prio_process who b current ps d =
    if who == 0 then ok (set_priority d (current.kpid) b) else set_first who b ps d
set_target prio_pgrp who b current ps d =
    if_found (set_all prio_pgrp (default_who prio_pgrp who current) b ps d)
set_target prio_user who b current ps d =
    if_found (set_all prio_user (default_who prio_user who current) b ps d)
set_target prio_other who b current ps d = err einval

-- A success sets `sched_touched`.
abbrev pub touched : Result (ℕ → SchedStruct) → Result ((ℕ → SchedStruct) × Bool)
touched (ok d) = ok (d, true)
touched (err e) = err e

-- `sys_setpriority`, over the processes from INIT on: the new entries and `sched_touched`, which a
-- failure leaves as they are.
unfoldable pub sys_setpriority :
    Target
    → ℕ
    → ℤ
    → Bool
    → Scheduled
    → List Scheduled
    → (ℕ → SchedStruct)
    → Result ((ℕ → SchedStruct) × Bool)
unfolding set_target base_priority
sys_setpriority which who priority is_superuser current ps d =
    if ltb_ℤ priority (pos 0) && not is_superuser
    then err eacces
    else touched (set_target which who (base_priority priority) current ps d)
