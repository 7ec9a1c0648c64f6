-- ===== src/Kernel/Semaphore.antt =====
-- kernel/semaphore.c: semaphores, which put processes to sleep on their own address.
pub mod Region
use os_thix.Prelude.{ℕ, suc, ◌-◌, Bool, ◌==◌, if◌then◌else◌}
use os_thix.Kernel.Sleep.{SleepTable, fall_asleep, wakeup_one_process}

-- `down` of the semaphore at the address `a`, with this value, by the process `current_kpid`, up to
-- the point where it sleeps: the new value and the table of sleepers. The process that `up` wakes
-- goes on behind the call of `sleep`.
unfoldable pub down : (a wakeup_priority current_kpid value : ℕ) → SleepTable → ℕ × SleepTable
unfolding fall_asleep
down a wakeup_priority current_kpid value s =
    if value == 0 then (value, fall_asleep a wakeup_priority current_kpid s) else (value - 1, s)

-- `up`
unfoldable pub up : (a value : ℕ) → SleepTable → ℕ × SleepTable
unfolding wakeup_one_process
up a value s =
    let (found, s') = wakeup_one_process a s in
    if value == 0 then (if found then (value, s') else (suc value, s')) else (suc value, s)
