-- ===== src/Kernel/Sleep.antt =====
-- kernel/sleep.c: the hash table of sleeping processes, going to sleep and waking up.
pub mod Table
pub mod Wake
pub mod Loops
pub mod Refine
pub mod One
pub mod Lost
use os_thix.Prelude.{
  ℕ, zero, suc, ◌+◌, ◌-◌, ◌%◌, Bool, true, false, not, ◌&&◌, ◌||◌, Option, none, some, ◌==◌, ltb,
  if◌then◌else◌, update,
}
use os_thix.Word.{test_bit, set_bit, andn_word}
use os_thix.Kernel.Tss.{Tss, Signals, Status, running, sleeping}
use os_thix.Kernel.Signal.{nsig, sigchld, sig_dfl, sig_ign, u_threshold_priority, is_asleep, woken}
use os_thix.Kernel.Run.{
  RunLists, new_schedulable_process, delete_schedulable_process, restore_schedulable_process,
}

abbrev pub sleep_buckets : ℕ
sleep_buckets = 67

-- `SYSTEM_PROCESS_MAX`: no bucket holds more processes, so the walks take this much fuel.
abbrev pub sleepers : ℕ
sleepers = 64

-- `sleep_hash`, the two fields of the entries of `sleep_vect`, and what the routines change
-- elsewhere: the processes, `old_cpu_usage` of each, the lists of runnable processes and
-- `sched_touched`.
pub record SleepTable : Type 0 where
  pub sleep_hash : ℕ → ℕ
  pub address : ℕ → ℕ
  pub next : ℕ → ℕ
  pub u_area : ℕ → Tss
  pub old_cpu_usage : ℕ → ℕ
  pub lists : RunLists
  pub sched_touched : Bool

-- What the variable `proc` points to: `sleep_hash[i]`, or `sleep_vect[k].next`.
pub data Link : Type 0 where
  bucket : ℕ → Link
  behind : ℕ → Link

-- `*proc`
abbrev pub link_value : SleepTable → Link → ℕ
link_value s (bucket i) = s.sleep_hash i
link_value s (behind k) = s.next k

-- `*proc = v`
abbrev pub set_link : SleepTable → Link → ℕ → SleepTable
set_link s proc v = record s {
  sleep_hash = elim proc [ bucket i ↦ update (s.sleep_hash) i v | behind k ↦ s.sleep_hash ];
  next = elim proc [ bucket i ↦ s.next | behind k ↦ update (s.next) k v ];
}

-- `u_area[k].status = PROCESS_RUNNING`
abbrev pub awake : Tss → Tss
awake p = record p { status = running }

-- The body of the loops at a process `k` that is to be woken up: it changes as `f` says, goes to
-- the list of its priority and leaves the chain of sleepers.
unfoldable pub rouse : (Tss → Tss) → Link → ℕ → SleepTable → SleepTable
rouse f proc k s =
    set_link
      (record s {
        u_area = update (s.u_area) k (f (s.u_area k));
        lists = new_schedulable_process k ((s.u_area k).wakeup_priority) (s.lists);
        sched_touched = true;
      })
      proc (s.next k)

-- The loop of `wakeup`.
unfoldable pub wakeup_from : ℕ → ℕ → Link → SleepTable → SleepTable
unfolding rouse
wakeup_from zero a proc s = s
wakeup_from (suc fuel) a proc s =
    let k = link_value s proc in
    let hit = wakeup_from fuel a proc (rouse awake proc k s) in
    let miss = wakeup_from fuel a (behind k) s in
    if k == 0 then s else if s.address k == a then hit else miss

unfoldable pub wakeup : ℕ → SleepTable → SleepTable
unfolding wakeup_from
wakeup a s = wakeup_from sleepers a (bucket (a % sleep_buckets)) s

-- The loop of `wakeup_one_process`: whether a process was woken up, and the table.
unfoldable pub wakeup_one_from : ℕ → ℕ → Link → SleepTable → Bool × SleepTable
unfolding rouse
wakeup_one_from zero a proc s = (false, s)
wakeup_one_from (suc fuel) a proc s =
    let k = link_value s proc in
    let miss = wakeup_one_from fuel a (behind k) s in
    if k == 0 then (false, s) else if s.address k == a then (true, rouse awake proc k s) else miss

unfoldable pub wakeup_one_process : ℕ → SleepTable → Bool × SleepTable
unfolding wakeup_one_from
wakeup_one_process a s = wakeup_one_from sleepers a (bucket (a % sleep_buckets)) s

-- The loop of `wakeup_process`; `none` is the panic at the end.
unfoldable pub wakeup_process_from : ℕ → ℕ → Link → SleepTable → Option SleepTable
unfolding rouse
wakeup_process_from zero kpid proc s = none
wakeup_process_from (suc fuel) kpid proc s =
    let k = link_value s proc in
    let miss = wakeup_process_from fuel kpid (behind k) s in
    if k == 0
    then none
    else if (k == kpid) && (s.address k == (s.u_area kpid).sleep_address)
    then some (rouse woken proc k s)
    else miss

unfoldable pub wakeup_process : ℕ → SleepTable → Option SleepTable
unfolding wakeup_process_from
wakeup_process kpid s =
    wakeup_process_from sleepers kpid (bucket ((s.u_area kpid).sleep_address % sleep_buckets)) s

-- `kill_kpid` with the wake-up in the table; `none` is a panic, also that of the swapper (1).
unfoldable pub send_signal : ℕ → ℕ → SleepTable → Option SleepTable
unfolding wakeup_process
send_signal kpid signum s =
    let p = s.u_area kpid in
    let s' = record s {
      u_area = update (s.u_area) kpid (record p {
        sig = record (p.sig) { sigpending = set_bit (p.sig.sigpending) signum };
        ru_nsignals = suc (p.ru_nsignals);
      });
    } in
    if kpid == 1
    then none
    else if ((p.sig.sigactions signum).sa_handler == sig_ign) && not (signum == sigchld)
    then some s
    else if is_asleep (p.status) && ltb (p.wakeup_priority) u_threshold_priority
    then wakeup_process kpid s'
    else some s'

-- The loop of `wakeup_and_kill`; `none` is a panic.
unfoldable pub wakeup_and_kill_from : ℕ → ℕ → ℕ → Link → SleepTable → Option SleepTable
unfolding rouse send_signal
wakeup_and_kill_from zero a signum proc s = some s
wakeup_and_kill_from (suc fuel) a signum proc s =
    let k = link_value s proc in
    let s' = rouse awake proc k s in
    let miss = wakeup_and_kill_from fuel a signum (behind k) s in
    if k == 0
    then some s
    else if s.address k == a
    then elim (send_signal (link_value s' proc) signum s') [
      | none ↦ none
      | some s'' ↦ wakeup_and_kill_from fuel a signum proc s''
    ]
    else miss

unfoldable pub wakeup_and_kill : ℕ → ℕ → SleepTable → Option SleepTable
unfolding wakeup_and_kill_from
wakeup_and_kill a signum s = wakeup_and_kill_from sleepers a signum (bucket (a % sleep_buckets)) s

-- The part of `sleep` from the test for signals to `reschedule`.
unfoldable pub fall_asleep : ℕ → ℕ → ℕ → SleepTable → SleepTable
fall_asleep a wakeup_priority current_kpid s =
    let index = a % sleep_buckets in
    let p = s.u_area current_kpid in
    record s {
      sleep_hash = update (s.sleep_hash) index current_kpid;
      address = update (s.address) current_kpid a;
      next = update (s.next) current_kpid (s.sleep_hash index);
      u_area =
          update (s.u_area) current_kpid
            (record p { sleep_address = a; status = sleeping; wakeup_priority = wakeup_priority });
      old_cpu_usage =
          update (s.old_cpu_usage) current_kpid ((s.lists.sched_data current_kpid).cpu_usage);
      lists = delete_schedulable_process current_kpid (s.lists);
    }

-- The part of `sleep` after `reschedule`; the flag is whether `sleep` returns 0, which it does
-- unless `wakeup_process` woke the process up.
unfoldable pub wake_again : ℕ → SleepTable → Bool × SleepTable
wake_again current_kpid s = (
  not ((s.u_area current_kpid).sleep_address == 0),
  record s {
    lists =
        restore_schedulable_process current_kpid (s.old_cpu_usage current_kpid)
          (delete_schedulable_process current_kpid (s.lists));
  },
)
