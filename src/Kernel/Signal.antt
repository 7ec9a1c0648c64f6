-- ===== src/Kernel/Signal.antt =====
-- kernel/signal.c: sending signals.
pub mod Kill
use os_thix.Prelude.{
  ℕ, zero, suc, ◌+◌, ◌%◌, ◌^◌, Bool, true, false, not, ◌&&◌, ◌||◌, Option, none, some, List, [],
  ◌∷◌, ◌==◌, ltb, leb, if◌then◌else◌, update, Result, ok, err, Errno, eperm, esrch, einval, efault,
  ℤ, pos, negsuc, Pointer, user_null, bad_area, area,
}
use os_thix.Word.{test_bit, set_bit, and_word, or_word, andn_word}
use os_thix.Kernel.Tss.{
  Tss, Status, Signals, SigAction, Credentials, superuser, unused, running, stopped, zombie,
  sleeping,
}

abbrev pub nsig : ℕ
nsig = 32

abbrev pub sigkill : ℕ
sigkill = 9

abbrev pub sigchld : ℕ
sigchld = 18

-- `SIG_DFL` and `SIG_IGN`
abbrev pub sig_dfl : ℕ
sig_dfl = 0

abbrev pub sig_ign : ℕ
sig_ign = 1

-- A priority from here on is not interruptible.
abbrev pub u_threshold_priority : ℕ
u_threshold_priority = 48

-- `SIG_BLOCKABLE`: all but SIGKILL (9) and SIGSTOP (23)
abbrev pub sig_blockable : ℕ
sig_blockable = 4286578175

-- A process of the process list, with its kernel process id.
pub record Proc : Type 0 where
  pub kpid : ℕ
  pub tss : Tss

abbrev pub is_zombie : Status → Bool
is_zombie zombie = true
is_zombie unused = false
is_zombie running = false
is_zombie stopped = false
is_zombie sleeping = false

abbrev pub is_asleep : Status → Bool
is_asleep sleeping = true
is_asleep unused = false
is_asleep running = false
is_asleep stopped = false
is_asleep zombie = false

-- What `wakeup_process` does to the process itself; Kernel/Sleep has the chain of sleepers and the
-- list of runnable processes that it also changes.
abbrev pub woken : Tss → Tss
woken p = record p { status = running; sleep_address = 0 }

-- `kill_kpid`, for a process other than the swapper.
unfoldable pub kill_kpid : ℕ → Tss → Tss
unfolding set_bit
kill_kpid signum p =
    let sent = record p {
      sig = record (p.sig) { sigpending = set_bit (p.sig.sigpending) signum };
      ru_nsignals = suc (p.ru_nsignals);
    } in
    if ((p.sig.sigactions signum).sa_handler == sig_ign) && not (signum == sigchld)
    then p
    else if is_asleep (p.status) && ltb (p.wakeup_priority) u_threshold_priority
    then woken sent
    else sent

-- `can_kill_kpid`
unfoldable pub can_kill_kpid : Credentials → Tss → Bool
can_kill_kpid me p = superuser me || (me.euid == p.cred.euid) || (me.ruid == p.cred.ruid)

-- The process with the signal sent to it.
abbrev pub kill_proc : ℕ → Proc → Proc
kill_proc signum p = record p { tss = kill_kpid signum (p.tss) }

-- `kill_pid`: the error, if there is one, and the processes afterwards.
unfoldable pub kill_pid : ℕ → ℕ → Credentials → List Proc → Option Errno × List Proc
unfolding can_kill_kpid kill_kpid
kill_pid pid signum me [] = (some esrch, [])
kill_pid pid signum me (p ∷ ps) =
    let rest = kill_pid pid signum me ps in
    if not (is_zombie (p.tss.status)) && (p.tss.ids.pid == pid)
    then if can_kill_kpid me (p.tss) then (none, kill_proc signum p ∷ ps) else (some eperm, p ∷ ps)
    else (rest.0, p ∷ rest.1)

-- The loop of `kill_pgrp`, with `found`: it ends with EPERM at the first process of the group that
-- the caller may not signal.
unfoldable pub kill_group :
    ℕ → ℕ → Bool → ℕ → Credentials → Bool → List Proc → Option Errno × List Proc
unfolding can_kill_kpid kill_kpid
kill_group pgrp signum kill_the_sender current me found [] =
    (if found then none else some esrch, [])
kill_group pgrp signum kill_the_sender current me found (p ∷ ps) =
    let skipped = kill_group pgrp signum kill_the_sender current me found ps in
    let sent = kill_group pgrp signum kill_the_sender current me true ps in
    if not (is_zombie (p.tss.status)) && (p.tss.ids.pgrp == pgrp)
    then if (p.kpid == current) && not kill_the_sender
      then (skipped.0, p ∷ skipped.1)
      else if can_kill_kpid me (p.tss)
      then (sent.0, kill_proc signum p ∷ sent.1)
      else (some eperm, p ∷ ps)
    else (skipped.0, p ∷ skipped.1)

unfoldable pub kill_pgrp : ℕ → ℕ → Bool → ℕ → Credentials → List Proc → Option Errno × List Proc
unfolding kill_group
kill_pgrp pgrp signum kill_the_sender current me ps =
    kill_group pgrp signum kill_the_sender current me false ps

unfoldable pub kill_all : ℕ → Credentials → List Proc → List Proc
unfolding kill_kpid
kill_all signum me [] = []
kill_all signum me (p ∷ ps) =
    let rest = kill_all signum me ps in
    if not (is_zombie (p.tss.status)) && (superuser me || (p.tss.cred.euid == me.euid))
    then kill_proc signum p ∷ rest
    else p ∷ rest

unfoldable pub search_pid : ℕ → List Proc → Option Errno
search_pid pid [] = some esrch
search_pid pid (p ∷ ps) = elim (p.tss.ids.pid == pid) [ true ↦ none | false ↦ search_pid pid ps ]

-- A result about the processes after INIT, with INIT put back in front.
abbrev pub behind_init : Proc → Option Errno × List Proc → Option Errno × List Proc
behind_init init (e, ps) = (e, init ∷ ps)

-- `sys_kill`, for a `signum` that is not negative; `ps` are the processes from FIRST on, which come
-- after INIT in the process list. A negative number of at least 2 names a process group.
unfoldable pub sys_kill : ℤ → ℕ → Proc → Proc → List Proc → Option Errno × List Proc
sys_kill (pos pid) signum current init ps =
    let me = current.tss.cred in
    if signum == 0
    then (search_pid pid (init ∷ ps), init ∷ ps)
    else if leb nsig signum
    then (some einval, init ∷ ps)
    else if (pid == 1) && (signum == sigkill)
    then (some eperm, init ∷ ps)
    else if pid == 0
    then behind_init init (kill_pgrp (current.tss.ids.pgrp) signum false (current.kpid) me ps)
    else kill_pid pid signum me (init ∷ ps)
sys_kill (negsuc n) signum current init ps =
    let me = current.tss.cred in
    if signum == 0
    then (some esrch, init ∷ ps)
    else if leb nsig signum
    then (some einval, init ∷ ps)
    else if n == 0
    then (none, init ∷ kill_all signum me ps)
    else behind_init init (kill_pgrp (suc n) signum true (current.kpid) me ps)
