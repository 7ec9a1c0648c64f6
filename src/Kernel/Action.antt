-- ===== src/Kernel/Action.antt =====
-- kernel/signal.c: the calls on a process's signal masks and actions.
pub mod Mask
use os_thix.Prelude.{
  ℕ, zero, suc, ◌+◌, ◌%◌, ◌^◌, Bool, true, false, not, ◌&&◌, ◌||◌, Option, none, some, List, [],
  ◌∷◌, ◌==◌, ltb, leb, if◌then◌else◌, update, Result, ok, err, Errno, eperm, esrch, einval, efault,
  ℤ, pos, negsuc, Pointer, user_null, bad_area, area,
}
use os_thix.Word.{test_bit, set_bit, and_word, or_word, andn_word}
use os_thix.Kernel.Tss.{
  Tss, Status, Signals, SigAction, Credentials, superuser, unused, running, stopped, zombie,
  sleeping,
}
use os_thix.Kernel.Signal.{
  nsig, sigkill, sigchld, sig_dfl, sig_ign, sig_blockable, Proc, is_zombie, kill_kpid,
}

unfoldable pub sys_sigend : Signals → Signals
sys_sigend s = record s { sigblocked = s.sigoldmask }

-- `sys_sigpending`: the value of `*set`. `writable` is what `ok_to_write_area` says.
unfoldable pub sys_sigpending : Bool → Signals → Result ℕ
unfolding and_word
sys_sigpending writable s =
    if writable then ok (and_word (s.sigpending) (s.sigblocked)) else err efault

-- `SIG_BLOCK`, `SIG_UNBLOCK`, `SIG_SETMASK` and any other number
pub data How : Type 0 where
  sig_block sig_unblock sig_setmask sig_other : How

-- The `switch` of `sys_sigprocmask`, for the mask `*set`.
unfoldable pub change_mask : How → ℕ → Signals → Result Signals
unfolding and_word or_word andn_word
change_mask sig_block set s =
    ok (record s { sigblocked = or_word (s.sigblocked) (and_word set sig_blockable) })
change_mask sig_unblock set s =
    ok (record s { sigblocked = andn_word (s.sigblocked) (and_word set sig_blockable) })
change_mask sig_setmask set s = ok (record s { sigblocked = and_word set sig_blockable })
change_mask sig_other set s = err einval

-- `sys_sigprocmask` from the check of `set` on.
unfoldable pub use_mask : How → Pointer ℕ → Signals → Result Signals
unfolding change_mask
use_mask how user_null s = ok s
use_mask how bad_area s = err efault
use_mask how (area set) s = change_mask how set s

-- `sys_sigprocmask`: what it stores through `old_set`, if it does, and its result.
unfoldable pub sys_sigprocmask :
    How → Pointer ℕ → Pointer (Unit {0}) → Signals → Option ℕ × Result Signals
unfolding use_mask
sys_sigprocmask how set user_null s = (none, use_mask how set s)
sys_sigprocmask how set bad_area s = (none, err efault)
sys_sigprocmask how set (area u) s = (some (s.sigblocked), use_mask how set s)

-- The new action of `sys_sigaction`. `handler_readable` is what the check of the handler's address
-- says.
unfoldable pub install : ℕ → SigAction → Bool → Tss → Result Tss
unfolding test_bit
install signum action handler_readable p =
    if not (test_bit sig_blockable signum) && not (action.sa_handler == sig_dfl)
    then err einval
    else if handler_readable
    then ok
        (record p { sig = record (p.sig) { sigactions = update (p.sig.sigactions) signum action } })
    else err efault

-- Whether one of the processes from INIT on is a zombie.
unfoldable pub any_zombie : List Proc → Bool
any_zombie [] = false
any_zombie (p ∷ ps) = is_zombie (p.tss.status) || any_zombie ps

-- The end of `sys_sigaction`: what it stores through `old_action`, and the process.
unfoldable pub report_action :
    ℕ → Pointer (Unit {0}) → List Proc → Tss → Option SigAction × Result Tss
unfolding kill_kpid any_zombie
report_action signum old_action ps p =
    let p' = if (signum == sigchld) && any_zombie ps then kill_kpid sigchld p else p in
    elim old_action [
      | area u ↦ (some (p.sig.sigactions signum), ok p')
      | user_null ↦ (none, ok p')
      | bad_area ↦ (none, err efault)
    ]

-- `sys_sigaction` once the two areas are checked.
unfoldable pub set_action :
    ℕ
    → Pointer SigAction
    → Bool
    → Pointer (Unit {0})
    → List Proc
    → Tss
    → Option SigAction × Result Tss
unfolding install report_action
set_action signum user_null handler_readable old_action ps p = report_action signum old_action ps p
set_action signum bad_area handler_readable old_action ps p = (none, err efault)
set_action signum (area action) handler_readable old_action ps p =
    elim (install signum action handler_readable p) [
      | ok p' ↦ report_action signum old_action ps p'
      | err e ↦ (none, err e)
    ]

-- `sys_sigaction`, for a `signum` that is not negative: what it stores through `old_action`, and
-- the calling process. `ps` are the processes from INIT on.
unfoldable pub sys_sigaction :
    ℕ
    → Pointer SigAction
    → Bool
    → Pointer (Unit {0})
    → List Proc
    → Tss
    → Option SigAction × Result Tss
unfolding set_action
sys_sigaction signum action handler_readable old_action ps p =
    if (signum == 0) || leb nsig signum then (none, err einval) else elim old_action [
      | bad_area ↦ (none, err efault)
      | user_null ↦ set_action signum action handler_readable user_null ps p
      | area u ↦ set_action signum action handler_readable (area u) ps p
    ]
