-- ===== src/Kernel/Tests/Signals.antt =====
-- Signals on small cases.
use os_thix.Prelude.{
  ℕ, ◌≡◌, refl, true, false, some, none, List, [], ◌∷◌, update, arith, area, user_null, pos, eperm,
}
use os_thix.Word.{test_bit}
use os_thix.Kernel.Tss.{Signals, SigAction, Tss, running}
use os_thix.Kernel.Signal.{Proc, kill_pgrp, kill_pid, sys_kill, kill_proc}
use os_thix.Kernel.Action.{sys_sigprocmask, sys_sigaction, sig_block}
use os_thix.Kernel.Action.Mask.{
  masked, blockable, sys_sigprocmask-masked, IsKillable, sys_sigaction-IsKillable,
}
use os_thix.Kernel.Signal.Kill.{Sent, sys_kill-Sent}

abbrev no_signals : Signals
no_signals = record {
  sigpending = 0;
  sigblocked = 0;
  sigoldmask = 0;
  sigactions = λ n. record { sa_handler = 0; sa_mask = 0; sa_flags = 0 };
}

-- A process of a user, with its process id as its process group.
abbrev process : ℕ → ℕ → ℕ → Proc
process kpid pid uid = record {
  kpid = kpid;
  tss = record {
    cred = record { ruid = uid; euid = uid; suid = uid; rgid = 0; egid = 0; sgid = 0 };
    ids = record { pid = pid; ppid = 1; pgrp = pid; session = 1; leader = false; ctty = 0 };
    sig = no_signals;
    status = running;
    wakeup_priority = 0;
    sleep_address = 0;
    children = 0;
    ru_nsignals = 0;
  };
}

abbrev init : Proc
init = process 2 1 0

abbrev users : List Proc
users = process 3 10 500 ∷ process 4 11 501 ∷ []

group_killed :
    kill_pgrp 10 15 true 3 ((process 3 10 500).tss.cred) users
    ≡ (none, kill_proc 15 (process 3 10 500) ∷ process 4 11 501 ∷ [])
unfolding kill_pgrp
group_killed = refl

sys_kill-Sent_example :
    Sent 15
      ((process 3 10 500).tss.cred)
      (init ∷ users)
      (sys_kill (pos 11) 15 (process 3 10 500) init users).1
sys_kill-Sent_example = sys_kill-Sent (pos 11) 15 (process 3 10 500) init users

other_user : (sys_kill (pos 11) 15 (process 3 10 500) init users).0 ≡ some eperm
unfolding sys_kill kill_pid
other_user = refl

-- Blocking the signals 9 and 15 blocks 15.
abbrev blocked : Signals
blocked = record no_signals { sigblocked = 32768 }

sys_sigprocmask-masked_example :
    (some 0 ≡ some (no_signals.sigblocked))
    × (test_bit (blocked.sigblocked) 15
        ≡ masked sig_block (blockable 15) (test_bit (no_signals.sigblocked) 15) (test_bit 33280 15))
    × (blocked.sigpending ≡ no_signals.sigpending)
    × (blocked.sigoldmask ≡ no_signals.sigoldmask)
    × (blocked.sigactions ≡ no_signals.sigactions)
unfolding sys_sigprocmask
sys_sigprocmask-masked_example =
    sys_sigprocmask-masked sig_block 33280 15 no_signals blocked (some 0) (omega arith) refl

abbrev handler : SigAction
handler = record { sa_handler = 4096; sa_mask = 0; sa_flags = 0 }

abbrev user : Tss
user = (process 3 10 500).tss

abbrev catching : Tss
catching = record user {
  sig = record no_signals { sigactions = update (no_signals.sigactions) 15 handler };
}

sys_sigaction-IsKillable_example : IsKillable catching
unfolding sys_sigaction
sys_sigaction-IsKillable_example =
    sys_sigaction-IsKillable 15 (area handler) true user_null (init ∷ users) user catching none
      (omega arith) refl
