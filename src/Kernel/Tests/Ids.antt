-- ===== src/Kernel/Tests/Ids.antt =====
-- Kernel process ids, process ids, user ids and resources, on small cases.
use os_thix.Prelude.{
  ℕ, ◌≡◌, ◌⊎◌, ◌≤◌, refl, true, false, [], ◌∷◌, some, arith, pos, eperm, err, update,
}
use os_thix.Kernel.Tss.{Credentials, Identity}
use os_thix.Kernel.Kpid.{KpidTable, kpid_init, get_kpid, release_kpid}
use os_thix.Kernel.Kpid.Chain.{Holds}
use os_thix.Kernel.Kpid.Get.{Got, get_kpid-Got}
use os_thix.Kernel.Kpid.Release.{release_kpid-Holds}
use os_thix.Kernel.Process.{pid_used, find_unused_pid, short}
use os_thix.Kernel.Process.Pid.{IsFresh, find_unused_pid-IsFresh}
use os_thix.Kernel.Process.Privilege.{HasOnly, setuid, setgid, run_calls, setuid_drops_privilege}
use os_thix.Kernel.Resource.{Rlimit, sys_setrlimit, Rusage, add_rusage}
use os_thix.Kernel.Resource.Limits.{IsLimit, sys_setrlimit-IsLimit}

kpid_init-Holds : Holds kpid_init (1 ∷ 2 ∷ [])
kpid_init-Holds = record {
  links = ground arith;
  nodup = ground arith;
  tail = refl;
  kpids = refl;
  unused = λ k ne h. ground arith;
}

get_kpid-Got_example :
    Got kpid_init (1 ∷ 2 ∷ []) (get_kpid false kpid_init).0 (get_kpid false kpid_init).1
get_kpid-Got_example = get_kpid-Got false kpid_init (1 ∷ 2 ∷ []) kpid_init-Holds

first_kpid : (get_kpid false kpid_init).0 ≡ 3
unfolding get_kpid
first_kpid = refl

-- A table that counts 62 processes.
abbrev crowded : KpidTable
crowded = record kpid_init { kpids = 62 }

release_kpid-Holds_example : Holds (release_kpid kpid_init 1) (2 ∷ [])
release_kpid-Holds_example = release_kpid-Holds kpid_init (1 ∷ 2 ∷ []) 1 kpid_init-Holds refl

abbrev shell : Identity
shell = record { pid = 2; ppid = 1; pgrp = 2; session = 2; leader = true; ctty = 0 }

find_unused_pid-IsFresh_example :
    (n : ℕ) × (find_unused_pid 65535 (shell ∷ []) 1 ≡ some n)
    × IsFresh n (shell ∷ [])
    × (1 ≤ n)
    × (n ≤ 32767)
unfolding pid_used
find_unused_pid-IsFresh_example =
    find_unused_pid-IsFresh 1 3 (shell ∷ []) (omega arith) (omega arith) (omega arith) refl

after_wrap : find_unused_pid 2 (shell ∷ []) 32767 ≡ some 3
unfolding find_unused_pid
after_wrap = refl

abbrev root : Credentials
root = record { ruid = 0; euid = 0; suid = 0; rgid = 0; egid = 0; sgid = 0 }

setuid_drops_privilege_example :
    HasOnly (short 500) (run_calls (setuid 500 ∷ setuid 0 ∷ setgid 0 ∷ []) root)
setuid_drops_privilege_example =
    setuid_drops_privilege 500 root (setuid 0 ∷ setgid 0 ∷ []) refl (omega arith)

abbrev ten : Rlimit
ten = record { rlim_cur = pos 10; rlim_max = pos 10 }

abbrev five : Rlimit
five = record { rlim_cur = pos 5; rlim_max = pos 9 }

abbrev limits : ℕ → Rlimit
limits i = ten

sys_setrlimit-IsLimit_example :
    IsLimit (update limits 1 five 1)
    × ((true ≡ true) ⊎ ((update limits 1 five 1).rlim_max ≡ (limits 1).rlim_max))
unfolding sys_setrlimit
sys_setrlimit-IsLimit_example =
    sys_setrlimit-IsLimit true true (pos 1) five limits refl 1 (omega arith)

-- No process raises its maximum without the superuser's rights.
raise_refused :
    sys_setrlimit true false (pos 1) (record { rlim_cur = pos 5; rlim_max = pos 11 }) limits
    ≡ err eperm
unfolding sys_setrlimit
raise_refused = refl

abbrev usage : Rusage
usage = record {
  ru_utime = record { tv_sec = 1; tv_usec = 600000 };
  ru_stime = record { tv_sec = 0; tv_usec = 10000 };
  ru_maxrss = 0;
  ru_ixrss = 0;
  ru_idrss = 0;
  ru_isrss = 0;
  ru_minflt = 0;
  ru_majflt = 3;
  ru_nswap = 0;
  ru_inblock = 0;
  ru_oublock = 0;
  ru_msgsnd = 0;
  ru_msgrcv = 0;
  ru_nsignals = 1;
  ru_nvcsw = 0;
  ru_nivcsw = 0;
}

carried : (add_rusage usage usage).ru_utime ≡ record { tv_sec = 3; tv_usec = 200000 }
unfolding add_rusage
carried = refl
