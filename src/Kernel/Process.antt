-- ===== src/Kernel/Process.antt =====
-- kernel/process.c: process ids, user and group ids, sessions.
pub mod Privilege
pub mod Pid
use os_thix.Prelude.{
  ℕ, zero, suc, ◌+◌, ◌%◌, ◌^◌, Bool, true, false, not, ◌&&◌, ◌||◌, Option, none, some, List, [],
  ◌∷◌, ◌==◌, ltb, if◌then◌else◌, Result, ok, err, Errno, eperm, enosys,
}
use os_thix.Kernel.Tss.{Credentials, Identity, superuser}

-- `++latest_pid`, back to 2 above 32767
unfoldable pub next_pid : ℕ → ℕ
next_pid latest = if ltb 32767 (suc latest) then 1 + 1 else suc latest

-- Whether a process has the number as its process id, process group or session.
unfoldable pub pid_used : ℕ → List Identity → Bool
pid_used n [] = false
pid_used n (p ∷ ps) = (n == p.pid) || (n == p.pgrp) || (n == p.session) || pid_used n ps

-- `find_unused_pid` over the processes from FIRST on; `goto retry` takes fuel, and `none` is that
-- it ran out. The result is the new `latest_pid`.
unfoldable pub find_unused_pid : ℕ → List Identity → ℕ → Option ℕ
unfolding pid_used next_pid
find_unused_pid zero ps latest = none
find_unused_pid (suc fuel) ps latest = elim (pid_used (next_pid latest) ps) [
  | true ↦ find_unused_pid fuel ps (next_pid latest)
  | false ↦ some (next_pid latest)
]

unfoldable pub sys_getpid : Identity → ℕ
sys_getpid i = i.pid

unfoldable pub sys_getppid : Identity → ℕ
sys_getppid i = i.ppid

unfoldable pub sys_getpgrp : Identity → ℕ
sys_getpgrp i = i.pgrp

unfoldable pub sys_getuid : Credentials → ℕ
sys_getuid c = c.ruid

unfoldable pub sys_getgid : Credentials → ℕ
sys_getgid c = c.rgid

unfoldable pub sys_geteuid : Credentials → ℕ
sys_geteuid c = c.euid

unfoldable pub sys_getegid : Credentials → ℕ
sys_getegid c = c.egid

-- A store into a `__uid_t` or `__gid_t`, an `unsigned short`.
abbrev pub short : ℕ → ℕ
short n = n % 2 ^ 16

-- `sys_setuid`; the `int` is a number below 2 ^ 32.
unfoldable pub sys_setuid : ℕ → Credentials → Result Credentials
sys_setuid uid c =
    if superuser c
    then ok (record c { ruid = short uid; euid = short uid; suid = short uid })
    else if (c.ruid == uid) || (c.suid == uid)
    then ok (record c { euid = short uid })
    else err eperm

unfoldable pub sys_setgid : ℕ → Credentials → Result Credentials
sys_setgid gid c =
    if superuser c
    then ok (record c { rgid = short gid; egid = short gid; sgid = short gid })
    else if (c.rgid == gid) || (c.sgid == gid)
    then ok (record c { egid = short gid })
    else err eperm

-- The new session's process group and the identity.
unfoldable pub sys_setsid : Identity → Result (ℕ × Identity)
sys_setsid i =
    if i.leader
    then err eperm
    else ok (i.pid, record i { leader = true; session = i.pid; pgrp = i.pid; ctty = 0 })

unfoldable pub sys_setpgid : ℕ → ℕ → Identity → Result Identity
sys_setpgid pid pgid i = err enosys
