-- ===== src/Kernel/Tss.antt =====
-- The fields of a process's `tss_t` (include/thix/vm.h) that the modelled routines use.
use os_thix.Prelude.{ℕ, Bool, ◌==◌}

-- `ruid`, `euid`, `suid` and the same for groups
pub record Credentials : Type 0 where
  pub ruid : ℕ
  pub euid : ℕ
  pub suid : ℕ
  pub rgid : ℕ
  pub egid : ℕ
  pub sgid : ℕ

-- `pid`, `ppid`, `pgrp`, `session`, `leader` and `ctty`
pub record Identity : Type 0 where
  pub pid : ℕ
  pub ppid : ℕ
  pub pgrp : ℕ
  pub session : ℕ
  pub leader : Bool
  pub ctty : ℕ

-- The `PROCESS_…` values of `status`
pub data Status : Type 0 where
  unused running stopped zombie sleeping : Status

-- `struct sigaction`; the handlers `SIG_DFL` and `SIG_IGN` are the addresses 0 and 1.
pub record SigAction : Type 0 where
  pub sa_handler : ℕ
  pub sa_mask : ℕ
  pub sa_flags : ℕ

-- `sigpending`, `sigblocked`, `sigoldmask` and `sigactions`; the masks are 32-bit words.
pub record Signals : Type 0 where
  pub sigpending : ℕ
  pub sigblocked : ℕ
  pub sigoldmask : ℕ
  pub sigactions : ℕ → SigAction

-- A process. `sleep_address` is 0 where the source has NULL.
pub record Tss : Type 0 where
  pub cred : Credentials
  pub ids : Identity
  pub sig : Signals
  pub status : Status
  pub wakeup_priority : ℕ
  pub sleep_address : ℕ
  pub children : ℕ
  pub ru_nsignals : ℕ

-- `superuser()`
abbrev pub superuser : Credentials → Bool
superuser c = c.euid == 0
