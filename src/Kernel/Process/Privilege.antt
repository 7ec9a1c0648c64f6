-- ===== src/Kernel/Process/Privilege.antt =====
-- What `setuid` and `setgid` of kernel/process.c let a process become.
use os_thix.Prelude.{ℕ, ◌<◌, ◌^◌, ◌≡◌, ◌≢◌, List, [], ◌∷◌, Result, ok, err, arith}
use os_thix.Kernel.Tss.{Credentials}
use os_thix.Kernel.Process.{short, sys_setuid, sys_setgid, sys_geteuid}

-- The calls `setuid` and `setgid` of a process.
pub data IdCall : Type 0 where
  setuid setgid : ℕ → IdCall

-- A call that fails changes nothing.
abbrev pub after_call : Credentials → Result Credentials → Credentials
after_call c (ok c') = c'
after_call c (err e) = c

-- A process's calls in order.
unfoldable pub run_calls : List IdCall → Credentials → Credentials
run_calls [] c = c
run_calls (setuid uid ∷ calls) c = run_calls calls (after_call c (sys_setuid uid c))
run_calls (setgid gid ∷ calls) c = run_calls calls (after_call c (sys_setgid gid c))

-- The three user ids are `uid`.
pub record HasOnly (uid : ℕ) (c : Credentials) : Type 0 where
  pub real : c.ruid ≡ uid
  pub effective : c.euid ≡ uid
  pub saved : c.suid ≡ uid

sys_setuid-HasOnly :
    (uid v : ℕ) (c : Credentials)
    → uid ≢ 0
    → uid < 2 ^ 16
    → HasOnly uid c
    → HasOnly uid (after_call c (sys_setuid v c))
unfolding sys_setuid
sys_setuid-HasOnly uid v c ne small h = ground arith

sys_setgid-HasOnly :
    (uid g : ℕ) (c : Credentials)
    → uid ≢ 0
    → HasOnly uid c
    → HasOnly uid (after_call c (sys_setgid g c))
unfolding sys_setgid
sys_setgid-HasOnly uid g c ne h = ground arith

run_calls-HasOnly :
    (calls : List IdCall) (uid : ℕ) (c : Credentials)
    → uid ≢ 0
    → uid < 2 ^ 16
    → HasOnly uid c
    → HasOnly uid (run_calls calls c)
unfolding run_calls
run_calls-HasOnly [] uid c ne small h = h
run_calls-HasOnly (setuid v ∷ calls) uid c ne small h =
    run_calls-HasOnly calls uid _ ne small (sys_setuid-HasOnly uid v c ne small h)
run_calls-HasOnly (setgid g ∷ calls) uid c ne small h =
    run_calls-HasOnly calls uid _ ne small (sys_setgid-HasOnly uid g c ne h)

-- Once the superuser has called `setuid` with an id whose low 16 bits are not all 0, no sequence of
-- `setuid` and `setgid` calls gives the process another real, effective or saved user id than these
-- 16 bits.
pub setuid_drops_privilege :
    (uid : ℕ) (c : Credentials) (calls : List IdCall)
    → c.euid ≡ 0
    → short uid ≢ 0
    → HasOnly (short uid) (run_calls (setuid uid ∷ calls) c)
unfolding run_calls sys_setuid
setuid_drops_privilege uid c calls root ne =
    run_calls-HasOnly calls (short uid) (after_call c (sys_setuid uid c)) ne (omega arith)
      (ground arith)

-- A `setuid` of the superuser with a multiple of 65536 succeeds and leaves every right in place.
pub setuid_keeps_root :
    (uid : ℕ) (c : Credentials)
    → c.euid ≡ 0
    → short uid ≡ 0
    → HasOnly 0 (after_call c (sys_setuid uid c))
      × (sys_geteuid (after_call c (sys_setuid uid c)) ≡ 0)
unfolding sys_setuid sys_geteuid
setuid_keeps_root uid c root wraps = (ground arith, ground arith)
