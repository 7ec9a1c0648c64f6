-- ===== src/Prelude/Tables.antt =====
-- The kernel's fixed tables, arrays indexed by small numbers, as functions with an update.
use Prim.Native.Nat.{ℕ}
use os_thix.Prelude.Tests.{◌==◌, if◌then◌else◌}

module _ {ℓ} {A : Type ℓ} where
  -- `t[i] = v`
  abbrev pub update : (ℕ → A) → ℕ → A → ℕ → A
  update t i v j = if i == j then v else t j

-- The error numbers of include/thix/errno.h that the modelled calls return. A call that returns
-- `-EPERM` returns `err eperm` here.
pub data Errno : Type 0 where
  eperm esrch eintr eio eagain efault einval enfile emfile espipe enosys echild enotty epipe enospc
        enoent enametoolong eacces :
      Errno

pub data Result {ℓ} (A : Type ℓ) : Type ℓ where
  ok : A → Result A
  err : Errno → Result A

-- An address that a process hands to the kernel: `USER_NULL`, one that the check of its area
-- refuses, or one of an area with these contents.
pub data Pointer {ℓ} (A : Type ℓ) : Type ℓ where
  user_null : Pointer A
  bad_area : Pointer A
  area : A → Pointer A
