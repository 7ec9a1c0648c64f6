-- ===== src/Fs/Descriptor.antt =====
-- fs/generic.c: the system's and the process's tables of file descriptors, the close-on-exec
-- flags, the count of the blocks of a transfer and the check of file permissions.
pub mod Alloc
pub mod Flags
use os_thix.Prelude.{
  ℕ, zero, suc, ◌+◌, ◌-◌, ◌*◌, ◌/◌, ◌%◌, ◌^◌, min, max, Bool, true, false, not, ◌&&◌, ◌||◌, Option,
  none, some, ◌==◌, leb, if◌then◌else◌, update,
}
use os_thix.Word.{test_bit, set_bit, clear_bit, and_word}
use os_thix.Kernel.Tss.{Credentials}

abbrev pub system_open_max : ℕ
system_open_max = 1024

abbrev pub open_max : ℕ
open_max = 256

-- `fd_struct`
pub record FdStruct : Type 0 where
  pub inode : ℕ
  pub flags : ℕ
  pub count : ℕ
  pub offset : ℕ

-- `fdt` and `ff_fd`
pub record FdTable : Type 0 where
  pub fdt : ℕ → FdStruct
  pub ff_fd : ℕ

-- The first of the next `n` numbers from `k` on that is free.
unfoldable pub scan : (ℕ → Bool) → ℕ → ℕ → Option ℕ
scan free zero k = none
scan free (suc n) k = elim (free k) [ true ↦ some k | false ↦ scan free n (suc k) ]

-- `fdt[fd].count == 0`
abbrev pub fd_free : FdTable → ℕ → Bool
fd_free t fd = (t.fdt fd).count == 0

-- `fdt[fd].count = c` and `ff_fd = f`
abbrev pub with_count : FdTable → ℕ → ℕ → ℕ → FdTable
with_count t fd c f = record {
  fdt = update (t.fdt) fd (record (t.fdt fd) { count = c });
  ff_fd = f;
}

-- `get_fd`, which returns `none` for -1.
unfoldable pub get_fd : FdTable → Option (ℕ × FdTable)
unfolding scan
get_fd t = elim (scan (fd_free t) (system_open_max - t.ff_fd) (t.ff_fd)) [
  | none ↦ none
  | some fd ↦ some (fd, with_count t fd 1 fd)
]

unfoldable pub release_fd : ℕ → FdTable → FdTable
release_fd fd t = with_count t fd 0 (min fd (t.ff_fd))

-- The descriptors of a process: `ufdt`, `ff_ufd` and the words of `close_on_exec`.
pub record UfdTable : Type 0 where
  pub ufdt : ℕ → ℕ
  pub ff_ufd : ℕ
  pub exec_words : ℕ → ℕ

-- `ufdt[ufd] == 0`
abbrev pub ufd_free : UfdTable → ℕ → Bool
ufd_free t ufd = t.ufdt ufd == 0

-- `ufdt[ufd] = v` and `ff_ufd = f`
abbrev pub with_ufd : UfdTable → ℕ → ℕ → ℕ → UfdTable
with_ufd t ufd v f = record t { ufdt = update (t.ufdt) ufd v; ff_ufd = f }

unfoldable pub get_ufd : ℕ → UfdTable → Option (ℕ × UfdTable)
unfolding scan
get_ufd first t =
    elim (scan (ufd_free t) (open_max - max first (t.ff_ufd)) (max first (t.ff_ufd))) [
      | none ↦ none
      | some ufd ↦ some (ufd, with_ufd t ufd 65535 ufd)
    ]

unfoldable pub release_ufd : ℕ → UfdTable → UfdTable
release_ufd ufd t = with_ufd t ufd 0 (min ufd (t.ff_ufd))

unfoldable pub is_close_on_exec : ℕ → UfdTable → Bool
unfolding test_bit
is_close_on_exec ufd t = test_bit (t.exec_words (ufd / 32)) (ufd % 32)

unfoldable pub close_on_exec : ℕ → Bool → UfdTable → UfdTable
unfolding set_bit clear_bit
close_on_exec ufd status t = record t {
  exec_words = update (t.exec_words) (ufd / 32) (
      if status
      then set_bit (t.exec_words (ufd / 32)) (ufd % 32)
      else clear_bit (t.exec_words (ufd / 32)) (ufd % 32));
}

-- The body of `io_blocks`, from its second statement on, for a count that is cut to the file.
unfoldable pub count_io_blocks : ℕ → ℕ → ℕ → ℕ
count_io_blocks offset count blksz =
    if offset / blksz == (offset + count - 1) / blksz
    then 1
    else 1
      + (count - (blksz - offset % blksz)) / blksz
      + (if (count - (blksz - offset % blksz)) % blksz == 0 then 0 else 1)

-- `io_blocks`. At an offset past the file's end, where the source's difference is negative, both
-- give 0.
unfoldable pub io_blocks : ℕ → ℕ → ℕ → ℕ → ℕ
unfolding count_io_blocks
io_blocks offset count fsize blksz =
    let cut = min count (fsize - offset) in
    if (cut == 0) || leb fsize offset then 0 else count_io_blocks offset cut blksz

-- The fields of an in-core inode that `permitted` reads.
pub record InodeAccess : Type 0 where
  pub i_mode : ℕ
  pub i_uid : ℕ
  pub i_gid : ℕ

-- `S_ISREG`
abbrev pub is_regular : ℕ → Bool
is_regular mode = mode / 4096 % 16 == 8

-- The three permission bits for a user and a group, who are not the superuser.
unfoldable pub rights_of : InodeAccess → ℕ → ℕ → ℕ
rights_of i uid gid =
    if uid == i.i_uid
    then i.i_mode / 64 % 8
    else if gid == i.i_gid
    then i.i_mode / 8 % 8
    else i.i_mode % 8

unfoldable pub permitted : InodeAccess → Credentials → ℕ → Bool → Bool
unfolding rights_of test_bit and_word
permitted i c requested_mode ruid_flag =
    let uid = if ruid_flag then c.ruid else c.euid in
    let gid = if ruid_flag then c.rgid else c.egid in
    if uid == 0
    then not (is_regular (i.i_mode) && test_bit requested_mode 0 && (and_word (i.i_mode) 73 == 0))
    else and_word (rights_of i uid gid) requested_mode == requested_mode
