-- ===== src/Fs/Inode/Disk.antt =====
-- fs/inode.c: the superblock's lock for inodes, and how `i_alloc` and `i_free` take and return the number
-- of an inode on the disk. A routine that finds the lock taken goes to sleep, which ends its run here.
use os_thix.Prelude.{
  ℕ, suc, ◌+◌, ◌-◌, ◌*◌, ◌/◌, ◌%◌, Bool, true, false, not, Option, none, some, if◌then◌else◌, Run,
  done, asleep, panic, ◌>>=◌,
}
use os_thix.Fs.Bitmap.{get_bitmap_resource, release_bitmap_resource}
use os_thix.Fs.Cluster.{Superblock, FileSystem, inodes}
use os_thix.Fs.Block.{refill, ensure_cluster}

-- One round of the loop of `sb_i_lock`: the lock is taken, or the caller marks its demand and goes to
-- sleep (`false`).
unfoldable pub sb_i_lock : Superblock → Bool × Superblock
sb_i_lock sb =
    if sb.s_ilock
    then (false, record sb { s_i_in_demand = true })
    else (true, record sb { s_ilock = true })

-- The flag of the result is whether the sleepers on the lock are woken up.
unfoldable pub sb_i_unlock : Superblock → Bool × Superblock
sb_i_unlock sb = (sb.s_i_in_demand, record sb { s_ilock = false; s_i_in_demand = false })

unlock_i : FileSystem → FileSystem
unfolding sb_i_unlock
unlock_i fs = record fs { sb = (sb_i_unlock fs.sb).1 }

-- The part of `i_alloc` between the search and the unlocking, at the current cluster. Without a current
-- cluster the source would compute with -1.
unfoldable pub take_inode : FileSystem → Run (ℕ × FileSystem)
take_inode fs = elim fs.mp.icluster [
  | none ↦ panic
  | some c ↦ elim (get_bitmap_resource fs.mp.ibitmap (fs.sb.s_icluster / 8)) [
    | none ↦ panic
    | some (i, bitmap) ↦ done (
      c * fs.sb.s_icluster + i,
      record fs {
        mp = record (fs.mp) { ibitmap = bitmap; icount = fs.mp.icount - 1 };
        sb = record (fs.sb) { s_ifree = fs.sb.s_ifree - 1; s_fmod = true };
      },
    )
  ]
]

-- `i_alloc` up to its call of `i_get`: the number on the disk, or `none` where the file system has no
-- inode left.
unfoldable pub alloc_dinode : FileSystem → Run (Option ℕ × FileSystem)
unfolding sb_i_lock take_inode refill unlock_i
alloc_dinode fs =
    let (locked, sb) = sb_i_lock fs.sb in
    if not locked then asleep else do
      (found, fs₁) ← refill (record fs { sb = sb }) inodes fs.mp.icount
      if not found
          then done (none, unlock_i fs₁)
          else do (dinode, fs₂) ← take_inode fs₁; done (some dinode, unlock_i fs₂)

unfoldable pub i_free : FileSystem → ℕ → Run FileSystem
unfolding sb_i_lock ensure_cluster unlock_i
i_free fs dinode =
    let (locked, sb) = sb_i_lock fs.sb in
    if not locked then asleep else do
      fs' ← ensure_cluster (record fs { sb = sb }) inodes fs.mp.icluster (dinode / sb.s_icluster)
      done (
          unlock_i (record fs' {
            mp = record (fs'.mp) {
              ibitmap = release_bitmap_resource fs'.mp.ibitmap (dinode % fs'.sb.s_icluster);
              icount = suc (fs'.mp.icount);
            };
            sb = record (fs'.sb) { s_ifree = suc (fs'.sb.s_ifree); s_fmod = true };
          }))
