-- ===== src/Fs/Block.antt =====
-- fs/block.c: the superblock's lock, `b_alloc` and `b_free`. A routine that finds the lock taken
-- goes to sleep, which ends its run here.
pub mod Alloc
use os_thix.Prelude.{
  ℕ, zero, suc, ◌+◌, ◌-◌, ◌*◌, ◌/◌, ◌%◌, Bool, true, false, ◌&&◌, not, Option, none, some, List,
  ◌==◌, if◌then◌else◌, replicate, update, Run, done, asleep, panic, ◌>>=◌,
}
use os_thix.Fs.Bitmap.{get_bitmap_resource, release_bitmap_resource}
use os_thix.Fs.Cluster.{
  Superblock, MountPoint, FileSystem, BitmapType, inodes, blocks, cluster_data_blocks,
  cluster_to_fs, fs_to_cluster, cluster_of_block, search_cluster, switch_cluster, get_buffer,
  with_buffer,
}

-- One round of the loop of `sb_f_lock`: the lock is taken, or the caller marks its demand and
-- goes to sleep (`false`).
unfoldable pub sb_f_lock : Superblock → Bool × Superblock
sb_f_lock sb =
    if sb.s_flock
    then (false, record sb { s_f_in_demand = true })
    else (true, record sb { s_flock = true })

-- The flag of the result is whether the sleepers on the lock are woken up.
unfoldable pub sb_f_unlock : Superblock → Bool × Superblock
sb_f_unlock sb = (sb.s_f_in_demand, record sb { s_flock = false; s_f_in_demand = false })

-- Whether `icluster` or `bcluster` is the given cluster.
unfoldable pub is_cluster : Option ℕ → ℕ → Bool
is_cluster none c = false
is_cluster (some d) c = c == d

-- `search_cluster` where the current bitmap is used up; otherwise nothing to do.
unfoldable pub refill : FileSystem → BitmapType → ℕ → Run (Bool × FileSystem)
refill fs type count = if count == 0 then search_cluster fs type else done (true, fs)

-- The part of `b_alloc` between the search and the unlocking, at the current cluster. Without a
-- current cluster the source would compute with -1.
unfoldable pub take_block : FileSystem → Run (ℕ × FileSystem)
take_block fs = elim fs.mp.bcluster [
  | none ↦ panic
  | some c ↦ elim (get_bitmap_resource fs.mp.bbitmap (cluster_data_blocks fs.sb c / 8)) [
    | none ↦ panic
    | some (b, bitmap) ↦ done (
      cluster_to_fs fs.sb c b,
      record fs {
        mp = record (fs.mp) { bbitmap = bitmap; bcount = fs.mp.bcount - 1 };
        sb = record (fs.sb) { s_bfree = fs.sb.s_bfree - 1; s_fmod = true };
      },
    )
  ]
]

unlock_f : FileSystem → FileSystem
unfolding sb_f_unlock
unlock_f fs = record fs { sb = (sb_f_unlock fs.sb).1 }

-- `buf_get` of the new block, and `lmemset`: the memory is cleared, and the buffer is left busy, and
-- valid only if it was.
unfoldable pub clear_block : FileSystem → ℕ → Run FileSystem
unfolding get_buffer
clear_block fs b = do
  (buffer, fs₁) ← get_buffer fs b
  done (with_buffer fs₁ b (record buffer { words = replicate (fs.sb.s_blksz / 4) 0 }))

-- `b_alloc`: the block of the buffer, 0 where there is none.
unfoldable pub b_alloc : FileSystem → Run (ℕ × FileSystem)
unfolding sb_f_lock refill take_block clear_block unlock_f
b_alloc fs =
    let (locked, sb) = sb_f_lock fs.sb in
    if not locked then asleep else do
      (found, fs₁) ← refill (record fs { sb = sb }) blocks fs.mp.bcount
      if not found
          then done (0, unlock_f fs₁)
          else do (b, fs₂) ← take_block fs₁; fs₃ ← clear_block (unlock_f fs₂) b; done (b, fs₃)

-- Bring the bitmap of a cluster into memory, unless it is there.
unfoldable pub ensure_cluster : FileSystem → BitmapType → Option ℕ → ℕ → Run FileSystem
ensure_cluster fs type current cluster =
    if is_cluster current cluster
    then done fs
    else do r ← switch_cluster fs cluster type true; done r.1

-- A buffer of the block that the cache holds is no longer valid.
unfoldable pub invalidate : FileSystem → ℕ → FileSystem
invalidate fs b = elim (fs.cache b) [
  | none ↦ fs
  | some buffer ↦ with_buffer fs b (record buffer { valid = false })
]

unfoldable pub b_free : FileSystem → ℕ → Run FileSystem
unfolding sb_f_lock ensure_cluster unlock_f is_cluster invalidate
b_free fs block =
    let (locked, sb) = sb_f_lock fs.sb in
    if not locked then asleep else do
      fs' ←
          ensure_cluster (record fs { sb = sb }) blocks fs.mp.bcluster
            (cluster_of_block fs.sb block)
      let fs'' = invalidate fs' block in
          done (
            unlock_f (record fs'' {
              mp = record (fs'.mp) {
                bbitmap = release_bitmap_resource fs'.mp.bbitmap (fs_to_cluster fs'.sb block);
                bcount = suc (fs'.mp.bcount);
              };
              sb = record (fs'.sb) { s_bfree = suc (fs'.sb.s_bfree); s_fmod = true };
            }))
