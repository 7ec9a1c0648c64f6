-- ===== src/Fs/Inode/Alloc.antt =====
-- The number that `i_alloc` (fs/inode.c) takes for an inode on the disk, and its return by `i_free`.
use os_thix.Prelude.{
  ℕ, suc, ◌+◌, ◌-◌, ◌*◌, ◌/◌, ◌%◌, ◌<◌, ◌≤◌, ◌≡◌, ◌≢◌, refl, true, false, some, List, ◌==◌,
  if◌then◌else◌, arith, length, take, done,
}
use os_thix.Fs.Bitmap.{get_bitmap_resource, release_bitmap_resource, is_free}
use os_thix.Fs.Bitmap.Count.{AllWords, free_count}
use os_thix.Fs.Bitmap.Alloc.{
  Allocated, get_bitmap_resource-Allocated, get_bitmap_resource-some, quarter,
}
use os_thix.Fs.Cluster.{FileSystem}
use os_thix.Fs.Cluster.Geometry.{split_div, split_mod}
use os_thix.Fs.Block.{is_cluster}
use os_thix.Fs.Inode.Disk.{alloc_dinode, i_free}

-- The bitmap of inodes in memory is that of cluster `c`, counted right.
pub record IsHeld (fs : FileSystem) (c : ℕ) : Type 0 where
  pub current : fs.mp.icluster ≡ some c
  pub words : AllWords fs.mp.ibitmap
  pub room : fs.sb.s_icluster / 32 ≤ length fs.mp.ibitmap
  pub count : fs.mp.icount ≡ free_count (take (fs.sb.s_icluster / 32) fs.mp.ibitmap)

-- The state that `alloc_dinode` leaves when it has taken an inode.
abbrev pub with_taken : FileSystem → List ℕ → FileSystem
with_taken fs after = record fs {
  mp = record (fs.mp) { ibitmap = after; icount = fs.mp.icount - 1 };
  sb = record (fs.sb) {
    s_ifree = fs.sb.s_ifree - 1;
    s_fmod = true;
    s_ilock = false;
    s_i_in_demand = false;
  };
}

-- The state that `i_free` leaves when it has returned inode `i` of the current cluster.
abbrev pub with_returned : FileSystem → ℕ → FileSystem
with_returned fs i = record fs {
  mp = record (fs.mp) {
    ibitmap = release_bitmap_resource fs.mp.ibitmap i;
    icount = suc (fs.mp.icount);
  };
  sb = record (fs.sb) {
    s_ifree = suc (fs.sb.s_ifree);
    s_fmod = true;
    s_ilock = false;
    s_i_in_demand = false;
  };
}

alloc_dinode-done :
    (fs : FileSystem) (c i : ℕ) (after : List ℕ)
    → fs.mp.icluster ≡ some c
    → fs.sb.s_ilock ≡ false
    → fs.mp.icount ≢ 0
    → get_bitmap_resource fs.mp.ibitmap (fs.sb.s_icluster / 8) ≡ some (i, after)
    → alloc_dinode fs ≡ done (some (c * fs.sb.s_icluster + i), with_taken fs after)
unfolding alloc_dinode
alloc_dinode-done fs c i after e unlocked ne taken = ground arith

i_free-done :
    (fs : FileSystem) (c i dinode : ℕ)
    → fs.mp.icluster ≡ some c
    → fs.sb.s_ilock ≡ false
    → dinode / fs.sb.s_icluster ≡ c
    → dinode % fs.sb.s_icluster ≡ i
    → i_free fs dinode ≡ done (with_returned fs i)
unfolding i_free is_cluster
i_free-done fs c i dinode e unlocked cluster place = ground arith

-- What has been done when inode `i` of cluster `c` is taken and the state is `fs'`.
pub record InodeTaken (fs : FileSystem) (c i : ℕ) (fs' : FileSystem) : Type 0 where
  pub in_cluster : i < fs.sb.s_icluster
  pub was_free : is_free fs.mp.ibitmap i ≡ true
  pub bits :
      (j : ℕ) → is_free fs'.mp.ibitmap j ≡ (if i == j then false else is_free fs.mp.ibitmap j)
  pub held : IsHeld fs' c
  pub count : suc (fs'.mp.icount) ≡ fs.mp.icount

module _ (fs : FileSystem) (c : ℕ) (held : IsHeld fs c) (some_left : fs.mp.icount ≢ 0) where
  with_taken-InodeTaken :
      (i : ℕ) (after : List ℕ)
      → Allocated fs.mp.ibitmap (fs.sb.s_icluster / 8) i after
      → InodeTaken fs c i (with_taken fs after)
  with_taken-InodeTaken i after a = record {
    in_cluster = omega (arith, a.in_range);
    was_free = a.was_free;
    bits = a.others;
    held = record {
      current = held.current;
      words = a.words;
      room = omega (arith, a.size, held.room);
      count = omega (arith, held.count, rw (quarter (fs.sb.s_icluster)) at (a.count));
    };
    count = omega arith;
  }

-- While the bitmap of inodes of the current cluster counts a free one and nobody holds the lock, `i_alloc` takes
-- the number of an inode of that cluster that was free: it is taken off the bitmap and the count goes
-- down by one; `i_free` of that number then restores the bitmap and the count.
pub alloc_dinode-i_free :
    (fs : FileSystem) (c : ℕ)
    → IsHeld fs c
    → fs.sb.s_ilock ≡ false
    → fs.mp.icount ≢ 0
    → (i : ℕ) × (fs' : FileSystem) × (fs'' : FileSystem) × (alloc_dinode fs
        ≡ done (some (c * fs.sb.s_icluster + i), fs'))
      × InodeTaken fs c i fs'
      × (i_free fs' (c * fs.sb.s_icluster + i) ≡ done fs'')
      × (fs''.mp ≡ fs.mp)
alloc_dinode-i_free fs c held unlocked ne =
    let (i, after, taken) =
      get_bitmap_resource-some fs.mp.ibitmap (fs.sb.s_icluster) (omega (arith, held.count, ne)) in
    let a = get_bitmap_resource-Allocated fs.mp.ibitmap (fs.sb.s_icluster / 8) held.words taken in
    let fs' = with_taken fs after in
    let t = with_taken-InodeTaken fs c held ne i after a in
    (
      i,
      fs',
      with_returned fs' i,
      alloc_dinode-done fs c i after held.current unlocked ne taken,
      t,
      i_free-done fs' c i _ held.current refl (split_div c _ i (t.in_cluster))
          (split_mod c _ i (t.in_cluster)),
      ground (arith, a.undone),
    )
