-- ===== src/Fs/Block/Alloc.antt =====
-- `b_alloc` and `b_free` of fs/block.c while the cluster's bitmap is in memory.
use os_thix.Prelude.{
  ℕ, suc, ◌+◌, ◌-◌, ◌/◌, ◌<◌, ◌≤◌, ◌≡◌, ◌≢◌, refl, true, false, none, some, List, ◌==◌,
  if◌then◌else◌, arith, Option, length, take, replicate, update, done,
}
use os_thix.Fs.Bitmap.{get_bitmap_resource, release_bitmap_resource, is_free}
use os_thix.Fs.Bitmap.Count.{AllWords, free_count}
use os_thix.Fs.Bitmap.Alloc.{
  Allocated, get_bitmap_resource-Allocated, get_bitmap_resource-some, quarter,
}
use os_thix.Fs.Cluster.{
  FileSystem, cluster_data_blocks, cluster_to_fs, fs_to_cluster, cluster_of_block, reserved_blocks,
  BlockBuffer, is_idle, busy_buffer,
}
use os_thix.Fs.Cluster.Geometry.{cluster_to_fs_inverse}
use os_thix.Fs.Block.{b_alloc, b_free}

-- The bitmap in memory is that of cluster `c`, counted right, and the cluster's blocks fit it.
pub record IsHeld (fs : FileSystem) (c : ℕ) : Type 0 where
  pub current : fs.mp.bcluster ≡ some c
  pub words : AllWords fs.mp.bbitmap
  pub room : cluster_data_blocks fs.sb c / 32 ≤ length fs.mp.bbitmap
  pub count : fs.mp.bcount ≡ free_count (take (cluster_data_blocks fs.sb c / 32) fs.mp.bbitmap)
  pub fits : reserved_blocks fs.sb + cluster_data_blocks fs.sb c ≤ fs.sb.s_bpcluster

-- The buffer that `b_alloc` returns for a block that had this one: 256 words are 1024 bytes.
abbrev pub cleared : Option BlockBuffer → BlockBuffer
cleared old = record (busy_buffer old) { words = replicate 256 0 }

-- The state that `b_alloc` leaves when it has taken block `b` of cluster `c`.
abbrev pub with_allocated : FileSystem → ℕ → ℕ → List ℕ → FileSystem
with_allocated fs c b after = record fs {
  mp = record (fs.mp) { bbitmap = after; bcount = fs.mp.bcount - 1 };
  sb = record (fs.sb) {
    s_bfree = fs.sb.s_bfree - 1;
    s_fmod = true;
    s_flock = false;
    s_f_in_demand = false;
  };
  cache =
      update fs.cache (cluster_to_fs fs.sb c b)
        (some (cleared (fs.cache (cluster_to_fs fs.sb c b))));
}

b_alloc-done :
    (fs : FileSystem) (c b : ℕ) (after : List ℕ)
    → fs.mp.bcluster ≡ some c
    → fs.sb.s_flock ≡ false
    → fs.mp.bcount ≢ 0
    → fs.sb.s_blksz ≡ 1024
    → is_idle (fs.cache (cluster_to_fs fs.sb c b)) ≡ true
    → get_bitmap_resource fs.mp.bbitmap (cluster_data_blocks fs.sb c / 8) ≡ some (b, after)
    → b_alloc fs ≡ done (cluster_to_fs fs.sb c b, with_allocated fs c b after)
unfolding b_alloc cluster_data_blocks cluster_to_fs
b_alloc-done fs c b after e unlocked ne kilobyte idle got = ground arith

-- What `b_alloc` has done when it returns data block `b` of cluster `c` and the state `fs'`.
pub record BlockAllocated (fs : FileSystem) (c b : ℕ) (fs' : FileSystem) : Type 0 where
  pub in_cluster : b / 32 < cluster_data_blocks fs.sb c / 32
  pub was_free : is_free fs.mp.bbitmap b ≡ true
  pub bits :
      (j : ℕ) → is_free fs'.mp.bbitmap j ≡ (if b == j then false else is_free fs.mp.bbitmap j)
  pub held : IsHeld fs' c
  pub count : suc (fs'.mp.bcount) ≡ fs.mp.bcount
  pub zeroed :
      (buffer : BlockBuffer) × (fs'.cache (cluster_to_fs fs.sb c b) ≡ some buffer)
      × (buffer.words ≡ replicate 256 0)
      × (buffer.busy ≡ true)
  pub kept : (k : ℕ) → k ≢ cluster_to_fs fs.sb c b → fs'.cache k ≡ fs.cache k

counted :
    (fs : FileSystem) (c b : ℕ) (after : List ℕ)
    → IsHeld fs c
    → fs.mp.bcount ≢ 0
    → Allocated fs.mp.bbitmap (cluster_data_blocks fs.sb c / 8) b after
    → fs.mp.bcount - 1 ≡ free_count (take (cluster_data_blocks fs.sb c / 32) after)
counted fs c b after held ne a =
    omega (arith, held.count, rw (quarter (cluster_data_blocks fs.sb c)) at (a.count))

busy_cleared : (old : Option BlockBuffer) → (cleared old).busy ≡ true
busy_cleared none = refl
busy_cleared (some buffer) = refl

with_allocated-BlockAllocated :
    (fs : FileSystem) (c b : ℕ) (after : List ℕ)
    → IsHeld fs c
    → fs.mp.bcount ≢ 0
    → Allocated fs.mp.bbitmap (cluster_data_blocks fs.sb c / 8) b after
    → BlockAllocated fs c b (with_allocated fs c b after)
unfolding cluster_data_blocks reserved_blocks
with_allocated-BlockAllocated fs c b after held ne a = record {
  in_cluster = omega (arith, a.in_range);
  was_free = a.was_free;
  bits = a.others;
  held = record {
    current = held.current;
    words = a.words;
    room = omega (arith, a.size, held.room);
    count = counted fs c b after held ne a;
    fits = held.fits;
  };
  count = omega arith;
  zeroed = (
    cleared (fs.cache (cluster_to_fs fs.sb c b)),
    ground arith,
    refl,
    busy_cleared (fs.cache (cluster_to_fs fs.sb c b)),
  );
  kept = λ k h. ground arith;
}

-- The state that `b_free` leaves when it has returned block `b` of the current cluster, whose buffer is
-- `old`.
abbrev pub with_freed : FileSystem → ℕ → ℕ → BlockBuffer → FileSystem
with_freed fs block b old = record fs {
  mp = record (fs.mp) {
    bbitmap = release_bitmap_resource fs.mp.bbitmap b;
    bcount = suc (fs.mp.bcount);
  };
  cache = update fs.cache block (some (record old { valid = false }));
  sb = record (fs.sb) {
    s_bfree = suc (fs.sb.s_bfree);
    s_fmod = true;
    s_flock = false;
    s_f_in_demand = false;
  };
}

b_free-done :
    (fs : FileSystem) (c b block : ℕ) (old : BlockBuffer)
    → fs.mp.bcluster ≡ some c
    → fs.sb.s_flock ≡ false
    → cluster_of_block fs.sb block ≡ c
    → fs_to_cluster fs.sb block ≡ b
    → fs.cache block ≡ some old
    → b_free fs block ≡ done (with_freed fs block b old)
unfolding b_free fs_to_cluster
b_free-done fs c b block old e unlocked cluster place held = ground arith

-- On a file system with blocks of 1024 bytes, while the bitmap of the current cluster counts a free block, nobody
-- holds the lock and no block of the cluster has a busy buffer, `b_alloc` returns a block of that cluster that was
-- free: it is taken off the bitmap, the count goes down by one, its buffer is busy and its memory is
-- cleared, and no other buffer changes; `b_free` of that block then restores the bitmap and the count, and
-- its buffer is not valid.
pub b_alloc-b_free :
    (fs : FileSystem) (c : ℕ)
    → IsHeld fs c
    → fs.sb.s_flock ≡ false
    → fs.mp.bcount ≢ 0
    → fs.sb.s_blksz ≡ 1024
    → ((b : ℕ) → is_idle (fs.cache (cluster_to_fs fs.sb c b)) ≡ true)
    → (b : ℕ) × (fs' : FileSystem) × (fs'' : FileSystem) × (b_alloc fs
        ≡ done (cluster_to_fs fs.sb c b, fs'))
      × BlockAllocated fs c b fs'
      × (b_free fs' (cluster_to_fs fs.sb c b) ≡ done fs'')
      × (fs''.mp ≡ fs.mp)
      × ((buffer : BlockBuffer) × (fs''.cache (cluster_to_fs fs.sb c b) ≡ some buffer)
          × (buffer.valid ≡ false))
unfolding cluster_of_block fs_to_cluster cluster_to_fs
b_alloc-b_free fs c held unlocked ne kilobyte idle =
    let (b, after, got) =
      get_bitmap_resource-some fs.mp.bbitmap (cluster_data_blocks fs.sb c)
        (omega (arith, held.count, ne)) in
    let a =
      get_bitmap_resource-Allocated fs.mp.bbitmap (cluster_data_blocks fs.sb c / 8) held.words
        got in
    let block = cluster_to_fs fs.sb c b in
    let fs' = with_allocated fs c b after in
    let inverse = cluster_to_fs_inverse fs.sb c b (omega (arith, a.in_range, held.fits)) in
    let allocated = with_allocated-BlockAllocated fs c b after held ne a in
    let freed : BlockBuffer = record (allocated.zeroed.0) { valid = false } in
    (
      b,
      fs',
      with_freed fs' block b (allocated.zeroed.0),
      b_alloc-done fs c b after held.current unlocked ne kilobyte (idle b) got,
      allocated,
      b_free-done fs' c b block (allocated.zeroed.0) held.current refl inverse.0 inverse.1
          (allocated.zeroed.1),
      ground (arith, a.undone),
      (freed, ground arith, refl),
    )
