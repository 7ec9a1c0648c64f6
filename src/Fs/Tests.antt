-- ===== src/Fs/Tests.antt =====
-- Runs of the file system code, and its theorems at concrete inputs.
mod Pipes
mod Buffers
mod Inodes
use os_thix.Prelude.{
  ℕ, ◌+◌, ◌-◌, ◌/◌, ◌<◌, ◌≡◌, refl, inl, true, false, some, none, List, [], ◌∷◌, ◌==◌,
  if◌then◌else◌, min, arith, done, Run, Bool, Option, take,
}
use os_thix.Word.{bsf, clear_bit, popcount}
use os_thix.Fs.Bitmap.{get_bitmap_resource, count_bitmap}
use os_thix.Fs.Bitmap.Count.{free_count, count_bitmap-free_count}
use os_thix.Fs.Bitmap.Alloc.{Allocated, get_bitmap_resource-Allocated}
use os_thix.Fs.Cluster.{
  Superblock, FileSystem, cluster_to_fs, fs_to_cluster, cluster_of_block, reserved_blocks,
  cluster_data_blocks,
}
use os_thix.Fs.Cluster.{BlockBuffer, blocks, search_cluster, switch_cluster, current_cluster}
use os_thix.Fs.Cluster.Search.{Searched, search_cluster-Searched}
use os_thix.Fs.Cluster.Geometry.{cluster_to_fs_inverse}
use os_thix.Fs.Block.{b_alloc, b_free}
use os_thix.Fs.Block.Alloc.{IsHeld, BlockAllocated, b_alloc-b_free}
use os_thix.Fs.Descriptor.{
  FdTable, UfdTable, get_fd, release_fd, fd_free, get_ufd, io_blocks, with_count, with_ufd,
}
use os_thix.Fs.Descriptor.Alloc.{NoneBelow, FdAllocated, get_fd-FdAllocated}
use os_thix.Fs.Descriptor.Flags.{io_blocks_lem}

-- The blocks 3, 32 and 33 are free.
abbrev bitmap : List ℕ
bitmap = 8 ∷ 3 ∷ []

three_free : count_bitmap bitmap 8 ≡ 3
unfolding count_bitmap
three_free = refl

get_bitmap_resource-Allocated_example : Allocated bitmap 8 3 (0 ∷ 3 ∷ [])
unfolding get_bitmap_resource bsf clear_bit
get_bitmap_resource-Allocated_example = get_bitmap_resource-Allocated bitmap 8 (omega arith) refl

-- A file system of two clusters with 64 data blocks each, in blocks of 1024 bytes.
abbrev super : Superblock
super = record {
  s_bblsz = 0;
  s_clusters = 2;
  s_icluster = 32;
  s_bcluster = 64;
  s_lcflag = false;
  s_blcluster = 64;
  s_bpcluster = 75;
  s_ifree = 32;
  s_bfree = 3;
  s_flock = false;
  s_ilock = false;
  s_fmod = false;
  s_blksz = 1024;
  s_f_in_demand = false;
  s_i_in_demand = false;
  s_ssbldsz = 0;
}

abbrev mounted : FileSystem
mounted = record {
  sb = super;
  mp = record {
    icluster = none;
    bcluster = some 1;
    icount = 0;
    bcount = 3;
    ibitmap = [];
    bbitmap = bitmap;
  };
  cache = λ b. none;
  device = λ b. none;
}

mounted-IsHeld : IsHeld mounted 1
unfolding cluster_data_blocks reserved_blocks free_count popcount
mounted-IsHeld = record {
  current = refl;
  words = omega arith;
  room = omega arith;
  count = refl;
  fits = omega arith;
}

b_alloc-b_free_example :
    (b : ℕ) × (fs' : FileSystem) × (fs'' : FileSystem) × (b_alloc mounted
      ≡ done (cluster_to_fs super 1 b, fs'))
    × BlockAllocated mounted 1 b fs'
    × (b_free fs' (cluster_to_fs super 1 b) ≡ done fs'')
    × (fs''.mp ≡ mounted.mp)
    × ((buffer : BlockBuffer) × (fs''.cache (cluster_to_fs super 1 b) ≡ some buffer)
        × (buffer.valid ≡ false))
b_alloc-b_free_example = b_alloc-b_free mounted 1 mounted-IsHeld refl (omega arith) refl (λ b. refl)

abbrev current_of : Run (Bool × FileSystem) → Option ℕ
current_of (done (true, fs)) = fs.mp.bcluster
current_of stopped = none

-- Each block of the device holds this bitmap.
abbrev stocked : FileSystem
stocked = record mounted { device = λ b. some bitmap }

search_cluster-Searched_example : Searched stocked blocks (search_cluster stocked blocks)
unfolding current_cluster
search_cluster-Searched_example =
    search_cluster-Searched stocked blocks refl (omega arith) (λ b. refl)
      (λ old now. ground (arith, now))

-- From cluster 1, the last one, the search goes on at cluster 0.
around : current_of (search_cluster stocked blocks) ≡ some 0
unfolding search_cluster switch_cluster
around = refl

-- The descriptors 1 and 2 are in use.
abbrev files : FdTable
files = record {
  fdt = λ i. record {
    inode = 0;
    flags = 0;
    count = if (i == 1) then 1 else if i == 2 then 1 else 0;
    offset = 0;
  };
  ff_fd = 2;
}

below_two : NoneBelow (fd_free files) 1 2
below_two i lo hi = ground arith

get_fd-FdAllocated_example : FdAllocated files 3 (with_count files 3 1 3)
unfolding get_fd
get_fd-FdAllocated_example =
    get_fd-FdAllocated files 3 (with_count files 3 1 3) below_two (omega arith) refl

io_blocks_lem_example :
    io_blocks 500 100 10000 512 ≡ (500 + min 100 (10000 - 500) - 1) / 512 - 500 / 512 + 1
io_blocks_lem_example = io_blocks_lem 500 100 10000 512 (inl refl) (omega arith) (omega arith)
