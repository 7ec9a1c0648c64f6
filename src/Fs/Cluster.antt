-- ===== src/Fs/Cluster.antt =====
-- fs/cluster.c and the address macros of include/thix/cluster.h: where the blocks of a TFS file
-- system lie, and which cluster's bitmaps are held in memory.
pub mod Geometry
pub mod Blocks
pub mod Switch
pub mod Search
use os_thix.Prelude.{
  ℕ, zero, suc, ◌+◌, ◌-◌, ◌*◌, ◌/◌, ◌%◌, Bool, true, false, ◌&&◌, ◌||◌, Option, none, some, List,
  [], ◌∷◌, ◌++◌, ◌==◌, if◌then◌else◌, take, drop, update, Run, done, asleep, panic, not, ◌>>=◌,
}
use os_thix.Fs.Bitmap.{count_bitmap}

-- The fields of `superblock` (include/thix/fs.h) that allocation uses.
pub record Superblock : Type 0 where
  pub s_bblsz : ℕ
  pub s_clusters : ℕ
  pub s_icluster : ℕ
  pub s_bcluster : ℕ
  pub s_lcflag : Bool
  pub s_blcluster : ℕ
  pub s_bpcluster : ℕ
  pub s_ifree : ℕ
  pub s_bfree : ℕ
  pub s_flock : Bool
  pub s_ilock : Bool
  pub s_fmod : Bool
  pub s_blksz : ℕ
  pub s_f_in_demand : Bool
  pub s_i_in_demand : Bool
  pub s_ssbldsz : ℕ

-- `TFS_INODES_BITMAP` and `TFS_BLOCKS_BITMAP`
pub data BitmapType : Type 0 where
  inodes blocks : BitmapType

-- The value of the two constants, which is also the bitmap's place in a cluster.
abbrev pub bitmap_place : BitmapType → ℕ
bitmap_place inodes = 1
bitmap_place blocks = 2

-- `sizeof(dinode_t)`, 128 bytes on disk
abbrev pub sizeof_dinode : ℕ
sizeof_dinode = 128

-- The fields of `mp_struct` that allocation uses. The cluster is `none` where the source has -1.
pub record MountPoint : Type 0 where
  pub icluster : Option ℕ
  pub bcluster : Option ℕ
  pub icount : ℕ
  pub bcount : ℕ
  pub ibitmap : List ℕ
  pub bbitmap : List ℕ

-- The buffer of a block. A block is the list of its 32-bit words.
pub record BlockBuffer : Type 0 where
  pub busy : Bool
  pub valid : Bool
  pub words : List ℕ

-- A mounted file system. The buffer cache is seen as the buffers that blocks have, `cache`, above the
-- contents of the device; `none` in `device` is a block that cannot be read.
pub record FileSystem : Type 0 where
  pub sb : Superblock
  pub mp : MountPoint
  pub cache : ℕ → Option BlockBuffer
  pub device : ℕ → Option (List ℕ)

abbrev pub with_buffer : FileSystem → ℕ → BlockBuffer → FileSystem
with_buffer fs b buffer = record fs { cache = update fs.cache b (some buffer) }

abbrev pub is_idle : Option BlockBuffer → Bool
is_idle none = true
is_idle (some buffer) = not (buffer.busy)

-- A new buffer is not valid, and no caller reads its memory before it has written all of it.
abbrev pub busy_buffer : Option BlockBuffer → BlockBuffer
busy_buffer none = record { busy = true; valid = false; words = [] }
busy_buffer (some old) = record old { busy = true }

-- `buf_get` for a buffer of `s_blksz` bytes, which becomes busy. A busy buffer is waited for, which ends
-- the run; a block without a buffer gets one, and that `buf_get` may have to wait for a free one is not seen.
unfoldable pub get_buffer : FileSystem → ℕ → Run (BlockBuffer × FileSystem)
get_buffer fs b =
    if not (fs.sb.s_blksz == 1024)
    then panic
    else if is_idle (fs.cache b)
    then done (busy_buffer (fs.cache b), with_buffer fs b (busy_buffer (fs.cache b)))
    else asleep

-- `buf_read`: the words of the buffer, which is busy, or `none` where the block cannot be read.
unfoldable pub read_block : FileSystem → ℕ → Run (Option (List ℕ) × FileSystem)
unfolding get_buffer
read_block fs b = do
  (buffer, fs₁) ← get_buffer fs b
  if buffer.valid then done (some (buffer.words), fs₁) else elim (fs.device b) [
    | none ↦ done (none, with_buffer fs₁ b (record buffer { busy = false }))
    | some ws ↦ done (some ws, with_buffer fs₁ b (record { busy = true; valid = true; words = ws }))
  ]

-- `buf_get`, a copy into the buffer and `buf_write`.
unfoldable pub write_block : FileSystem → ℕ → List ℕ → Run FileSystem
unfolding get_buffer
write_block fs b ws = do
  (buffer, fs₁) ← get_buffer fs b
  done (with_buffer fs₁ b (record { busy = false; valid = true; words = ws }))

-- `buf_release` of a buffer that `buf_read` has returned with these words.
unfoldable pub release_block : FileSystem → ℕ → List ℕ → FileSystem
release_block fs b ws = with_buffer fs b (record { busy = false; valid = true; words = ws })

-- `cluster_data_blocks`
unfoldable pub cluster_data_blocks : Superblock → ℕ → ℕ
cluster_data_blocks sb cluster =
    if (suc cluster == sb.s_clusters) && sb.s_lcflag then sb.s_blcluster else sb.s_bcluster

-- `1 + 1 + sb->s_ssbldsz + sb->s_bblsz`: the blocks before the first cluster.
unfoldable pub first_cluster : Superblock → ℕ
first_cluster sb = 1 + 1 + sb.s_ssbldsz + sb.s_bblsz

-- `1 + 1 + 1 + ((sb->s_icluster * sizeof(dinode_t)) / sb->s_blksz)`: a cluster's own blocks.
unfoldable pub reserved_blocks : Superblock → ℕ
reserved_blocks sb = 1 + 1 + 1 + sb.s_icluster * sizeof_dinode / sb.s_blksz

-- `cluster_reserved2fs`
unfoldable pub cluster_reserved_to_fs : Superblock → ℕ → ℕ → ℕ
unfolding first_cluster
cluster_reserved_to_fs sb cluster block = first_cluster sb + cluster * sb.s_bpcluster + block

-- `cluster2fs`
unfoldable pub cluster_to_fs : Superblock → ℕ → ℕ → ℕ
unfolding first_cluster reserved_blocks
cluster_to_fs sb cluster block =
    first_cluster sb + cluster * sb.s_bpcluster + reserved_blocks sb + block

-- `fs2cluster`
unfoldable pub fs_to_cluster : Superblock → ℕ → ℕ
unfolding first_cluster reserved_blocks
fs_to_cluster sb block = (block - first_cluster sb) % sb.s_bpcluster - reserved_blocks sb

-- `(block - (1+1+sb->s_ssbldsz+sb->s_bblsz)) / sb->s_bpcluster`, in `b_free`
unfoldable pub cluster_of_block : Superblock → ℕ → ℕ
unfolding first_cluster
cluster_of_block sb block = (block - first_cluster sb) / sb.s_bpcluster

-- `flush_cluster`
unfoldable pub flush_cluster : FileSystem → BitmapType → Run FileSystem
unfolding cluster_reserved_to_fs write_block
flush_cluster fs inodes = elim fs.mp.icluster [
  | none ↦ done fs
  | some c ↦ write_block fs (cluster_reserved_to_fs fs.sb c 1) fs.mp.ibitmap
]
flush_cluster fs blocks = elim fs.mp.bcluster [
  | none ↦ done fs
  | some c ↦ write_block fs (cluster_reserved_to_fs fs.sb c 2) fs.mp.bbitmap
]

-- The words of a bitmap that are in use.
unfoldable pub bitmap_limit : Superblock → ℕ → BitmapType → ℕ
unfolding cluster_data_blocks
bitmap_limit sb cluster inodes = sb.s_icluster / 32
bitmap_limit sb cluster blocks = cluster_data_blocks sb cluster / 32

-- The loop of `switch_cluster`: whether one of the first `limit` words is not zero.
unfoldable pub any_free : List ℕ → ℕ → Bool
any_free address zero = false
any_free [] (suc limit) = false
any_free (w ∷ ws) (suc limit) = if w == 0 then any_free ws limit else true

-- `memcpy(bitmap, address, limit * sizeof(unsigned))`
unfoldable pub copy_words : ℕ → List ℕ → List ℕ → List ℕ
copy_words limit address bitmap = take limit address ++ drop limit bitmap

-- The assignments of `switch_cluster` after the call of `flush_cluster`.
unfoldable pub load_bitmap : FileSystem → ℕ → BitmapType → List ℕ → FileSystem
unfolding copy_words bitmap_limit
load_bitmap fs cluster inodes address =
    let limit = bitmap_limit fs.sb cluster inodes in
    record fs {
      mp = record (fs.mp) {
        ibitmap = copy_words limit address fs.mp.ibitmap;
        icluster = some cluster;
        icount = count_bitmap address (limit * 4);
      };
    }
load_bitmap fs cluster blocks address =
    let limit = bitmap_limit fs.sb cluster blocks in
    record fs {
      mp = record (fs.mp) {
        bbitmap = copy_words limit address fs.mp.bbitmap;
        bcluster = some cluster;
        bcount = count_bitmap address (limit * 4);
      };
    }

-- The part of `switch_cluster` from the label `do_switch_cluster` on.
unfoldable pub do_switch_cluster : FileSystem → ℕ → BitmapType → List ℕ → Run (Bool × FileSystem)
unfolding flush_cluster load_bitmap release_block
do_switch_cluster fs cluster type address = do
  fs₁ ← flush_cluster fs type
  done (
    true,
    release_block (load_bitmap fs₁ cluster type address)
        (cluster_reserved_to_fs fs.sb cluster (bitmap_place type)) address,
  )

-- `switch_cluster` past its call of `buf_read` for block `b`, by what that has returned.
unfoldable pub switch_read :
    ℕ → ℕ → BitmapType → Bool → Option (List ℕ) × FileSystem → Run (Bool × FileSystem)
unfolding do_switch_cluster any_free release_block
switch_read b cluster type force (none, fs) = if force then panic else done (false, fs)
switch_read b cluster type force (some ws, fs) =
    if force || any_free ws (bitmap_limit fs.sb cluster type)
    then do_switch_cluster fs cluster type ws
    else done (false, release_block fs b ws)

-- `switch_cluster`: whether it switched, and the state.
unfoldable pub switch_cluster : FileSystem → ℕ → BitmapType → Bool → Run (Bool × FileSystem)
unfolding read_block switch_read
switch_cluster fs cluster type force =
    let b = cluster_reserved_to_fs fs.sb cluster (bitmap_place type) in
    read_block fs b >>= switch_read b cluster type force

-- A loop `for (; cluster < …; cluster++) if (switch_cluster(…)) goto found;` with `left` rounds
-- left.
unfoldable pub search_from : FileSystem → BitmapType → ℕ → ℕ → Run (Bool × FileSystem)
search_from fs type cluster zero = done (false, fs)
search_from fs type cluster (suc left) = elim (switch_cluster fs cluster type false) [
  | done (true, fs') ↦ done (true, fs')
  | done (false, fs') ↦ search_from fs' type (suc cluster) left
  | stopped ↦ stopped
]

unfoldable pub free_resources : Superblock → BitmapType → ℕ
free_resources sb inodes = sb.s_ifree
free_resources sb blocks = sb.s_bfree

unfoldable pub current_cluster : MountPoint → BitmapType → Option ℕ
current_cluster mp inodes = mp.icluster
current_cluster mp blocks = mp.bcluster

-- A search that has come to its end: the label `fail`.
abbrev pub found_or_panic : Bool × FileSystem → Run (Bool × FileSystem)
found_or_panic (true, fs) = done (true, fs)
found_or_panic (false, fs) = panic

-- `search_cluster`: 1 with a cluster that has free resources, or 0 where the file system has none.
unfoldable pub search_cluster : FileSystem → BitmapType → Run (Bool × FileSystem)
unfolding search_from free_resources current_cluster
search_cluster fs type =
    if free_resources fs.sb type == 0 then done (false, fs) else elim (current_cluster fs.mp type) [
      | none ↦ do r ← search_from fs type 0 fs.sb.s_clusters; found_or_panic r
      | some old ↦
          let start = if suc old == fs.sb.s_clusters then 0 else suc old in
          do
            r ← search_from fs type start (fs.sb.s_clusters - start)
            if r.0 then done r else (search_from r.1 type 0 old >>= found_or_panic)
    ]
