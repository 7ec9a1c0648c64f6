-- ===== src/Fs/Inode.antt =====
-- fs/inode.c: the cache of inodes in memory, and the inodes on the disk. The blocks of a file and the bitmap of the
-- inodes on the disk are not part of its state.
pub mod Invariant
pub mod Get
pub mod Release
pub mod Init
pub mod Disk
pub mod Alloc
use os_thix.Prelude.{
  ℕ, zero, suc, ◌+◌, ◌-◌, ◌%◌, Bool, true, false, not, ◌||◌, Option, none, some, ◌==◌, ltb,
  if◌then◌else◌, update,
}
use os_thix.Fs.Links.{Links, insert_tail, unlink}
use os_thix.Fs.Hash.{Hash, hash_insert, hash_delete, hash_search, unhashed_link}

abbrev pub max_inodes : ℕ
max_inodes = 128

abbrev pub inodes_buckets_no : ℕ
inodes_buckets_no = 127

abbrev pub root_inode : ℕ
root_inode = 1

-- The fields of `dinode_t` that the modelled routines read.
pub record DiskInode : Type 0 where
  pub nlinks : ℕ
  pub mode : ℕ

-- `i_vect`, field by field, and the inodes on the disk by device and number, as `buf_read` shows them; the disk inode's number is the block of the hash table. Entry 0 is the
-- head of the list of inodes without a reference.
pub record Inodes : Type 0 where
  pub hash : Hash
  pub list : Links
  pub busy : ℕ → Bool
  pub in_demand : ℕ → Bool
  pub modified : ℕ → Bool
  pub mount_point : ℕ → Bool
  pub write_denied : ℕ → Bool
  pub exec_denied : ℕ → Bool
  pub nref : ℕ → ℕ
  pub i_nlinks : ℕ → ℕ
  pub i_mode : ℕ → ℕ
  pub free_inodes : ℕ
  pub disk : ℕ → ℕ → DiskInode

unfoldable pub i_list_insert : ℕ → Inodes → Inodes
i_list_insert n s = record s { list = insert_tail 0 n (s.list); free_inodes = s.free_inodes + 1 }

unfoldable pub i_list_delete : ℕ → Inodes → Inodes
i_list_delete n s = record s { list = unlink n (s.list); free_inodes = s.free_inodes - 1 }

unfoldable pub i_hash_insert : ℕ → Inodes → Inodes
i_hash_insert n s = record s { hash = hash_insert max_inodes inodes_buckets_no n (s.hash) }

unfoldable pub i_hash_delete : ℕ → Inodes → Inodes
i_hash_delete n s = record s { hash = hash_delete n (s.hash) }

unfoldable pub i_hash_search : ℕ → ℕ → Inodes → Option ℕ
i_hash_search device dinode s = hash_search max_inodes inodes_buckets_no device dinode (s.hash)

-- `dummy_inode`, which an inode is after a read error.
abbrev pub s_ifreg : ℕ
s_ifreg = 32768

abbrev pub dummy_inode : DiskInode
dummy_inode = record { nlinks = 1; mode = s_ifreg }

-- `i_read`; the flag is whether `buf_read` has returned a buffer.
unfoldable pub i_read : Bool → ℕ → Inodes → Inodes
i_read readable n s =
    let d = if readable then s.disk (s.hash.device n) (s.hash.block n) else dummy_inode in
    record s { i_nlinks = update (s.i_nlinks) n (d.nlinks); i_mode = update (s.i_mode) n (d.mode) }

-- The disk with the inode of an entry written to its place.
abbrev pub recorded : ℕ → DiskInode → Inodes → ℕ → ℕ → DiskInode
recorded n d s =
    update (s.disk) (s.hash.device n) (update (s.disk (s.hash.device n)) (s.hash.block n) d)

-- `i_write`; the flag is whether `buf_read` has returned a buffer. Without one nothing is written, and the
-- inode is marked as not modified all the same. While `buf_read` sleeps the inode is locked.
unfoldable pub i_write : Bool → ℕ → Inodes → Inodes
i_write readable n s = record s {
  disk =
      if readable
      then recorded n (record { nlinks = s.i_nlinks n; mode = s.i_mode n }) s
      else s.disk;
  modified = update (s.modified) n false;
}

-- What `buf_read` does in `i_read`: it returns a buffer or 0, or it sleeps.
pub data Fetch : Type 0 where
  fetched fetch_failed fetching : Fetch

-- How a turn of the loop of `i_get` ends. `waits_inode`: it sleeps on a busy inode and goes round
-- again. `crosses`: the inode is a mount point, and it goes round for the root of the file system that is
-- mounted there. `loads`: it sleeps in `i_read`, and goes on with `finish_get`. `no_inode`: it returns 0.
pub data InodeTurn : Type 0 where
  got : ℕ → Inodes → InodeTurn
  waits_inode : ℕ → Inodes → InodeTurn
  crosses : ℕ → ℕ → InodeTurn
  loads : ℕ → Inodes → InodeTurn
  no_inode : InodeTurn

-- The part for an inode that is in memory; `mounted` gives the device that is mounted on an inode.
unfoldable pub get_present : (ℕ → ℕ) → ℕ → Inodes → InodeTurn
unfolding i_list_delete
get_present mounted n s =
    let taken = record s {
      busy = update (s.busy) n true;
      nref = update (s.nref) n ((s.nref n + 1) % 65536);
    } in
    if s.busy n
    then waits_inode n (record s { in_demand = update (s.in_demand) n true })
    else if s.mount_point n
    then crosses (mounted n) root_inode
    else if s.nref n == 0
    then got n (i_list_delete n taken)
    else got n taken

-- `i_get` from `i_read` on.
unfoldable pub finish_get : Bool → ℕ → Inodes → Inodes
unfolding i_read i_hash_insert
finish_get readable n s =
    let loaded = i_hash_insert n (i_read readable n s) in
    record loaded {
      nref = update (s.nref) n 1;
      write_denied = update (s.write_denied) n false;
      exec_denied = update (s.exec_denied) n false;
      mount_point = update (s.mount_point) n false;
    }

-- `i_get` up to `i_read`, for an inode that is not in memory and entry `n`. `found` is the number that the search
-- has returned, which the first two assignments are made for.
unfoldable pub take_entry : ℕ → ℕ → ℕ → ℕ → Inodes → Inodes
unfolding i_list_delete i_hash_delete
take_entry found device dinode n s =
    let marked = record s {
      busy = update (s.busy) found true;
      in_demand = update (s.in_demand) found false;
    } in
    let free = i_hash_delete n (i_list_delete n marked) in
    record free {
      hash = record (free.hash) {
        device = update (free.hash.device) n device;
        block = update (free.hash.block) n dinode;
      };
    }

-- The part for an inode that is not in memory.
unfoldable pub get_absent : Fetch → ℕ → ℕ → ℕ → Inodes → InodeTurn
unfolding take_entry finish_get
get_absent fetch found device dinode s =
    let n = s.list.next 0 in
    let taken = take_entry found device dinode n s in
    if s.free_inodes == 0 then no_inode else elim fetch [
      | fetched ↦ got n (finish_get true n taken)
      | fetch_failed ↦ got n (finish_get false n taken)
      | fetching ↦ loads n taken
    ]

-- A turn of the loop of `i_get`; `none` means that the search has run out of fuel.
unfoldable pub i_get_turn : (ℕ → ℕ) → Fetch → ℕ → ℕ → Inodes → Option InodeTurn
unfolding i_hash_search get_present get_absent
i_get_turn mounted fetch device dinode s = elim (i_hash_search device dinode s) [
  | none ↦ none
  | some n ↦ some (if n == 0 then get_absent fetch n device dinode s else get_present mounted n s)
]

-- `i_lock` past its loop, and `i_unlock`.
unfoldable pub lock_inode : ℕ → Inodes → Inodes
lock_inode n s = record s { busy = update (s.busy) n true }

unfoldable pub unlock_inode : ℕ → Inodes → Inodes
unlock_inode n s = record s {
  busy = update (s.busy) n false;
  in_demand = update (s.in_demand) n false;
}

-- The last reference is gone: an inode without links is truncated and freed on the disk, a modified one
-- is written, and the inode is listed. `i_truncate` leaves the inode marked as modified.
unfoldable pub drop_inode : Bool → ℕ → Inodes → Inodes
unfolding i_list_insert i_write
drop_inode readable n s =
    let unlinked = s.i_nlinks n == 0 in
    let cut = record s {
      i_mode = if unlinked then update (s.i_mode) n 0 else s.i_mode;
      modified = if unlinked then update (s.modified) n true else s.modified;
    } in
    let written = if s.modified n || unlinked then i_write readable n cut else cut in
    i_list_insert n (record cut { disk = written.disk; modified = written.modified })

-- How `i_release` ends: done, or asleep in `i_lock`, or with the panic on inode 0.
pub data ReleaseEnd : Type 0 where
  released : Inodes → ReleaseEnd
  waits_lock : Inodes → ReleaseEnd
  panicked : ReleaseEnd

-- The flag is whether `buf_read` returns a buffer, where the inode is written.
unfoldable pub i_release : Bool → ℕ → Inodes → ReleaseEnd
unfolding drop_inode lock_inode unlock_inode
i_release readable n s =
    let locked =
      lock_inode n (record s { nref = update (s.nref) n ((s.nref n + 65535) % 65536) }) in
    if s.hash.block n == 0
    then panicked
    else if s.busy n
    then waits_lock (record s { in_demand = update (s.in_demand) n true })
    else released
        (unlock_inode n (if locked.nref n == 0 then drop_inode readable n locked else locked))

-- `i_remove`: the number of references, and the inode out of the hash table if it has none.
unfoldable pub i_remove : ℕ → Inodes → ℕ × Inodes
unfolding i_hash_delete
i_remove n s = (s.nref n, if s.nref n == 0 then i_hash_delete n s else s)

-- The memory of `i_init` with the buckets set up and the head of the list alone.
unfoldable pub empty_inodes : (ℕ → ℕ → DiskInode) → Inodes
empty_inodes disk = record {
  hash = record {
    links = record {
      next = λ k.
          if ltb k max_inodes
          then unhashed_link
          else if ltb k (max_inodes + inodes_buckets_no)
          then k
          else 0;
      prev = λ k.
          if ltb k max_inodes then 0 else if ltb k (max_inodes + inodes_buckets_no) then k else 0;
    };
    device = λ k. 0;
    block = λ k. 0;
  };
  list = record { next = λ k. 0; prev = λ k. 0 };
  busy = λ k. false;
  in_demand = λ k. false;
  modified = λ k. false;
  mount_point = λ k. false;
  write_denied = λ k. false;
  exec_denied = λ k. false;
  nref = λ k. 0;
  i_nlinks = λ k. 0;
  i_mode = λ k. 0;
  free_inodes = 0;
  disk = disk;
}

-- The loop that lists `count` entries, from `n` on.
unfoldable pub list_inodes : ℕ → ℕ → Inodes → Inodes
unfolding i_list_insert
list_inodes zero n s = s
list_inodes (suc count) n s = list_inodes count (suc n) (i_list_insert n s)

unfoldable pub i_init : (ℕ → ℕ → DiskInode) → Inodes
unfolding list_inodes empty_inodes
i_init disk = list_inodes (max_inodes - 1) 1 (empty_inodes disk)
