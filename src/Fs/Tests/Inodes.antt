-- ===== src/Fs/Tests/Inodes.antt =====
-- The theorems on the cache of inodes (fs/inode.c) at concrete inputs.
use os_thix.Prelude.{
  ◌*◌, none, done, ℕ, ◌+◌, ◌<◌, ◌≡◌, ◌⊎◌, refl, true, false, some, List, [], ◌∷◌, ◌++◌, ◌==◌,
  if◌then◌else◌, arith,
}
use os_thix.Fs.Hash.Search.{is_for}
use os_thix.Fs.Inode.{
  Inodes, DiskInode, InodeTurn, got, waits_inode, crosses, no_inode, i_get_turn, get_absent, i_init,
  fetched, loads, finish_get, list_inodes, empty_inodes, i_release, released,
}
use os_thix.Fs.Links.{insert_tail}
use os_thix.Fs.Hash.{hash_insert}
use os_thix.Word.{bsf, clear_bit, popcount}
use os_thix.Fs.Bitmap.{get_bitmap_resource}
use os_thix.Fs.Bitmap.Count.{free_count}
use os_thix.Fs.Cluster.{FileSystem}
use os_thix.Fs.Inode.Disk.{alloc_dinode, i_free}
use os_thix.Fs.Inode.Alloc.{IsHeld, InodeTaken, with_taken, alloc_dinode-i_free}
use os_thix.Fs.Inode.Invariant.{IsInodes, present}
use os_thix.Fs.Inode.Init.{inodes_from, no_inodes, i_init-IsInodes}
use os_thix.Fs.Inode.Get.{Located, i_get_turn-Located, i_get_turn-unlocked, get_absent-Located}
use os_thix.Fs.Inode.Release.{Dropped, i_release-IsInodes}

abbrev all_free : List ℕ
all_free = inodes_from 127 1

-- Each inode of the disk is a file with one link.
abbrev disk : ℕ → ℕ → DiskInode
disk device dinode = record { nlinks = 1; mode = 32768 }

no_references : (k : ℕ) → (i_init disk).nref k < 65535
unfolding i_init list_inodes empty_inodes
no_references k = omega arith

i_get_turn-Located_example :
    (t : InodeTurn) × (i_get_turn (λ n. 0) fetched 5 9 (i_init disk) ≡ some t)
    × Located (i_init disk) all_free no_inodes (λ n. 0) 5 9 t
i_get_turn-Located_example =
    i_get_turn-Located (i_init disk) all_free no_inodes (λ n. 0) fetched 5 9 (i_init-IsInodes disk)
      no_references

none_in_memory :
    (k : ℕ)
    → present ((i_init disk).hash) no_inodes k ≡ true
    → is_for ((i_init disk).hash) 5 9 k ≡ false
none_in_memory k inside = absurd (ground (arith, inside))

i_get_turn-unlocked_example :
    (s' : Inodes) × (i_get_turn (λ n. 0) fetched 5 9 (i_init disk) ≡ some (got 1 s'))
    × (s'.busy 1 ≡ (i_init disk).busy 1)
    × (s'.busy 0 ≡ true)
i_get_turn-unlocked_example =
    i_get_turn-unlocked (i_init disk) 1 (inodes_from 126 2) no_inodes (λ n. 0) true 5 9
      (i_init-IsInodes disk) none_in_memory

abbrev inodes_after : Inodes → InodeTurn → Inodes
inodes_after s (got n s') = s'
inodes_after s (waits_inode n s') = s'
inodes_after s (crosses d i) = s
inodes_after s (loads n s') = s'
inodes_after s no_inode = s

-- Inode 9 of device 5 is in entry 1.
abbrev loaded : Inodes
loaded = inodes_after (i_init disk) (get_absent fetched 0 5 9 (i_init disk))

loaded-IsInodes : (free : List ℕ) × (bucket : ℕ → List ℕ) × IsInodes loaded free bucket
unfolding get_absent finish_get i_init list_inodes empty_inodes
loaded-IsInodes =
    let at_one =
      get_absent-Located (i_init disk) all_free no_inodes (i_init-IsInodes disk) (λ n. 0) 5 9
        none_in_memory fetched 0 all_free refl in
    (at_one.0, at_one.1, at_one.2)

loaded_lem : (loaded.nref 1 ≡ 1) × (loaded.busy 1 ≡ false) × (loaded.hash.block 1 ≡ 9)
unfolding get_absent finish_get i_init list_inodes empty_inodes insert_tail hash_insert
loaded_lem = (refl, refl, refl)

i_release-IsInodes_example :
    (s' : Inodes) × (i_release true 1 loaded ≡ released s')
    × IsInodes s'
        (if loaded.nref 1 == 1 then loaded-IsInodes.0 ++ 1 ∷ [] else loaded-IsInodes.0)
        (loaded-IsInodes.1)
    × (s'.nref 1 + 1 ≡ loaded.nref 1)
    × (s'.busy 1 ≡ false)
    × (((1 < loaded.nref 1) × (s'.disk ≡ loaded.disk))
        ⊎ ((loaded.nref 1 ≡ 1) × Dropped true loaded 1 s'))
i_release-IsInodes_example =
    i_release-IsInodes true loaded (loaded-IsInodes.0) (loaded-IsInodes.1) 1 (loaded-IsInodes.2)
      (omega arith) (omega arith) (omega (arith, loaded_lem.0)) (omega (arith, loaded_lem.0))
      (loaded_lem.1) (omega (arith, loaded_lem.2))

-- A file system with two clusters of 32 inodes; inode 3 of cluster 1 is the only free one of it.
abbrev volume : FileSystem
volume = record {
  sb = record {
    s_bblsz = 0;
    s_clusters = 2;
    s_icluster = 32;
    s_bcluster = 64;
    s_lcflag = false;
    s_blcluster = 64;
    s_bpcluster = 75;
    s_ifree = 1;
    s_bfree = 0;
    s_flock = false;
    s_ilock = false;
    s_fmod = false;
    s_blksz = 512;
    s_f_in_demand = false;
    s_i_in_demand = false;
    s_ssbldsz = 0;
  };
  mp = record {
    icluster = some 1;
    bcluster = none;
    icount = 1;
    bcount = 0;
    ibitmap = 8 ∷ [];
    bbitmap = [];
  };
  cache = λ b. none;
  device = λ b. none;
}

volume-IsHeld : IsHeld volume 1
unfolding free_count popcount
volume-IsHeld = record { current = refl; words = omega arith; room = omega arith; count = refl }

inode_35 : alloc_dinode volume ≡ done (some 35, with_taken volume (0 ∷ []))
unfolding alloc_dinode get_bitmap_resource bsf clear_bit
inode_35 = refl

alloc_dinode-i_free_example :
    (i : ℕ) × (fs' : FileSystem) × (fs'' : FileSystem) × (alloc_dinode volume
      ≡ done (some (1 * 32 + i), fs'))
    × InodeTaken volume 1 i fs'
    × (i_free fs' (1 * 32 + i) ≡ done fs'')
    × (fs''.mp ≡ volume.mp)
alloc_dinode-i_free_example = alloc_dinode-i_free volume 1 volume-IsHeld refl (omega arith)
