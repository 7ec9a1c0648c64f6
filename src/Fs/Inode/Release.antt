-- ===== src/Fs/Inode/Release.antt =====
-- Releasing an inode of the cache (fs/inode.c).
use os_thix.Prelude.{
  ℕ, ◌+◌, ◌-◌, ◌%◌, ◌<◌, ◌≡◌, ◌≢◌, ◌⊎◌, inl, inr, refl, Bool, false, ◌&&◌, ◌||◌, List, [], ◌∷◌,
  ◌++◌, ◌==◌, if◌then◌else◌, arith, Bool-cases, eq-cases, eq→==, ne→==, update,
}
use os_thix.Fs.Inode.{
  Inodes, i_release, released, max_inodes, drop_inode, lock_inode, unlock_inode, recorded,
}
use os_thix.Fs.Inode.Invariant.{IsInodes, keep_unlisted, list_dropped}

-- What the last release of an inode owes. Where it has been modified, or has no links left, it has been written to
-- its place on the disk, unless that place could not be read; the disk is else as it was.
abbrev pub Dropped : Bool → Inodes → ℕ → Inodes → Type 0
Dropped readable s n s' =
    (s'.modified n ≡ false)
    × (s'.i_mode n ≡ (if s.i_nlinks n == 0 then 0 else s.i_mode n))
    × (s'.disk ≡ (
        if (s.modified n || s.i_nlinks n == 0) && readable
        then recorded n (record { nlinks = s.i_nlinks n; mode = s'.i_mode n }) s
        else s.disk))

drop_inode-Dropped :
    (readable : Bool) (n : ℕ) (s : Inodes) → Dropped readable s n (drop_inode readable n s)
unfolding drop_inode
drop_inode-Dropped readable n s = elim (eq-cases (s.i_nlinks n) 0) [
  | inl none_left ↦ elim (Bool-cases (s.modified n)) [
    | inl e ↦ rw (eq→== (s.i_nlinks n) 0 none_left, e, eq→== n n refl) (refl, refl, refl)
    | inr e ↦ rw (eq→== (s.i_nlinks n) 0 none_left, e, eq→== n n refl) (refl, refl, refl)
  ]
  | inr ne ↦ elim (Bool-cases (s.modified n)) [
    | inl e ↦ rw (ne→== (s.i_nlinks n) 0 ne, e, eq→== n n refl) (refl, refl, refl)
    | inr e ↦ rw (ne→== (s.i_nlinks n) 0 ne, e) (e, refl, refl)
  ]
]

-- Releasing an unlocked inode that has references, and a number on the disk, keeps the cache well formed. The
-- inode has a reference less and is unlocked; with its last reference gone it is the last to be reused, and where it was modified, or
-- has no links left, it has been written to the disk, unless its place there cannot be read: then it is marked as not
-- modified all the same. Else the disk is as it was.
pub i_release-IsInodes :
    (readable : Bool) (s : Inodes) (free : List ℕ) (bucket : ℕ → List ℕ) (n : ℕ)
    → IsInodes s free bucket
    → 0 < n
    → n < max_inodes
    → 0 < s.nref n
    → s.nref n < 65536
    → s.busy n ≡ false
    → s.hash.block n ≢ 0
    → (s' : Inodes) × (i_release readable n s ≡ released s')
      × IsInodes s' (if s.nref n == 1 then free ++ n ∷ [] else free) bucket
      × (s'.nref n + 1 ≡ s.nref n)
      × (s'.busy n ≡ false)
      × (((1 < s.nref n) × (s'.disk ≡ s.disk)) ⊎ ((s.nref n ≡ 1) × Dropped readable s n s'))
unfolding i_release drop_inode lock_inode unlock_inode
i_release-IsInodes readable s free bucket n v above below held small idle on_disk =
    elim (eq-cases (s.nref n) 1) [
      | inl one ↦ (
        unlock_inode n (drop_inode readable n (left 0)),
        rw (ne→== (s.hash.block n) 0 on_disk, idle, less 0 (omega (arith, one)), eq→== n n refl)
            refl,
        rw (eq→== (s.nref n) 1 one) (record {
          table = v.table;
          count = list_dropped (s.list) (s.nref) (s.free_inodes) free (v.count) n above below held;
        }),
        ground (arith, one),
        ground arith,
        inr (one, drop_inode-Dropped readable n (left 0)),
      )
      | inr more ↦ (
        unlock_inode n (left (s.nref n - 1)),
        rw
            (
              ne→== (s.hash.block n) 0 on_disk,
              idle,
              less (s.nref n - 1) (omega (arith, held)),
              eq→== n n refl,
              ne→== (s.nref n - 1) 0 (omega (arith, more, held)),
            )
            refl,
        rw (ne→== (s.nref n) 1 more) (record {
          table = v.table;
          count =
              keep_unlisted (s.list) (s.nref) (s.free_inodes) free (v.count) n (s.nref n - 1) held
                (omega (arith, more, held));
        }),
        ground (arith, held),
        ground arith,
        inl (omega (arith, more, held), refl),
      )
    ]
  where
    left : ℕ → Inodes
    left r = lock_inode n (record s { nref = update (s.nref) n r })

    less : (r : ℕ) → r + 1 ≡ s.nref n → (s.nref n + 65535) % 65536 ≡ r
    less r e = omega (arith, e, small)
