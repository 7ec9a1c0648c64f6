-- ===== src/Fs/Inode/Invariant.antt =====
-- When the cache of inodes (fs/inode.c) is well formed, and the steps between such states.
use os_thix.Prelude.{
  ℕ, ◌+◌, ◌-◌, ◌<◌, ◌≡◌, inl, inr, Bool, true, false, List, [], ◌∷◌, ◌++◌, has, has-append, length,
  length-append, arith, Bool-cases, eq-cases, update,
}
use os_thix.Fs.Links.{Links, unlink, insert_tail}
use os_thix.Fs.Links.Paths.{remove}
use os_thix.Fs.Links.Rings.{IsRing, has-remove, length-remove, insert_tail-IsRing, unlink-IsRing}
use os_thix.Fs.Hash.{Hash}
use os_thix.Fs.Hash.Search.{IsHash, hashed}
use os_thix.Fs.Inode.{Inodes, max_inodes, inodes_buckets_no}

-- Whether an inode is in the hash table.
abbrev pub present : Hash → (ℕ → List ℕ) → ℕ → Bool
present h bucket = hashed inodes_buckets_no h bucket

-- The listed inodes are those without a reference, and their count is right.
pub record IsCounted (l : Links) (nref : ℕ → ℕ) (free_inodes : ℕ) (free : List ℕ) : Type 0 where
  pub ring : IsRing l 0 free
  pub unused : (k : ℕ) → has k free ≡ true → (0 < k) × (k < max_inodes) × (nref k ≡ 0)
  pub listed : (k : ℕ) → 0 < k → k < max_inodes → nref k ≡ 0 → has k free ≡ true
  pub counted : free_inodes ≡ length free

-- The cache with this list of inodes without a reference and these buckets is well formed.
pub record IsInodes (s : Inodes) (free : List ℕ) (bucket : ℕ → List ℕ) : Type 0 where
  pub table : IsHash max_inodes inodes_buckets_no (s.hash) bucket
  pub count : IsCounted (s.list) (s.nref) (s.free_inodes) free

module _ (l : Links) (nref : ℕ → ℕ) (n_free : ℕ) (free : List ℕ) (v : IsCounted l nref n_free free)
    (n : ℕ) where
  -- An inode without a reference gets some.
  pub take_listed :
      (r : ℕ)
      → has n free ≡ true
      → 0 < r
      → IsCounted (unlink n l) (update nref n r) (n_free - 1) (remove n free)
  take_listed r inside positive = record {
    ring = unlink-IsRing l 0 n free (v.ring) inside;
    unused = λ k at. ground (arith, at, has-remove k n free (v.ring.distinct), v.unused k);
    listed = λ k lo hi none_left.
        ground
          (arith, has-remove k n free (v.ring.distinct), v.listed k lo hi, none_left, positive);
    counted = omega (arith, v.counted, length-remove n free inside);
  }

  -- An inode that has references has some still.
  pub keep_unlisted : (r : ℕ) → 0 < nref n → 0 < r → IsCounted l (update nref n r) n_free free
  keep_unlisted r old new = record {
    ring = v.ring;
    unused = λ k at. ground (arith, v.unused k at, old);
    listed = λ k lo hi none_left. v.listed k lo hi (ground (arith, none_left, new));
    counted = v.counted;
  }

  -- The last reference is gone.
  pub list_dropped :
      0 < n
      → n < max_inodes
      → 0 < nref n
      → IsCounted (insert_tail 0 n l) (update nref n 0) (n_free + 1) (free ++ n ∷ [])
  list_dropped above below old = record {
    ring = insert_tail-IsRing l 0 n free (v.ring) (ground (arith, unlisted, above));
    unused = λ k at. elim (eq-cases k n) [
      | inl e ↦ rw e (above, below, ground arith)
      | inr ne ↦ ground (arith, v.unused k (ground (arith, at, ne, has-append k free (n ∷ []))), ne)
    ];
    listed = λ k lo hi none_left.
        ground (arith, has-append k free (n ∷ []), v.listed k lo hi, none_left);
    counted = omega (arith, v.counted, length-append free (n ∷ []));
  }
    where
      unlisted : has n free ≡ false
      unlisted = elim (Bool-cases (has n free)) [
        | inl at ↦ absurd (ground (arith, (v.unused n at).2, old))
        | inr no_more ↦ no_more
      ]
