-- ===== src/Fs/Inode/Init.antt =====
-- The cache of inodes that `i_init` (fs/inode.c) sets up.
use mathlib.Core.List.{append_assoc, append-nil}
use os_thix.Prelude.{
  ℕ, zero, suc, ◌+◌, ◌-◌, ◌<◌, ◌≡◌, refl, sym, subst, ◌&&◌, List, [], ◌∷◌, ◌++◌, has, has-append,
  ltb, length, length-append, arith,
}
use os_thix.Fs.Links.Rings.{IsRing, insert_tail-IsRing}
use os_thix.Fs.Hash.Search.{IsHash}
use os_thix.Fs.Inode.{
  DiskInode, Inodes, max_inodes, inodes_buckets_no, empty_inodes, i_list_insert, list_inodes,
  i_init,
}
use os_thix.Fs.Inode.Invariant.{IsInodes}

abbrev pub no_inodes : ℕ → List ℕ
no_inodes i = []

-- The entries below `n` are listed, and nothing else has been done.
record IsListed (s : Inodes) (n : ℕ) (free : List ℕ) : Type 0 where
  table : IsHash max_inodes inodes_buckets_no (s.hash) no_inodes
  ring : IsRing (s.list) 0 free
  members : (k : ℕ) → has k free ≡ ltb 0 k && ltb k n
  refless : (k : ℕ) → s.nref k ≡ 0
  counted : s.free_inodes ≡ length free

empty_inodes-IsListed : (disk : ℕ → ℕ → DiskInode) → IsListed (empty_inodes disk) 1 []
unfolding empty_inodes
empty_inodes-IsListed disk = record {
  table = record {
    rings = λ i hi. record {
      linked = (ground (arith, hi), ground (arith, hi));
      apart = refl;
      distinct = tt;
    };
    placed = λ i k hi inside. absurd (ground (arith, inside));
    unhashed = λ k hk out. ground (arith, hk);
    unique = λ j k hj hk same_device same_block. absurd (ground (arith, hj));
  };
  ring = record { linked = (refl, refl); apart = refl; distinct = tt };
  members = λ k. ground arith;
  refless = λ k. refl;
  counted = refl;
}

i_list_insert-IsListed :
    (n : ℕ) (s : Inodes) (free : List ℕ)
    → 0 < n
    → IsListed s n free
    → IsListed (i_list_insert n s) (suc n) (free ++ n ∷ [])
unfolding i_list_insert
i_list_insert-IsListed n s free above v = record {
  table = v.table;
  ring = insert_tail-IsRing (s.list) 0 n free (v.ring) (ground (arith, v.members n, above));
  members = λ k. ground (arith, has-append k free (n ∷ []), v.members k, above);
  refless = v.refless;
  counted = omega (arith, v.counted, length-append free (n ∷ []));
}

-- The numbers from `n` on.
abbrev pub inodes_from : ℕ → ℕ → List ℕ
inodes_from zero n = []
inodes_from (suc count) n = n ∷ inodes_from count (suc n)

list_inodes-IsListed :
    (count n : ℕ) (s : Inodes) (free : List ℕ)
    → 0 < n
    → IsListed s n free
    → IsListed (list_inodes count n s) (n + count) (free ++ inodes_from count n)
unfolding list_inodes
list_inodes-IsListed zero n s free above v =
    rw (append-nil free) (subst (λ m. IsListed s m free) (omega arith) v)
list_inodes-IsListed (suc count) n s free above v =
    rw (sym (append_assoc free (n ∷ []) (inodes_from count (suc n)))) (
      subst
        (λ m.
          IsListed (list_inodes count (suc n) (i_list_insert n s)) m
            ((free ++ n ∷ []) ++ inodes_from count (suc n)))
        (omega arith)
        (list_inodes-IsListed count (suc n) (i_list_insert n s) (free ++ n ∷ []) (omega arith)
          (i_list_insert-IsListed n s free above v)))

IsListed-IsInodes :
    (s : Inodes) (free : List ℕ) → IsListed s max_inodes free → IsInodes s free no_inodes
IsListed-IsInodes s free v = record {
  table = v.table;
  count = record {
    ring = v.ring;
    unused = λ k inside.
        (ground (arith, v.members k, inside), ground (arith, v.members k, inside), v.refless k);
    listed = λ k lo hi none_left. ground (arith, v.members k, lo, hi);
    counted = v.counted;
  };
}

-- The cache that `i_init` sets up is well formed: no inode is in the hash table, and all entries but the
-- head are listed, in the order of their numbers.
pub i_init-IsInodes :
    (disk : ℕ → ℕ → DiskInode) → IsInodes (i_init disk) (inodes_from (max_inodes - 1) 1) no_inodes
unfolding i_init
i_init-IsInodes disk =
    IsListed-IsInodes (list_inodes (max_inodes - 1) 1 (empty_inodes disk))
      (inodes_from (max_inodes - 1) 1)
      (list_inodes-IsListed (max_inodes - 1) 1 (empty_inodes disk) [] (omega arith)
        (empty_inodes-IsListed disk))
