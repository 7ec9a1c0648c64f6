-- ===== src/Fs/Buffer/Lists.antt =====
-- The two lists of the buffer cache (fs/buffer.c), of unused and of free buffers, in one table.
use os_thix.Prelude.{
  ℕ, ◌≡◌, true, false, List, [], ◌∷◌, ◌++◌, has, has-append, arith, Bool-cases, eq-cases, inl, inr,
}
use os_thix.Fs.Links.{Links, insert_tail, insert_head, unlink}
use os_thix.Fs.Links.Paths.{remove}
use os_thix.Fs.Links.Rings.{
  IsRing, Apart, insert_tail-IsRing, insert_tail-other, insert_head-IsRing, insert_head-other,
  unlink-IsRing, unlink-other, has-remove,
}

pub record IsLists (l : Links) (master free : List ℕ) : Type 0 where
  pub master_ring : IsRing l 0 master
  pub free_ring : IsRing l 1 free
  pub apart : Apart (0 ∷ master) (1 ∷ free)

Apart-sym : (xs ys : List ℕ) → Apart xs ys → Apart ys xs
Apart-sym xs ys apart k inside = elim (Bool-cases (has k xs)) [
  | inl both ↦ absurd (ground (arith, apart k both))
  | inr no_more ↦ no_more
]

module _ (l : Links) (master free : List ℕ) (v : IsLists l master free) (n : ℕ) where
  pub unlink-free : has n free ≡ true → IsLists (unlink n l) master (remove n free)
  unlink-free inside = record {
    master_ring = unlink-other l 1 n free (v.free_ring) inside 0 master (v.master_ring) (v.apart);
    free_ring = unlink-IsRing l 1 n free (v.free_ring) inside;
    apart = λ k at. ground (arith, v.apart k at, has-remove k n free (v.free_ring.distinct));
  }

  pub unlink-master : has n master ≡ true → IsLists (unlink n l) (remove n master) free
  unlink-master inside = record {
    master_ring = unlink-IsRing l 0 n master (v.master_ring) inside;
    free_ring =
        unlink-other l 0 n master (v.master_ring) inside 1 free (v.free_ring)
          (Apart-sym (0 ∷ master) (1 ∷ free) (v.apart));
    apart = λ k at. v.apart k (ground (arith, at, has-remove k n master (v.master_ring.distinct)));
  }

  module _ (master_out : has n (0 ∷ master) ≡ false) (free_out : has n (1 ∷ free) ≡ false) where
    pub free-tail : IsLists (insert_tail 1 n l) master (free ++ n ∷ [])
    free-tail = record {
      master_ring =
          insert_tail-other l 1 n free (v.free_ring) free_out 0 master (v.master_ring) (v.apart)
            master_out;
      free_ring = insert_tail-IsRing l 1 n free (v.free_ring) free_out;
      apart = λ k at. ground (arith, v.apart k at, has-append k free (n ∷ []), at, master_out);
    }

    pub free-head : IsLists (insert_head 1 n l) master (n ∷ free)
    free-head = record {
      master_ring =
          insert_head-other l 1 n free (v.free_ring) free_out 0 master (v.master_ring) (v.apart)
            master_out;
      free_ring = insert_head-IsRing l 1 n free (v.free_ring) free_out;
      apart = λ k at. ground (arith, v.apart k at, at, master_out);
    }

    pub master-tail : IsLists (insert_tail 0 n l) (master ++ n ∷ []) free
    master-tail = record {
      master_ring = insert_tail-IsRing l 0 n master (v.master_ring) master_out;
      free_ring =
          insert_tail-other l 0 n master (v.master_ring) master_out 1 free (v.free_ring)
            (Apart-sym (0 ∷ master) (1 ∷ free) (v.apart)) free_out;
      apart = λ k at. elim (eq-cases k n) [
        | inl same ↦ ground (arith, same, free_out)
        | inr other ↦ v.apart k (ground (arith, at, other, has-append k master (n ∷ [])))
      ];
    }
