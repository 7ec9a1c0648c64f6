-- ===== src/Fs/Buffer/Init.antt =====
-- The buffer cache that `buf_init` (fs/buffer.c) sets up.
use os_thix.Prelude.{
  ℕ, zero, suc, ◌+◌, ◌-◌, ◌<◌, ◌≤◌, ◌≡◌, inl, inr, refl, true, false, List, [], ◌∷◌, ◌++◌, has,
  has-append, arith, eq-cases, Bool-cases, length, length-append,
}
use os_thix.Fs.Buffer.{
  Buffers, max_buffers, empty_buffers, list_unused, buf_init, buf_master_list_insert,
}
use os_thix.Fs.Buffer.Invariant.{IsCache}
use os_thix.Fs.Buffer.Steps.{add_master}

abbrev pub no_entries : ℕ → List ℕ
no_entries i = []

pub empty_buffers-IsCache : IsCache empty_buffers [] [] no_entries
unfolding empty_buffers
empty_buffers-IsCache = record {
  table = record {
    rings = λ i hi. record {
      linked = (ground (arith, hi), ground (arith, hi));
      apart = refl;
      distinct = tt;
    };
    placed = λ i k hi inside. absurd (ground (arith, inside));
    unhashed = λ k hk out. ground (arith, hk);
    unique = λ j k hj hk same_device same_block. absurd (ground (arith, hj));
  };
  lists = record {
    master_ring = record { linked = (refl, refl); apart = refl; distinct = tt };
    free_ring = record { linked = (refl, refl); apart = refl; distinct = tt };
    apart = λ k inside. ground (arith, inside);
  };
  unused = λ k inside. absurd (ground (arith, inside));
  idle = λ k inside. absurd (ground (arith, inside));
  listed = λ k inside rest. absurd (ground (arith, inside));
  in_range = λ k inside. absurd (ground (arith, inside));
  master_count = refl;
  free_count = refl;
}

pub insert_unused :
    (n : ℕ) (b : Buffers) (master : List ℕ)
    → IsCache b master [] no_entries
    → 1 < n
    → n < max_buffers
    → has n master ≡ false
    → IsCache (buf_master_list_insert n b) (master ++ n ∷ []) [] no_entries
unfolding buf_master_list_insert
insert_unused n b master v above below new =
    add_master (b.hash) (b.list) (b.busy) (b.free_buffers) (b.master_free_buffers) master []
      no_entries v n above below refl new

list_unused-IsCache :
    (count n : ℕ) (b : Buffers) (master : List ℕ)
    → IsCache b master [] no_entries
    → 1 < n
    → n + count ≤ max_buffers
    → ((k : ℕ) → has k master ≡ true → k < n)
    → (master' : List ℕ) × IsCache (list_unused count n b) master' [] no_entries
      × (length master' ≡ length master + count)
unfolding list_unused
list_unused-IsCache zero n b master v above room below = (master, v, omega arith)
list_unused-IsCache (suc count) n b master v above room below = more (
    list_unused-IsCache count (suc n) (buf_master_list_insert n b) (master ++ n ∷ [])
      (insert_unused n b master v above (omega arith) new) (omega arith) (omega arith) lower)
  where
    new : has n master ≡ false
    new = elim (Bool-cases (has n master)) [
      | inl inside ↦ absurd (omega (arith, below n inside))
      | inr no_more ↦ no_more
    ]

    lower : (k : ℕ) → has k (master ++ n ∷ []) ≡ true → k < suc n
    lower k inside = elim (eq-cases k n) [
      | inl same ↦ omega arith
      | inr other ↦
          omega (arith, below k (ground (arith, inside, other, has-append k master (n ∷ []))))
    ]

    more :
        (master' : List ℕ) × IsCache
            (list_unused count (suc n) (buf_master_list_insert n b))
            master'
            []
            no_entries
          × (length master' ≡ length (master ++ n ∷ []) + count)
        → (master' : List ℕ) × IsCache
            (list_unused count (suc n) (buf_master_list_insert n b))
            master'
            []
            no_entries
          × (length master' ≡ length master + suc count)
    more (master', v', size) = (master', v', omega (arith, size, length-append master (n ∷ [])))

-- The cache that `buf_init` sets up is well formed: no block is in it, no buffer is free, and all
-- entries but the two heads are unused.
pub buf_init-IsCache :
    (master : List ℕ) × IsCache buf_init master [] no_entries × (length master ≡ max_buffers - 2)
unfolding buf_init
buf_init-IsCache =
    list_unused-IsCache (max_buffers - 2) 2 empty_buffers [] empty_buffers-IsCache (omega arith)
      (omega arith) (λ k inside. absurd (ground (arith, inside)))
