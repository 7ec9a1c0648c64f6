-- ===== src/Fs/Buffer/Invariant.antt =====
-- When the buffer cache (fs/buffer.c) is well formed, and the steps between such states.
use os_thix.Prelude.{
  ℕ, ◌-◌, ◌<◌, ◌≡◌, ◌≢◌, Bool, true, false, List, has, length, ◌==◌, if◌then◌else◌, arith, update,
}
use os_thix.Fs.Links.{Links, unlink}
use os_thix.Fs.Links.Paths.{remove, Distinct}
use os_thix.Fs.Links.Rings.{has-remove, length-remove}
use os_thix.Fs.Hash.{Hash, hash_delete}
use os_thix.Fs.Hash.Search.{IsHash, hashed, home}
use os_thix.Fs.Hash.Invariant.{without_entry, hash_delete-IsHash}
use os_thix.Fs.Hash.Delete.{hashed-delete}
use os_thix.Fs.Buffer.{Buffers, max_buffers, buffers_buckets_no}
use os_thix.Fs.Buffer.Lists.{IsLists, unlink-free, unlink-master}

-- Whether a buffer is in the hash table.
abbrev pub cached : Hash → (ℕ → List ℕ) → ℕ → Bool
cached h bucket = hashed buffers_buckets_no h bucket

-- The unused buffers are not in the hash table, the free ones are and are not busy, a buffer of
-- the hash table that is not busy is free, and the counts are those of the lists.
pub record IsSound (h : Hash) (l : Links) (busy : ℕ → Bool) (free_buffers master_free_buffers : ℕ)
    (master free : List ℕ) (bucket : ℕ → List ℕ) : Type 0 where
  pub table : IsHash max_buffers buffers_buckets_no h bucket
  pub lists : IsLists l master free
  pub unused :
      (k : ℕ) → has k master ≡ true → (1 < k) × (k < max_buffers) × (cached h bucket k ≡ false)
  pub idle :
      (k : ℕ)
      → has k free ≡ true
      → (1 < k) × (k < max_buffers) × (cached h bucket k ≡ true) × (busy k ≡ false)
  pub listed : (k : ℕ) → cached h bucket k ≡ true → busy k ≡ false → has k free ≡ true
  pub in_range : (k : ℕ) → cached h bucket k ≡ true → 1 < k
  pub master_count : master_free_buffers ≡ length master
  pub free_count : free_buffers ≡ length free

-- The cache with these lists of unused and free buffers and these buckets is well formed.
abbrev pub IsCache : Buffers → List ℕ → List ℕ → (ℕ → List ℕ) → Type 0
IsCache b = IsSound (b.hash) (b.list) (b.busy) (b.free_buffers) (b.master_free_buffers)

module _ (h : Hash) (l : Links) (busy : ℕ → Bool) (n_free n_master : ℕ) (master free : List ℕ)
    (bucket : ℕ → List ℕ) (v : IsSound h l busy n_free n_master master free bucket) (n : ℕ) where
  in_remove :
      (xs : List ℕ) (k : ℕ) → Distinct xs → has k (remove n xs) ≡ true → (k ≢ n) × (has k xs ≡ true)
  in_remove xs k distinct at = (
    λ e. ground (arith, at, e, has-remove k n xs distinct),
    ground (arith, at, has-remove k n xs distinct),
  )

  keep_in :
      (xs : List ℕ) (k : ℕ) → Distinct xs → has k xs ≡ true → k ≢ n → has k (remove n xs) ≡ true
  keep_in xs k distinct at ne = ground (arith, at, ne, has-remove k n xs distinct)

  free_once : Distinct free
  free_once = v.lists.free_ring.distinct

  -- A free buffer is taken off its list and becomes busy.
  pub take_free :
      has n free ≡ true
      → IsSound h
          (unlink n l)
          (update busy n true)
          (n_free - 1)
          n_master
          master
          (remove n free)
          bucket
  take_free inside = record {
    table = v.table;
    lists = unlink-free l master free (v.lists) n inside;
    unused = v.unused;
    idle = λ k at.
        ground
          (arith, v.idle k ((in_remove free k free_once at).1), (in_remove free k free_once at).0);
    listed = λ k at rest.
        keep_in free k free_once (v.listed k at (ground (arith, rest))) (ground (arith, rest));
    in_range = v.in_range;
    master_count = v.master_count;
    free_count = omega (arith, v.free_count, length-remove n free inside);
  }

  -- An unused buffer is taken off its list.
  pub take_master :
      has n master ≡ true
      → IsSound h (unlink n l) busy n_free (n_master - 1) (remove n master) free bucket
  take_master inside = record {
    table = v.table;
    lists = unlink-master l master free (v.lists) n inside;
    unused = λ k at. v.unused k ((in_remove master k (v.lists.master_ring.distinct) at).1);
    idle = v.idle;
    listed = v.listed;
    in_range = v.in_range;
    master_count = omega (arith, v.master_count, length-remove n master inside);
    free_count = v.free_count;
  }

  pub cached-delete :
      (k : ℕ)
      → cached h bucket n ≡ true
      → cached (hash_delete n h) (without_entry (home buffers_buckets_no h n) n bucket) k
        ≡ (if k == n then false else cached h bucket k)
  cached-delete k inside =
      hashed-delete max_buffers buffers_buckets_no h bucket (omega arith) (v.table) n k

  -- A free buffer is taken off its list and out of the hash table.
  pub reclaim :
      has n free ≡ true
      → IsSound
          (hash_delete n h)
          (unlink n l)
          busy
          (n_free - 1)
          n_master
          master
          (remove n free)
          (without_entry (home buffers_buckets_no h n) n bucket)
  reclaim inside = record {
    table =
        hash_delete-IsHash max_buffers buffers_buckets_no h bucket (omega arith) (omega arith)
          (v.table) n ((v.idle n inside).2);
    lists = unlink-free l master free (v.lists) n inside;
    unused = λ k at. ground (arith, v.unused k at, cached-delete k ((v.idle n inside).2));
    idle = λ k at. ground (
      arith,
      v.idle k ((in_remove free k free_once at).1),
      (in_remove free k free_once at).0,
      cached-delete k ((v.idle n inside).2),
    );
    listed = λ k at rest.
        keep_in free k free_once
          (v.listed k (ground (arith, at, cached-delete k ((v.idle n inside).2))) rest)
          (ground (arith, at, cached-delete k ((v.idle n inside).2)));
    in_range = λ k at. v.in_range k (ground (arith, at, cached-delete k ((v.idle n inside).2)));
    master_count = v.master_count;
    free_count = omega (arith, v.free_count, length-remove n free inside);
  }
