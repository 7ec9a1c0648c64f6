-- ===== src/Fs/Buffer/Get.antt =====
-- What `buf_get` (fs/buffer.c) returns, and what it does to the cache.
use os_thix.Prelude.{
  ℕ, ◌-◌, ◌%◌, ◌<◌, ◌≡◌, ◌⊎◌, inl, inr, refl, ◌∙◌, subst, Bool, true, false, some, List, [], ◌∷◌,
  has, ◌==◌, if◌then◌else◌, if-elim, arith, Bool-cases, eq→==, ne→==,
}
use os_thix.Fs.Links.{unlink}
use os_thix.Fs.Links.Paths.{remove}
use os_thix.Fs.Hash.Search.{home, is_for, IsFound, hash_search-IsFound}
use os_thix.Fs.Hash.Invariant.{without_entry}
use os_thix.Fs.Hash.{hash_delete, hash_search}
use os_thix.Fs.Buffer.{
  Buffers, Chunk, GetTurn, got, waits_buffer, waits_any, flushes, shrinks, bad_size, buf_get_turn,
  get_found, get_new, buf_update, buf_list_delete, buf_master_list_delete, buf_hash_delete,
  buffers_buckets_no, max_buffers,
}
use os_thix.Fs.Buffer.Invariant.{
  IsSound, IsCache, cached, take_free, take_master, reclaim, cached-delete,
}
use os_thix.Fs.Buffer.Steps.{given}

-- Where a buffer for the block may come from: the cache has the block in a free buffer; or the buffer is the first
-- unused one; or there is none, and it is the first free one. In the last two cases its contents are not valid.
abbrev Source :
    Buffers → List ℕ → List ℕ → (ℕ → List ℕ) → ℕ → ℕ → ℕ → Buffers → List ℕ → List ℕ → Type 0
Source b master free bucket device block n b' master' free' =
    ((cached (b.hash) bucket n ≡ true)
      × (is_for (b.hash) device block n ≡ true)
      × (b'.valid ≡ b.valid)
      × (has n free ≡ true)
      × (master' ≡ master)
      × (free' ≡ remove n free))
    ⊎ ((b'.valid n ≡ false) × (master ≡ n ∷ master') × (free' ≡ free))
    ⊎ ((b'.valid n ≡ false) × (master ≡ []) × (master' ≡ []) × (free ≡ n ∷ free'))

-- What a turn of `buf_get` owes: a busy buffer of the cache for the block, in a cache that is well
-- formed; or the cache as it was but for the marks of demand, where it has to wait or to make room.
abbrev pub Fetched : Buffers → List ℕ → List ℕ → (ℕ → List ℕ) → ℕ → ℕ → GetTurn → Type 0
Fetched b master free bucket device block (got n b') =
    (master' : List ℕ) × (free' : List ℕ) × (bucket' : ℕ → List ℕ) × IsCache b' master' free'
      bucket'
    × (b'.busy n ≡ true)
    × (cached (b'.hash) bucket' n ≡ true)
    × (is_for (b'.hash) device block n ≡ true)
    × Source b master free bucket device block n b' master' free'
Fetched b master free bucket device block (waits_buffer n b') =
    IsCache b' master free bucket × (b.busy n ≡ true)
Fetched b master free bucket device block (waits_any b') =
    IsCache b' master free bucket × (master ≡ []) × (free ≡ [])
Fetched b master free bucket device block (flushes b') = IsCache b' master free bucket
Fetched b master free bucket device block (shrinks b') = IsCache b' master free bucket
Fetched b master free bucket device block bad_size = ⊥

has-head : (x : ℕ) (xs : List ℕ) → has x (x ∷ xs) ≡ true
has-head x xs = ground arith

remove-head : (x : ℕ) (xs : List ℕ) → remove x (x ∷ xs) ≡ xs
unfolding remove
remove-head x xs = rw (eq→== x x refl) refl

get_hit :
    (b : Buffers) (master free : List ℕ) (bucket : ℕ → List ℕ) (pages : Bool) (chunk : Chunk)
    (device block size n : ℕ)
    → IsCache b master free bucket
    → 0 < n
    → cached (b.hash) bucket n ≡ true
    → is_for (b.hash) device block n ≡ true
    → Fetched b master free bucket device block (get_found pages chunk device block size n b)
unfolding get_found
get_hit b master free bucket pages chunk device block size n v positive inside hit =
    rw (ne→== n 0 (omega arith)) (elim (Bool-cases (b.busy n)) [
      | inl e ↦ rw e (v, e)
      | inr e ↦ rw e (
        master,
        remove n free,
        bucket,
        take_free (b.hash) (b.list) (b.busy) (b.free_buffers) (b.master_free_buffers) master free
            bucket v n (v.listed n inside e),
        ground arith,
        inside,
        hit,
        inl (inside, hit, refl, v.listed n inside e, refl, refl),
      )
    ])

-- A block that is not in the cache. `pages` and `chunk` are what memory management answers.
module _ (chunk : Chunk) (device block size : ℕ) (b : Buffers) (bucket : ℕ → List ℕ)
    (in_field : block < 16777216)
    (fresh : (k : ℕ)
      → cached (b.hash) bucket k ≡ true
      → is_for (b.hash) device block k ≡ false) where
  cut_block : block % 16777216 ≡ block
  cut_block = omega arith

  -- The buffer `n`, in no list and not in the hash table, is given the block.
  get_given :
      (b' : Buffers) (master' free' : List ℕ) (bucket'' : ℕ → List ℕ) (n : ℕ) (master free : List ℕ)
      → IsCache b' master' free' bucket''
      → (1 < n) × (n < max_buffers)
      → cached (b'.hash) bucket'' n ≡ false
      → has n master' ≡ false
      → ((k : ℕ) → cached (b'.hash) bucket'' k ≡ true → is_for (b'.hash) device block k ≡ false)
      → ((master ≡ n ∷ master') × (free' ≡ free))
        ⊎ ((master ≡ []) × (master' ≡ []) × (free ≡ n ∷ free'))
      → Fetched b master free bucket device block (got n (buf_update n device block size chunk b'))
  unfolding buf_update
  get_given b' master' free' bucket'' n master free v (above, below) out unlisted none_yet source =
      rw cut_block (
        let (bucket', sound, inside, hit) =
          given (b'.hash) (b'.list) (b'.busy) (b'.free_buffers) (b'.master_free_buffers) master'
            free' bucket'' v n above below out unlisted device block none_yet in
        (
          master',
          free',
          bucket',
          sound,
          ground arith,
          inside,
          hit,
          elim source [
            | inl (first, same) ↦ inr (inl (ground arith, first, same))
            | inr (empty, still_empty, first) ↦ inr (inr (ground arith, empty, still_empty, first))
          ],
        ))

  -- The first unused buffer.
  get_unused :
      (master free : List ℕ) (x : ℕ)
      → IsCache b (x ∷ master) free bucket
      → Fetched b
          (x ∷ master)
          free
          bucket
          device
          block
          (got x (buf_update x device block size chunk (buf_master_list_delete x b)))
  unfolding buf_master_list_delete
  get_unused master free x v =
      get_given (buf_master_list_delete x b) master free bucket x (x ∷ master) free
        (subst
          (λ xs.
            IsSound (b.hash) (unlink x (b.list)) (b.busy) (b.free_buffers)
              (b.master_free_buffers - 1) xs free bucket)
          (remove-head x master)
          (take_master (b.hash) (b.list) (b.busy) (b.free_buffers) (b.master_free_buffers)
            (x ∷ master) free bucket v x (has-head x master)))
        ((v.unused x (has-head x master)).0, (v.unused x (has-head x master)).1)
        ((v.unused x (has-head x master)).2) ((v.lists.master_ring.distinct).0) fresh
        (inl (refl, refl))

  -- The first free buffer, where no buffer is unused.
  get_oldest :
      (free : List ℕ) (x : ℕ)
      → IsCache b [] (x ∷ free) bucket
      → Fetched b []
          (x ∷ free)
          bucket
          device
          block
          (got x (buf_update x device block size chunk (buf_hash_delete x (buf_list_delete x b))))
  unfolding buf_hash_delete buf_list_delete hash_delete
  get_oldest free x v =
      get_given (buf_hash_delete x (buf_list_delete x b)) [] free
        (without_entry (home buffers_buckets_no (b.hash) x) x bucket) x [] (x ∷ free)
        (subst
          (λ xs.
            IsSound (hash_delete x (b.hash)) (unlink x (b.list)) (b.busy) (b.free_buffers - 1)
              (b.master_free_buffers) [] xs
              (without_entry (home buffers_buckets_no (b.hash) x) x bucket))
          (remove-head x free)
          (reclaim (b.hash) (b.list) (b.busy) (b.free_buffers) (b.master_free_buffers) [] (x ∷ free)
            bucket v x (has-head x free)))
        ((v.idle x (has-head x free)).0, (v.idle x (has-head x free)).1)
        (without x ∙ rw (eq→== x x refl) refl) refl
        (λ k at. fresh k (ground (arith, at, without k))) (inr (refl, refl, refl))
    where
      without :
          (k : ℕ)
          → cached
              (hash_delete x (b.hash))
              (without_entry (home buffers_buckets_no (b.hash) x) x bucket)
              k
            ≡ (if k == x then false else cached (b.hash) bucket k)
      without k =
          cached-delete (b.hash) (b.list) (b.busy) (b.free_buffers) (b.master_free_buffers) []
            (x ∷ free) bucket v x k ((v.idle x (has-head x free)).2)

  get_new-Fetched :
      (pages : Bool) (master free : List ℕ)
      → IsCache b master free bucket
      → Fetched b master free bucket device block (get_new pages chunk device block size b)
  unfolding get_new
  get_new-Fetched false master free v = v
  get_new-Fetched true (x ∷ master) free v =
      rw
        (
          ne→== (b.master_free_buffers) 0 (omega (arith, v.master_count)),
          v.lists.master_ring.linked.0,
        )
        (get_unused master free x v)
  get_new-Fetched true [] [] v =
      rw (eq→== (b.master_free_buffers) 0 (v.master_count), eq→== (b.free_buffers) 0 (v.free_count))
        (v, refl, refl)
  get_new-Fetched true [] (x ∷ free) v =
      rw
        (
          eq→== (b.master_free_buffers) 0 (v.master_count),
          ne→== (b.free_buffers) 0 (omega (arith, v.free_count)),
          v.lists.free_ring.linked.0,
          (v.idle x (has-head x free)).3,
        )
        (if-elim (Fetched b [] (x ∷ free) bucket device block) (b.delayed_write x) (λ dirty. v)
          (λ clean. get_oldest free x v))

-- On a well-formed cache, for a block number that fits the field, a turn of `buf_get` ends. Either it returns a
-- buffer that is busy and in the hash table for that block, in a well-formed cache, and that is the
-- free buffer that had the block already, with the same contents, or else, with contents that are not valid,
-- the first unused one, or, if none is unused, the first free one. Or it keeps the lists and the buckets: it
-- waits for a busy buffer, or for any buffer where none is unused or free, or makes room first.
pub buf_get_turn-Fetched :
    (b : Buffers) (master free : List ℕ) (bucket : ℕ → List ℕ) (pages : Bool) (chunk : Chunk)
    (device block : ℕ)
    → IsCache b master free bucket
    → block < 16777216
    → (t : GetTurn) × (buf_get_turn pages chunk device block 1024 b ≡ some t)
      × Fetched b master free bucket device block t
unfolding buf_get_turn
buf_get_turn-Fetched b master free bucket pages chunk device block v in_field = searched (
    hash_search-IsFound max_buffers buffers_buckets_no device block (b.hash) bucket (omega arith)
      (v.table))
  where
    searched :
        (n : ℕ) × (hash_search max_buffers buffers_buckets_no device block (b.hash) ≡ some n)
          × IsFound buffers_buckets_no (b.hash) bucket device block n
        → (t : GetTurn) × (buf_get_turn pages chunk device block 1024 b ≡ some t)
          × Fetched b master free bucket device block t
    searched (n, e, found) = (
      get_found pages chunk device block 1024 n b,
      rw (e, buf_get_turn) refl,
      elim found [
        | inl (zero_n, fresh) ↦
            rw (zero_n, get_found)
              (get_new-Fetched chunk device block 1024 b bucket in_field fresh pages master free v)
        | inr (positive, inside, hit) ↦
            get_hit b master free bucket pages chunk device block 1024 n v positive inside hit
      ],
    )
