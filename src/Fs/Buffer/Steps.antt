-- ===== src/Fs/Buffer/Steps.antt =====
-- The steps of the buffer cache (fs/buffer.c) that give buffers away and take them back.
use native.Mathlib.Nat.{mod-lt}
use os_thix.Prelude.{
  ℕ, ◌+◌, ◌<◌, ◌≡◌, inl, inr, refl, ◌∙◌, Bool, true, false, List, [], ◌∷◌, ◌++◌, has, has-append,
  length-append, arith, Bool-cases, eq-cases, eq→==, update,
}
use os_thix.Fs.Links.{Links, insert_tail, insert_head}
use os_thix.Fs.Hash.{Hash, hash_insert}
use os_thix.Fs.Hash.Search.{is_for}
use os_thix.Fs.Hash.Rekey.{rekey}
use os_thix.Fs.Hash.Reuse.{reused}
use os_thix.Fs.Buffer.{max_buffers, buffers_buckets_no}
use os_thix.Fs.Buffer.Lists.{free-tail, free-head, master-tail}
use os_thix.Fs.Buffer.Invariant.{IsSound, cached}

module _ (h : Hash) (l : Links) (busy : ℕ → Bool) (n_free n_master : ℕ) (master free : List ℕ)
    (bucket : ℕ → List ℕ) (v : IsSound h l busy n_free n_master master free bucket) (n : ℕ) where
  -- A buffer that is in no list and not in the hash table becomes unused.
  module _ (above : 1 < n) (below : n < max_buffers) (out : cached h bucket n ≡ false)
      (master_out : has n master ≡ false) where
    not_free : has n free ≡ false
    not_free = elim (Bool-cases (has n free)) [
      | inl inside ↦ absurd (ground (arith, (v.idle n inside).2, out))
      | inr no_more ↦ no_more
    ]

    pub add_master :
        IsSound h (insert_tail 0 n l) busy n_free (n_master + 1) (master ++ n ∷ []) free bucket
    add_master = record {
      table = v.table;
      lists =
          master-tail l master free (v.lists) n (ground (arith, master_out, above))
            (ground (arith, not_free, above));
      unused = λ k at. elim (eq-cases k n) [
        | inl same ↦ rw same (above, below, out)
        | inr other ↦ v.unused k (ground (arith, at, other, has-append k master (n ∷ [])))
      ];
      idle = v.idle;
      listed = v.listed;
      in_range = v.in_range;
      master_count = omega (arith, v.master_count, length-append master (n ∷ []));
      free_count = v.free_count;
    }

    -- It is given a block that is in no other buffer of the hash table, and becomes busy.
    module _ (d blk : ℕ)
        (fresh : (k : ℕ) → cached h bucket k ≡ true → is_for h d blk k ≡ false) where
      pub given :
          (bucket' : ℕ → List ℕ) × IsSound
            (hash_insert max_buffers buffers_buckets_no n (rekey n d blk h))
            l
            (update busy n true)
            n_free
            n_master
            master
            free
            bucket'
          × (cached (hash_insert max_buffers buffers_buckets_no n (rekey n d blk h)) bucket' n
              ≡ true)
          × (is_for (hash_insert max_buffers buffers_buckets_no n (rekey n d blk h)) d blk n ≡ true)
      given =
          let (bucket', table, members, hit) =
            reused max_buffers buffers_buckets_no h bucket (omega arith) (omega arith) (v.table) n d
              blk (omega (arith, above)) below out fresh in
          (
            bucket',
            record {
              table = table;
              lists = v.lists;
              unused = λ k at. ground (arith, v.unused k at, members k, at, master_out);
              idle = λ k at. ground (arith, v.idle k at, members k, at, not_free);
              listed = λ k at rest.
                  v.listed k (ground (arith, at, rest, members k)) (ground (arith, rest));
              in_range = λ k at. elim (eq-cases k n) [
                | inl e ↦ rw e above
                | inr ne ↦ v.in_range k (ground (arith, at, ne, members k))
              ];
              master_count = v.master_count;
              free_count = v.free_count;
            },
            members n ∙ rw (eq→== n n refl) refl,
            hit,
          )

  -- A busy buffer of the hash table is released, to the end or to the front of the free ones.
  module _ (inside : cached h bucket n ≡ true) (is_busy : busy n ≡ true) where
    free_out : has n (1 ∷ free) ≡ false
    free_out = elim (Bool-cases (has n free)) [
      | inl at ↦ absurd (ground (arith, (v.idle n at).3, is_busy))
      | inr no_more ↦ ground (arith, no_more, v.in_range n inside)
    ]

    master_out' : has n (0 ∷ master) ≡ false
    master_out' = elim (Bool-cases (has n master)) [
      | inl at ↦ absurd (ground (arith, (v.unused n at).2, inside))
      | inr no_more ↦ ground (arith, no_more, v.in_range n inside)
    ]

    has_own : (xs : List ℕ) → has n (xs ++ n ∷ []) ≡ true
    has_own xs = ground (arith, has-append n xs (n ∷ []))

    pub release_last :
        IsSound h
          (insert_tail 1 n l)
          (update busy n false)
          (n_free + 1)
          n_master
          master
          (free ++ n ∷ [])
          bucket
    release_last = record {
      table = v.table;
      lists = free-tail l master free (v.lists) n master_out' free_out;
      unused = v.unused;
      idle = λ k at. elim (eq-cases k n) [
        | inl e ↦ rw e (
          v.in_range n inside,
          (v.table.placed _ n (mod-lt _ {m = 199} (omega arith)) inside).2,
          inside,
          ground arith,
        )
        | inr ne ↦ ground (arith, v.idle k (ground (arith, at, ne, has-append k free (n ∷ []))), ne)
      ];
      listed = λ k at rest. elim (eq-cases k n) [
        | inl e ↦ rw e (has_own free)
        | inr ne ↦
            ground (arith, v.listed k at (ground (arith, rest, ne)), has-append k free (n ∷ []))
      ];
      in_range = v.in_range;
      master_count = v.master_count;
      free_count = omega (arith, v.free_count, length-append free (n ∷ []));
    }

    pub release_first :
        IsSound h
          (insert_head 1 n l)
          (update busy n false)
          (n_free + 1)
          n_master
          master
          (n ∷ free)
          bucket
    release_first = record {
      table = v.table;
      lists = free-head l master free (v.lists) n master_out' free_out;
      unused = v.unused;
      idle = λ k at. elim (eq-cases k n) [
        | inl e ↦ rw e (
          v.in_range n inside,
          (v.table.placed _ n (mod-lt _ {m = 199} (omega arith)) inside).2,
          inside,
          ground arith,
        )
        | inr ne ↦ ground (arith, v.idle k (ground (arith, at, ne)), ne)
      ];
      listed = λ k at rest. elim (eq-cases k n) [
        | inl e ↦ ground (arith, e)
        | inr ne ↦ ground (arith, v.listed k at (ground (arith, rest, ne)))
      ];
      in_range = v.in_range;
      master_count = v.master_count;
      free_count = omega (arith, v.free_count);
    }
