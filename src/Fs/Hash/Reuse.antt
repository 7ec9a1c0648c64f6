-- ===== src/Fs/Hash/Reuse.antt =====
-- An entry of a hash table (fs/buffer.c, fs/inode.c) that is given another block and put into its
-- bucket.
use os_thix.Prelude.{
  ℕ, ◌+◌, ◌<◌, ◌≤◌, ◌≡◌, ◌≢◌, inl, inr, refl, sym, ◌∙◌, true, false, List, has, ◌==◌, if◌then◌else◌,
  arith, eq-cases, eq→==, ne→==,
}
use os_thix.Fs.Hash.{Hash, hash_insert, unhashed_link}
use os_thix.Fs.Hash.Search.{IsHash, home, hashed, is_for}
use os_thix.Fs.Hash.Invariant.{with_entry, hash_insert-IsHash}
use os_thix.Fs.Hash.Rekey.{rekey, rekey-out, rekey-IsHash, rekey_others}

with_entry-other :
    (i n k j : ℕ) (bucket : ℕ → List ℕ) → k ≢ n → has k (with_entry i n bucket j) ≡ has k (bucket j)
with_entry-other i n k j bucket ne = ground (arith, ne)

module _ (base buckets : ℕ) (h : Hash) (bucket : ℕ → List ℕ) (some_buckets : 0 < buckets)
    (small : base + buckets ≤ unhashed_link) (v : IsHash base buckets h bucket) (n d blk : ℕ)
    (positive : 0 < n) (below : n < base) (out : hashed buckets h bucket n ≡ false)
    (fresh : (k : ℕ) → hashed buckets h bucket k ≡ true → is_for h d blk k ≡ false) where
  abbrev keyed : Hash
  keyed = rekey n d blk h

  abbrev new_bucket : ℕ → List ℕ
  new_bucket = with_entry (home buckets keyed n) n bucket

  abbrev inserted : Hash
  inserted = hash_insert base buckets n keyed

  keyed_table : IsHash base buckets keyed bucket
  keyed_table = rekey-IsHash base buckets h bucket some_buckets v n d blk below out

  keyed_out : hashed buckets keyed bucket n ≡ false
  keyed_out = rekey-out base buckets h bucket some_buckets v n d blk below out

  no_other :
      (k : ℕ)
      → hashed buckets keyed bucket k ≡ true
      → keyed.device k ≡ keyed.device n
      → keyed.block k ≡ keyed.block n
      → ⊥
  no_other k inside same_device same_block =
      clash (rekey_others base buckets h bucket some_buckets v n d blk below out k inside)
    where
      clash : (n ≢ k) × (hashed buckets h bucket k ≡ true) → ⊥
      clash (ne, old) = ground (arith, fresh k old, same_device, same_block, ne)

  hashed-insert :
      (k : ℕ)
      → hashed buckets inserted new_bucket k ≡ (if k == n then true else hashed buckets h bucket k)
  unfolding hash_insert
  hashed-insert k = elim (eq-cases k n) [
    | inl e ↦
        rw e (rw (eq→== (home buckets keyed n) (home buckets keyed n) refl, eq→== n n refl) refl)
    | inr ne ↦ rw (ne→== k n ne) (
        with_entry-other (home buckets keyed n) n k (home buckets keyed k) bucket ne
        ∙ rw (ne→== n k (λ e. ne (sym e))) refl)
  ]

  -- The table is well formed, and has the entry for that block besides those that it had.
  pub reused :
      (bucket' : ℕ → List ℕ) × IsHash base buckets
        (hash_insert base buckets n (rekey n d blk h))
        bucket'
      × ((k : ℕ)
          → hashed buckets (hash_insert base buckets n (rekey n d blk h)) bucket' k
            ≡ (if k == n then true else hashed buckets h bucket k))
      × (is_for (hash_insert base buckets n (rekey n d blk h)) d blk n ≡ true)
  unfolding hash_insert
  reused = (
    new_bucket,
    hash_insert-IsHash base buckets keyed bucket some_buckets small keyed_table n positive below
        keyed_out no_other,
    hashed-insert,
    ground arith,
  )
