-- ===== src/Fs/Hash/Delete.antt =====
-- What is in a hash table (fs/buffer.c, fs/inode.c) after a deletion.
use native.Mathlib.Nat.{mod-lt}
use os_thix.Prelude.{
  ℕ, ◌+◌, ◌<◌, ◌≤◌, ◌≡◌, ◌≢◌, ◌⊎◌, inl, inr, refl, sym, ap, ◌∙◌, false, ◌&&◌, List, has, ◌==◌,
  if◌then◌else◌, arith, Bool-cases, eq-cases, eq→==,
}
use os_thix.Fs.Hash.{Hash, hash_delete, unhashed_link}
use os_thix.Fs.Hash.Search.{IsHash, home, hashed}
use os_thix.Fs.Hash.Invariant.{without_entry, without_entry-has, hash_delete-IsHash}

module _ (base buckets : ℕ) (h : Hash) (bucket : ℕ → List ℕ) (some_buckets : 0 < buckets)
    (v : IsHash base buckets h bucket) (n : ℕ) where
  pub hashed-delete :
      (k : ℕ)
      → hashed buckets (hash_delete n h) (without_entry (home buckets h n) n bucket) k
        ≡ (if k == n then false else hashed buckets h bucket k)
  unfolding hash_delete
  hashed-delete k = elim (eq-cases k n) [
    | inl e ↦ apart ∙ rw (eq→== k n e, eq→== _ _ (sym (ap (home buckets h) e))) refl
    | inr ne ↦ apart ∙ ground (arith, ne)
  ]
    where
      apart : has k (without_entry (home buckets h n) n bucket (home buckets h k)) ≡ (
          if (home buckets h n == home buckets h k) && (k == n)
          then false
          else has k (bucket (home buckets h k)))
      apart =
          without_entry-has (home buckets h n) n k (home buckets h k) bucket
            ((v.rings _ (mod-lt _ some_buckets)).distinct)

  -- The deletion of an entry, which need not be in the table, leaves the other entries there.
  pub deleted :
      base + buckets ≤ unhashed_link
      → n < base
      → (bucket' : ℕ → List ℕ) × IsHash base buckets (hash_delete n h) bucket'
        × ((k : ℕ)
            → hashed buckets (hash_delete n h) bucket' k
              ≡ (if k == n then false else hashed buckets h bucket k))
  unfolding hash_delete
  deleted small below = elim (Bool-cases (hashed buckets h bucket n)) [
    | inl inside ↦ (
      without_entry (home buckets h n) n bucket,
      hash_delete-IsHash base buckets h bucket some_buckets small v n inside,
      hashed-delete,
    )
    | inr out ↦ (bucket, rw (same out) v, λ k. others out k (eq-cases k n))
  ]
    where
      same : hashed buckets h bucket n ≡ false → hash_delete n h ≡ h
      same out = rw (eq→== (h.links.next n) unhashed_link (v.unhashed n below out)) refl

      others :
          hashed buckets h bucket n ≡ false
          → (k : ℕ) → (k ≡ n) ⊎ (k ≢ n)
          → hashed buckets h bucket k ≡ (if k == n then false else hashed buckets h bucket k)
      others out k (inl e) = ground (arith, e, out)
      others out k (inr ne) = ground (arith, ne)
