-- ===== src/Fs/Hash/Rekey.antt =====
-- An entry of a hash table (fs/buffer.c, fs/inode.c) that is reused for another block.
use native.Mathlib.Nat.{mod-lt}
use os_thix.Prelude.{
  ℕ, ◌<◌, ◌≡◌, ◌≢◌, inl, inr, refl, sym, ◌∙◌, subst, true, false, List, has, eq-cases, ne→==,
  Bool-cases, update,
}
use os_thix.Fs.Links.Paths.{has-ne}
use os_thix.Fs.Hash.{Hash, unhashed_link}
use os_thix.Fs.Hash.Search.{home, hashed, IsHash}

-- An entry that is in no bucket may be given another block.
abbrev pub rekey : ℕ → ℕ → ℕ → Hash → Hash
rekey n device block h = record h {
  device = update (h.device) n device;
  block = update (h.block) n block;
}

module _ (base buckets : ℕ) (h : Hash) (bucket : ℕ → List ℕ) (some_buckets : 0 < buckets)
    (v : IsHash base buckets h bucket) (n d b : ℕ) (below : n < base)
    (out : hashed buckets h bucket n ≡ false) where
  nowhere : (i : ℕ) → i < buckets → has n (bucket i) ≡ false
  nowhere i hi = elim (Bool-cases (has n (bucket i))) [
    | inl there ↦ absurd (
        has-ne n n (bucket i) there
          (subst (λ j. has n (bucket j) ≡ false) ((v.placed i n hi there).0) out) refl)
    | inr no_more ↦ no_more
  ]

  pub rekey-out : hashed buckets (rekey n d b h) bucket n ≡ false
  rekey-out = nowhere _ (mod-lt _ some_buckets)

  apart : (i k : ℕ) → i < buckets → has k (bucket i) ≡ true → n ≢ k
  apart i k hi inside e = has-ne k n (bucket i) inside (nowhere i hi) (sym e)

  old_home : (k : ℕ) → n ≢ k → home buckets (rekey n d b h) k ≡ home buckets h k
  old_home k ne = rw (ne→== n k ne) refl

  pub rekey_others :
      (k : ℕ)
      → hashed buckets (rekey n d b h) bucket k ≡ true
      → (n ≢ k) × (hashed buckets h bucket k ≡ true)
  rekey_others k inside = (other, subst (λ i. has k (bucket i) ≡ true) (old_home k other) inside)
    where
      other : n ≢ k
      other = apart _ k (mod-lt _ some_buckets) inside

  pub rekey-IsHash : IsHash base buckets (rekey n d b h) bucket
  rekey-IsHash = record {
    rings = v.rings;
    placed = λ i k hi inside. rw (ne→== n k (apart i k hi inside)) (v.placed i k hi inside);
    unhashed = λ k hk no_more. elim (eq-cases n k) [
      | inl e ↦ subst (λ m. h.links.next m ≡ unhashed_link) e (v.unhashed n below out)
      | inr ne ↦ v.unhashed k hk (subst (λ i. has k (bucket i) ≡ false) (old_home k ne) no_more)
    ];
    unique = λ j k hj hk same_device same_block.
        v.unique j k ((rekey_others j hj).1) ((rekey_others k hk).1)
          (sym (kept_device j ((rekey_others j hj).0))
            ∙ same_device
            ∙ kept_device k ((rekey_others k hk).0))
          (sym (kept_block j ((rekey_others j hj).0))
            ∙ same_block
            ∙ kept_block k ((rekey_others k hk).0));
  }
    where
      kept_device : (k : ℕ) → n ≢ k → (rekey n d b h).device k ≡ h.device k
      kept_device k ne = rw (ne→== n k ne) refl

      kept_block : (k : ℕ) → n ≢ k → (rekey n d b h).block k ≡ h.block k
      kept_block k ne = rw (ne→== n k ne) refl
