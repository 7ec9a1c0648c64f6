-- ===== src/Fs/Hash/Invariant.antt =====
-- Insertion and deletion keep a hash table (fs/buffer.c, fs/inode.c) well formed.
use Prim.Native.Nat.{bit_xor}
use native.Mathlib.Nat.{mod-lt}
use os_thix.Prelude.{
  ℕ, ◌+◌, ◌<◌, ◌≤◌, ◌≡◌, ◌≢◌, ◌⊎◌, inl, inr, refl, sym, ap, ◌∙◌, subst, true, false, ◌&&◌, List,
  ◌∷◌, has, ◌==◌, if◌then◌else◌, eq-cases, eq→==, ne→==, Bool-cases, arith,
}
use os_thix.Fs.Links.{insert_head, unlink, set_next}
use os_thix.Fs.Links.Paths.{Distinct, remove, has-ne, before-has}
use os_thix.Fs.Links.Rings.{
  IsRing, Apart, insert_head-IsRing, insert_head-other, unlink-IsRing, unlink-other, set_next-other,
  next-IsRing, has-remove,
}
use os_thix.Fs.Hash.{Hash, hash_insert, hash_delete, unhashed_link}
use os_thix.Fs.Hash.Search.{home, hashed, IsHash}

-- The buckets with `n` at the head of bucket `i`, and without `n` in bucket `i`.
abbrev pub with_entry : ℕ → ℕ → (ℕ → List ℕ) → ℕ → List ℕ
with_entry i n bucket j = if i == j then n ∷ bucket j else bucket j

abbrev pub without_entry : ℕ → ℕ → (ℕ → List ℕ) → ℕ → List ℕ
without_entry i n bucket j = if i == j then remove n (bucket j) else bucket j

pub with_entry-has :
    (i n k j : ℕ) (bucket : ℕ → List ℕ)
    → has k (with_entry i n bucket j) ≡ true
    → ((k ≡ n) × (i ≡ j)) ⊎ (has k (bucket j) ≡ true)
with_entry-has i n k j bucket inside = elim (eq-cases i j) [
  | inl e ↦ elim (eq-cases k n) [
    | inl same ↦ inl (same, e)
    | inr other ↦ inr (ground (arith, inside, e, other))
  ]
  | inr ne ↦ inr (ground (arith, inside, ne))
]

with_entry-out :
    (i n k j : ℕ) (bucket : ℕ → List ℕ)
    → has k (with_entry i n bucket j) ≡ false
    → (has k (bucket j) ≡ false) × ((i ≡ j) → k ≢ n)
with_entry-out i n k j bucket no_more =
    (ground (arith, no_more), λ e same. ground (arith, no_more, e, same))

pub without_entry-has :
    (i n k j : ℕ) (bucket : ℕ → List ℕ)
    → Distinct (bucket j)
    → has k (without_entry i n bucket j)
      ≡ (if (i == j) && (k == n) then false else has k (bucket j))
without_entry-has i n k j bucket distinct = ground (arith, has-remove k n (bucket j) distinct)

module _ (base buckets : ℕ) (h : Hash) (bucket : ℕ → List ℕ) (some_buckets : 0 < buckets)
    (small : base + buckets ≤ unhashed_link) (v : IsHash base buckets h bucket) where
  home-lt : (k : ℕ) → home buckets h k < buckets
  home-lt k = mod-lt (bit_xor (h.device k) (h.block k)) some_buckets

  where_in :
      (i k : ℕ)
      → i < buckets
      → has k ((base + i) ∷ bucket i) ≡ true
      → (k ≡ base + i) ⊎ ((home buckets h k ≡ i) × (k < base))
  where_in i k hi inside = elim (eq-cases k (base + i)) [
    | inl e ↦ inl e
    | inr ne ↦ inr (
      (v.placed i k hi (ground (arith, inside, ne))).0,
      (v.placed i k hi (ground (arith, inside, ne))).2,
    )
  ]

  -- Different buckets have no entry in common.
  buckets-Apart :
      (i j : ℕ)
      → i < buckets
      → j < buckets
      → i ≢ j
      → Apart ((base + i) ∷ bucket i) ((base + j) ∷ bucket j)
  buckets-Apart i j hi hj ne k inside = elim (Bool-cases (has k ((base + j) ∷ bucket j))) [
    | inl both ↦ absurd (ground (arith, where_in i k hi inside, where_in j k hj both, ne))
    | inr no_more ↦ no_more
  ]

  -- An entry below `base` is no head, and is in no bucket if not in its own.
  only_home :
      (i k : ℕ)
      → i < buckets
      → k < base
      → has k (bucket (home buckets h k)) ≡ false
      → has k ((base + i) ∷ bucket i) ≡ false
  only_home i k hi below out = elim (Bool-cases (has k (bucket i))) [
    | inl inside ↦ absurd (ground (arith, clash inside))
    | inr no_more ↦ ground (arith, no_more)
  ]
    where
      clash : has k (bucket i) ≡ true → ⊥
      clash inside =
          has-ne k k (bucket i) inside
            (subst (λ j. has k (bucket j) ≡ false) ((v.placed i k hi inside).0) out) refl

  module _ (n : ℕ) (positive : 0 < n) (below : n < base) (out : hashed buckets h bucket n ≡ false)
      (fresh : (k : ℕ)
        → hashed buckets h bucket k ≡ true
        → h.device k ≡ h.device n
        → h.block k ≡ h.block n
        → ⊥) where
    hash_insert-rings :
        (i : ℕ)
        → i < buckets
        → IsRing
            ((hash_insert base buckets n h).links)
            (base + i)
            (with_entry (home buckets h n) n bucket i)
    unfolding hash_insert
    hash_insert-rings i hi = elim (eq-cases (home buckets h n) i) [
      | inl e ↦
          subst
            (λ j.
              IsRing (insert_head (base + home buckets h n) n (h.links)) (base + j)
                (with_entry (home buckets h n) n bucket j))
            e
            (rw (eq→== (home buckets h n) (home buckets h n) refl) (
              insert_head-IsRing (h.links) (base + home buckets h n) n (bucket (home buckets h n))
                (v.rings _ (home-lt n)) (only_home _ n (home-lt n) below out)))
      | inr ne ↦ rw (ne→== (home buckets h n) i ne) (
          insert_head-other (h.links) (base + home buckets h n) n (bucket (home buckets h n))
            (v.rings _ (home-lt n)) (only_home _ n (home-lt n) below out) (base + i) (bucket i)
            (v.rings i hi) (buckets-Apart i (home buckets h n) hi (home-lt n) (λ e. ne (sym e)))
            (only_home i n hi below out))
    ]

    pub hash_insert-IsHash :
        IsHash base buckets (hash_insert base buckets n h) (with_entry (home buckets h n) n bucket)
    unfolding hash_insert insert_head
    hash_insert-IsHash = record {
      rings = hash_insert-rings;
      placed = λ i k hi inside. elim (with_entry-has (home buckets h n) n k i bucket inside) [
        | inl (same, e) ↦ rw same (e, positive, below)
        | inr old ↦ v.placed i k hi old
      ];
      unhashed = λ k hk no_more.
          stays k hk (with_entry-out (home buckets h n) n k (home buckets h k) bucket no_more);
      unique = λ j k hj hk same_device same_block.
          one j k same_device same_block
            (with_entry-has (home buckets h n) n j (home buckets h j) bucket hj)
            (with_entry-has (home buckets h n) n k (home buckets h k) bucket hk);
    }
      where
        stays :
            (k : ℕ)
            → k < base
            → (has k (bucket (home buckets h k)) ≡ false)
              × ((home buckets h n ≡ home buckets h k) → k ≢ n)
            → (insert_head (base + home buckets h n) n (h.links)).next k ≡ unhashed_link
        stays k hk (no_more, other) =
            rw
              (
                ne→== (base + home buckets h n) k (omega (arith, hk)),
                ne→== n k (λ e. other (ap (home buckets h) e) (sym e)),
              )
              (v.unhashed k hk no_more)

        one :
            (j k : ℕ)
            → h.device j ≡ h.device k
            → h.block j ≡ h.block k
            → ((j ≡ n) × (home buckets h n ≡ home buckets h j)) ⊎ (hashed buckets h bucket j ≡ true)
            → ((k ≡ n) × (home buckets h n ≡ home buckets h k)) ⊎ (hashed buckets h bucket k ≡ true)
            → j ≡ k
        one j k same_device same_block (inl (at_j, e)) (inl (at_k, f)) = at_j ∙ sym at_k
        one j k same_device same_block (inl (at_j, e)) (inr old) = absurd (
            fresh k old (sym same_device ∙ ap (h.device) at_j) (sym same_block ∙ ap (h.block) at_j))
        one j k same_device same_block (inr old) (inl (at_k, f)) =
            absurd (fresh j old (same_device ∙ ap (h.device) at_k) (same_block ∙ ap (h.block) at_k))
        one j k same_device same_block (inr old) (inr older) =
            v.unique j k old older same_device same_block

  -- Deletion of an entry of the table.
  module _ (n : ℕ) (inside : hashed buckets h bucket n ≡ true) where
    n_placed : (0 < n) × (n < base)
    n_placed = ((v.placed _ n (home-lt n) inside).1, (v.placed _ n (home-lt n) inside).2)

    next-lt : h.links.next n ≢ unhashed_link
    next-lt e = ground (
      arith,
      where_in (home buckets h n) (h.links.next n) (home-lt n) (
          next-IsRing (h.links) (base + home buckets h n) n (bucket (home buckets h n))
            (v.rings _ (home-lt n)) inside),
      home-lt n,
      small,
      e,
    )

    hash_delete-rings :
        (i : ℕ)
        → i < buckets
        → IsRing
            (set_next n unhashed_link (unlink n (h.links)))
            (base + i)
            (without_entry (home buckets h n) n bucket i)
    hash_delete-rings i hi =
        set_next-other (unlink n (h.links)) (base + i) n unhashed_link _ ring out
      where
        here : IsRing (h.links) (base + home buckets h n) (bucket (home buckets h n))
        here = v.rings _ (home-lt n)

        ring : IsRing (unlink n (h.links)) (base + i) (without_entry (home buckets h n) n bucket i)
        ring = elim (eq-cases (home buckets h n) i) [
          | inl e ↦
              subst
                (λ j.
                  IsRing (unlink n (h.links)) (base + j)
                    (without_entry (home buckets h n) n bucket j))
                e
                (rw (eq→== (home buckets h n) (home buckets h n) refl) (
                  unlink-IsRing (h.links) (base + home buckets h n) n (bucket (home buckets h n))
                    here inside))
          | inr ne ↦ rw (ne→== (home buckets h n) i ne) (
              unlink-other (h.links) (base + home buckets h n) n (bucket (home buckets h n)) here
                inside (base + i) (bucket i) (v.rings i hi)
                (buckets-Apart i (home buckets h n) hi (home-lt n) (λ e. ne (sym e))))
        ]

        elsewhere : home buckets h n ≢ i → has n (bucket i) ≡ false
        elsewhere ne = elim (Bool-cases (has n (bucket i))) [
          | inl there ↦ absurd (ne ((v.placed i n hi there).0))
          | inr no_more ↦ no_more
        ]

        out : has n ((base + i) ∷ without_entry (home buckets h n) n bucket i) ≡ false
        out =
            rw (ne→== n (base + i) (omega (arith, n_placed)))
              (elim (eq-cases (home buckets h n) i) [
                | inl e ↦
                    without_entry-has (home buckets h n) n n i bucket ((v.rings i hi).distinct)
                    ∙ rw (eq→== _ _ e, eq→== n n refl) refl
                | inr ne ↦
                    without_entry-has (home buckets h n) n n i bucket ((v.rings i hi).distinct)
                    ∙ rw (ne→== _ _ ne) (elsewhere ne)
              ])

    still_in :
        (i k : ℕ)
        → i < buckets
        → has k (without_entry (home buckets h n) n bucket i) ≡ true
        → has k (bucket i) ≡ true
    still_in i k hi still =
        ground (
          arith,
          still,
          without_entry-has (home buckets h n) n k i bucket ((v.rings i hi).distinct),
        )

    pub hash_delete-IsHash :
        IsHash base buckets (hash_delete n h) (without_entry (home buckets h n) n bucket)
    unfolding hash_delete
    hash_delete-IsHash = rw (ne→== (h.links.next n) unhashed_link next-lt) (record {
      rings = hash_delete-rings;
      placed = λ i k hi still. v.placed i k hi (still_in i k hi still);
      unhashed = λ k hk no_more. stays k hk no_more (eq-cases k n);
      unique = λ j k hj hk same_device same_block.
          v.unique j k (still_in _ j (home-lt j) hj) (still_in _ k (home-lt k) hk) same_device
            same_block;
    })
      where
        stays :
            (k : ℕ)
            → k < base
            → has k (without_entry (home buckets h n) n bucket (home buckets h k)) ≡ false
            → (k ≡ n) ⊎ (k ≢ n)
            → (set_next n unhashed_link (unlink n (h.links))).next k ≡ unhashed_link
        stays k hk no_more (inl same) = ground (arith, same)
        stays k hk no_more (inr other) =
            rw (ne→== n k (λ e. other (sym e)), ne→== (h.links.prev n) k not_before)
              (v.unhashed k hk out)
          where
            out : has k (bucket (home buckets h k)) ≡ false
            out = ground (
              arith,
              no_more,
              other,
              without_entry-has (home buckets h n) n k (home buckets h k) bucket
                  ((v.rings _ (home-lt k)).distinct),
            )

            not_before : h.links.prev n ≢ k
            not_before =
                has-ne (h.links.prev n) k ((base + home buckets h n) ∷ bucket (home buckets h n))
                  (before-has (h.links) (base + home buckets h n) (bucket (home buckets h n))
                    (base + home buckets h n) n inside ((v.rings _ (home-lt n)).linked))
                  (only_home (home buckets h n) k (home-lt n) hk out)
