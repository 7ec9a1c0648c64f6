-- ===== src/Fs/Hash/Search.antt =====
-- The search of a hash table (fs/buffer.c, fs/inode.c) finds what is in the table.
use Prim.Native.Nat.{bit_xor}
use os_thix.Prelude.{
  ℕ, zero, suc, ◌+◌, ◌<◌, ◌≤◌, ◌≡◌, ◌≢◌, ◌⊎◌, inl, inr, refl, Bool, true, false, ◌&&◌, some, List,
  [], ◌∷◌, has, length, ◌==◌, eq-cases, eq→==, ne→==, Bool-cases, arith,
}
use native.Mathlib.Nat.{mod-lt}
use os_thix.Fs.Links.Paths.{Linked}
use os_thix.Fs.Links.Rings.{IsRing, Distinct-bound}
use os_thix.Fs.Hash.{Hash, bucket_number, search_from, hash_search, unhashed_link}

-- The bucket that an entry belongs to.
abbrev pub home : ℕ → Hash → ℕ → ℕ
home buckets h k = bucket_number buckets (h.device k) (h.block k)

-- Whether an entry is in the table.
abbrev pub hashed : ℕ → Hash → (ℕ → List ℕ) → ℕ → Bool
hashed buckets h bucket k = has k (bucket (home buckets h k))

-- The buckets are circular lists of entries that belong there, the others are marked, and no two
-- entries of the table are for the same block of a device.
pub record IsHash (base buckets : ℕ) (h : Hash) (bucket : ℕ → List ℕ) : Type 0 where
  pub rings : (i : ℕ) → i < buckets → IsRing (h.links) (base + i) (bucket i)
  pub placed :
      (i k : ℕ)
      → i < buckets
      → has k (bucket i) ≡ true
      → (home buckets h k ≡ i) × (0 < k) × (k < base)
  pub unhashed :
      (k : ℕ) → k < base → hashed buckets h bucket k ≡ false → h.links.next k ≡ unhashed_link
  pub unique :
      (j k : ℕ)
      → hashed buckets h bucket j ≡ true
      → hashed buckets h bucket k ≡ true
      → h.device j ≡ h.device k
      → h.block j ≡ h.block k
      → j ≡ k

-- Whether an entry is for this block of this device.
abbrev pub is_for : Hash → ℕ → ℕ → ℕ → Bool
is_for h device block j = (h.device j == device) && (h.block j == block)

-- The result of a search in a list of entries.
abbrev Answer : Hash → ℕ → ℕ → List ℕ → ℕ → Type 0
Answer h device block xs k =
    ((k ≡ 0) × ((j : ℕ) → has j xs ≡ true → is_for h device block j ≡ false))
    ⊎ ((has k xs ≡ true) × (h.device k ≡ device) × (h.block k ≡ block))

search_from_lem :
    (fuel index device block : ℕ) (h : Hash) (a : ℕ) (xs : List ℕ)
    → Linked (h.links) a xs index
    → has index xs ≡ false
    → length xs < fuel
    → (k : ℕ) × (search_from fuel index device block h (h.links.next a) ≡ some k)
      × Answer h device block xs k
unfolding search_from
search_from_lem zero index device block h a xs linked out enough = absurd (omega arith)
search_from_lem (suc fuel) index device block h a [] (next_a, prev_z) out enough = (
  0,
  rw (next_a, eq→== index index refl) refl,
  inl (refl, λ j inside. absurd (ground (arith, inside))),
)
search_from_lem (suc fuel) index device block h a (x ∷ xs) (next_a, prev_x, rest) out enough =
    elim (Bool-cases ((h.device x == device) && (h.block x == block))) [
      | inl hit ↦ (
        x,
        rw (next_a, ne→== x index (ground (arith, out)), hit) refl,
        inr (ground arith, ground (arith, hit), ground (arith, hit)),
      )
      | inr miss ↦ go miss (
          search_from_lem fuel index device block h x xs rest (ground (arith, out))
            (omega (arith, enough)))
    ]
  where
    go :
        ((h.device x == device) && (h.block x == block)) ≡ false
        → (k : ℕ) × (search_from fuel index device block h (h.links.next x) ≡ some k)
          × Answer h device block xs k
        → (k : ℕ) × (search_from (suc fuel) index device block h (h.links.next a) ≡ some k)
          × Answer h device block (x ∷ xs) k
    go miss (k, found, answer) = (
      k,
      rw (next_a, ne→== x index (ground (arith, out)), miss) found,
      elim answer [
        | inl (nothing, others) ↦
            inl (nothing, λ j inside. elsewhere j inside (eq-cases j x) (others j))
        | inr (inside, device_k, block_k) ↦ inr (ground (arith, inside), device_k, block_k)
      ],
    )
      where
        elsewhere :
            (j : ℕ)
            → has j (x ∷ xs) ≡ true
            → (j ≡ x) ⊎ (j ≢ x)
            → (has j xs ≡ true → is_for h device block j ≡ false)
            → is_for h device block j ≡ false
        elsewhere j inside (inl e) others = rw e miss
        elsewhere j inside (inr ne) others = others (ground (arith, inside, ne))

-- What a search of the table owes its caller: 0 where no entry of the table is for the block, and the
-- entry of the table that is for it otherwise.
abbrev pub IsFound : ℕ → Hash → (ℕ → List ℕ) → ℕ → ℕ → ℕ → Type 0
IsFound buckets h bucket device block k =
    ((k ≡ 0) × ((j : ℕ) → hashed buckets h bucket j ≡ true → is_for h device block j ≡ false))
    ⊎ ((0 < k) × (hashed buckets h bucket k ≡ true) × (is_for h device block k ≡ true))

-- In a well-formed table with at least one bucket the search ends, with 0 where no entry of the table is for
-- the block, and with an entry of the table that is for it otherwise.
pub hash_search-IsFound :
    (base buckets device block : ℕ) (h : Hash) (bucket : ℕ → List ℕ)
    → 0 < buckets
    → IsHash base buckets h bucket
    → (k : ℕ) × (hash_search base buckets device block h ≡ some k)
      × IsFound buckets h bucket device block k
unfolding hash_search
hash_search-IsFound base buckets device block h bucket some_buckets v = found (
    search_from_lem (suc base) (base + i) device block h (base + i) (bucket i) (ring.linked)
      (ring.apart) (omega (arith, bound)))
  where
    i : ℕ
    i = bucket_number buckets device block

    in_table : bucket_number buckets device block < buckets
    in_table = mod-lt (bit_xor device block) some_buckets

    ring :
        IsRing
          (h.links)
          (base + bucket_number buckets device block)
          (bucket (bucket_number buckets device block))
    ring = v.rings i in_table

    bound : length (bucket (bucket_number buckets device block)) ≤ base
    bound =
        Distinct-bound base (bucket i) (ring.distinct)
          (λ k inside. (v.placed i k in_table inside).2)

    at_home :
        (j : ℕ)
        → hashed buckets h bucket j ≡ true
        → is_for h device block j ≡ true
        → has j (bucket (bucket_number buckets device block)) ≡ true
    at_home j inside hit = rw (← device_j, ← block_j) inside
      where
        device_j : h.device j ≡ device
        device_j = ground (arith, hit)

        block_j : h.block j ≡ block
        block_j = ground (arith, hit)

    found :
        (k : ℕ) × (search_from
              (suc base)
              (base + bucket_number buckets device block)
              device
              block
              h
              (h.links.next (base + bucket_number buckets device block))
            ≡ some k)
          × Answer h device block (bucket (bucket_number buckets device block)) k
        → (k : ℕ) × (hash_search base buckets device block h ≡ some k)
          × IsFound buckets h bucket device block k
    found (k, e, inl (nothing, others)) = (
      k,
      e,
      inl (
        nothing,
        λ j inside. elim (Bool-cases (is_for h device block j)) [
          | inl hit ↦ others j (at_home j inside hit)
          | inr miss ↦ miss
        ],
      ),
    )
    found (k, e, inr (inside, device_k, block_k)) = (
      k,
      e,
      inr (
        (v.placed i k in_table inside).1,
        rw (device_k, block_k) inside,
        ground (arith, device_k, block_k),
      ),
    )
