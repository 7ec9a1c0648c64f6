-- ===== src/Fs/Descriptor/Alloc.antt =====
-- The search of fs/generic.c for the lowest free file descriptor.
use os_thix.Prelude.{
  ◌⊎◌, Option-cases, ℕ, zero, suc, ◌+◌, ◌-◌, min, max, ◌<◌, ◌≤◌, ◌≡◌, ◌≢◌, refl, sym, Bool, true,
  false, none, some, ◌==◌, if◌then◌else◌, Bool-cases, inl, inr, arith,
}
use native.Mathlib.Decide.{dec_lt}
use os_thix.Fs.Descriptor.{
  FdTable, UfdTable, scan, get_fd, release_fd, get_ufd, fd_free, ufd_free, with_count, with_ufd,
  system_open_max, open_max,
}

pub scan-some :
    (free : ℕ → Bool) (n k r : ℕ)
    → scan free n k ≡ some r
    → (k ≤ r) × (r < k + n) × (free r ≡ true) × ((i : ℕ) → k ≤ i → i < r → free i ≡ false)
unfolding scan
scan-some free zero k r e = absurd (ground arith)
scan-some free (suc n) k r e = elim (Bool-cases (free k)) [
  | inl t ↦ (ground arith, ground arith, ground arith, λ i lo hi. absurd (ground arith))
  | inr f ↦ later f (scan-some free n (suc k) r (ground arith))
]
  where
    later :
        free k ≡ false
        → (suc k ≤ r)
          × (r < suc k + n)
          × (free r ≡ true)
          × ((i : ℕ) → suc k ≤ i → i < r → free i ≡ false)
        → (k ≤ r) × (r < k + suc n) × (free r ≡ true) × ((i : ℕ) → k ≤ i → i < r → free i ≡ false)
    later f (lo, hi, at, below) =
        (omega (arith, lo), omega (arith, hi), at, λ i a b. at_or_above i a b (Bool-cases (k == i)))
      where
        at_or_above :
            (i : ℕ) → k ≤ i → i < r → ((k == i) ≡ true) ⊎ ((k == i) ≡ false) → free i ≡ false
        at_or_above i a b (inl e) = ground arith
        at_or_above i a b (inr e) = below i (ground arith) b

scan-none :
    (free : ℕ → Bool) (n k : ℕ)
    → scan free n k ≡ none
    → (i : ℕ) → k ≤ i
    → i < k + n
    → free i ≡ false
unfolding scan
scan-none free zero k e i lo hi = absurd (omega arith)
scan-none free (suc n) k e i lo hi = elim (Bool-cases (free k)) [
  | inl t ↦ absurd (ground arith)
  | inr f ↦ elim (Bool-cases (k == i)) [
    | inl same ↦ ground arith
    | inr other ↦ scan-none free n (suc k) (ground arith) i (ground arith) (omega arith)
  ]
]

-- No number from `lo` on and below `first_free` is free.
abbrev pub NoneBelow : (ℕ → Bool) → ℕ → ℕ → Type 0
NoneBelow free lo first_free = (i : ℕ) → lo ≤ i → i < first_free → free i ≡ false

-- What `get_fd` owes its caller: the lowest free entry, taken, and nothing else changed.
pub record FdAllocated (t : FdTable) (fd : ℕ) (t' : FdTable) : Type 0 where
  pub positive : 1 ≤ fd
  pub in_table : fd < system_open_max
  pub was_free : (t.fdt fd).count ≡ 0
  pub lowest : (i : ℕ) → 1 ≤ i → i < fd → fd_free t i ≡ false
  pub taken : (t'.fdt fd).count ≡ 1
  pub others : (i : ℕ) → i ≢ fd → t'.fdt i ≡ t.fdt i
  pub first_free : t'.ff_fd ≡ fd
  pub none_below : NoneBelow (fd_free t') 1 (t'.ff_fd)

-- If no entry from 1 on and below `ff_fd` is free, then a successful `get_fd` returns the lowest
-- free entry, below the table's end, takes it, changes no other entry, and keeps that condition.
pub get_fd-FdAllocated :
    (t : FdTable) (fd : ℕ) (t' : FdTable)
    → NoneBelow (fd_free t) 1 (t.ff_fd)
    → 1 ≤ t.ff_fd
    → get_fd t ≡ some (fd, t')
    → FdAllocated t fd t'
unfolding get_fd
get_fd-FdAllocated t fd t' below one e =
    let n = system_open_max - t.ff_fd in
    elim (Option-cases (scan (fd_free t) n (t.ff_fd))) [
      | inl h ↦ absurd (ground arith)
      | inr (r, h) ↦ found r (scan-some (fd_free t) n (t.ff_fd) r h) h
    ]
  where
    found :
        (r : ℕ)
        → (t.ff_fd ≤ r)
          × (r < t.ff_fd + (system_open_max - t.ff_fd))
          × (fd_free t r ≡ true)
          × ((i : ℕ) → t.ff_fd ≤ i → i < r → fd_free t i ≡ false)
        → scan (fd_free t) (system_open_max - t.ff_fd) (t.ff_fd) ≡ some r
        → FdAllocated t fd t'
    found r (lo, hi, at, between) h =
        let all_below = (λ (i : ℕ) (a : 1 ≤ i) (b : i < r). lowest i a b (dec_lt i (t.ff_fd))) in
        rw (sym (same.0), sym (same.1))
          (record {
            positive = omega (arith, one, lo);
            in_table = omega (arith, hi);
            was_free = ground (arith, at);
            lowest = all_below;
            taken = ground arith;
            others = λ i ne. ground (arith, ne);
            first_free = refl;
            none_below = λ i a b. ground (arith, all_below i a b);
          })
      where
        same : (r ≡ fd) × (with_count t r 1 r ≡ t')
        same = ground (arith, e, h)

        lowest : (i : ℕ) → 1 ≤ i → i < r → Dec (i < t.ff_fd) → fd_free t i ≡ false
        lowest i a b (yes lt) = below i a lt
        lowest i a b (no ge) = between i (omega arith) b

-- If no entry below `ff_fd` is free and `get_fd` fails, then every entry from 1 on is in use.
pub get_fd-none :
    (t : FdTable)
    → NoneBelow (fd_free t) 1 (t.ff_fd)
    → get_fd t ≡ none
    → NoneBelow (fd_free t) 1 system_open_max
unfolding get_fd
get_fd-none t below e i lo hi =
    let n = system_open_max - t.ff_fd in
    elim (Option-cases (scan (fd_free t) n (t.ff_fd))) [
      | inr (r, h) ↦ absurd (ground (arith, e, h))
      | inl h ↦ elim (dec_lt i (t.ff_fd)) [
        | yes lt ↦ below i lo lt
        | no ge ↦ scan-none (fd_free t) n (t.ff_fd) h i (omega arith) (omega arith)
      ]
    ]

-- Releasing a descriptor frees it, leaves the others as they are, and no entry below the new
-- `ff_fd` is free.
release_fd-NoneBelow :
    (t : FdTable) (fd : ℕ)
    → NoneBelow (fd_free t) 1 (t.ff_fd)
    → NoneBelow (fd_free (release_fd fd t)) 1 ((release_fd fd t).ff_fd)
      × ((i : ℕ) → fd_free (release_fd fd t) i ≡ (if fd == i then true else fd_free t i))
unfolding release_fd
release_fd-NoneBelow t fd below =
    (λ i lo hi. still i lo hi (below i lo (omega (arith, hi))), λ i. ground arith)
  where
    still :
        (i : ℕ)
        → 1 ≤ i
        → i < min fd (t.ff_fd)
        → fd_free t i ≡ false
        → fd_free (release_fd fd t) i ≡ false
    still i lo hi used = ground arith

-- After `get_ufd` with a lower bound has returned `ufd`, a search for the lowest free descriptor
-- returns a higher one, whatever is free below `ufd`.
get_ufd-get_ufd :
    (first : ℕ) (t t' t'' : UfdTable) (ufd next : ℕ)
    → get_ufd first t ≡ some (ufd, t')
    → get_ufd 0 t' ≡ some (next, t'')
    → ufd < next
unfolding get_ufd
get_ufd-get_ufd first t t' t'' ufd next e f =
    let k = max first (t.ff_ufd) in
    elim (Option-cases (scan (ufd_free t) (open_max - k) k)) [
      | inl h ↦ absurd (ground (arith, e, h))
      | inr (r, h) ↦ second r (ground (arith, e, h)) (ground (arith, e, h))
    ]
  where
    second : (r : ℕ) → r ≡ ufd → with_ufd t r 65535 r ≡ t' → ufd < next
    second r same at =
        elim (Option-cases
          (scan (ufd_free t') (open_max - max 0 (t'.ff_ufd)) (max 0 (t'.ff_ufd)))) [
            | inl h ↦ absurd (ground (arith, f, h))
            | inr (s, h) ↦
                above s (ground (arith, f, h))
                  (scan-some (ufd_free t') (open_max - max 0 (t'.ff_ufd)) (max 0 (t'.ff_ufd)) s h)
          ]
      where
        above :
            (s : ℕ)
            → s ≡ next
            → (max 0 (t'.ff_ufd) ≤ s)
              × (s < max 0 (t'.ff_ufd) + (open_max - max 0 (t'.ff_ufd)))
              × (ufd_free t' s ≡ true)
              × ((i : ℕ) → max 0 (t'.ff_ufd) ≤ i → i < s → ufd_free t' i ≡ false)
            → ufd < next
        above s at_next (lo, hi, free, between) = ground (arith, lo, free, at, same, at_next)
