-- ===== src/Fs/Links/Paths.antt =====
-- Chains of entries through the links, and what the three operations on lists do to them.
use os_thix.Prelude.{
  ℕ, ◌≡◌, ◌≢◌, inl, inr, refl, sym, subst, ◌∙◌, true, false, ◌||◌, List, [], ◌∷◌, ◌++◌, has, ◌==◌,
  if◌then◌else◌, eq-cases, eq→==, ne→==, arith,
}
use os_thix.Fs.Links.{Links, insert_tail, insert_head, unlink}

-- From `a` the links lead through `xs` to `z`, and back.
abbrev pub Linked : Links → ℕ → List ℕ → ℕ → Type 0
Linked l a [] z = (l.next a ≡ z) × (l.prev z ≡ a)
Linked l a (x ∷ xs) z = (l.next a ≡ x) × (l.prev x ≡ a) × Linked l x xs z

-- No entry is there twice.
abbrev pub Distinct : List ℕ → Type 0
Distinct [] = Unit {0}
Distinct (x ∷ xs) = (has x xs ≡ false) × Distinct xs

-- `xs` without the first `n`
unfoldable pub remove : ℕ → List ℕ → List ℕ
remove n [] = []
remove n (x ∷ xs) = if x == n then xs else x ∷ remove n xs

pub Linked-frame :
    (l l' : Links) (a : ℕ) (xs : List ℕ) (z : ℕ)
    → ((k : ℕ) → has k (a ∷ xs) ≡ true → l'.next k ≡ l.next k)
    → ((k : ℕ) → (has k xs || (k == z)) ≡ true → l'.prev k ≡ l.prev k)
    → Linked l a xs z
    → Linked l' a xs z
Linked-frame l l' a [] z same_next same_prev (next_a, prev_z) =
    (same_next a (ground arith) ∙ next_a, same_prev z (ground arith) ∙ prev_z)
Linked-frame l l' a (x ∷ xs) z same_next same_prev (next_a, prev_x, rest) = (
  same_next a (ground arith) ∙ next_a,
  same_prev x (ground arith) ∙ prev_x,
  Linked-frame l l' x xs z (λ k h. same_next k (ground (arith, h)))
      (λ k h. same_prev k (ground (arith, h))) rest,
)

pub has-ne : (k n : ℕ) (xs : List ℕ) → has k xs ≡ true → has n xs ≡ false → k ≢ n
has-ne k n xs yes_k no_n e = true≢false (sym (subst (λ j. has j xs ≡ true) e yes_k) ∙ no_n)
  where
    true≢false : true ≢ false
    true≢false e = cc

-- The last entry of a chain is the one before its end.
pub prev-has :
    (l : Links) (a : ℕ) (xs : List ℕ) (z : ℕ) → Linked l a xs z → has (l.prev z) (a ∷ xs) ≡ true
prev-has l a [] z (next_a, prev_z) = ground (arith, prev_z)
prev-has l a (x ∷ xs) z (next_a, prev_x, rest) = ground (arith, prev-has l x xs z rest)

pub insert_tail-Linked :
    (l : Links) (a : ℕ) (xs : List ℕ) (z n : ℕ)
    → Distinct (a ∷ xs)
    → has z xs ≡ false
    → has n (a ∷ xs) ≡ false
    → n ≢ z
    → Linked l a xs z
    → Linked (insert_tail z n l) a (xs ++ n ∷ []) z
unfolding insert_tail
insert_tail-Linked l a [] z n distinct z_out n_out ne (next_a, prev_z) = (
  ground (arith, prev_z),
  ground (arith, prev_z),
  (ground (arith, prev_z), ground (arith, prev_z)),
)
insert_tail-Linked l a (x ∷ xs) z n (a_out, distinct) z_out n_out ne (next_a, prev_x, rest) = (
  ground (arith, has-ne (l.prev z) a (x ∷ xs) (prev-has l x xs z rest) a_out),
  ground arith,
  insert_tail-Linked l x xs z n distinct (ground arith) (ground arith) ne rest,
)

pub insert_head-Linked :
    (l : Links) (a : ℕ) (xs : List ℕ) (z n : ℕ)
    → Distinct (a ∷ xs)
    → has z xs ≡ false
    → has n (a ∷ xs) ≡ false
    → n ≢ z
    → Linked l a xs z
    → Linked (insert_head a n l) a (n ∷ xs) z
unfolding insert_head
insert_head-Linked l a [] z n distinct z_out n_out ne (next_a, prev_z) = (
  ground (arith, next_a),
  ground (arith, next_a),
  (ground (arith, next_a), ground (arith, next_a)),
)
insert_head-Linked l a (x ∷ xs) z n (a_out, (x_out, distinct)) z_out n_out ne
      (next_a, prev_x, rest) =
    (
      ground (arith, next_a),
      ground (arith, next_a),
      (
        ground (arith, next_a),
        ground (arith, next_a),
        Linked-frame l (insert_head a n l) x xs z
            (λ k h.
              ground
                (arith, has-ne k a (x ∷ xs) h a_out, has-ne k n (x ∷ xs) h (ground arith), next_a))
            (λ k h. ground (arith, h, n_out, z_out, x_out, next_a)) rest,
      ),
    )

pub next-has :
    (l : Links) (a : ℕ) (xs : List ℕ) (z n : ℕ)
    → has n xs ≡ true
    → Linked l a xs z
    → (has (l.next n) xs || (l.next n == z)) ≡ true
next-has l a [] z n inside linked = ground arith
next-has l a (x ∷ xs) z n inside (next_a, prev_x, rest) = elim (eq-cases x n) [
  | inl e ↦ subst (λ m. (has (l.next m) (x ∷ xs) || (l.next m == z)) ≡ true) e (first xs rest)
  | inr ne ↦ ground (arith, next-has l x xs z n (ground (arith, inside, ne)) rest)
]
  where
    first : (xs : List ℕ) → Linked l x xs z → (has (l.next x) (x ∷ xs) || (l.next x == z)) ≡ true
    first [] (next_x, prev_z) = ground (arith, next_x)
    first (y ∷ ys) (next_x, prev_y, more) = ground (arith, next_x)

pub before-has :
    (l : Links) (a : ℕ) (xs : List ℕ) (z n : ℕ)
    → has n xs ≡ true
    → Linked l a xs z
    → has (l.prev n) (a ∷ xs) ≡ true
before-has l a [] z n inside linked = absurd (ground (arith, inside))
before-has l a (x ∷ xs) z n inside (next_a, prev_x, rest) = elim (eq-cases x n) [
  | inl e ↦ subst (λ m. has (l.prev m) (a ∷ x ∷ xs) ≡ true) e (ground (arith, prev_x))
  | inr ne ↦ ground (arith, before-has l x xs z n (ground (arith, inside, ne)) rest)
]

pub unlink-Linked :
    (l : Links) (a : ℕ) (xs : List ℕ) (z n : ℕ)
    → Distinct (a ∷ xs)
    → has z xs ≡ false
    → has n xs ≡ true
    → Linked l a xs z
    → Linked (unlink n l) a (remove n xs) z
unfolding unlink remove
unlink-Linked l a [] z n distinct z_out inside linked = absurd (ground (arith, inside))
unlink-Linked l a (x ∷ xs) z n (a_out, (x_out, distinct)) z_out inside (next_a, prev_x, rest) =
    elim (eq-cases x n) [
      | inl e ↦
          subst (λ m. Linked (unlink m l) a (remove m (x ∷ xs)) z) e
            (first xs a_out x_out distinct z_out rest)
      | inr ne ↦ rw (ne→== x n ne) (
        ground (
          arith,
          next_a,
          has-ne (l.prev n) a (x ∷ xs) (before-has l x xs z n (ground (arith, inside, ne)) rest)
              a_out,
        ),
        ground (arith, prev_x, next-has l x xs z n (ground (arith, inside, ne)) rest, x_out, z_out),
        unlink-Linked l x xs z n (x_out, distinct) (ground arith) (ground (arith, inside, ne)) rest,
      )
    ]
  where
    first :
        (xs : List ℕ)
        → has a (x ∷ xs) ≡ false
        → has x xs ≡ false
        → Distinct xs
        → has z (x ∷ xs) ≡ false
        → Linked l x xs z
        → Linked (unlink x l) a (remove x (x ∷ xs)) z
    first [] a_out x_out distinct z_out (next_x, prev_z) =
        rw (eq→== x x refl)
          (ground (arith, next_a, prev_x, next_x), ground (arith, next_a, prev_x, next_x))
    first (y ∷ ys) a_out x_out (y_out, distinct) z_out (next_x, prev_y, more) =
        rw (eq→== x x refl) (
          ground (arith, next_a, prev_x, next_x),
          ground (arith, next_a, prev_x, next_x),
          Linked-frame l (unlink x l) y ys z
              (λ k h. ground (arith, has-ne k a (y ∷ ys) h (ground (arith, a_out)), prev_x))
              (λ k h. ground (arith, h, y_out, z_out, next_x)) more,
        )
