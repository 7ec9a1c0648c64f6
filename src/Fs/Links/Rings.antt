-- ===== src/Fs/Links/Rings.antt =====
-- Circular lists: a head, and the entries from it on and back to it.
use os_thix.Prelude.{
  ℕ, zero, suc, ap, ◌<◌, ◌≤◌, ◌≡◌, ◌≢◌, inl, inr, refl, true, false, List, [], ◌∷◌, ◌++◌, has,
  has-append, length, ◌==◌, if◌then◌else◌, eq-cases, eq→==, ne→==, arith,
}
use os_thix.Fs.Links.{Links, insert_tail, insert_head, unlink, set_next}
use os_thix.Fs.Links.Paths.{
  Linked, Distinct, remove, Linked-frame, has-ne, prev-has, next-has, before-has,
  insert_tail-Linked, insert_head-Linked, unlink-Linked,
}

-- The list of the head `h` has the entries `xs`, each once.
pub record IsRing (l : Links) (h : ℕ) (xs : List ℕ) : Type 0 where
  pub linked : Linked l h xs h
  pub apart : has h xs ≡ false
  pub distinct : Distinct xs

abbrev pub Apart : List ℕ → List ℕ → Type 0
Apart xs ys = (k : ℕ) → has k xs ≡ true → has k ys ≡ false

Distinct-snoc : (xs : List ℕ) (n : ℕ) → Distinct xs → has n xs ≡ false → Distinct (xs ++ n ∷ [])
Distinct-snoc [] n distinct out = (refl, tt)
Distinct-snoc (x ∷ xs) n (x_out, distinct) out = (
  ground (arith, has-append x xs (n ∷ []), x_out, out),
  Distinct-snoc xs n distinct (ground arith),
)

pub has-remove :
    (k n : ℕ) (xs : List ℕ)
    → Distinct xs
    → has k (remove n xs) ≡ (if k == n then false else has k xs)
unfolding remove
has-remove k n [] distinct = ground arith
has-remove k n (x ∷ xs) (x_out, distinct) = elim (eq-cases k n) [
  | inl e ↦ ground (arith, has-remove k n xs distinct, e, x_out)
  | inr ne ↦ ground (arith, has-remove k n xs distinct, ne)
]

Distinct-remove : (n : ℕ) (xs : List ℕ) → Distinct xs → Distinct (remove n xs)
unfolding remove
Distinct-remove n [] distinct = tt
Distinct-remove n (x ∷ xs) (x_out, distinct) = elim (eq-cases x n) [
  | inl e ↦ rw (eq→== x n e) distinct
  | inr ne ↦
      rw (ne→== x n ne)
        (ground (arith, has-remove x n xs distinct, x_out), Distinct-remove n xs distinct)
]

module _ (l : Links) (h n : ℕ) (xs : List ℕ) (ring : IsRing l h xs)
    (out : has n (h ∷ xs) ≡ false) where
  pub insert_tail-IsRing : IsRing (insert_tail h n l) h (xs ++ n ∷ [])
  insert_tail-IsRing = record {
    linked =
        insert_tail-Linked l h xs h n (ring.apart, ring.distinct) (ring.apart) out
          (ground (arith, out)) (ring.linked);
    apart = ground (arith, has-append h xs (n ∷ []), ring.apart, out);
    distinct = Distinct-snoc xs n (ring.distinct) (ground (arith, out));
  }

  pub insert_head-IsRing : IsRing (insert_head h n l) h (n ∷ xs)
  insert_head-IsRing = record {
    linked =
        insert_head-Linked l h xs h n (ring.apart, ring.distinct) (ring.apart) out
          (ground (arith, out)) (ring.linked);
    apart = ground (arith, ring.apart, out);
    distinct = (ground (arith, out), ring.distinct);
  }

  -- A list that has no entry in common with this one stays as it is.
  module _ (h' : ℕ) (ys : List ℕ) (other : IsRing l h' ys) (apart : Apart (h' ∷ ys) (h ∷ xs))
      (out' : has n (h' ∷ ys) ≡ false) where
    pub insert_tail-other : IsRing (insert_tail h n l) h' ys
    unfolding insert_tail
    insert_tail-other = record {
      linked =
          Linked-frame l (insert_tail h n l) h' ys h'
            (λ k inside. ground (
              arith,
              has-ne k n (h' ∷ ys) inside out',
              has-ne (l.prev h) k (h ∷ xs) (prev-has l h xs h (ring.linked)) (apart k inside),
              out,
            ))
            (λ k inside. ground (
              arith,
              has-ne k n (h' ∷ ys) (ground (arith, inside)) out',
              apart k (ground (arith, inside)),
            ))
            (other.linked);
      apart = other.apart;
      distinct = other.distinct;
    }

    pub insert_head-other : IsRing (insert_head h n l) h' ys
    unfolding insert_head
    insert_head-other = record {
      linked =
          Linked-frame l (insert_head h n l) h' ys h'
            (λ k inside. ground (arith, has-ne k n (h' ∷ ys) inside out', apart k inside))
            (λ k inside. ground (
              arith,
              has-ne k n (h' ∷ ys) (ground (arith, inside)) out',
              out,
              first_other k (ground (arith, inside)),
            ))
            (other.linked);
      apart = other.apart;
      distinct = other.distinct;
    }
      where
        first : (xs : List ℕ) → Linked l h xs h → has (l.next h) (h ∷ xs) ≡ true
        first [] (next_h, prev_h) = ground (arith, next_h)
        first (x ∷ xs) (next_h, prev_x, rest) = ground (arith, next_h)

        first_other : (k : ℕ) → has k (h' ∷ ys) ≡ true → l.next h ≢ k
        first_other k inside =
            has-ne (l.next h) k (h ∷ xs) (first xs (ring.linked)) (apart k inside)

module _ (l : Links) (h n : ℕ) (xs : List ℕ) (ring : IsRing l h xs) (inside : has n xs ≡ true) where
  pub unlink-IsRing : IsRing (unlink n l) h (remove n xs)
  unlink-IsRing = record {
    linked = unlink-Linked l h xs h n (ring.apart, ring.distinct) (ring.apart) inside (ring.linked);
    apart = ground (arith, has-remove h n xs (ring.distinct), ring.apart);
    distinct = Distinct-remove n xs (ring.distinct);
  }

  pub unlink-other :
      (h' : ℕ) (ys : List ℕ) → IsRing l h' ys → Apart (h' ∷ ys) (h ∷ xs) → IsRing (unlink n l) h' ys
  unfolding unlink
  unlink-other h' ys other apart = record {
    linked =
        Linked-frame l (unlink n l) h' ys h'
          (λ k at. ground (
            arith,
            has-ne (l.prev n) k (h ∷ xs) (before-has l h xs h n inside (ring.linked)) (apart k at),
          ))
          (λ k at.
            ground (arith, next-has l h xs h n inside (ring.linked), apart k (ground (arith, at))))
          (other.linked);
    apart = other.apart;
    distinct = other.distinct;
  }

-- The links of an entry of a list lead to an entry of it or to its head.
pub next-IsRing :
    (l : Links) (h n : ℕ) (xs : List ℕ)
    → IsRing l h xs
    → has n xs ≡ true
    → has (l.next n) (h ∷ xs) ≡ true
next-IsRing l h n xs ring inside = ground (arith, next-has l h xs h n inside (ring.linked))

-- A list of different numbers below `n` has at most `n` of them.
pub Distinct-bound :
    (n : ℕ) (xs : List ℕ) → Distinct xs → ((k : ℕ) → has k xs ≡ true → k < n) → length xs ≤ n
unfolding remove
Distinct-bound zero [] distinct below = omega arith
Distinct-bound zero (x ∷ xs) distinct below = absurd (omega (arith, below x (ground arith)))
Distinct-bound (suc n) xs distinct below = omega (
  arith,
  length-remove n xs,
  Distinct-bound n (remove n xs) (Distinct-remove n xs distinct)
      (λ k inside. ground (arith, has-remove k n xs distinct, inside, below k)),
)
  where
    length-remove : (n : ℕ) (xs : List ℕ) → length xs ≤ suc (length (remove n xs))
    length-remove n [] = omega arith
    length-remove n (x ∷ xs) = elim (eq-cases x n) [
      | inl e ↦ rw (eq→== x n e, remove) (omega arith)
      | inr ne ↦ rw (ne→== x n ne, remove) (omega (arith, length-remove n xs))
    ]

-- A link that leaves no entry of the list nor its head does not matter.
pub set_next-other :
    (l : Links) (h n v : ℕ) (xs : List ℕ)
    → IsRing l h xs
    → has n (h ∷ xs) ≡ false
    → IsRing (set_next n v l) h xs
unfolding set_next
set_next-other l h n v xs ring out = record {
  linked =
      Linked-frame l (set_next n v l) h xs h
        (λ k inside. ground (arith, has-ne k n (h ∷ xs) inside out)) (λ k inside. refl)
        (ring.linked);
  apart = ring.apart;
  distinct = ring.distinct;
}

-- Removing an entry of a list makes it shorter by one.
pub length-remove : (n : ℕ) (xs : List ℕ) → has n xs ≡ true → length xs ≡ suc (length (remove n xs))
unfolding remove
length-remove n [] inside = absurd (ground (arith, inside))
length-remove n (x ∷ xs) inside = elim (eq-cases x n) [
  | inl e ↦ rw (eq→== x n e) refl
  | inr ne ↦ rw (ne→== x n ne) (ap suc (length-remove n xs (ground (arith, inside, ne))))
]
