-- ===== src/Kernel/Kpid/Chain.antt =====
-- The list of processes that the table of kpids holds.
use os_thix.Prelude.{
  ℕ, suc, ◌≡◌, ◌≢◌, refl, true, false, List, [], ◌∷◌, ◌++◌, ◌∙◌, ◌⊎◌, inl, inr, Bool-cases,
  eq-cases, ◌==◌, if◌then◌else◌, arith, has, has-append, length,
}
use os_thix.Kernel.Kpid.{KpidStruct, KpidTable, idle}

-- From `k` the `next` fields lead through `xs` to 0, the `prev` fields lead back, and every
-- process of `xs` is in use.
abbrev pub Links : (ℕ → KpidStruct) → ℕ → List ℕ → Type 0
Links d k [] = (d k).next ≡ 0
Links d k (x ∷ xs) =
    ((d k).next ≡ x) × ((d x).prev ≡ k) × ((d x).used ≡ true) × (x ≢ 0) × Links d x xs

abbrev pub NoDup : List ℕ → Type 0
NoDup [] = Unit
NoDup (x ∷ xs) = (has x xs ≡ false) × NoDup xs

-- The last process of `xs`, or `k`.
abbrev pub last : ℕ → List ℕ → ℕ
last k [] = k
last k (x ∷ xs) = last x xs

abbrev pub remove : ℕ → List ℕ → List ℕ
remove k [] = []
remove k (x ∷ xs) = if k == x then xs else x ∷ remove k xs

-- The table holds IDLE and, in this order, the processes `xs`.
pub record Holds (t : KpidTable) (xs : List ℕ) : Type 0 where
  pub links : Links t.kpid_data idle xs
  pub nodup : NoDup xs
  pub tail : t.kpid_tail ≡ last idle xs
  pub kpids : t.kpids ≡ suc (length xs)
  pub unused : (k : ℕ) → k ≢ 0 → has k xs ≡ false → (t.kpid_data k).used ≡ false

-- The entry of `j` is the same in both tables.
abbrev pub Same : (ℕ → KpidStruct) → (ℕ → KpidStruct) → ℕ → Type 0
Same d d' j = ((d' j).next ≡ (d j).next) × ((d' j).prev ≡ (d j).prev) × ((d' j).used ≡ (d j).used)

-- A change outside the chain leaves it alone.
pub Links-frame :
    (d d' : ℕ → KpidStruct) (k : ℕ) (xs : List ℕ)
    → Links d k xs
    → (d' k).next ≡ (d k).next
    → ((j : ℕ) → has j xs ≡ true → Same d d' j)
    → Links d' k xs
Links-frame d d' k [] l e same = e ∙ l
Links-frame d d' k (x ∷ xs) l e same =
    let s = same x (ground arith) in
    (
      e ∙ l.0,
      s.1 ∙ l.1,
      s.2 ∙ l.2,
      l.3,
      Links-frame d d' x xs l.4 s.0 (λ j h. same j (ground arith)),
    )

pub has-last : (k : ℕ) (xs : List ℕ) → has (last k xs) (k ∷ xs) ≡ true
has-last k [] = ground arith
has-last k (x ∷ xs) = ground (arith, has-last x xs)

pub last-append : (k x : ℕ) (xs : List ℕ) → last k (xs ++ x ∷ []) ≡ x
last-append k x [] = refl
last-append k x (y ∷ xs) = last-append y x xs

pub NoDup-append : (xs : List ℕ) (k : ℕ) → NoDup xs → has k xs ≡ false → NoDup (xs ++ k ∷ [])
NoDup-append [] k n h = (refl, tt)
NoDup-append (x ∷ xs) k n h =
    (ground (arith, has-append x xs (k ∷ [])), NoDup-append xs k n.1 (ground arith))

pub has-remove :
    (j k : ℕ) (xs : List ℕ) → NoDup xs → has j (remove k xs) ≡ (if k == j then false else has j xs)
has-remove j k [] n = ground arith
has-remove j k (x ∷ xs) n = ground (arith, has-remove j k xs n.1)

pub NoDup-remove : (k : ℕ) (xs : List ℕ) → NoDup xs → NoDup (remove k xs)
NoDup-remove k [] n = tt
NoDup-remove k (x ∷ xs) n = elim (Bool-cases (k == x)) [
  | inl e ↦ rw e (n.1)
  | inr e ↦ rw e (ground (arith, has-remove x k xs n.1), NoDup-remove k xs n.1)
]

pub length-remove : (k : ℕ) (xs : List ℕ) → has k xs ≡ true → suc (length (remove k xs)) ≡ length xs
length-remove k [] h = absurd (ground arith)
length-remove k (x ∷ xs) h = ground (arith, length-remove k xs)

module _ (d : ℕ → KpidStruct) where
  -- The predecessor of a process on the chain stands on it, or is where it starts.
  pub prev-mem :
      (p k : ℕ) (xs : List ℕ) → Links d p xs → has k xs ≡ true → has ((d k).prev) (p ∷ xs) ≡ true
  prev-mem p k [] l h = absurd (ground arith)
  prev-mem p k (x ∷ xs) l h = elim (eq-cases k x) [
    | inl e ↦ rw (e, l.1) (ground arith)
    | inr ne ↦ ground (arith, prev-mem x k xs l.4)
  ]

  -- The successor of a process on the chain is 0 or stands on it.
  pub next-mem :
      (p k : ℕ) (xs : List ℕ)
      → Links d p xs
      → has k xs ≡ true
      → ((d k).next ≡ 0) ⊎ (has ((d k).next) xs ≡ true)
  next-mem p k [] l h = absurd (ground arith)
  next-mem p k (x ∷ []) l h = inl (ground arith)
  next-mem p k (x ∷ y ∷ xs) l h = elim (eq-cases k x) [
    | inl e ↦ inr (rw (e, l.4.0) (ground arith))
    | inr ne ↦ elim (next-mem x k (y ∷ xs) l.4 (ground arith)) [
      | inl z ↦ inl z
      | inr m ↦ inr (ground arith)
    ]
  ]

  -- Only the last process has no successor.
  pub next-last :
      (p k : ℕ) (xs : List ℕ)
      → Links d p xs
      → NoDup xs
      → has k xs ≡ true
      → ((k == last p xs) ≡ ((d k).next == 0))
  next-last p k [] l n h = absurd (ground arith)
  next-last p k (x ∷ []) l n h = ground arith
  next-last p k (x ∷ y ∷ xs) l n h = elim (eq-cases k x) [
    | inl e ↦ rw (e, l.4.0) (ground (arith, has-last y xs))
    | inr ne ↦ next-last x k (y ∷ xs) l.4 n.1 (ground arith)
  ]

pub Links-used :
    (d : ℕ → KpidStruct) (p : ℕ) (xs : List ℕ) (k : ℕ)
    → Links d p xs
    → has k xs ≡ true
    → ((d k).used ≡ true) × (k ≢ 0)
Links-used d p [] k l h = absurd (ground arith)
Links-used d p (x ∷ xs) k l h = elim (eq-cases k x) [
  | inl e ↦ rw e (l.2, l.3)
  | inr ne ↦ Links-used d x xs k l.4 (ground arith)
]

-- No process of a list without repetitions is its own predecessor.
pub prev-ne :
    (d : ℕ → KpidStruct) (p k : ℕ) (xs : List ℕ)
    → Links d p xs
    → NoDup xs
    → has p xs ≡ false
    → has k xs ≡ true
    → (d k).prev ≢ k
prev-ne d p k [] l n out h = absurd (ground arith)
prev-ne d p k (x ∷ xs) l n out h = elim (eq-cases k x) [
  | inl e ↦ ground arith
  | inr ne ↦ prev-ne d x k xs l.4 n.1 n.0 (ground arith)
]
