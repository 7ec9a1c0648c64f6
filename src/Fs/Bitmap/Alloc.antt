-- ===== src/Fs/Bitmap/Alloc.antt =====
-- `get_bitmap_resource` and `release_bitmap_resource` of fs/cluster.c as a set of free resources.
use os_thix.Prelude.{
  ℕ, zero, suc, ◌+◌, ◌*◌, ◌/◌, ◌%◌, ◌^◌, ◌<◌, ◌≡◌, ◌≢◌, refl, ap, true, false, none, some, List, [],
  ◌∷◌, ◌==◌, if◌then◌else◌, arith, get_or, get_or-set, set, length, length-set, length-take,
  take-set, get_or-take, take, inl, inr, Bool-cases, Option-cases, eq→==, eq-cases,
}
use os_thix.Word.{test_bit, set_bit, clear_bit, bsf, popcount}
use os_thix.Word.Laws.{
  test_bit-set_bit, test_bit-clear_bit, test_bit-lowest_bit, test_bit-below_lowest_bit,
  clear_bit-le, popcount-clear_bit, popcount-set_bit, test_bit-zero, set_bit-clear_bit,
}
use os_thix.Word.Popcount.{popcount-zero}
use os_thix.Fs.Bitmap.{find_word, get_bitmap_resource, release_bitmap_resource, is_free}
use os_thix.Fs.Bitmap.Count.{AllWords, free_count}

-- What the search returns: the first word that is not zero, and its lowest set bit.
pub record Found (ws : List ℕ) (i limit j index : ℕ) : Type 0 where
  pub word : ℕ
  pub position : j ≡ i + word
  pub inside : word < length ws
  pub counted : word < limit
  pub nonzero : get_or ws word 0 ≢ 0
  pub lowest : index ≡ bsf (get_or ws word 0)
  pub first : (m : ℕ) → m < word → get_or ws m 0 ≡ 0

find_word-Found :
    (ws : List ℕ) (i limit : ℕ) {j index : ℕ}
    → find_word ws i limit ≡ some (j, index)
    → Found ws i limit j index
unfolding find_word
find_word-Found [] i zero e = absurd (ground arith)
find_word-Found (w ∷ ws) i zero e = absurd (ground arith)
find_word-Found [] i (suc limit) e = absurd (ground arith)
find_word-Found (w ∷ ws) i (suc limit) {j} {index} e = elim (Bool-cases (w == 0)) [
  | inl z ↦ later z (find_word-Found ws (suc i) limit (ground arith))
  | inr nz ↦ record {
    word = 0;
    position = ground arith;
    inside = omega arith;
    counted = omega arith;
    nonzero = ground arith;
    lowest = ground arith;
    first = λ m h. absurd (omega arith);
  }
]
  where
    later : (w == 0) ≡ true → Found ws (suc i) limit j index → Found (w ∷ ws) i (suc limit) j index
    later z f = record {
      word = suc f.word;
      position = omega (arith, f.position);
      inside = omega (arith, f.inside);
      counted = omega (arith, f.counted);
      nonzero = f.nonzero;
      lowest = f.lowest;
      first = elim [ zero ↦ λ h. ground arith | suc m ↦ λ h. f.first m (omega arith) ];
    }

find_word-none :
    (ws : List ℕ) (i limit : ℕ) → find_word ws i limit ≡ none → free_count (take limit ws) ≡ 0
unfolding find_word free_count
find_word-none [] i zero e = refl
find_word-none (w ∷ ws) i zero e = refl
find_word-none [] i (suc limit) e = refl
find_word-none (w ∷ ws) i (suc limit) e = elim (Bool-cases (w == 0)) [
  | inl z ↦
      let w_zero : w ≡ 0 = ground arith in
      rw (w_zero, popcount-zero) (omega (arith, find_word-none ws (suc i) limit (ground arith)))
  | inr nz ↦ absurd (ground arith)
]

AllWords-get_or : (ws : List ℕ) (i : ℕ) → AllWords ws → get_or ws i 0 < 2 ^ 32
AllWords-get_or [] i h = omega arith
AllWords-get_or (w ∷ ws) zero h = h.0
AllWords-get_or (w ∷ ws) (suc i) h = AllWords-get_or ws i h.1

AllWords-set : (ws : List ℕ) (i v : ℕ) → AllWords ws → v < 2 ^ 32 → AllWords (set ws i v)
AllWords-set [] i v h lt = tt
AllWords-set (w ∷ ws) zero v h lt = (lt, h.1)
AllWords-set (w ∷ ws) (suc i) v h lt = (h.0, AllWords-set ws i v h.1 lt)

free_count-set :
    (ws : List ℕ) (i v : ℕ)
    → i < length ws
    → free_count (set ws i v) + popcount 32 (get_or ws i 0) ≡ free_count ws + popcount 32 v
unfolding free_count
free_count-set [] i v h = elim h [ ]
free_count-set (w ∷ ws) zero v h = omega arith
free_count-set (w ∷ ws) (suc i) v h = omega (arith, free_count-set ws i v (omega arith))

bsf_lem : (w : ℕ) → w < 2 ^ 32 → w ≢ 0 → (test_bit w (bsf w) ≡ true) × (bsf w < 32)
unfolding bsf
bsf_lem w h ne = test_bit-lowest_bit 32 w h ne

is_free-set :
    (bitmap : List ℕ) (i v j : ℕ)
    → i < length bitmap
    → is_free (set bitmap i v) j ≡ (if i == j / 32 then test_bit v (j % 32) else is_free bitmap j)
unfolding is_free
is_free-set bitmap i v j h = ground (arith, get_or-set bitmap i (j / 32) v 0 h)

-- Releasing a resource of the bitmap marks it free and changes no other resource.
pub is_free-release :
    (bitmap : List ℕ) (resource j : ℕ)
    → resource / 32 < length bitmap
    → is_free (release_bitmap_resource bitmap resource) j
      ≡ (if resource == j then true else is_free bitmap j)
unfolding is_free release_bitmap_resource
is_free-release bitmap resource j h =
    let w = get_or bitmap (resource / 32) 0 in
    ground (
      arith,
      get_or-set bitmap (resource / 32) (j / 32) (set_bit w (resource % 32)) 0 h,
      test_bit-set_bit w (resource % 32) (j % 32),
    )

free_count-take-set :
    (bitmap : List ℕ) (limit i v : ℕ)
    → i < limit
    → i < length bitmap
    → free_count (take limit (set bitmap i v)) + popcount 32 (get_or bitmap i 0)
      ≡ free_count (take limit bitmap) + popcount 32 v
free_count-take-set bitmap limit i v h inside =
    rw (take-set limit bitmap i v, ← get_or-take limit bitmap i 0 h)
      (free_count-set (take limit bitmap) i v (omega (arith, length-take limit bitmap)))

-- Releasing a resource that was taken adds one to the number of free resources.
pub free_count-release :
    (bitmap : List ℕ) (limit resource : ℕ)
    → resource / 32 < limit
    → resource / 32 < length bitmap
    → is_free bitmap resource ≡ false
    → free_count (take limit (release_bitmap_resource bitmap resource))
      ≡ suc (free_count (take limit bitmap))
unfolding is_free release_bitmap_resource
free_count-release bitmap limit resource h inside taken =
    let w = get_or bitmap (resource / 32) 0 in
    omega (
      arith,
      free_count-take-set bitmap limit (resource / 32) (set_bit w (resource % 32)) h inside,
      popcount-set_bit 32 w (resource % 32) (omega arith) taken,
    )

-- What `get_bitmap_resource` has done when it returns `resource` and leaves `after`.
pub record Allocated (bitmap : List ℕ) (bitmap_size resource : ℕ) (after : List ℕ) : Type 0 where
  pub was_free : is_free bitmap resource ≡ true
  pub in_range : resource < bitmap_size / 4 * 32
  pub first : (j : ℕ) → j < resource → is_free bitmap j ≡ false
  pub others : (j : ℕ) → is_free after j ≡ (if resource == j then false else is_free bitmap j)
  pub count :
      suc (free_count (take (bitmap_size / 4) after)) ≡ free_count (take (bitmap_size / 4) bitmap)
  pub words : AllWords after
  pub size : length after ≡ length bitmap
  pub undone : release_bitmap_resource after resource ≡ bitmap

set-set : (ws : List ℕ) (i v w : ℕ) → w ≡ get_or ws i 0 → set (set ws i v) i w ≡ ws
set-set [] i v w e = refl
set-set (x ∷ ws) zero v w e = rw e refl
set-set (x ∷ ws) (suc i) v w e = ap (x ∷◌) (set-set ws i v w e)

module _ (bitmap : List ℕ) (bitmap_size i : ℕ) (ok : AllWords bitmap) (inside : i < length bitmap)
    (counted : i < bitmap_size / 4) (nonzero : get_or bitmap i 0 ≢ 0)
    (first : (m : ℕ) → m < i → get_or bitmap m 0 ≡ 0) where
  abbrev word : ℕ
  word = get_or bitmap i 0

  lowest : (test_bit word (bsf word) ≡ true) × (bsf word < 32)
  lowest = bsf_lem word (AllWords-get_or bitmap i ok) nonzero

  place : ((i * 32 + bsf word) / 32 ≡ i) × ((i * 32 + bsf word) % 32 ≡ bsf word)
  place = omega (arith, lowest.1)

  none_before : (j : ℕ) → j < i * 32 + bsf word → is_free bitmap j ≡ false
  unfolding is_free bsf
  none_before j h = elim (eq-cases (j / 32) i) [
    | inl e ↦ rw e (test_bit-below_lowest_bit 32 word (j % 32) (omega (arith, lowest.1)))
    | inr ne ↦ rw (first (j / 32) (omega (arith, lowest.1))) (test_bit-zero (j % 32))
  ]

  cleared : ℕ
  cleared = clear_bit word (bsf word)

  restored : set_bit (get_or (set bitmap i cleared) i 0) (bsf word) ≡ word
  unfolding cleared
  restored =
      rw (get_or-set bitmap i i cleared 0 inside, eq→== i i refl)
        (set_bit-clear_bit word (bsf word) lowest.0)

  after-Allocated : Allocated bitmap bitmap_size (i * 32 + bsf word) (set bitmap i cleared)
  unfolding cleared is_free release_bitmap_resource
  after-Allocated = record {
    was_free = rw (place.0, place.1) lowest.0;
    in_range = omega (arith, lowest.1);
    first = none_before;
    others = λ j. ground (
      arith,
      is_free-set bitmap i cleared j inside,
      test_bit-clear_bit word (bsf word) (j % 32),
      lowest.1,
    );
    count = omega (
      arith,
      free_count-take-set bitmap (bitmap_size / 4) i cleared counted inside,
      popcount-clear_bit 32 word (bsf word) lowest.1 lowest.0,
    );
    words =
        AllWords-set bitmap i _ ok
          (omega (arith, clear_bit-le word (bsf word), AllWords-get_or bitmap i ok));
    size = length-set bitmap i _;
    undone = rw (place.0, place.1) (set-set bitmap i cleared _ restored);
  }

-- A successful `get_bitmap_resource` returns the lowest free resource, below the size of the
-- bitmap, marks it taken and leaves every other resource as it was; there is one free resource
-- less, and releasing the resource gives the old bitmap back.
pub get_bitmap_resource-Allocated :
    (bitmap : List ℕ) (bitmap_size : ℕ) {resource : ℕ} {after : List ℕ}
    → AllWords bitmap
    → get_bitmap_resource bitmap bitmap_size ≡ some (resource, after)
    → Allocated bitmap bitmap_size resource after
unfolding get_bitmap_resource cleared
get_bitmap_resource-Allocated bitmap bitmap_size {resource} {after} ok e =
    elim (Option-cases (find_word bitmap 0 (bitmap_size / 4))) [
      | inl n ↦ absurd (ground arith)
      | inr (p, q) ↦ go p.0 p.1 q (find_word-Found bitmap 0 (bitmap_size / 4) q)
    ]
  where
    go :
        (j index : ℕ)
        → find_word bitmap 0 (bitmap_size / 4) ≡ some (j, index)
        → Found bitmap 0 (bitmap_size / 4) j index
        → Allocated bitmap bitmap_size resource after
    go j index q f =
        let at : j ≡ f.word = omega (arith, f.position) in
        let i = f.word in
        let r : resource ≡ i * 32 + bsf (get_or bitmap i 0) = ground (arith, at, f.lowest) in
        let a : after ≡ set bitmap i (clear_bit (get_or bitmap i 0) (bsf (get_or bitmap i 0))) =
          ground (arith, at, f.lowest) in
        rw (r, a) (after-Allocated bitmap bitmap_size i ok f.inside f.counted f.nonzero f.first)

-- `get_bitmap_resource` panics only where no resource is free.
get_bitmap_resource-none :
    (bitmap : List ℕ) (bitmap_size : ℕ)
    → get_bitmap_resource bitmap bitmap_size ≡ none
    → free_count (take (bitmap_size / 4) bitmap) ≡ 0
unfolding get_bitmap_resource
get_bitmap_resource-none bitmap bitmap_size e =
    find_word-none bitmap 0 (bitmap_size / 4) (ground arith)

-- A size in bytes, which the callers give as bits / 8, holds as many words.
pub quarter : (n : ℕ) → n / 8 / 4 ≡ n / 32
quarter n = omega arith

pub get_bitmap_resource-some :
    (bitmap : List ℕ) (bits : ℕ)
    → free_count (take (bits / 32) bitmap) ≢ 0
    → (b : ℕ) × (after : List ℕ) × (get_bitmap_resource bitmap (bits / 8) ≡ some (b, after))
get_bitmap_resource-some bitmap bits left =
    elim (Option-cases (get_bitmap_resource bitmap (bits / 8))) [
      | inl e ↦ absurd (left (rw (← quarter bits) (get_bitmap_resource-none bitmap (bits / 8) e)))
      | inr (p, e) ↦ (p.0, p.1, e)
    ]
