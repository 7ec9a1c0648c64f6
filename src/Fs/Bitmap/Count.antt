-- ===== src/Fs/Bitmap/Count.antt =====
-- `count_bitmap` of fs/cluster.c against the number of set bits.
use os_thix.Prelude.{
  ℕ, zero, suc, ◌+◌, ◌/◌, ◌%◌, ◌^◌, ◌<◌, ◌≡◌, refl, ap, true, List, [], ◌∷◌, ◌==◌, ==→eq, ne→==,
  eq-cases, if◌then◌else◌, arith, each_from, from_table, get_or, take, inl, inr,
}
use os_thix.Word.{popcount}
use os_thix.Word.Popcount.{popcount_bytes, popcount-zero}
use os_thix.Fs.Bitmap.{bits, count_bytes, count_words, count_bitmap}

-- Every word fits 32 bits.
abbrev pub AllWords : List ℕ → Type 0
AllWords [] = Unit
AllWords (w ∷ ws) = (w < 2 ^ 32) × AllWords ws

-- The number of free resources in a bitmap: its set bits.
unfoldable pub free_count : List ℕ → ℕ
free_count [] = 0
free_count (w ∷ ws) = popcount 32 w + free_count ws

bits_table : each_from (λ x. get_or bits x 0 == popcount 8 x) 0 256 ≡ true
unfolding each_from popcount
bits_table = refl

-- The table `bits` holds, for each byte, its number of set bits.
bits-popcount : (x : ℕ) → x < 256 → get_or bits x 0 ≡ popcount 8 x
bits-popcount x h = ==→eq _ _ (from_table _ bits_table h)

-- Summing the table over the four bytes of a word counts its set bits.
count_bytes-popcount : (w : ℕ) → w < 2 ^ 32 → count_bytes w ≡ popcount 32 w
unfolding count_bytes
count_bytes-popcount w h = omega (
  arith,
  popcount_bytes w,
  bits-popcount (w % 256) (omega arith),
  bits-popcount (w / 256 % 256) (omega arith),
  bits-popcount (w / 65536 % 256) (omega arith),
  bits-popcount (w / 16777216 % 256) (omega arith),
  ap (popcount 8) top,
)
  where
    top : w / 16777216 % 256 ≡ w / 16777216
    top = omega arith

popcount-ones : popcount 32 0xFFFF_FFFF ≡ 32
unfolding popcount
popcount-ones = refl

-- The two shortcuts of the loop body agree with the table.
count_word :
    (w total : ℕ)
    → w < 2 ^ 32
    → (if w == 0 then total else if w == 0xFFFF_FFFF then total + 32 else total + count_bytes w)
      ≡ total + popcount 32 w
count_word w total h = elim (eq-cases w 0) [
  | inl e ↦ rw (e, popcount-zero) (omega arith)
  | inr ne ↦ elim (eq-cases w 0xFFFF_FFFF) [
    | inl e ↦ rw (e, popcount-ones) refl
    | inr ne' ↦ rw (ne→== w 0 ne, ne→== w 0xFFFF_FFFF ne', count_bytes-popcount w h) refl
  ]
]

count_words-free_count :
    (bitmap : List ℕ) (limit total : ℕ)
    → AllWords bitmap
    → count_words bitmap limit total ≡ total + free_count (take limit bitmap)
unfolding count_words free_count
count_words-free_count [] zero total h = omega arith
count_words-free_count (w ∷ ws) zero total h = omega arith
count_words-free_count [] (suc limit) total h = omega arith
count_words-free_count (w ∷ ws) (suc limit) total h =
    rw (count_word w total h.0) (omega (arith, count_words-free_count ws limit _ h.1))

-- `count_bitmap` of a bitmap of 32-bit words is the number of set bits in its first
-- `bitmap_size / 4` words.
pub count_bitmap-free_count :
    (bitmap : List ℕ) (bitmap_size : ℕ)
    → AllWords bitmap
    → count_bitmap bitmap bitmap_size ≡ free_count (take (bitmap_size / 4) bitmap)
unfolding count_bitmap
count_bitmap-free_count bitmap bitmap_size h =
    omega (arith, count_words-free_count bitmap (bitmap_size / 4) 0 h)
