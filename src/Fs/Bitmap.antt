-- ===== src/Fs/Bitmap.antt =====
-- The free-resource bitmaps of fs/cluster.c: a bit is 1 where the inode or block is free.
-- A bitmap is the list of its 32-bit words.
pub mod Count
pub mod Alloc
use os_thix.Prelude.{
  ℕ, zero, suc, ◌+◌, ◌*◌, ◌/◌, ◌%◌, Option, none, some, Bool, true, false, List, [], ◌∷◌, ◌==◌,
  if◌then◌else◌, get_or, set,
}
use os_thix.Word.{test_bit, set_bit, clear_bit, bsf}

-- `bits[256]`
abbrev pub bits : List ℕ
bits =
    0 ∷ 1 ∷ 1 ∷ 2 ∷ 1 ∷ 2 ∷ 2 ∷ 3 ∷ 1 ∷ 2 ∷ 2 ∷ 3 ∷ 2 ∷ 3 ∷ 3 ∷ 4 ∷ 1 ∷ 2 ∷ 2 ∷ 3 ∷ 2 ∷ 3 ∷ 3 ∷ 4
    ∷ 2 ∷ 3 ∷ 3 ∷ 4 ∷ 3 ∷ 4 ∷ 4 ∷ 5 ∷ 1 ∷ 2 ∷ 2 ∷ 3 ∷ 2 ∷ 3 ∷ 3 ∷ 4 ∷ 2 ∷ 3 ∷ 3 ∷ 4 ∷ 3 ∷ 4 ∷ 4 ∷ 5
    ∷ 2 ∷ 3 ∷ 3 ∷ 4 ∷ 3 ∷ 4 ∷ 4 ∷ 5 ∷ 3 ∷ 4 ∷ 4 ∷ 5 ∷ 4 ∷ 5 ∷ 5 ∷ 6 ∷ 1 ∷ 2 ∷ 2 ∷ 3 ∷ 2 ∷ 3 ∷ 3 ∷ 4
    ∷ 2 ∷ 3 ∷ 3 ∷ 4 ∷ 3 ∷ 4 ∷ 4 ∷ 5 ∷ 2 ∷ 3 ∷ 3 ∷ 4 ∷ 3 ∷ 4 ∷ 4 ∷ 5 ∷ 3 ∷ 4 ∷ 4 ∷ 5 ∷ 4 ∷ 5 ∷ 5 ∷ 6
    ∷ 2 ∷ 3 ∷ 3 ∷ 4 ∷ 3 ∷ 4 ∷ 4 ∷ 5 ∷ 3 ∷ 4 ∷ 4 ∷ 5 ∷ 4 ∷ 5 ∷ 5 ∷ 6 ∷ 3 ∷ 4 ∷ 4 ∷ 5 ∷ 4 ∷ 5 ∷ 5 ∷ 6
    ∷ 4 ∷ 5 ∷ 5 ∷ 6 ∷ 5 ∷ 6 ∷ 6 ∷ 7 ∷ 1 ∷ 2 ∷ 2 ∷ 3 ∷ 2 ∷ 3 ∷ 3 ∷ 4 ∷ 2 ∷ 3 ∷ 3 ∷ 4 ∷ 3 ∷ 4 ∷ 4 ∷ 5
    ∷ 2 ∷ 3 ∷ 3 ∷ 4 ∷ 3 ∷ 4 ∷ 4 ∷ 5 ∷ 3 ∷ 4 ∷ 4 ∷ 5 ∷ 4 ∷ 5 ∷ 5 ∷ 6 ∷ 2 ∷ 3 ∷ 3 ∷ 4 ∷ 3 ∷ 4 ∷ 4 ∷ 5
    ∷ 3 ∷ 4 ∷ 4 ∷ 5 ∷ 4 ∷ 5 ∷ 5 ∷ 6 ∷ 3 ∷ 4 ∷ 4 ∷ 5 ∷ 4 ∷ 5 ∷ 5 ∷ 6 ∷ 4 ∷ 5 ∷ 5 ∷ 6 ∷ 5 ∷ 6 ∷ 6 ∷ 7
    ∷ 2 ∷ 3 ∷ 3 ∷ 4 ∷ 3 ∷ 4 ∷ 4 ∷ 5 ∷ 3 ∷ 4 ∷ 4 ∷ 5 ∷ 4 ∷ 5 ∷ 5 ∷ 6 ∷ 3 ∷ 4 ∷ 4 ∷ 5 ∷ 4 ∷ 5 ∷ 5 ∷ 6
    ∷ 4 ∷ 5 ∷ 5 ∷ 6 ∷ 5 ∷ 6 ∷ 6 ∷ 7 ∷ 3 ∷ 4 ∷ 4 ∷ 5 ∷ 4 ∷ 5 ∷ 5 ∷ 6 ∷ 4 ∷ 5 ∷ 5 ∷ 6 ∷ 5 ∷ 6 ∷ 6 ∷ 7
    ∷ 4 ∷ 5 ∷ 5 ∷ 6 ∷ 5 ∷ 6 ∷ 6 ∷ 7 ∷ 5 ∷ 6 ∷ 6 ∷ 7 ∷ 6 ∷ 7 ∷ 7 ∷ 8 ∷ []

-- `bits[bitmap[0]] + … + bits[bitmap[3]]`: the bytes of a word, lowest first.
unfoldable pub count_bytes : ℕ → ℕ
count_bytes w =
    get_or bits (w % 256) 0
    + get_or bits (w / 256 % 256) 0
    + get_or bits (w / 65536 % 256) 0
    + get_or bits (w / 16777216 % 256) 0

-- `count_bitmap`, the loop with `limit` words left.
count_words : List ℕ → ℕ → ℕ → ℕ
count_words bitmap zero total = total
count_words [] (suc limit) total = total
count_words (w ∷ ws) (suc limit) total =
    count_words ws limit
      (if w == 0 then total else if w == 0xFFFF_FFFF then total + 32 else total + count_bytes w)

unfoldable pub count_bitmap : List ℕ → ℕ → ℕ
unfolding count_words count_bytes
count_bitmap bitmap bitmap_size = count_words bitmap (bitmap_size / 4) 0

-- The loop of `get_bitmap_resource` at word `i`, over the words left.
find_word : List ℕ → ℕ → ℕ → Option (ℕ × ℕ)
find_word bitmap i zero = none
find_word [] i (suc limit) = none
find_word (w ∷ ws) i (suc limit) = elim (w == 0) [
  | true ↦ find_word ws (suc i) limit
  | false ↦ some (i, bsf w)
]

-- `none` is the panic "no more free bitmap resources".
unfoldable pub get_bitmap_resource : List ℕ → ℕ → Option (ℕ × List ℕ)
unfolding find_word
get_bitmap_resource bitmap bitmap_size = elim (find_word bitmap 0 (bitmap_size / 4)) [
  | none ↦ none
  | some (i, index) ↦ some (i * 32 + index, set bitmap i (clear_bit (get_or bitmap i 0) index))
]

unfoldable pub release_bitmap_resource : List ℕ → ℕ → List ℕ
release_bitmap_resource bitmap resource =
    set bitmap (resource / 32) (set_bit (get_or bitmap (resource / 32) 0) (resource % 32))

-- Whether a resource is marked free.
unfoldable pub is_free : List ℕ → ℕ → Bool
is_free bitmap resource = test_bit (get_or bitmap (resource / 32) 0) (resource % 32)
