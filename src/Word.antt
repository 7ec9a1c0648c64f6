-- ===== src/Word.antt =====
-- 32-bit words and their bits, as the C operators `&`, `|`, `~`, `<<` and the `bsf` instruction
-- use them on `unsigned`. A word is a number below 2 ^ 32; bit 0 is its lowest.
pub mod Laws
pub mod Popcount
use os_thix.Prelude.{
  ℕ, zero, suc, ◌+◌, ◌*◌, ◌/◌, ◌%◌, Bool, true, false, not, ◌&&◌, ◌||◌, ◌==◌, if◌then◌else◌,
}

-- `w & (1 << i)` as a test
unfoldable pub test_bit : ℕ → ℕ → Bool
test_bit w zero = w % 2 == 1
test_bit w (suc i) = test_bit (w / 2) i

-- `w | (1 << i)`
unfoldable pub set_bit : ℕ → ℕ → ℕ
set_bit w zero = w / 2 * 2 + 1
set_bit w (suc i) = set_bit (w / 2) i * 2 + w % 2

-- `w & ~(1 << i)`
unfoldable pub clear_bit : ℕ → ℕ → ℕ
clear_bit w zero = w / 2 * 2
clear_bit w (suc i) = clear_bit (w / 2) i * 2 + w % 2

-- A two-place operator on each of the lowest `k` bits.
unfoldable pub bitwise : (Bool → Bool → Bool) → ℕ → ℕ → ℕ → ℕ
bitwise f zero a b = 0
bitwise f (suc k) a b =
    bitwise f k (a / 2) (b / 2) * 2 + (if f (a % 2 == 1) (b % 2 == 1) then 1 else 0)

-- `a & b`
unfoldable pub and_word : ℕ → ℕ → ℕ
unfolding bitwise
and_word a b = bitwise ◌&&◌ 32 a b

-- `a | b`
unfoldable pub or_word : ℕ → ℕ → ℕ
unfolding bitwise
or_word a b = bitwise ◌||◌ 32 a b

-- `a & ~b`
unfoldable pub andn_word : ℕ → ℕ → ℕ
unfolding bitwise
andn_word a b = bitwise (λ x y. x && not y) 32 a b

-- The lowest set bit, as `bsf` finds it, among the lowest `k` bits; `k` where they are all clear.
unfoldable pub lowest_bit : ℕ → ℕ → ℕ
lowest_bit zero w = 0
lowest_bit (suc k) w = elim (w % 2 == 1) [ true ↦ 0 | false ↦ suc (lowest_bit k (w / 2)) ]

-- `bsf` of a word
unfoldable pub bsf : ℕ → ℕ
unfolding lowest_bit
bsf w = lowest_bit 32 w

-- How many of the lowest `k` bits are set.
unfoldable pub popcount : ℕ → ℕ → ℕ
popcount zero w = 0
popcount (suc k) w = w % 2 + popcount k (w / 2)
