-- ===== src/Word/Popcount.antt =====
-- The number of set bits of a word, byte by byte.
use native.Mathlib.Nat.{pow-suc}
use os_thix.Prelude.{ℕ, zero, suc, ◌+◌, ◌*◌, ◌/◌, ◌%◌, ◌^◌, ◌≡◌, refl, sym, ap, ◌∙◌, arith}
use os_thix.Word.{popcount}

-- Only the lowest `k` bits are counted.
popcount-add : (k x y : ℕ) → popcount k (x + y * 2 ^ k) ≡ popcount k x
unfolding popcount
popcount-add zero x y = refl
popcount-add (suc k) x y = rw (low, high) (ap (λ (t : ℕ). x % 2 + t) (popcount-add k (x / 2) y))
  where
    twice : y * 2 ^ suc k ≡ 2 * (y * 2 ^ k)
    twice = rw pow-suc (omega arith)

    low : (x + y * 2 ^ suc k) % 2 ≡ x % 2
    low = omega (arith, twice)

    high : (x + y * 2 ^ suc k) / 2 ≡ x / 2 + y * 2 ^ k
    high = omega (arith, twice)

popcount_8-mod : (w : ℕ) → popcount 8 (w % 256) ≡ popcount 8 w
popcount_8-mod w = sym (popcount-add 8 (w % 256) (w / 256)) ∙ ap (popcount 8) (omega arith)

eighth-half : (w : ℕ) → w / 2 / 2 / 2 / 2 / 2 / 2 / 2 / 2 ≡ w / 256
eighth-half w = omega arith

-- The lowest byte counts by itself.
pub popcount-add_8 :
    (k w : ℕ)
    → popcount (suc (suc (suc (suc (suc (suc (suc (suc k)))))))) w
      ≡ popcount 8 w + popcount k (w / 256)
unfolding popcount
popcount-add_8 k w = rw (← eighth-half w) (omega arith)

-- A word counts by its four bytes.
pub popcount_bytes :
    (w : ℕ)
    → popcount 32 w
      ≡ popcount 8 (w % 256)
        + popcount 8 (w / 256 % 256)
        + popcount 8 (w / 65536 % 256)
        + popcount 8 (w / 16777216)
popcount_bytes w = omega (
  arith,
  popcount_8-mod w,
  popcount_8-mod (w / 256),
  popcount_8-mod (w / 65536),
  popcount-add_8 24 w,
  popcount-add_8 16 (w / 256),
  popcount-add_8 8 (w / 65536),
  ap (popcount 16) (div_256 w),
  ap (popcount 8) (div_65536 w),
)
  where
    div_256 : (v : ℕ) → v / 256 / 256 ≡ v / 65536
    div_256 v = omega arith

    div_65536 : (v : ℕ) → v / 65536 / 256 ≡ v / 16777216
    div_65536 v = omega arith

pub popcount-zero : popcount 32 0 ≡ 0
unfolding popcount
popcount-zero = refl
