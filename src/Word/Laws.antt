-- ===== src/Word/Laws.antt =====
-- What the bit operations of a word change and what they leave alone.
use native.Mathlib.Nat.{pow-suc}
use os_thix.Prelude.{
  ℕ, zero, suc, ◌+◌, ◌*◌, ◌/◌, ◌%◌, ◌^◌, ◌<◌, ◌≤◌, ◌≡◌, refl, ◌≢◌, Bool, true, false, ◌==◌,
  if◌then◌else◌, arith, inl, inr, Bool-cases,
}
use os_thix.Word.{test_bit, set_bit, clear_bit, bitwise, lowest_bit, popcount}

half-double_odd : (x : ℕ) → (x * 2 + 1) / 2 ≡ x
half-double_odd x = omega arith

half-double : (x : ℕ) → x * 2 / 2 ≡ x
half-double x = omega arith

half-digit : (x w : ℕ) → (x * 2 + w % 2) / 2 ≡ x
half-digit x w = omega arith

half-bit : (x : ℕ) (b : Bool) → (x * 2 + (if b then 1 else 0)) / 2 ≡ x
half-bit x b = ground arith

pub test_bit-set_bit :
    (w i j : ℕ) → test_bit (set_bit w i) j ≡ (if i == j then true else test_bit w j)
unfolding test_bit set_bit
test_bit-set_bit w zero zero = ground arith
test_bit-set_bit w zero (suc j) = rw (half-double_odd (w / 2)) (ground arith)
test_bit-set_bit w (suc i) zero = ground arith
test_bit-set_bit w (suc i) (suc j) =
    rw (half-digit (set_bit (w / 2) i) w) (ground (arith, test_bit-set_bit (w / 2) i j))

pub test_bit-clear_bit :
    (w i j : ℕ) → test_bit (clear_bit w i) j ≡ (if i == j then false else test_bit w j)
unfolding test_bit clear_bit
test_bit-clear_bit w zero zero = ground arith
test_bit-clear_bit w zero (suc j) = rw (half-double (w / 2)) (ground arith)
test_bit-clear_bit w (suc i) zero = ground arith
test_bit-clear_bit w (suc i) (suc j) =
    rw (half-digit (clear_bit (w / 2) i) w) (ground (arith, test_bit-clear_bit (w / 2) i j))

pub set_bit-lt : (k w i : ℕ) → i < k → w < 2 ^ k → set_bit w i < 2 ^ k
unfolding set_bit
set_bit-lt zero w i h lt = elim h [ ]
set_bit-lt (suc k) w zero h lt = rw pow-suc (omega (arith, pow-suc 2 k))
set_bit-lt (suc k) w (suc i) h lt =
    rw pow-suc (
      omega (arith, pow-suc 2 k, set_bit-lt k (w / 2) i (omega arith) (omega (arith, pow-suc 2 k))))

pub clear_bit-le : (w i : ℕ) → clear_bit w i ≤ w
unfolding clear_bit
clear_bit-le w zero = omega arith
clear_bit-le w (suc i) = omega (arith, clear_bit-le (w / 2) i)

pub test_bit-bitwise :
    (f : Bool → Bool → Bool) (k a b i : ℕ)
    → i < k
    → test_bit (bitwise f k a b) i ≡ f (test_bit a i) (test_bit b i)
unfolding test_bit bitwise
test_bit-bitwise f zero a b i h = elim h [ ]
test_bit-bitwise f (suc k) a b zero h = ground arith
test_bit-bitwise f (suc k) a b (suc i) h =
    rw (half-bit (bitwise f k (a / 2) (b / 2)) (f (a % 2 == 1) (b % 2 == 1)))
      (test_bit-bitwise f k (a / 2) (b / 2) i (omega arith))

-- `bsf` of a word with a set bit is a set bit of it, below the width.
pub test_bit-lowest_bit :
    (k w : ℕ) → w < 2 ^ k → w ≢ 0 → (test_bit w (lowest_bit k w) ≡ true) × (lowest_bit k w < k)
unfolding test_bit lowest_bit
test_bit-lowest_bit zero w h ne = absurd (ne (omega arith))
test_bit-lowest_bit (suc k) w h ne = elim (Bool-cases (w % 2 == 1)) [
  | inl e ↦ rw (e, lowest_bit) (e, omega arith)
  | inr e ↦
      let ih = test_bit-lowest_bit k (w / 2) (omega (arith, pow-suc 2 k)) (ground arith) in
      rw (e, lowest_bit) (ih.0, omega (arith, ih.1))
]

-- No bit below the one that `bsf` finds is set.
pub test_bit-below_lowest_bit : (k w i : ℕ) → i < lowest_bit k w → test_bit w i ≡ false
unfolding test_bit lowest_bit
test_bit-below_lowest_bit zero w i h = elim h [ ]
test_bit-below_lowest_bit (suc k) w zero h = ground arith
test_bit-below_lowest_bit (suc k) w (suc i) h =
    ground (arith, test_bit-below_lowest_bit k (w / 2) i)

-- Setting a clear bit adds one to the number of set bits, clearing a set one takes one away.
pub popcount-set_bit :
    (k w i : ℕ) → i < k → test_bit w i ≡ false → popcount k (set_bit w i) ≡ suc (popcount k w)
unfolding test_bit set_bit popcount
popcount-set_bit zero w i h e = elim h [ ]
popcount-set_bit (suc k) w zero h e = rw (half-double_odd (w / 2)) (ground arith)
popcount-set_bit (suc k) w (suc i) h e =
    rw (half-digit (set_bit (w / 2) i) w) (ground (arith, popcount-set_bit k (w / 2) i))

pub popcount-clear_bit :
    (k w i : ℕ) → i < k → test_bit w i ≡ true → suc (popcount k (clear_bit w i)) ≡ popcount k w
unfolding test_bit clear_bit popcount
popcount-clear_bit zero w i h e = elim h [ ]
popcount-clear_bit (suc k) w zero h e = rw (half-double (w / 2)) (ground arith)
popcount-clear_bit (suc k) w (suc i) h e =
    rw (half-digit (clear_bit (w / 2) i) w) (ground (arith, popcount-clear_bit k (w / 2) i))

pub test_bit-zero : (i : ℕ) → test_bit 0 i ≡ false
unfolding test_bit
test_bit-zero zero = refl
test_bit-zero (suc i) = test_bit-zero i

-- Setting a bit that was set and has been cleared gives the word back.
pub set_bit-clear_bit : (w i : ℕ) → test_bit w i ≡ true → set_bit (clear_bit w i) i ≡ w
unfolding test_bit set_bit clear_bit
set_bit-clear_bit w zero h = rw (half-double (w / 2)) (ground arith)
set_bit-clear_bit w (suc i) h =
    rw (half-digit (clear_bit (w / 2) i) w, set_bit-clear_bit (w / 2) i h) (omega arith)
