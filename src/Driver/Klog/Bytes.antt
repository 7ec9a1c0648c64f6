-- ===== src/Driver/Klog/Bytes.antt =====
-- Copying bytes into and out of the log's buffer (driver/character/klog.c).
use os_thix.Prelude.{
  ℕ, zero, suc, ◌+◌, ◌<◌, ◌≤◌, ◌≡◌, refl, ap, ◌∙◌, List, [], ◌∷◌, ◌++◌, length, set, get_or,
  get_or-set, length-set, arith,
}
use os_thix.Driver.Klog.{fetch, store}

pub length-fetch : (buf : List ℕ) (i n : ℕ) → length (fetch buf i n) ≡ n
unfolding fetch
length-fetch buf i zero = refl
length-fetch buf i (suc n) = ap suc (length-fetch buf (suc i) n)

pub length-store : (buf : List ℕ) (i : ℕ) (bs : List ℕ) → length (store buf i bs) ≡ length buf
unfolding store
length-store buf i [] = refl
length-store buf i (b ∷ bs) = length-store (set buf i b) (suc i) bs ∙ length-set buf i b

pub fetch-append :
    (buf : List ℕ) (i j m n k : ℕ)
    → j ≡ i + m
    → k ≡ m + n
    → fetch buf i k ≡ fetch buf i m ++ fetch buf j n
unfolding fetch
fetch-append buf i j zero n k e f = rw (start e, count f) refl
  where
    start : j ≡ i + 0 → j ≡ i
    start e = omega arith

    count : k ≡ 0 + n → k ≡ n
    count f = omega arith
fetch-append buf i j (suc m) n zero e f = absurd (omega arith)
fetch-append buf i j (suc m) n (suc k) e f =
    ap (get_or buf i 0 ∷◌) (fetch-append buf (suc i) j m n k (omega arith) (omega arith))

get_or-store :
    (buf : List ℕ) (i j : ℕ) (bs : List ℕ)
    → j < i
    → i + length bs ≤ length buf
    → get_or (store buf i bs) j 0 ≡ get_or buf j 0
unfolding store
get_or-store buf i j [] h fits = refl
get_or-store buf i j (b ∷ bs) h fits = ground (
  arith,
  get_or-store (set buf i b) (suc i) j bs (omega arith) (omega (arith, length-set buf i b)),
  get_or-set buf i j b 0 (omega arith),
)

pub fetch-store_before :
    (buf : List ℕ) (i n w : ℕ) (bs : List ℕ)
    → i + n ≤ w
    → w + length bs ≤ length buf
    → fetch (store buf w bs) i n ≡ fetch buf i n
unfolding fetch
fetch-store_before buf i zero w bs h fits = refl
fetch-store_before buf i (suc n) w bs h fits =
    rw
      (
        get_or-store buf w i bs (omega arith) fits,
        fetch-store_before buf (suc i) n w bs (omega arith) fits,
      )
      refl

pub fetch-store :
    (buf : List ℕ) (w : ℕ) (bs : List ℕ)
    → w + length bs ≤ length buf
    → fetch (store buf w bs) w (length bs) ≡ bs
unfolding fetch store
fetch-store buf w [] fits = refl
fetch-store buf w (b ∷ bs) fits =
    rw (first, fetch-store (set buf w b) (suc w) bs (omega (arith, length-set buf w b))) refl
  where
    first : get_or (store (set buf w b) (suc w) bs) w 0 ≡ b
    first =
        get_or-store (set buf w b) (suc w) w bs (omega arith) (omega (arith, length-set buf w b))
        ∙ ground (arith, get_or-set buf w w b 0 (omega arith))
