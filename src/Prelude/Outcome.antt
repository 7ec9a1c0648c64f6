-- ===== src/Prelude/Outcome.antt =====
-- How a kernel routine ends that may wait or panic.

-- `asleep`: the calling process goes to sleep before the routine is done. `panic`: `PANIC`.
pub data Run {ℓ} (A : Type ℓ) : Type ℓ where
  done : A → Run A
  asleep : Run A
  panic : Run A

infixl 5 ◌>>=◌
abbrev pub ◌>>=◌ {ℓ κ} : {A : Type ℓ} {B : Type κ} → Run A → (A → Run B) → Run B
done a >>= f = f a
asleep >>= f = asleep
panic >>= f = panic
