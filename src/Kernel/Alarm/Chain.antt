-- ===== src/Kernel/Alarm/Chain.antt =====
-- The list of alarms of kernel/sched.c as a list of indices.
use os_thix.Prelude.{ℕ, ◌≡◌, refl, true, false, List, [], ◌∷◌, has, arith, Option, none, some}
use os_thix.Kernel.Alarm.{AlarmStruct}

-- The entries from `p` on, through `next`.
unfoldable pub Chain : (ℕ → AlarmStruct) → Option ℕ → List ℕ → Type 0
Chain a p [] = p ≡ none
Chain a p (k ∷ ks) = (p ≡ some k) × Chain a ((a k).next) ks

-- No entry twice.
unfoldable pub Distinct : List ℕ → Type 0
Distinct [] = true ≡ true
Distinct (k ∷ ks) = (has k ks ≡ false) × Distinct ks

-- Writing to entries outside a list leaves the list as it is.
pub Chain-frame :
    (a b : ℕ → AlarmStruct) (p : Option ℕ) (ks : List ℕ)
    → ((j : ℕ) → has j ks ≡ true → (b j).next ≡ (a j).next)
    → Chain a p ks
    → Chain b p ks
unfolding Chain
Chain-frame a b p [] same c = c
Chain-frame a b p (k ∷ ks) same (e, c) = (
  e,
  rw (same k (ground arith))
      (Chain-frame a b ((a k).next) ks (λ j h. same j (ground (arith, h))) c),
)

pub Chain-cons :
    (a : ℕ → AlarmStruct) (k : ℕ) (ks : List ℕ)
    → Chain a ((a k).next) ks
    → Chain a (some k) (k ∷ ks)
unfolding Chain
Chain-cons a k ks c = (refl, c)

pub Distinct-tail : (k : ℕ) (ks : List ℕ) → Distinct (k ∷ ks) → (has k ks ≡ false) × Distinct ks
unfolding Distinct
Distinct-tail k ks d = d
