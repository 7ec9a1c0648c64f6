-- ===== src/Kernel/Sleep/Table.antt =====
-- The hash table of sleepers as lists of processes.
use os_thix.Prelude.{
  ℕ, ◌%◌, ◌≡◌, ◌≢◌, refl, Bool, true, false, List, [], ◌∷◌, has, ◌==◌, if◌then◌else◌, arith,
}
use os_thix.Kernel.Tss.{Tss}
use os_thix.Kernel.Run.{RunLists, new_schedulable_process}
use os_thix.Kernel.Sleep.{SleepTable, sleep_buckets}

-- The processes from `k` on, through `next`; none of them is 0 or comes twice.
unfoldable pub Linked : (ℕ → ℕ) → ℕ → List ℕ → Type 0
Linked next k [] = k ≡ 0
Linked next k (x ∷ xs) = (k ≡ x) × (x ≢ 0) × (has x xs ≡ false) × Linked next (next x) xs

-- Each bucket holds its list, of processes that sleep on an address of the bucket.
pub record IsSleepTable (s : SleepTable) (qs : ℕ → List ℕ) : Type 0 where
  pub linked : (i : ℕ) → Linked (s.next) (s.sleep_hash i) (qs i)
  pub hashed : (i k : ℕ) → has k (qs i) ≡ true → s.address k % sleep_buckets ≡ i

-- The processes of a list that sleep on an address, and the others.
abbrev pub on : (ℕ → ℕ) → ℕ → List ℕ → List ℕ
on address a [] = []
on address a (k ∷ ks) = if address k == a then k ∷ on address a ks else on address a ks

abbrev pub not_on : (ℕ → ℕ) → ℕ → List ℕ → List ℕ
not_on address a [] = []
not_on address a (k ∷ ks) = if address k == a then not_on address a ks else k ∷ not_on address a ks

-- Whether a process of a list sleeps on an address.
abbrev pub any_on : (ℕ → ℕ) → ℕ → List ℕ → Bool
any_on address a [] = false
any_on address a (k ∷ ks) = if address k == a then true else any_on address a ks

-- The first process of a list that sleeps on an address, and the others.
abbrev pub one_on : (ℕ → ℕ) → ℕ → List ℕ → List ℕ
one_on address a [] = []
one_on address a (k ∷ ks) = if address k == a then k ∷ [] else one_on address a ks

abbrev pub but_one_on : (ℕ → ℕ) → ℕ → List ℕ → List ℕ
but_one_on address a [] = []
but_one_on address a (k ∷ ks) = if address k == a then ks else k ∷ but_one_on address a ks

abbrev pub without : ℕ → List ℕ → List ℕ
without k [] = []
without k (x ∷ xs) = if x == k then xs else x ∷ without k xs

-- The processes of a list made runnable in turn, each at its priority.
abbrev pub enqueue_all : (ℕ → Tss) → List ℕ → RunLists → RunLists
enqueue_all u [] lists = lists
enqueue_all u (k ∷ ks) lists =
    enqueue_all u ks (new_schedulable_process k ((u k).wakeup_priority) lists)

pub Linked-frame :
    (f g : ℕ → ℕ) (k : ℕ) (ks : List ℕ)
    → ((j : ℕ) → has j ks ≡ true → g j ≡ f j)
    → Linked f k ks
    → Linked g k ks
unfolding Linked
Linked-frame f g k [] same c = c
Linked-frame f g k (x ∷ xs) same (e, nz, once, c) = (
  e,
  nz,
  once,
  rw (same x (ground arith)) (Linked-frame f g (f x) xs (λ j h. same j (ground (arith, h))) c),
)

pub has-on :
    (address : ℕ → ℕ) (a k : ℕ) (ks : List ℕ) → has k ks ≡ false → has k (on address a ks) ≡ false
has-on address a k [] h = refl
has-on address a k (x ∷ xs) h = ground (arith, has-on address a k xs)

pub has-not_on :
    (address : ℕ → ℕ) (a k : ℕ) (ks : List ℕ)
    → has k ks ≡ false
    → has k (not_on address a ks) ≡ false
has-not_on address a k [] h = refl
has-not_on address a k (x ∷ xs) h = ground (arith, has-not_on address a k xs)

pub has-but_one_on :
    (address : ℕ → ℕ) (a k : ℕ) (ks : List ℕ)
    → has k ks ≡ false
    → has k (but_one_on address a ks) ≡ false
has-but_one_on address a k [] h = refl
has-but_one_on address a k (x ∷ xs) h = ground (arith, has-but_one_on address a k xs)

pub has-without : (j k : ℕ) (ks : List ℕ) → has j ks ≡ false → has j (without k ks) ≡ false
has-without j k [] h = refl
has-without j k (x ∷ xs) h = ground (arith, has-without j k xs)

-- The priorities are all that counts.
pub enqueue_all-frame :
    (u v : ℕ → Tss) (ks : List ℕ) (lists : RunLists)
    → ((k : ℕ) → (v k).wakeup_priority ≡ (u k).wakeup_priority)
    → enqueue_all v ks lists ≡ enqueue_all u ks lists
enqueue_all-frame u v [] lists same = refl
enqueue_all-frame u v (k ∷ ks) lists same = rw (same k) (enqueue_all-frame u v ks _ same)
