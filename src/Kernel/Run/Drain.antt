-- ===== src/Kernel/Run/Drain.antt =====
-- A scheduler on queues, and the searches and refills of kernel/sched.c against it.
use os_thix.Prelude.{
  ℕ, zero, suc, ◌≤◌, ◌≡◌, ◌≢◌, refl, subst, true, false, List, [], ◌∷◌, has, length, ◌==◌, update,
  arith, Option, none, some, if-elim,
}
use os_thix.Kernel.Run.{
  RunLists, new_schedulable_process, delete_schedulable_process, refill, find_head,
  max_priority_level,
}
use os_thix.Kernel.Run.Queue.{Linked}
use os_thix.Kernel.Run.Refine.{
  Queues, AreQueues, enqueue, new_schedulable_process-AreQueues,
  delete_schedulable_process-AreQueues, data_kept,
}

-- The first process of the highest queue that is not empty, from the given priority down to 1.
unfoldable pub top : ℕ → Queues → Option ℕ
top zero qs = none
top (suc p) qs = elim (qs (suc p)) [ [] ↦ top p qs | k ∷ ks ↦ some k ]

-- Each process of `ks`, the queue of priority 0, goes to the end of the queue of its base priority.
unfoldable pub drain : (ℕ → ℕ) → List ℕ → Queues → Queues
drain base [] qs = qs
drain base (k ∷ ks) qs = drain base ks (enqueue k (base k) (update qs 0 ks))

-- The process to run, 0 if there is none, and the queues: where no queue up to the level holds a
-- process, those of priority 0 get their base priority back and all queues are looked at.
unfoldable pub next : ℕ → (ℕ → ℕ) → Queues → ℕ × Queues
next level base qs = elim (top level qs) [
  | some k ↦ (k, qs)
  | none ↦ elim (top max_priority_level (drain base (qs 0) qs)) [
    | some k ↦ (k, drain base (qs 0) qs)
    | none ↦ (0, drain base (qs 0) qs)
  ]
]

pub find_head-top :
    (level : ℕ) (s : RunLists) (qs : Queues)
    → AreQueues s qs
    → find_head level (s.sched_head) ≡ top level qs
unfolding find_head top Linked
find_head-top zero s qs v = refl
find_head-top (suc p) s qs v = go (qs (suc p)) ((v.queue (suc p)).linked) (find_head-top p s qs v)
  where
    go :
        (ks : List ℕ)
        → Linked (s.sched_data) (s.sched_head (suc p)) ks
        → find_head p (s.sched_head) ≡ top p qs
        → find_head (suc p) (s.sched_head)
          ≡ (elim ks as (λ x. Option ℕ) [ [] ↦ top p qs | k ∷ rest ↦ some k ])
    go [] c ih = ground (arith, ih)
    go (x ∷ xs) c ih = ground arith

-- The base priorities are these.
abbrev pub Bases : RunLists → (ℕ → ℕ) → Type 0
Bases s base = (j : ℕ) → (s.sched_data j).priority ≡ base j

pub new-Bases :
    (s : RunLists) (k p : ℕ) (base : ℕ → ℕ)
    → Bases s base
    → Bases (new_schedulable_process k p s) base
unfolding new_schedulable_process
new-Bases s k p base b j = ground (arith, b j, b k, b (s.sched_tail p))

list-Linked :
    (s : RunLists) (qs : Queues) (p : ℕ) (ks : List ℕ)
    → AreQueues s qs
    → qs p ≡ ks
    → Linked (s.sched_data) (s.sched_head p) ks
list-Linked s qs p ks v e =
    subst (λ l. Linked (s.sched_data) (s.sched_head p) l) e ((v.queue p).linked)

head-nil : (s : RunLists) (qs : Queues) (p : ℕ) → AreQueues s qs → qs p ≡ [] → s.sched_head p ≡ 0
unfolding Linked
head-nil s qs p v e = list-Linked s qs p [] v e

head-cons :
    (s : RunLists) (qs : Queues) (p k : ℕ) (ks : List ℕ)
    → AreQueues s qs
    → qs p ≡ k ∷ ks
    → (s.sched_head p ≡ k) × (k ≢ 0) × (has k ks ≡ false)
unfolding Linked
head-cons s qs p k ks v e = let c = list-Linked s qs p (k ∷ ks) v e in (c.0, c.1, c.2)

-- A process taken from the head of its queue and put at the end of another.
pub move-AreQueues :
    (s : RunLists) (qs : Queues) (k p q : ℕ) (ks : List ℕ)
    → AreQueues s qs
    → qs p ≡ k ∷ ks
    → AreQueues
        (new_schedulable_process k q (delete_schedulable_process k s))
        (enqueue k q (update qs p ks))
move-AreQueues s qs k p q ks v e =
    let deleted = delete_schedulable_process-AreQueues s qs k p ks v e in
    new_schedulable_process-AreQueues (delete_schedulable_process k s) (update qs p ks) k q
      deleted.0 ((head-cons s qs p k ks v e).1) deleted.1

pub refill-drain :
    (fuel : ℕ) (s : RunLists) (base : ℕ → ℕ) (ks : List ℕ) (qs : Queues)
    → length ks ≤ fuel
    → AreQueues s qs
    → qs 0 ≡ ks
    → Bases s base
    → ((k : ℕ) → has k ks ≡ true → base k ≢ 0)
    → AreQueues (refill fuel s) (drain base ks qs)
unfolding refill drain
refill-drain zero s base [] qs short v e b pos = v
refill-drain zero s base (k ∷ ks) qs short v e b pos = absurd (omega arith)
refill-drain (suc fuel) s base [] qs short v e b pos =
    if-elim (λ t. AreQueues t qs) (s.sched_head 0 == 0) (λ _. v)
      (λ some. absurd (ground (arith, head-nil s qs 0 v e)))
refill-drain (suc fuel) s base (k ∷ ks) qs short v e b pos =
    let (at, nonzero, once) = head-cons s qs 0 k ks v e in
    if-elim (λ t. AreQueues t (drain base (k ∷ ks) qs)) (s.sched_head 0 == 0)
      (λ empty. absurd (ground arith))
      (λ some. rw at (
        rw (b k) (
          refill-drain fuel (new_schedulable_process k (base k) (delete_schedulable_process k s))
            base ks (enqueue k (base k) (update qs 0 ks)) (omega arith)
            (move-AreQueues s qs k 0 (base k) ks v e) (ground (arith, pos k))
            (new-Bases (delete_schedulable_process k s) k (base k) base
              (λ j. rw (data_kept s k j) (b j)))
            (λ j h. pos j (ground arith)))))
