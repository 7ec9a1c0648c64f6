-- ===== src/Kernel/Run/Refine.antt =====
-- The run lists of kernel/sched.c as one queue for each priority: each operation on the arrays does
-- what it should to the queues.
use os_thix.Prelude.{
  ℕ, ◌≡◌, ◌≢◌, refl, sym, ap, ◌∙◌, subst, true, false, List, [], ◌∷◌, ◌++◌, has, has-append, ◌==◌,
  if◌then◌else◌, update, arith, eq-cases, inl, inr,
}
use os_thix.Kernel.Run.{RunLists, new_schedulable_process, delete_schedulable_process}
use os_thix.Kernel.Run.Queue.{
  Linked, IsQueue, last, new_schedulable_process-append, delete_schedulable_process-head,
  Linked-frame, has-last,
}

abbrev pub Queues : Type 0
Queues = ℕ → List ℕ

-- The arrays hold these queues; the `cpu_usage` of a process on a list is the list's priority.
pub record AreQueues (s : RunLists) (qs : Queues) : Type 0 where
  pub queue : (p : ℕ) → IsQueue s p (qs p)
  pub usage : (k p : ℕ) → has k (qs p) ≡ true → (s.sched_data k).cpu_usage ≡ p

-- The queues after a process has come to the end of one.
abbrev pub enqueue : ℕ → ℕ → Queues → Queues
enqueue k p qs = update qs p (qs p ++ (k ∷ []))

-- An empty list has no head.
pub head-zero :
    (s : RunLists) (qs : Queues) (p : ℕ) → AreQueues s qs → (s.sched_head p ≡ 0) → qs p ≡ []
unfolding Linked
head-zero s qs p v e = go (qs p) ((v.queue p).linked)
  where
    go : (ks : List ℕ) → Linked (s.sched_data) (s.sched_head p) ks → ks ≡ []
    go [] c = refl
    go (x ∷ xs) c = absurd (ground arith)

-- The end of a list that has a head is on the list.
tail-mem :
    (s : RunLists) (qs : Queues) (p : ℕ)
    → AreQueues s qs
    → (s.sched_head p == 0) ≡ false
    → has (s.sched_tail p) (qs p) ≡ true
unfolding Linked last
tail-mem s qs p v e = go (qs p) ((v.queue p).linked) ((v.queue p).tail)
  where
    go :
        (ks : List ℕ)
        → Linked (s.sched_data) (s.sched_head p) ks
        → s.sched_tail p ≡ last ks
        → has (s.sched_tail p) ks ≡ true
    go [] c t = absurd (ground arith)
    go (x ∷ xs) c t = ap (λ j. has j (x ∷ xs)) t ∙ has-last x xs

module _ (s : RunLists) (qs : Queues) (k p : ℕ) (v : AreQueues s qs) (nonzero : k ≢ 0)
    (fresh : (q : ℕ) → has k (qs q) ≡ false) where
  abbrev s' : RunLists
  s' = new_schedulable_process k p s

  -- The new process and the old end of its list are on no other list.
  other_entry :
      (q j : ℕ) → q ≢ p → has j (qs q) ≡ true → (s'.sched_data j).next ≡ (s.sched_data j).next
  unfolding new_schedulable_process
  other_entry q j ne h =
      ground (arith, tail-mem s qs p v, v.usage (s.sched_tail p) p, v.usage j q h, fresh q)

  other_head : (q : ℕ) → q ≢ p → s'.sched_head q ≡ s.sched_head q
  unfolding new_schedulable_process
  other_head q ne = ground arith

  other_tail : (q : ℕ) → q ≢ p → s'.sched_tail q ≡ s.sched_tail q
  unfolding new_schedulable_process
  other_tail q ne = ground arith

  other_list-IsQueue : (q : ℕ) → q ≢ p → IsQueue s' q (qs q)
  other_list-IsQueue q ne = record {
    linked = rw (other_head q ne) (
        Linked-frame (s.sched_data) (s'.sched_data) (s.sched_head q) (qs q)
          (λ j h. other_entry q j ne h) ((v.queue q).linked));
    tail = other_tail q ne ∙ (v.queue q).tail;
  }

  new_usage :
      (j : ℕ) → (s'.sched_data j).cpu_usage ≡ (if k == j then p else (s.sched_data j).cpu_usage)
  unfolding new_schedulable_process
  new_usage j = ground arith

  new_usages : (j q : ℕ) → has j (enqueue k p qs q) ≡ true → (s'.sched_data j).cpu_usage ≡ q
  new_usages j q h =
      ground (arith, new_usage j, fresh q, v.usage j q, v.usage j p, has-append j (qs p) (k ∷ []))

-- A process that is on no list, put on one, comes to the end of that queue; the others stay.
pub new_schedulable_process-AreQueues :
    (s : RunLists) (qs : Queues) (k p : ℕ)
    → AreQueues s qs
    → k ≢ 0
    → ((q : ℕ) → has k (qs q) ≡ false)
    → AreQueues (new_schedulable_process k p s) (enqueue k p qs)
new_schedulable_process-AreQueues s qs k p v nonzero fresh = record {
  queue = λ q. elim (eq-cases q p) [
    | inl e ↦
        rw (at_p q e, e)
          ((new_schedulable_process-append s k p (qs p) (v.queue p) (fresh p) nonzero).0)
    | inr ne ↦ rw (other_q q ne) (other_list-IsQueue s qs k p v nonzero fresh q ne)
  ];
  usage = new_usages s qs k p v nonzero fresh;
}
  where
    at_p : (q : ℕ) → q ≡ p → enqueue k p qs q ≡ qs p ++ (k ∷ [])
    at_p q e = ground arith

    other_q : (q : ℕ) → q ≢ p → enqueue k p qs q ≡ qs q
    other_q q ne = ground arith

-- Deleting leaves the entries as they are.
pub data_kept :
    (s : RunLists) (k j : ℕ) → (delete_schedulable_process k s).sched_data j ≡ s.sched_data j
unfolding delete_schedulable_process
data_kept s k j = refl

-- Deleting the process at the head of its queue takes it off that queue; the others stay.
pub delete_schedulable_process-AreQueues :
    (s : RunLists) (qs : Queues) (k p : ℕ) (ks : List ℕ)
    → AreQueues s qs
    → qs p ≡ k ∷ ks
    → AreQueues (delete_schedulable_process k s) (update qs p ks)
      × ((q : ℕ) → has k (update qs p ks q) ≡ false)
unfolding Linked
delete_schedulable_process-AreQueues s qs k p ks v e = (
  record {
    queue = λ q. elim (eq-cases q p) [
      | inl same ↦
          rw (at_p q same, same)
            (subst (λ j. IsQueue (delete_schedulable_process k s) j ks) usage (deleted.0))
      | inr ne ↦ rw (other_q q ne) (deleted.1 q (qs q) (λ f. ne (f ∙ usage)) (v.queue q))
    ];
    usage = λ j q h. ground (arith, still j, v.usage j q, v.usage j p, e);
  },
  λ q. ground (arith, whole.linked.2, v.usage k q, usage),
)
  where
    usage : (s.sched_data k).cpu_usage ≡ p
    usage = v.usage k p (ground (arith, e))

    whole : IsQueue s p (k ∷ ks)
    whole = subst (λ l. IsQueue s p l) e (v.queue p)

    deleted :
        IsQueue (delete_schedulable_process k s) ((s.sched_data k).cpu_usage) ks
        × ((priority : ℕ) (others : List ℕ)
            → priority ≢ (s.sched_data k).cpu_usage
            → IsQueue s priority others
            → IsQueue (delete_schedulable_process k s) priority others)
    deleted =
        delete_schedulable_process-head s k ks (subst (λ j. IsQueue s j (k ∷ ks)) (sym usage) whole)

    at_p : (q : ℕ) → q ≡ p → update qs p ks q ≡ ks
    at_p q same = ground arith

    other_q : (q : ℕ) → q ≢ p → update qs p ks q ≡ qs q
    other_q q ne = ground arith

    still : (j : ℕ) → ((delete_schedulable_process k s).sched_data j) ≡ s.sched_data j
    still j = data_kept s k j
