-- ===== src/Kernel/Run/Queue.antt =====
-- The lists of runnable processes of kernel/sched.c as queues.
use os_thix.Prelude.{
  ℕ, ◌≡◌, ◌≢◌, refl, sym, ◌∙◌, true, false, List, [], ◌∷◌, ◌++◌, has, has-append, ◌==◌, update,
  arith,
}
use os_thix.Kernel.Run.{
  SchedStruct, RunLists, new_schedulable_process, delete_schedulable_process, set_entry,
}

-- The processes from `k` on, through `next`; none of them is 0 or comes twice.
unfoldable pub Linked : (ℕ → SchedStruct) → ℕ → List ℕ → Type 0
Linked d k [] = k ≡ 0
Linked d k (x ∷ xs) = (k ≡ x) × (x ≢ 0) × (has x xs ≡ false) × Linked d ((d x).next) xs

-- The last entry of a list, and 0 of an empty one.
unfoldable pub last : List ℕ → ℕ
last [] = 0
last (x ∷ []) = x
last (x ∷ y ∷ ys) = last (y ∷ ys)

-- The list of a priority holds the processes `ks`, in this order.
pub record IsQueue (s : RunLists) (priority : ℕ) (ks : List ℕ) : Type 0 where
  pub linked : Linked (s.sched_data) (s.sched_head priority) ks
  pub tail : s.sched_tail priority ≡ last ks

pub Linked-frame :
    (d b : ℕ → SchedStruct) (k : ℕ) (ks : List ℕ)
    → ((j : ℕ) → has j ks ≡ true → (b j).next ≡ (d j).next)
    → Linked d k ks
    → Linked b k ks
unfolding Linked
Linked-frame d b k [] same c = c
Linked-frame d b k (x ∷ xs) same (e, nz, once, c) = (
  e,
  nz,
  once,
  rw (same x (ground arith))
      (Linked-frame d b ((d x).next) xs (λ j h. same j (ground (arith, h))) c),
)

pub has-last : (x : ℕ) (xs : List ℕ) → has (last (x ∷ xs)) (x ∷ xs) ≡ true
unfolding last
has-last x [] = ground arith
has-last x (y ∷ ys) = ground (arith, has-last y ys)

last-append : (xs : List ℕ) (k : ℕ) → last (xs ++ (k ∷ [])) ≡ k
unfolding last
last-append [] k = refl
last-append (x ∷ []) k = refl
last-append (x ∷ y ∷ ys) k = last-append (y ∷ ys) k

-- The entries after `new_schedulable_process` on a list that is not empty.
abbrev appended : (ℕ → SchedStruct) → ℕ → ℕ → ℕ → ℕ → SchedStruct
appended d kpid priority tail =
    let d' = set_entry d kpid priority 0 in update d' tail (record (d' tail) { next = kpid })

append-Linked :
    (d : ℕ → SchedStruct) (kpid priority : ℕ) (x : ℕ) (xs : List ℕ) (k : ℕ)
    → Linked d k (x ∷ xs)
    → has kpid (x ∷ xs) ≡ false
    → kpid ≢ 0
    → Linked (appended d kpid priority (last (x ∷ xs))) k (x ∷ xs ++ (kpid ∷ []))
unfolding Linked last
append-Linked d kpid priority x [] k (e, nz, once, c) new nonzero =
    (e, nz, ground (arith, new), (ground (arith, new), nonzero, refl, ground (arith, new)))
append-Linked d kpid priority x (y ∷ ys) k (e, nz, once, c) new nonzero = (
  e,
  nz,
  ground (arith, new, once, has-append x (y ∷ ys) (kpid ∷ [])),
  rw (next_same) (append-Linked d kpid priority y ys ((d x).next) c (ground arith) nonzero),
)
  where
    next_same : (appended d kpid priority (last (y ∷ ys)) x).next ≡ (d x).next
    next_same = ground (arith, new, once, has-last y ys)

update-same : (t : ℕ → ℕ) (i v : ℕ) → update t i v i ≡ v
update-same t i v = ground arith

update-other : (t : ℕ → ℕ) (i j v : ℕ) → j ≢ i → update t i v j ≡ t j
update-other t i j v ne = ground arith

new_schedulable_process-occupied :
    (s : RunLists) (kpid priority : ℕ)
    → (s.sched_head priority == 0) ≡ false
    → new_schedulable_process kpid priority s ≡ record {
      sched_head = s.sched_head;
      sched_tail = update (s.sched_tail) priority kpid;
      sched_data = appended (s.sched_data) kpid priority (s.sched_tail priority);
    }
unfolding new_schedulable_process
new_schedulable_process-occupied s kpid priority e = rw e refl

append_occupied :
    (s : RunLists) (kpid priority x : ℕ) (xs : List ℕ)
    → IsQueue s priority (x ∷ xs)
    → (s.sched_head priority == 0) ≡ false
    → has kpid (x ∷ xs) ≡ false
    → kpid ≢ 0
    → IsQueue (new_schedulable_process kpid priority s) priority ((x ∷ xs) ++ (kpid ∷ []))
      × (((new_schedulable_process kpid priority s).sched_data kpid).cpu_usage ≡ priority)
append_occupied s kpid priority x xs q e new nonzero =
    rw (new_schedulable_process-occupied s kpid priority e) (
      record {
        linked = rw (q.tail) (
            append-Linked (s.sched_data) kpid priority x xs (s.sched_head priority) (q.linked) new
              nonzero);
        tail = update-same (s.sched_tail) priority kpid ∙ sym (last-append (x ∷ xs) kpid);
      },
      ground (arith, q.tail, has-last x xs, new),
    )

-- A process that is on none of the lists goes to the end of the list of its priority, with that
-- priority as its `cpu_usage`.
pub new_schedulable_process-append :
    (s : RunLists) (kpid priority : ℕ) (ks : List ℕ)
    → IsQueue s priority ks
    → has kpid ks ≡ false
    → kpid ≢ 0
    → IsQueue (new_schedulable_process kpid priority s) priority (ks ++ (kpid ∷ []))
      × (((new_schedulable_process kpid priority s).sched_data kpid).cpu_usage ≡ priority)
unfolding new_schedulable_process Linked last
new_schedulable_process-append s kpid priority [] q new nonzero = (
  record {
    linked = (ground (arith, q.linked), nonzero, refl, ground (arith, q.linked));
    tail = ground (arith, q.linked);
  },
  ground (arith, q.linked),
)
new_schedulable_process-append s kpid priority (x ∷ xs) q new nonzero =
    append_occupied s kpid priority x xs q (ground (arith, q.linked)) new nonzero

-- Deleting the head of the list of its priority leaves the rest of that list, and the other lists
-- as they are.
pub delete_schedulable_process-head :
    (s : RunLists) (kpid : ℕ) (ks : List ℕ)
    → IsQueue s ((s.sched_data kpid).cpu_usage) (kpid ∷ ks)
    → IsQueue (delete_schedulable_process kpid s) ((s.sched_data kpid).cpu_usage) ks
      × ((priority : ℕ) (others : List ℕ)
          → priority ≢ (s.sched_data kpid).cpu_usage
          → IsQueue s priority others
          → IsQueue (delete_schedulable_process kpid s) priority others)
unfolding delete_schedulable_process Linked last
delete_schedulable_process-head s kpid ks q = (
  record {
    linked =
        rw (update-same (s.sched_head) ((s.sched_data kpid).cpu_usage) ((s.sched_data kpid).next))
          (q.linked.3);
    tail = last_left ks (q.linked.3) (q.tail);
  },
  λ priority others ne r. record {
    linked =
        rw
          (update-other (s.sched_head) ((s.sched_data kpid).cpu_usage) priority
            ((s.sched_data kpid).next) ne)
          (r.linked);
    tail = ground (arith, r.tail, ne);
  },
)
  where
    last_left :
        (ls : List ℕ)
        → Linked (s.sched_data) ((s.sched_data kpid).next) ls
        → s.sched_tail ((s.sched_data kpid).cpu_usage) ≡ last (kpid ∷ ls)
        → (delete_schedulable_process kpid s).sched_tail ((s.sched_data kpid).cpu_usage) ≡ last ls
    last_left [] c e = ground (arith, c, e)
    last_left (y ∷ ys) (e, nz, once, c) f = ground (arith, e, nz, f)
