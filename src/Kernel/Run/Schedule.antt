-- ===== src/Kernel/Run/Schedule.antt =====
-- `scheduler` of kernel/sched.c against a scheduler on queues.
use os_thix.Prelude.{
  ℕ, ◌+◌, ◌-◌, ◌%◌, ◌≤◌, ◌≡◌, ◌≢◌, ◌⊎◌, refl, ap, ◌∙◌, Bool, true, false, ◌||◌, List, [], ◌∷◌, has,
  length, ◌==◌, if◌then◌else◌, update, arith, Bool-cases, inl, inr, Option, none, some, pos, negsuc,
}
use os_thix.Kernel.Run.{
  RunLists, delete_schedulable_process, refill, find_head, requeue, less_usage,
  first_priority_level, choose, max_priority_level, Sched, scheduler, switch_to,
}
use os_thix.Kernel.Run.Refine.{Queues, AreQueues, enqueue, data_kept}
use os_thix.Kernel.Run.Drain.{
  top, drain, next, find_head-top, Bases, new-Bases, refill-drain, move-AreQueues,
}

abbrev pub rest : List ℕ → List ℕ
rest [] = []
rest (k ∷ ks) = ks

-- The queues once the current process, of priority `p`, has gone to the end of the next lower
-- queue, unless it is IDLE (0) or sleeps.
unfoldable pub requeued : ℕ → Bool → ℕ → Queues → Queues
requeued current is_asleep p qs =
    if (current == 0) || is_asleep then qs else enqueue current (p - 1) (update qs p (rest (qs p)))

-- The current process is IDLE or sleeps, or it is at the head of a queue of a positive priority.
abbrev pub IsCurrent : RunLists → Queues → ℕ → Bool → Type 0
IsCurrent s qs current is_asleep =
    (((current == 0) || is_asleep) ≡ true)
    ⊎ ((ks : List ℕ) × (qs ((s.sched_data current).cpu_usage) ≡ current ∷ ks)
        × (1 ≤ (s.sched_data current).cpu_usage)
        × ((s.sched_data current).cpu_usage ≤ max_priority_level))

requeue-AreQueues :
    (s : RunLists) (qs : Queues) (base : ℕ → ℕ) (current : ℕ) (is_asleep : Bool)
    → AreQueues s qs
    → Bases s base
    → IsCurrent s qs current is_asleep
    → AreQueues
        (requeue current is_asleep s)
        (requeued current is_asleep ((s.sched_data current).cpu_usage) qs)
      × Bases (requeue current is_asleep s) base
unfolding requeue requeued less_usage
requeue-AreQueues s qs base c is_asleep v b (inl still) = rw still (v, b)
requeue-AreQueues s qs base c is_asleep v b (inr (ks, e, lo, hi)) =
    elim (Bool-cases ((c == 0) || is_asleep)) [
      | inl still ↦ rw still (v, b)
      | inr runs ↦
          rw (runs, lower, e)
            (
              move-AreQueues s qs c p (p - 1) ks v e,
              new-Bases (delete_schedulable_process c s) c (p - 1) base
                  (λ j. rw (data_kept s c j) (b j)),
            )
    ]
  where
    p : ℕ
    p = (s.sched_data c).cpu_usage

    lower : ((s.sched_data c).cpu_usage + 255) % 256 ≡ (s.sched_data c).cpu_usage - 1
    lower = omega arith

-- Two searches with the same results, in lists that hold the queues.
searched :
    (f₁ f₂ t₁ t₂ : Option ℕ) (s₁ s₂ : RunLists) (qs₁ qs₂ : Queues)
    → f₁ ≡ t₁
    → f₂ ≡ t₂
    → AreQueues s₁ qs₁
    → AreQueues s₂ qs₂
    → let picked : ℕ × RunLists = elim f₁ [
      | some k ↦ (k, s₁)
      | none ↦ elim f₂ [ some k ↦ (k, s₂) | none ↦ (0, s₂) ]
    ] in
      let expected : ℕ × Queues = elim t₁ [
        | some k ↦ (k, qs₁)
        | none ↦ elim t₂ [ some k ↦ (k, qs₂) | none ↦ (0, qs₂) ]
      ] in
      (picked.0 ≡ expected.0) × AreQueues picked.1 expected.1
searched (some k) f₂ (some j) t₂ s₁ s₂ qs₁ qs₂ e₁ e₂ v₁ v₂ = (ground arith, v₁)
searched none (some k) none (some j) s₁ s₂ qs₁ qs₂ e₁ e₂ v₁ v₂ = (ground arith, v₂)
searched none none none none s₁ s₂ qs₁ qs₂ e₁ e₂ v₁ v₂ = (refl, v₂)
searched (some k) f₂ none t₂ s₁ s₂ qs₁ qs₂ e₁ e₂ v₁ v₂ = cc
searched none f₂ (some k) t₂ s₁ s₂ qs₁ qs₂ e₁ e₂ v₁ v₂ = cc
searched none (some k) none none s₁ s₂ qs₁ qs₂ e₁ e₂ v₁ v₂ = cc
searched none none none (some k) s₁ s₂ qs₁ qs₂ e₁ e₂ v₁ v₂ = cc

-- The scheduler picks the process that a scheduler on queues picks, and leaves the lists holding
-- that scheduler's queues. At most 64 processes have used up their time, and their base priorities
-- are positive.
pub choose-next :
    (s : RunLists) (qs : Queues) (base : ℕ → ℕ) (current : ℕ) (sched_touched is_asleep : Bool)
    → AreQueues s qs
    → ((j : ℕ) → (s.sched_data j).priority ≡ base j)
    → IsCurrent s qs current is_asleep
    → let qs₁ = requeued current is_asleep ((s.sched_data current).cpu_usage) qs in
      length (qs₁ 0) ≤ 64
      → ((k : ℕ) → has k (qs₁ 0) ≡ true → base k ≢ 0)
      → let picked = choose current sched_touched is_asleep s in
        let expected = next (first_priority_level current sched_touched s) base qs₁ in
        (picked.0 ≡ expected.0) × AreQueues picked.1 expected.1
unfolding choose next
choose-next s qs base current touched is_asleep v b c short positive =
    let s₁ = requeue current is_asleep s in
    let qs₁ = requeued current is_asleep ((s.sched_data current).cpu_usage) qs in
    let (v₁, b₁) = requeue-AreQueues s qs base current is_asleep v b c in
    let v₂ = refill-drain 64 s₁ base (qs₁ 0) qs₁ short v₁ refl b₁ positive in
    let first = first_priority_level current touched s in
    let qs₂ = drain base (qs₁ 0) qs₁ in
    searched (find_head first (s₁.sched_head))
      (find_head max_priority_level ((refill 64 s₁).sched_head)) (top first qs₁)
      (top max_priority_level qs₂) s₁ (refill 64 s₁) qs₁ qs₂ (find_head-top first s₁ qs₁ v₁)
      (find_head-top max_priority_level (refill 64 s₁) qs₂ v₂) v₁ v₂

switch_to_lem :
    (kpid : ℕ) (lists : RunLists) (s : Sched)
    → let (result, s') = switch_to kpid lists s in
      (s'.current_kpid ≡ kpid)
      × (s'.lists ≡ lists)
      × (s'.sched_touched ≡ false)
      × (result
          ≡ (if kpid == 0 then pos 0 else if kpid == s.current_kpid then negsuc 0 else pos kpid))
unfolding switch_to
switch_to_lem kpid lists s = (ground arith, ground arith, ground arith, ground arith)

-- `scheduler` makes the process that a scheduler on queues picks the current one, leaves the lists
-- holding that scheduler's queues and clears `sched_touched`; it returns the process, or -1 where it
-- is the old one and not IDLE.
pub scheduler-next :
    (s : Sched) (qs : Queues) (base : ℕ → ℕ) (is_asleep : Bool)
    → AreQueues (s.lists) qs
    → ((j : ℕ) → (s.lists.sched_data j).priority ≡ base j)
    → IsCurrent (s.lists) qs (s.current_kpid) is_asleep
    → let qs₁ =
        requeued (s.current_kpid) is_asleep ((s.lists.sched_data (s.current_kpid)).cpu_usage) qs in
      length (qs₁ 0) ≤ 64
      → ((k : ℕ) → has k (qs₁ 0) ≡ true → base k ≢ 0)
      → let (result, s') = scheduler is_asleep s in
        let (kpid, qs') =
          next (first_priority_level (s.current_kpid) (s.sched_touched) (s.lists)) base qs₁ in
        (s'.current_kpid ≡ kpid)
        × AreQueues (s'.lists) qs'
        × (s'.sched_touched ≡ false)
        × (result
            ≡ (if kpid == 0 then pos 0 else if kpid == s.current_kpid then negsuc 0 else pos kpid))
unfolding scheduler
scheduler-next s qs base is_asleep v b c short positive =
    let (kpid, s') = choose (s.current_kpid) (s.sched_touched) is_asleep (s.lists) in
    let (same, lists) =
      choose-next (s.lists) qs base (s.current_kpid) (s.sched_touched) is_asleep v b c short
        positive in
    let (current, left, touched, result) = switch_to_lem kpid s' s in
    (
      current ∙ same,
      rw left lists,
      touched,
      result
          ∙ ap (λ k. if k == 0 then pos 0 else if k == s.current_kpid then negsuc 0 else pos k)
              same,
    )
