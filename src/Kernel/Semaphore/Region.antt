-- ===== src/Kernel/Semaphore/Region.antt =====
-- The critical region that a semaphore guards, with processes that enter and leave it in any order.
use os_thix.Prelude.{
  ℕ, suc, ◌+◌, ◌-◌, ◌%◌, ◌≤◌, ◌≡◌, ◌≢◌, ◌∙◌, refl, Bool, true, false, ◌&&◌, List, [], ◌∷◌, has,
  length, ◌==◌, if◌then◌else◌, update, arith, eq→==, ne→==, eq-cases, inl, inr, Bool-cases,
}
use os_thix.Kernel.Sleep.{SleepTable, sleep_buckets, sleepers, fall_asleep, wakeup_one_process}
use os_thix.Kernel.Sleep.Table.{IsSleepTable, any_on, but_one_on}
use os_thix.Kernel.Sleep.Refine.{fall_asleep-IsSleepTable, wakeup_one_process-IsSleepTable}
use os_thix.Kernel.Semaphore.{down, up}

-- The semaphore, how many processes are in the region, and the sleepers, also as lists.
pub record Region : Type 0 where
  pub value : ℕ
  pub inside : ℕ
  pub table : SleepTable
  pub queues : ℕ → List ℕ

module _ (a wakeup_priority : ℕ) where
  abbrev pub here : ℕ
  here = a % sleep_buckets

  -- Whether a process waits for the semaphore.
  abbrev pub waits : Region → Bool
  waits x = any_on (x.table.address) a (x.queues here)

  -- A process calls `down`. It is in the region unless it sleeps.
  abbrev pub entered : ℕ → Region → Region
  entered k x =
      let r = down a wakeup_priority k (x.value) (x.table) in
      record {
        value = r.0;
        inside = if x.value == 0 then x.inside else suc (x.inside);
        table = r.1;
        queues = if x.value == 0 then update (x.queues) here (k ∷ x.queues here) else x.queues;
      }

  -- A process in the region calls `up`. Where that wakes a process up, it takes its place.
  abbrev pub exited : Region → Region
  exited x =
      let r = up a (x.value) (x.table) in
      record {
        value = r.0;
        inside = if (x.value == 0) && waits x then x.inside else x.inside - 1;
        table = r.1;
        queues =
            if x.value == 0
            then update (x.queues) here (but_one_on (x.table.address) a (x.queues here))
            else x.queues;
      }

  pub data Reach (n : ℕ) : Region → Type 0 where
    start :
        (s : SleepTable) (qs : ℕ → List ℕ)
        → IsSleepTable s qs
        → any_on (s.address) a (qs here) ≡ false
        → Reach n (record { value = n; inside = 0; table = s; queues = qs })
    enters :
        {x : Region} (k : ℕ)
        → Reach n x
        → k ≢ 0
        → ((i : ℕ) → has k (x.queues i) ≡ false)
        → Reach n (entered k x)
    leaves :
        {x : Region}
        → Reach n x
        → x.inside ≢ 0
        → length (x.queues here) ≤ sleepers
        → Reach n (exited x)

  -- What holds in every state.
  pub record Guarded (n : ℕ) (x : Region) : Type 0 where
    pub sum : x.value + x.inside ≡ n
    pub idle : x.value ≢ 0 → waits x ≡ false
    pub sleeping : IsSleepTable (x.table) (x.queues)

  none_left :
      (address : ℕ → ℕ) (ks : List ℕ)
      → any_on address a ks ≡ false
      → any_on address a (but_one_on address a ks) ≡ false
  none_left address [] h = refl
  none_left address (k ∷ ks) h = ground (arith, none_left address ks)

  down-sleeps :
      (k value : ℕ) (s : SleepTable)
      → value ≡ 0
      → down a wakeup_priority k value s ≡ (value, fall_asleep a wakeup_priority k s)
  unfolding down
  down-sleeps k value s e = rw (eq→== value 0 e) refl

  down-enters :
      (k value : ℕ) (s : SleepTable) → value ≢ 0 → down a wakeup_priority k value s ≡ (value - 1, s)
  unfolding down
  down-enters k value s ne = rw (ne→== value 0 ne) refl

  entered-Guarded :
      (n k : ℕ) (x : Region)
      → Guarded n x
      → k ≢ 0
      → ((i : ℕ) → has k (x.queues i) ≡ false)
      → Guarded n (entered k x)
  entered-Guarded n k x g nz new = elim (eq-cases (x.value) 0) [
    | inl e ↦
        let d = down-sleeps k (x.value) (x.table) e in
        record {
          sum = rw (d, eq→== (x.value) 0 e) (g.sum);
          idle = λ h. absurd (h (rw d e));
          sleeping =
              rw (d, eq→== (x.value) 0 e)
                (fall_asleep-IsSleepTable a wakeup_priority k (x.table) (x.queues) (g.sleeping) nz
                  new);
        }
    | inr ne ↦
        let d = down-enters k (x.value) (x.table) ne in
        record {
          sum = rw (d, ne→== (x.value) 0 ne) (omega (arith, g.sum));
          idle = λ h. rw (d, ne→== (x.value) 0 ne) (g.idle ne);
          sleeping = rw (d, ne→== (x.value) 0 ne) (g.sleeping);
        }
  ]

  up-counts : (value : ℕ) (s : SleepTable) → value ≢ 0 → up a value s ≡ (suc value, s)
  unfolding up
  up-counts value s ne = rw (ne→== value 0 ne) refl

  up-wakes :
      (value : ℕ) (s : SleepTable) (found : Bool)
      → value ≡ 0
      → (wakeup_one_process a s).0 ≡ found
      → up a value s ≡ ((if found then value else suc value), (wakeup_one_process a s).1)
  unfolding up
  up-wakes value s true e f = rw (eq→== value 0 e, f) refl
  up-wakes value s false e f = rw (eq→== value 0 e, f) refl

  exited-Guarded :
      (n : ℕ) (x : Region)
      → Guarded n x
      → x.inside ≢ 0
      → length (x.queues here) ≤ sleepers
      → Guarded n (exited x)
  exited-Guarded n x g busy few = elim (eq-cases (x.value) 0) [
    | inl e ↦
        let (found, t, u, q, same) =
          wakeup_one_process-IsSleepTable a (x.table) (x.queues) (g.sleeping) few in
        elim (Bool-cases (waits x)) [
          | inl some_wait ↦
              let d = up-wakes (x.value) (x.table) true e (found ∙ some_wait) in
              record {
                sum = rw (d, eq→== (x.value) 0 e, some_wait) (g.sum);
                idle = λ h. absurd (h (rw d e));
                sleeping = rw (d, eq→== (x.value) 0 e) t;
              }
          | inr none_wait ↦
              let d = up-wakes (x.value) (x.table) false e (found ∙ none_wait) in
              record {
                sum = rw (d, eq→== (x.value) 0 e, none_wait) (omega (arith, g.sum, busy));
                idle = λ h.
                    rw (d, eq→== (x.value) 0 e, same, eq→== here here refl)
                      (none_left (x.table.address) (x.queues here) none_wait);
                sleeping = rw (d, eq→== (x.value) 0 e) t;
              }
        ]
    | inr ne ↦
        let d = up-counts (x.value) (x.table) ne in
        record {
          sum = rw (d, ne→== (x.value) 0 ne) (omega (arith, g.sum, busy));
          idle = λ h. rw (d, ne→== (x.value) 0 ne) (g.idle ne);
          sleeping = rw (d, ne→== (x.value) 0 ne) (g.sleeping);
        }
  ]

-- Whatever the order of the calls of `down` and `up` of a semaphore is whose value was `n` when
-- nobody waited: its value and the number of processes in the region make `n`, so there are never
-- more than `n` of them; while the value is not 0, no process waits; and the table of sleepers is
-- well formed. The calls of `up` come from processes in the region, and no bucket holds more than
-- 64 sleepers.
pub Reach-Guarded :
    (a wakeup_priority n : ℕ) (x : Region)
    → Reach a wakeup_priority n x
    → Guarded a wakeup_priority n x
Reach-Guarded a wakeup_priority n x (start s qs t none) = record {
  sum = omega arith;
  idle = λ h. none;
  sleeping = t;
}
Reach-Guarded a wakeup_priority n x (enters {x = y} k r nz new) =
    entered-Guarded a wakeup_priority n k y (Reach-Guarded a wakeup_priority n y r) nz new
Reach-Guarded a wakeup_priority n x (leaves {x = y} r busy few) =
    exited-Guarded a wakeup_priority n y (Reach-Guarded a wakeup_priority n y r) busy few
