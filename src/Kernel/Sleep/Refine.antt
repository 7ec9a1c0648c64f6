-- ===== src/Kernel/Sleep/Refine.antt =====
-- Going to sleep and waking up, on the lists of sleepers.
use os_thix.Prelude.{
  ℕ, ◌%◌, ◌≤◌, ◌≡◌, ◌≢◌, ◌∙◌, refl, true, false, List, [], ◌∷◌, has, ◌==◌, if◌then◌else◌, update,
  length, arith, eq-cases, inl, inr, Bool-cases, if-elim, eq→==, ne→==, ==→eq,
}
use os_thix.Kernel.Tss.{Tss}
use os_thix.Kernel.Sleep.{
  SleepTable, sleep_buckets, sleepers, bucket, awake, wakeup, wakeup_one_process, fall_asleep,
}
use os_thix.Kernel.Sleep.Table.{
  Linked, IsSleepTable, on, not_on, any_on, one_on, but_one_on, enqueue_all, Linked-frame,
}
use os_thix.Kernel.Sleep.Wake.{Woken}
use os_thix.Kernel.Sleep.Loops.{wakeup_from-Woken, wakeup_one_from-Woken}

-- A process is in one bucket only.
one_bucket :
    (s : SleepTable) (qs : ℕ → List ℕ) (i j k : ℕ)
    → IsSleepTable s qs
    → i ≢ j
    → has k (qs j) ≡ true
    → has k (qs i) ≡ false
one_bucket s qs i j k t ne h = elim (Bool-cases (has k (qs i))) [
  | inl e ↦ absurd (ne (omega (arith, t.hashed i k e, t.hashed j k h)))
  | inr e ↦ e
]

pub Woken-IsSleepTable :
    (f : Tss → Tss) (s s' : SleepTable) (qs : ℕ → List ℕ) (i : ℕ) (gone left : List ℕ)
    → IsSleepTable s qs
    → Woken f s (bucket i) (qs i) gone left s'
    → ((k : ℕ) → has k left ≡ true → has k (qs i) ≡ true)
    → IsSleepTable s' (update qs i left)
Woken-IsSleepTable f s s' qs i gone left t w fewer = record {
  linked = λ j. elim (eq-cases i j) [
    | inl e ↦ rw (← e, eq→== i i refl) (w.linked)
    | inr ne ↦
        rw (ne→== i j ne, w.heads j (ne→== i j ne))
          (Linked-frame (s.next) (s'.next) (s.sleep_hash j) (qs j)
            (λ k h. w.nexts k (one_bucket s qs i j k t ne h) refl) (t.linked j))
  ];
  hashed = λ j k. rw (w.addresses) (
      if-elim (λ ks. has k ks ≡ true → s.address k % sleep_buckets ≡ j) (i == j)
        (λ e h. ground (arith, t.hashed i k (fewer k h))) (λ e h. t.hashed j k h));
}

not_on-has :
    (address : ℕ → ℕ) (a k : ℕ) (ks : List ℕ)
    → has k (not_on address a ks) ≡ true
    → (has k ks ≡ true) × (address k ≢ a)
not_on-has address a k [] h = ground (arith, h)
not_on-has address a k (x ∷ xs) h = ground (arith, not_on-has address a k xs)

but_one_on-has :
    (address : ℕ → ℕ) (a k : ℕ) (ks : List ℕ)
    → has k (but_one_on address a ks) ≡ true
    → has k ks ≡ true
but_one_on-has address a k [] h = h
but_one_on-has address a k (x ∷ xs) h = ground (arith, but_one_on-has address a k xs)

-- `wakeup` on an address, where no bucket holds more than 64 processes: the processes that sleep
-- on the address leave their bucket, in which the others keep their order; each of them is running
-- again and is put, in the order of the bucket, on the list of its priority; no other process
-- changes.
pub wakeup-IsSleepTable :
    (a : ℕ) (s : SleepTable) (qs : ℕ → List ℕ)
    → IsSleepTable s qs
    → length (qs (a % sleep_buckets)) ≤ sleepers
    → let s' = wakeup a s in
      let ks = qs (a % sleep_buckets) in
      IsSleepTable s' (update qs (a % sleep_buckets) (not_on (s.address) a ks))
      × ((k : ℕ)
          → s'.u_area k ≡ (if has k (on (s.address) a ks) then awake (s.u_area k) else s.u_area k))
      × (s'.lists ≡ enqueue_all (s.u_area) (on (s.address) a ks) (s.lists))
unfolding wakeup
wakeup-IsSleepTable a s qs t long =
    let i = a % sleep_buckets in
    let w = wakeup_from-Woken sleepers a (bucket i) s (qs i) long (t.linked i) (λ j h. refl) in
    (
      Woken-IsSleepTable awake s _ qs i _ _ t w (λ k h. (not_on-has (s.address) a k (qs i) h).0),
      w.areas,
      w.queued,
    )

-- `wakeup_one_process` tells whether a process sleeps on the address; if one does, the first one
-- of the bucket leaves it and is running again, and no other process changes.
pub wakeup_one_process-IsSleepTable :
    (a : ℕ) (s : SleepTable) (qs : ℕ → List ℕ)
    → IsSleepTable s qs
    → length (qs (a % sleep_buckets)) ≤ sleepers
    → let (found, s') = wakeup_one_process a s in
      let ks = qs (a % sleep_buckets) in
      (found ≡ any_on (s.address) a ks)
      × IsSleepTable s' (update qs (a % sleep_buckets) (but_one_on (s.address) a ks))
      × ((k : ℕ)
          → s'.u_area k
            ≡ (if has k (one_on (s.address) a ks) then awake (s.u_area k) else s.u_area k))
      × (s'.lists ≡ enqueue_all (s.u_area) (one_on (s.address) a ks) (s.lists))
      × (s'.address ≡ s.address)
unfolding wakeup_one_process
wakeup_one_process-IsSleepTable a s qs t long =
    let i = a % sleep_buckets in
    let (found, w) =
      wakeup_one_from-Woken sleepers a (bucket i) s (qs i) long (t.linked i) (λ j h. refl) in
    (
      found,
      Woken-IsSleepTable awake s _ qs i _ _ t w (λ k h. but_one_on-has (s.address) a k (qs i) h),
      w.areas,
      w.queued,
      w.addresses,
    )

apart : (c k : ℕ) (ks : List ℕ) → has k ks ≡ true → has c ks ≡ false → (c == k) ≡ false
apart c k ks h n = elim (eq-cases c k) [
  | inl e ↦ let gone : has k ks ≡ false = rw (← e) n in ground (arith, gone, h)
  | inr ne ↦ ne→== c k ne
]

-- A running process that goes to sleep comes to the front of the bucket of its address, and the
-- other buckets stay as they are.
pub fall_asleep-IsSleepTable :
    (a wakeup_priority current : ℕ) (s : SleepTable) (qs : ℕ → List ℕ)
    → IsSleepTable s qs
    → current ≢ 0
    → ((i : ℕ) → has current (qs i) ≡ false)
    → IsSleepTable
        (fall_asleep a wakeup_priority current s)
        (update qs (a % sleep_buckets) (current ∷ qs (a % sleep_buckets)))
unfolding fall_asleep Linked
fall_asleep-IsSleepTable a wakeup_priority current s qs t nz new =
    let i = a % sleep_buckets in
    let kept : (j : ℕ) → Linked (update (s.next) current (s.sleep_hash i)) (s.sleep_hash j) (qs j) =
      λ j.
        Linked-frame (s.next) _ (s.sleep_hash j) (qs j)
          (λ k h. rw (apart current k (qs j) h (new j)) refl) (t.linked j) in
    record {
      linked = λ j. elim (eq-cases i j) [
        | inl e ↦
            rw (← e, eq→== i i refl) (refl, nz, new i, rw (eq→== current current refl) (kept i))
        | inr ne ↦ rw (ne→== i j ne) (kept j)
      ];
      hashed = λ j k.
          if-elim (λ ks. has k ks ≡ true → update (s.address) current a k % sleep_buckets ≡ j)
            (i == j)
            (λ e h. elim (eq-cases current k) [
              | inl same ↦ rw (← same, eq→== current current refl) (==→eq i j e)
              | inr other ↦
                  rw (ne→== current k other) (t.hashed i k (ground (arith, h)) ∙ ==→eq i j e)
            ])
            (λ e h. rw (apart current k (qs j) h (new j)) (t.hashed j k h));
    }
