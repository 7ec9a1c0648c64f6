-- ===== src/Kernel/Sleep/One.antt =====
-- Waking up one given process.
use os_thix.Prelude.{
  ℕ, zero, suc, ◌%◌, ◌≤◌, ◌≡◌, ◌≢◌, refl, true, ◌&&◌, List, [], ◌∷◌, has, ◌==◌, if◌then◌else◌,
  update, length, arith, eq-cases, inl, inr, eq→==, ne→==, some,
}
use os_thix.Kernel.Signal.{woken}
use os_thix.Kernel.Sleep.{
  SleepTable, sleep_buckets, sleepers, Link, bucket, behind, link_value, rouse, wakeup_process_from,
  wakeup_process,
}
use os_thix.Kernel.Sleep.Table.{Linked, IsSleepTable, without, has-without, enqueue_all}
use os_thix.Kernel.Sleep.Wake.{Woken, Outside, rouse-Woken, Woken-miss}
use os_thix.Kernel.Sleep.Refine.{Woken-IsSleepTable}

wakeup_process_from-round :
    (fuel kpid : ℕ) (proc : Link) (s : SleepTable)
    → link_value s proc ≢ 0
    → let k = link_value s proc in
      wakeup_process_from (suc fuel) kpid proc s ≡ (
        if (k == kpid) && (s.address k == (s.u_area kpid).sleep_address)
        then some (rouse woken proc k s)
        else wakeup_process_from fuel kpid (behind k) s)
unfolding wakeup_process_from
wakeup_process_from-round fuel kpid proc s nz = rw (ne→== (link_value s proc) 0 nz) refl

-- The loop of `wakeup_process` with enough fuel, from a link in front of the process.
wakeup_process_from-Woken :
    (fuel kpid : ℕ) (proc : Link) (s : SleepTable) (ks : List ℕ)
    → length ks ≤ fuel
    → Linked (s.next) (link_value s proc) ks
    → Outside proc ks
    → has kpid ks ≡ true
    → s.address kpid ≡ (s.u_area kpid).sleep_address
    → (s' : SleepTable) × (wakeup_process_from fuel kpid proc s ≡ some s')
      × Woken woken s proc ks (kpid ∷ []) (without kpid ks) s'
unfolding Linked
wakeup_process_from-Woken fuel kpid proc s [] long linked out there at_a = ground (arith, there)
wakeup_process_from-Woken zero kpid proc s (k ∷ ks) long linked out there at_a =
    absurd (omega arith)
wakeup_process_from-Woken (suc fuel) kpid proc s (k ∷ ks) long (e, nz, once, linked) out there
      at_a =
    elim (eq-cases k kpid) [
      | inl same ↦ (
        rouse woken proc k s,
        rw (wakeup_process_from-round fuel kpid proc s (rw e nz), e, ← same)
            (rw (eq→== k k refl, eq→== (s.address k) ((s.u_area k).sleep_address) (rw same at_a))
              refl),
        rw (← same, eq→== k k refl)
            (rouse-Woken woken (λ p. refl) s proc k ks linked (λ j h. out j (ground (arith, h)))),
      )
      | inr other ↦
          let (s', found, w) =
            wakeup_process_from-Woken fuel kpid (behind k) s ks (omega arith) linked
              (λ j h. ground (arith, h)) (ground (arith, there)) at_a in
          (
            s',
            rw (wakeup_process_from-round fuel kpid proc s (rw e nz), e, ne→== k kpid other) found,
            rw (ne→== k kpid other) (
                Woken-miss woken (λ p. refl) s proc k ks _ _ s' e nz once
                  (has-without k kpid ks once) out w),
          )
    ]

without-has : (j k : ℕ) (ks : List ℕ) → has j (without k ks) ≡ true → has j ks ≡ true
without-has j k [] h = h
without-has j k (x ∷ xs) h = ground (arith, without-has j k xs)

-- `wakeup_process` of a process in the bucket of the address that it sleeps on does not panic: the
-- process leaves the bucket, it is running with the sleeping address 0 and is put on the list of
-- its priority; no other process changes.
pub wakeup_process-IsSleepTable :
    (kpid : ℕ) (s : SleepTable) (qs : ℕ → List ℕ)
    → IsSleepTable s qs
    → s.address kpid ≡ (s.u_area kpid).sleep_address
    → let i = (s.u_area kpid).sleep_address % sleep_buckets in
      has kpid (qs i) ≡ true
      → length (qs i) ≤ sleepers
      → (s' : SleepTable) × (wakeup_process kpid s ≡ some s')
        × IsSleepTable s' (update qs i (without kpid (qs i)))
        × ((k : ℕ) → s'.u_area k ≡ (if k == kpid then woken (s.u_area k) else s.u_area k))
        × (s'.lists ≡ enqueue_all (s.u_area) (kpid ∷ []) (s.lists))
unfolding wakeup_process
wakeup_process-IsSleepTable kpid s qs t at_a there long =
    let i = (s.u_area kpid).sleep_address % sleep_buckets in
    let (s', found, w) =
      wakeup_process_from-Woken sleepers kpid (bucket i) s (qs i) long (t.linked i) (λ j h. refl)
        there at_a in
    (
      s',
      found,
      Woken-IsSleepTable woken s s' qs i _ _ t w (λ k h. without-has k kpid (qs i) h),
      λ k. ground (arith, w.areas k),
      w.queued,
    )
