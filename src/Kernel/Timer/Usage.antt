-- ===== src/Kernel/Timer/Usage.antt =====
-- What a sequence of clock interrupts does to the running process.
use os_thix.Prelude.{
  ap, ℕ, suc, ◌+◌, ◌-◌, ◌*◌, ◌<◌, ◌≡◌, ◌∙◌, refl, Bool, true, false, not, ◌&&◌, List, [], ◌∷◌, ◌==◌,
  if◌then◌else◌, arith,
}
use os_thix.Word.{test_bit}
use os_thix.Word.Laws.{test_bit-set_bit}
use os_thix.Kernel.Resource.{Timeval}
use os_thix.Kernel.Resource.Usage.{microseconds, IsTime}
use os_thix.Kernel.Itimer.{Itimer}
use os_thix.Kernel.Timer.{
  Account, sigvtalrm, sigprof, charge, expires, count_down, notify, count_virtual, count_prof,
  account,
}

-- Interrupts in order, each with whether it comes in kernel mode.
unfoldable pub run_ticks : List Bool → Account → Account
run_ticks [] p = p
run_ticks (in_kernel ∷ ms) p = run_ticks ms (account in_kernel p)

-- How many of them come in kernel mode, and how many in user mode.
abbrev pub kernel_ticks : List Bool → ℕ
kernel_ticks [] = 0
kernel_ticks (m ∷ ms) = if m then suc (kernel_ticks ms) else kernel_ticks ms

abbrev pub user_ticks : List Bool → ℕ
user_ticks [] = 0
user_ticks (m ∷ ms) = if m then user_ticks ms else suc (user_ticks ms)

charge_lem :
    (tv : Timeval)
    → IsTime tv
    → IsTime (charge tv) × (microseconds (charge tv) ≡ microseconds tv + 10000)
unfolding charge
charge_lem tv t = ground (arith, t)

-- A signal that is sent changes the pending signals only.
notify-kept :
    (due : Bool) (signum : ℕ) (p : Account)
    → let p' = notify due signum p in
      (p'.utime ≡ p.utime) × (p'.stime ≡ p.stime) × (p'.virtual ≡ p.virtual)
unfolding notify
notify-kept true signum p = (refl, refl, refl)
notify-kept false signum p = (refl, refl, refl)

notify-sigpending :
    (due : Bool) (signum i : ℕ) (p : Account)
    → test_bit ((notify due signum p).sigpending) i
      ≡ (if due && (signum == i) then true else test_bit (p.sigpending) i)
unfolding notify
notify-sigpending true signum i p = test_bit-set_bit (p.sigpending) signum i
notify-sigpending false signum i p = refl

count_prof-kept :
    (p : Account)
    → let p' = count_prof p in
      (p'.utime ≡ p.utime)
      × (p'.stime ≡ p.stime)
      × (p'.virtual ≡ p.virtual)
      × (test_bit (p'.sigpending) sigvtalrm ≡ test_bit (p.sigpending) sigvtalrm)
unfolding count_prof
count_prof-kept p =
    let (u, s, v) = notify-kept (expires (p.prof)) sigprof p in
    (u, s, v, notify-sigpending (expires (p.prof)) sigprof sigvtalrm p ∙ other (expires (p.prof)))
  where
    other :
        (due : Bool)
        → (if due && (sigprof == sigvtalrm) then true else test_bit (p.sigpending) sigvtalrm)
          ≡ test_bit (p.sigpending) sigvtalrm
    other true = refl
    other false = refl

count_virtual-kept :
    (p : Account)
    → let p' = count_virtual p in
      (p'.utime ≡ p.utime)
      × (p'.stime ≡ p.stime)
      × (p'.virtual ≡ count_down (p.virtual))
      × (test_bit (p'.sigpending) sigvtalrm
          ≡ (if expires (p.virtual) then true else test_bit (p.sigpending) sigvtalrm))
unfolding count_virtual
count_virtual-kept p =
    let (u, s, v) = notify-kept (expires (p.virtual)) sigvtalrm p in
    (
      u,
      s,
      refl,
      notify-sigpending (expires (p.virtual)) sigvtalrm sigvtalrm p ∙ same (expires (p.virtual)),
    )
  where
    same :
        (due : Bool)
        → (if due && (sigvtalrm == sigvtalrm) then true else test_bit (p.sigpending) sigvtalrm)
          ≡ (if due then true else test_bit (p.sigpending) sigvtalrm)
    same true = refl
    same false = refl

-- What one interrupt leaves.
account_lem :
    (m : Bool) (p : Account)
    → let p' = account m p in
      (p'.utime ≡ (if m then p.utime else charge (p.utime)))
      × (p'.stime ≡ (if m then charge (p.stime) else p.stime))
      × (p'.virtual ≡ (if m then p.virtual else count_down (p.virtual)))
      × (test_bit (p'.sigpending) sigvtalrm
          ≡ (if not m && expires (p.virtual) then true else test_bit (p.sigpending) sigvtalrm))
unfolding account
account_lem true p = count_prof-kept (record p { stime = charge (p.stime) })
account_lem false p =
    let q : Account = record p { utime = charge (p.utime) } in
    let (u, s, v, b) = count_virtual-kept q in
    let (u', s', v', b') = count_prof-kept (count_virtual q) in (u' ∙ u, s' ∙ s, v' ∙ v, b' ∙ b)

-- The process is charged 10000 microseconds of user time for each interrupt in user mode and of
-- system time for each one in kernel mode, and its two times stay normal.
pub run_ticks_lem :
    (ms : List Bool) (p : Account)
    → IsTime (p.utime)
    → IsTime (p.stime)
    → let p' = run_ticks ms p in
      IsTime (p'.utime)
      × IsTime (p'.stime)
      × (microseconds (p'.utime) ≡ microseconds (p.utime) + user_ticks ms * 10000)
      × (microseconds (p'.stime) ≡ microseconds (p.stime) + kernel_ticks ms * 10000)
unfolding run_ticks
run_ticks_lem [] p u s = (u, s, omega arith, omega arith)
run_ticks_lem (true ∷ ms) p u s =
    let (fu, fs, _, _) = account_lem true p in
    let (t, e) = charge_lem (p.stime) s in
    let (u', s', eu, es) = run_ticks_lem ms (account true p) (rw fu u) (rw fs t) in
    (u', s', omega (arith, eu, ap microseconds fu), omega (arith, es, ap microseconds fs, e))
run_ticks_lem (false ∷ ms) p u s =
    let (fu, fs, _, _) = account_lem false p in
    let (t, e) = charge_lem (p.utime) u in
    let (u', s', eu, es) = run_ticks_lem ms (account false p) (rw fu t) (rw fs s) in
    (u', s', omega (arith, eu, ap microseconds fu, e), omega (arith, es, ap microseconds fs))

count_down-early :
    (i : Itimer)
    → 1 < i.ticks_value
    → (expires i ≡ false)
      × ((count_down i).ticks_value ≡ i.ticks_value - 1)
      × ((count_down i).ticks_interval ≡ i.ticks_interval)
unfolding count_down
count_down-early i h = ground (arith, h)

count_down-due :
    (i : Itimer)
    → i.ticks_value ≡ 1
    → (expires i ≡ true) × ((count_down i).ticks_value ≡ i.ticks_interval)
unfolding count_down
count_down-due i h = ground (arith, h)

-- Interrupts that come before a virtual timer is due: it counts those in user mode only, keeps its
-- interval and sends no signal.
virtual_waits :
    (ms : List Bool) (p : Account)
    → user_ticks ms < p.virtual.ticks_value
    → let p' = run_ticks ms p in
      (p'.virtual.ticks_value + user_ticks ms ≡ p.virtual.ticks_value)
      × (p'.virtual.ticks_interval ≡ p.virtual.ticks_interval)
      × (test_bit (p'.sigpending) sigvtalrm ≡ test_bit (p.sigpending) sigvtalrm)
unfolding run_ticks
virtual_waits [] p h = (omega arith, refl, refl)
virtual_waits (true ∷ ms) p h =
    let (_, _, v, b) = account_lem true p in
    let (e, i, q) = virtual_waits ms (account true p) (rw v h) in
    (e ∙ ap (λ (t : Itimer). t.ticks_value) v, i ∙ ap (λ (t : Itimer). t.ticks_interval) v, q ∙ b)
virtual_waits (false ∷ ms) p h =
    let (_, _, v, b) = account_lem false p in
    let (late, value, interval) = count_down-early (p.virtual) (omega arith) in
    let (e, i, q) = virtual_waits ms (account false p) (rw (v, value) (omega arith)) in
    (
      omega (arith, e, ap (λ (t : Itimer). t.ticks_value) v, value),
      i ∙ ap (λ (t : Itimer). t.ticks_interval) v ∙ interval,
      q ∙ (rw late at b),
    )

-- A virtual timer of the running process that has `n` ticks left sends SIGVTALRM at the `n`th
-- interrupt in user mode and not before, however many come in kernel mode, and then starts again
-- from its interval.
pub run_ticks-virtual :
    (ms : List Bool) (p : Account)
    → suc (user_ticks ms) ≡ p.virtual.ticks_value
    → let before = run_ticks ms p in
      let after = account false before in
      (test_bit (before.sigpending) sigvtalrm ≡ test_bit (p.sigpending) sigvtalrm)
      × (test_bit (after.sigpending) sigvtalrm ≡ true)
      × (after.virtual.ticks_value ≡ p.virtual.ticks_interval)
run_ticks-virtual ms p h =
    let (e, i, q) = virtual_waits ms p (omega arith) in
    let before = run_ticks ms p in
    let (_, _, v, b) = account_lem false before in
    let (due, restarted) = count_down-due (before.virtual) (omega (arith, e)) in
    (q, rw due at b, rw v (restarted ∙ i))
