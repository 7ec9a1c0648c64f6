-- ===== src/Kernel/Sleep/Loops.antt =====
-- The loops of `wakeup` and `wakeup_one_process` on the chain of a bucket.
use os_thix.Prelude.{
  ℕ, zero, suc, ◌≤◌, ◌≡◌, ◌≢◌, refl, true, false, List, [], ◌∷◌, has, ◌==◌, if◌then◌else◌, length,
  arith, inl, inr, Bool-cases, eq→==, ne→==,
}
use os_thix.Kernel.Sleep.{
  SleepTable, Link, behind, link_value, awake, rouse, wakeup_from, wakeup_one_from,
}
use os_thix.Kernel.Sleep.Table.{
  Linked, on, not_on, any_on, one_on, but_one_on, has-on, has-not_on, has-but_one_on,
}
use os_thix.Kernel.Sleep.Wake.{
  Woken, Outside, Woken-hit, Woken-miss, Woken-stay, rouse-Linked, rouse-Woken,
}

-- The loops at the end of a list, and one round of them.
wakeup_from-end :
    (fuel a : ℕ) (proc : Link) (s : SleepTable)
    → link_value s proc ≡ 0
    → wakeup_from fuel a proc s ≡ s
unfolding wakeup_from
wakeup_from-end zero a proc s e = refl
wakeup_from-end (suc fuel) a proc s e = rw (eq→== (link_value s proc) 0 e) refl

wakeup_from-round :
    (fuel a : ℕ) (proc : Link) (s : SleepTable)
    → link_value s proc ≢ 0
    → wakeup_from (suc fuel) a proc s ≡ (
        if s.address (link_value s proc) == a
        then wakeup_from fuel a proc (rouse awake proc (link_value s proc) s)
        else wakeup_from fuel a (behind (link_value s proc)) s)
unfolding wakeup_from
wakeup_from-round fuel a proc s nz = rw (ne→== (link_value s proc) 0 nz) refl

wakeup_one_from-end :
    (fuel a : ℕ) (proc : Link) (s : SleepTable)
    → link_value s proc ≡ 0
    → wakeup_one_from fuel a proc s ≡ (false, s)
unfolding wakeup_one_from
wakeup_one_from-end zero a proc s e = refl
wakeup_one_from-end (suc fuel) a proc s e = rw (eq→== (link_value s proc) 0 e) refl

wakeup_one_from-round :
    (fuel a : ℕ) (proc : Link) (s : SleepTable)
    → link_value s proc ≢ 0
    → wakeup_one_from (suc fuel) a proc s ≡ (
        if s.address (link_value s proc) == a
        then (true, rouse awake proc (link_value s proc) s)
        else wakeup_one_from fuel a (behind (link_value s proc)) s)
unfolding wakeup_one_from
wakeup_one_from-round fuel a proc s nz = rw (ne→== (link_value s proc) 0 nz) refl

Woken-on :
    (s : SleepTable) (proc : Link) (a k : ℕ) (ks : List ℕ) (s' : SleepTable)
    → has k ks ≡ false
    → let r = rouse awake proc k s in
      Woken awake r proc ks (on (r.address) a ks) (not_on (r.address) a ks) s'
      → Woken awake s proc (k ∷ ks) (k ∷ on (s.address) a ks) (not_on (s.address) a ks) s'
unfolding rouse
Woken-on s proc a k ks s' once w =
    Woken-hit awake (λ p. refl) s proc k ks _ _ s' (has-on (s.address) a k ks once) w

-- The loop of `wakeup` with enough fuel.
pub wakeup_from-Woken :
    (fuel a : ℕ) (proc : Link) (s : SleepTable) (ks : List ℕ)
    → length ks ≤ fuel
    → Linked (s.next) (link_value s proc) ks
    → Outside proc ks
    → Woken awake s proc ks
        (on (s.address) a ks)
        (not_on (s.address) a ks)
        (wakeup_from fuel a proc s)
unfolding Linked
wakeup_from-Woken fuel a proc s [] long linked out =
    rw (wakeup_from-end fuel a proc s linked) (Woken-stay awake (λ p. refl) s proc [] linked)
wakeup_from-Woken zero a proc s (k ∷ ks) long linked out = absurd (omega arith)
wakeup_from-Woken (suc fuel) a proc s (k ∷ ks) long (e, nz, once, linked) out =
    let out' : Outside proc ks = λ j h. out j (ground (arith, h)) in
    rw (wakeup_from-round fuel a proc s (rw e nz), e)
      (elim (Bool-cases (s.address k == a)) [
        | inl hit ↦ rw hit (
            Woken-on s proc a k ks _ once (
              wakeup_from-Woken fuel a proc (rouse awake proc k s) ks (omega arith)
                (rouse-Linked awake (λ p. refl) s proc k ks linked out') out'))
        | inr miss ↦ rw miss (
            Woken-miss awake (λ p. refl) s proc k ks _ _ _ e nz once
              (has-not_on (s.address) a k ks once) out
              (wakeup_from-Woken fuel a (behind k) s ks (omega arith) linked
                (λ j h. ground (arith, h))))
      ])

-- The loop of `wakeup_one_process` with enough fuel.
pub wakeup_one_from-Woken :
    (fuel a : ℕ) (proc : Link) (s : SleepTable) (ks : List ℕ)
    → length ks ≤ fuel
    → Linked (s.next) (link_value s proc) ks
    → Outside proc ks
    → let (found, s') = wakeup_one_from fuel a proc s in
      (found ≡ any_on (s.address) a ks)
      × Woken awake s proc ks (one_on (s.address) a ks) (but_one_on (s.address) a ks) s'
unfolding Linked
wakeup_one_from-Woken fuel a proc s [] long linked out =
    rw (wakeup_one_from-end fuel a proc s linked)
      (refl, Woken-stay awake (λ p. refl) s proc [] linked)
wakeup_one_from-Woken zero a proc s (k ∷ ks) long linked out = absurd (omega arith)
wakeup_one_from-Woken (suc fuel) a proc s (k ∷ ks) long (e, nz, once, linked) out =
    rw (wakeup_one_from-round fuel a proc s (rw e nz), e)
      (elim (Bool-cases (s.address k == a)) [
        | inl hit ↦ rw hit (
          refl,
          rouse-Woken awake (λ p. refl) s proc k ks linked (λ j h. out j (ground (arith, h))),
        )
        | inr miss ↦
            let rest =
              wakeup_one_from-Woken fuel a (behind k) s ks (omega arith) linked
                (λ j h. ground (arith, h)) in
            rw miss (
              rest.0,
              Woken-miss awake (λ p. refl) s proc k ks _ _ _ e nz once
                  (has-but_one_on (s.address) a k ks once) out (rest.1),
            )
      ])
