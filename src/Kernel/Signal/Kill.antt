-- ===== src/Kernel/Signal/Kill.antt =====
-- Whom the calls of kernel/signal.c send a signal to.
use os_thix.Prelude.{
  ℕ, suc, ◌≡◌, refl, ◌⊎◌, inl, inr, Bool, true, false, not, ◌&&◌, ◌||◌, Option, none, some, List,
  [], ◌∷◌, ◌==◌, leb, if◌then◌else◌, arith, Errno, esrch, ℤ, pos, negsuc, Bool-cases, if-elim,
}
use os_thix.Kernel.Tss.{Credentials, superuser}
use os_thix.Kernel.Signal.{
  Proc, is_zombie, can_kill_kpid, kill_proc, kill_pid, kill_group, kill_pgrp, kill_all, sys_kill,
  nsig, sigkill,
}

-- The processes that `kill_pgrp` is to send the signal to.
unfoldable pub is_target : ℕ → Bool → ℕ → Proc → Bool
is_target pgrp kill_the_sender current p =
    not (is_zombie (p.tss.status))
    && (p.tss.ids.pgrp == pgrp)
    && not ((p.kpid == current) && not kill_the_sender)

-- Whether one of the processes passes the test.
unfoldable pub any_proc : (Proc → Bool) → List Proc → Bool
any_proc test [] = false
any_proc test (p ∷ ps) = test p || any_proc test ps

-- The caller may signal every process that passes the test.
abbrev pub AllPermitted : (Proc → Bool) → Credentials → List Proc → Type 0
AllPermitted test me [] = Unit
AllPermitted test me (p ∷ ps) =
    (test p ≡ true → can_kill_kpid me (p.tss) ≡ true) × AllPermitted test me ps

-- The signal sent to the processes that pass the test.
unfoldable pub send_to : (Proc → Bool) → ℕ → List Proc → List Proc
send_to test signum [] = []
send_to test signum (p ∷ ps) = (if test p then kill_proc signum p else p) ∷ send_to test signum ps

kill_group_lem :
    (pgrp signum : ℕ) (sender : Bool) (current : ℕ) (me : Credentials) (found : Bool)
    (ps : List Proc)
    → AllPermitted (is_target pgrp sender current) me ps
    → kill_group pgrp signum sender current me found ps ≡ (
      if found || any_proc (is_target pgrp sender current) ps then none else some esrch,
      send_to (is_target pgrp sender current) signum ps,
    )
unfolding kill_group is_target any_proc send_to
kill_group_lem pgrp signum sender current me found [] h = ground arith
kill_group_lem pgrp signum sender current me found (p ∷ ps) h = ground (
  arith,
  h.0,
  kill_group_lem pgrp signum sender current me found ps h.1,
  kill_group_lem pgrp signum sender current me true ps h.1,
)

-- Where the caller may signal every process of the group that is not a zombie (and is not itself,
-- unless `kill_the_sender` is set), `kill_pgrp` sends the signal to each of them and to no other
-- process; it fails with ESRCH exactly if there is none.
pub kill_pgrp_lem :
    (pgrp signum : ℕ) (sender : Bool) (current : ℕ) (me : Credentials) (ps : List Proc)
    → AllPermitted (is_target pgrp sender current) me ps
    → kill_pgrp pgrp signum sender current me ps ≡ (
      if any_proc (is_target pgrp sender current) ps then none else some esrch,
      send_to (is_target pgrp sender current) signum ps,
    )
unfolding kill_pgrp
kill_pgrp_lem pgrp signum sender current me ps h =
    kill_group_lem pgrp signum sender current me false ps h

-- Each process is as it was, or has been sent the signal, which the caller may do; a zombie is as
-- it was.
abbrev pub Sent : ℕ → Credentials → List Proc → List Proc → Type 0
Sent signum me [] [] = Unit
Sent signum me [] (q ∷ qs) = ⊥
Sent signum me (p ∷ ps) [] = ⊥
Sent signum me (p ∷ ps) (q ∷ qs) =
    ((q ≡ p)
      ⊎ ((q ≡ kill_proc signum p)
          × (can_kill_kpid me (p.tss) ≡ true)
          × (is_zombie (p.tss.status) ≡ false)))
    × Sent signum me ps qs

module _ (signum : ℕ) (me : Credentials) where
  Sent-refl : (ps : List Proc) → Sent signum me ps ps
  Sent-refl [] = tt
  Sent-refl (p ∷ ps) = (inl refl, Sent-refl ps)

  kill_pid-Sent : (pid : ℕ) (ps : List Proc) → Sent signum me ps (kill_pid pid signum me ps).1
  unfolding kill_pid
  kill_pid-Sent pid [] = tt
  kill_pid-Sent pid (p ∷ ps) =
      elim (Bool-cases (not (is_zombie (p.tss.status)) && (p.tss.ids.pid == pid))) [
        | inr other ↦ rw other (inl refl, kill_pid-Sent pid ps)
        | inl hit ↦ elim (Bool-cases (can_kill_kpid me (p.tss))) [
          | inl may ↦ rw (hit, may) (inr (refl, may, ground arith), Sent-refl ps)
          | inr may ↦ rw (hit, may) (inl refl, Sent-refl ps)
        ]
      ]

  kill_group-Sent :
      (pgrp : ℕ) (sender : Bool) (current : ℕ) (found : Bool) (ps : List Proc)
      → Sent signum me ps (kill_group pgrp signum sender current me found ps).1
  unfolding kill_group
  kill_group-Sent pgrp sender current found [] = tt
  kill_group-Sent pgrp sender current found (p ∷ ps) =
      elim (Bool-cases (not (is_zombie (p.tss.status)) && (p.tss.ids.pgrp == pgrp))) [
        | inr other ↦ rw other (inl refl, kill_group-Sent pgrp sender current found ps)
        | inl hit ↦ elim (Bool-cases ((p.kpid == current) && not sender)) [
          | inl me ↦ rw (hit, me) (inl refl, kill_group-Sent pgrp sender current found ps)
          | inr them ↦ elim (Bool-cases (can_kill_kpid me (p.tss))) [
            | inl may ↦
                rw (hit, them, may)
                  (inr (refl, may, ground arith), kill_group-Sent pgrp sender current true ps)
            | inr may ↦ rw (hit, them, may) (inl refl, Sent-refl ps)
          ]
        ]
      ]

  kill_all-Sent : (ps : List Proc) → Sent signum me ps (kill_all signum me ps)
  unfolding kill_all can_kill_kpid
  kill_all-Sent [] = tt
  kill_all-Sent (p ∷ ps) =
      if-elim (Sent signum me (p ∷ ps))
        (not (is_zombie (p.tss.status)) && (superuser me || (p.tss.cred.euid == me.euid)))
        (λ hit. (inr (refl, ground arith, ground arith), kill_all-Sent ps))
        (λ other. (inl refl, kill_all-Sent ps))

-- `sys_kill` with any arguments sends the signal only to processes that are not zombies and whose
-- effective or real user id is the caller's, unless the caller is the superuser; every other
-- process is left as it was.
pub sys_kill-Sent :
    (pid : ℤ) (signum : ℕ) (current init : Proc) (ps : List Proc)
    → Sent signum (current.tss.cred) (init ∷ ps) (sys_kill pid signum current init ps).1
unfolding sys_kill kill_pgrp
sys_kill-Sent (pos pid) signum current init ps =
    let me = current.tss.cred in
    let all : List Proc = init ∷ ps in
    let still = Sent-refl signum me all in
    let good = λ (r : Option Errno × List Proc). Sent signum me all r.1 in
    if-elim good (signum == 0) (λ _. still)
      λ _.
        if-elim good (leb nsig signum) (λ _. still)
          λ _.
            if-elim good ((pid == 1) && (signum == sigkill)) (λ _. still)
              λ _.
                if-elim good (pid == 0)
                  (λ _. (
                    inl refl,
                    kill_group-Sent signum me (current.tss.ids.pgrp) false (current.kpid) false ps,
                  ))
                  (λ _. kill_pid-Sent signum me pid all)
sys_kill-Sent (negsuc n) signum current init ps =
    let me = current.tss.cred in
    let all : List Proc = init ∷ ps in
    let still = Sent-refl signum me all in
    let good = λ (r : Option Errno × List Proc). Sent signum me all r.1 in
    if-elim good (signum == 0) (λ _. still)
      λ _.
        if-elim good (leb nsig signum) (λ _. still)
          λ _.
            if-elim good (n == 0) (λ _. (inl refl, kill_all-Sent signum me ps))
              (λ _. (inl refl, kill_group-Sent signum me (suc n) true (current.kpid) false ps))

-- `sys_kill` never sends SIGKILL to INIT, whose process id is 1.
pub sys_kill-init :
    (pid : ℤ) (current init : Proc) (ps : List Proc)
    → init.tss.ids.pid ≡ 1
    → (qs : List Proc) × ((sys_kill pid sigkill current init ps).1 ≡ init ∷ qs)
unfolding sys_kill kill_pid
sys_kill-init (pos pid) current init ps h =
    let me = current.tss.cred in
    let good = λ (r : Option Errno × List Proc). (qs : List Proc) × (r.1 ≡ init ∷ qs) in
    if-elim good ((pid == 1) && (sigkill == sigkill)) (λ _. (ps, refl))
      λ other.
        if-elim good (pid == 0)
          (λ _. ((kill_pgrp (current.tss.ids.pgrp) 9 false (current.kpid) me ps).1, refl))
          (λ _. ((kill_pid pid 9 me ps).1, ground arith))
sys_kill-init (negsuc n) current init ps h =
    let me = current.tss.cred in
    let good = λ (r : Option Errno × List Proc). (qs : List Proc) × (r.1 ≡ init ∷ qs) in
    if-elim good (n == 0) (λ _. (kill_all 9 me ps, refl))
      (λ _. ((kill_pgrp (suc n) 9 true (current.kpid) me ps).1, refl))
