-- ===== src/Kernel/Action/Mask.antt =====
-- The signal masks and actions of kernel/signal.c.
use os_thix.Prelude.{
  ℕ, ◌<◌, ◌≡◌, refl, sym, ap, Option, some, none, List, Pointer, user_null, bad_area, area, Bool,
  true, not, ◌&&◌, ◌||◌, ◌==◌, if◌then◌else◌, arith, leb, Bool-cases, inl, inr, Result, ok, err,
  each_from, from_table,
}
use os_thix.Word.{test_bit, and_word, or_word, andn_word}
use os_thix.Word.Laws.{test_bit-bitwise}
use os_thix.Kernel.Tss.{Tss, Signals, SigAction}
use os_thix.Kernel.Signal.{kill_kpid, sig_blockable, sig_dfl, Proc}
use os_thix.Kernel.Action.{
  sys_sigprocmask, use_mask, change_mask, sys_sigaction, install, set_action, report_action,
  sig_block, sig_unblock, sig_setmask, sig_other, How,
}

-- What `sys_sigprocmask` makes of the bit of a signal.
pub masked : How → Bool → Bool → Bool → Bool
masked sig_block blockable old new = old || (new && blockable)
masked sig_unblock blockable old new = old && not (new && blockable)
masked sig_setmask blockable old new = new && blockable
masked sig_other blockable old new = old

-- `SIG_BLOCKABLE`, as a test
pub blockable : ℕ → Bool
blockable signum = not ((signum == 9) || (signum == 23))

-- Whether a bit of `SIG_BLOCKABLE` is as it should be.
same_bit : ℕ → Bool
unfolding test_bit blockable
same_bit i = if test_bit sig_blockable i then blockable i else not (blockable i)

same_bits : each_from same_bit 0 32 ≡ true
unfolding same_bit each_from
same_bits = refl

pub test_bit-sig_blockable : (i : ℕ) → i < 32 → test_bit sig_blockable i ≡ blockable i
unfolding same_bit
test_bit-sig_blockable i h = ground (arith, from_table same_bit same_bits h)

change_mask-masked :
    (how : How) (set signum : ℕ) (s s' : Signals)
    → signum < 32
    → change_mask how set s ≡ ok s'
    → (test_bit (s'.sigblocked) signum
        ≡ masked how (blockable signum) (test_bit (s.sigblocked) signum) (test_bit set signum))
      × (s'.sigpending ≡ s.sigpending)
      × (s'.sigoldmask ≡ s.sigoldmask)
      × (s'.sigactions ≡ s.sigactions)
unfolding change_mask masked and_word or_word andn_word
change_mask-masked sig_block set signum s s' h e =
    let allowed = and_word set sig_blockable in
    (
      ground (
        arith,
        test_bit-bitwise ◌||◌ 32 (s.sigblocked) allowed signum h,
        test_bit-bitwise ◌&&◌ 32 set sig_blockable signum h,
        test_bit-sig_blockable signum h,
      ),
      ground arith,
      ground arith,
      ground arith,
    )
change_mask-masked sig_unblock set signum s s' h e =
    let allowed = and_word set sig_blockable in
    (
      ground (
        arith,
        test_bit-bitwise (λ x y. x && not y) 32 (s.sigblocked) allowed signum h,
        test_bit-bitwise ◌&&◌ 32 set sig_blockable signum h,
        test_bit-sig_blockable signum h,
      ),
      ground arith,
      ground arith,
      ground arith,
    )
change_mask-masked sig_setmask set signum s s' h e = (
  ground
      (arith, test_bit-bitwise ◌&&◌ 32 set sig_blockable signum h, test_bit-sig_blockable signum h),
  ground arith,
  ground arith,
  ground arith,
)
change_mask-masked sig_other set signum s s' h e = absurd (ground arith)

-- `sys_sigprocmask` with an accessible `set` and `old_set` stores the old mask. If it succeeds, it
-- blocks the signals of the set, unblocks them, or blocks just them, for every signal but SIGKILL
-- and SIGSTOP, which no call blocks; it changes nothing else.
pub sys_sigprocmask-masked :
    (how : How) (set signum : ℕ) (s s' : Signals) (old : Option ℕ)
    → signum < 32
    → sys_sigprocmask how (area set) (area tt) s ≡ (old, ok s')
    → (old ≡ some (s.sigblocked))
      × (test_bit (s'.sigblocked) signum
          ≡ masked how (blockable signum) (test_bit (s.sigblocked) signum) (test_bit set signum))
      × (s'.sigpending ≡ s.sigpending)
      × (s'.sigoldmask ≡ s.sigoldmask)
      × (s'.sigactions ≡ s.sigactions)
unfolding sys_sigprocmask use_mask
sys_sigprocmask-masked how set signum s s' old h e =
    let (bits, pending, oldmask, actions) =
      change_mask-masked how set signum s s' h (ap (λ r. r.1) e) in
    (ap (λ r. r.0) (sym e), bits, pending, oldmask, actions)

-- With a new action and an accessible `old_action`, a successful `sys_sigaction` hands out the new
-- action as the old one.
sys_sigaction-old :
    (signum : ℕ) (action : SigAction) (handler_readable : Bool) (ps : List Proc) (p p' : Tss)
    (old : Option SigAction)
    → sys_sigaction signum (area action) handler_readable (area tt) ps p ≡ (old, ok p')
    → (old ≡ some action) × (p'.sig.sigactions signum ≡ action)
unfolding sys_sigaction install set_action report_action kill_kpid
sys_sigaction-old signum action handler_readable ps p p' old e = (ground arith, ground arith)

-- The processes that may not catch SIGKILL and SIGSTOP.
pub record IsKillable (p : Tss) : Type 0 where
  pub kill : (p.sig.sigactions 9).sa_handler ≡ sig_dfl
  pub stop : (p.sig.sigactions 23).sa_handler ≡ sig_dfl

install-IsKillable :
    (signum : ℕ) (action : SigAction) (handler_readable : Bool) (p p' : Tss)
    → signum < 32
    → IsKillable p
    → install signum action handler_readable p ≡ ok p'
    → IsKillable p'
unfolding install blockable
install-IsKillable signum action handler_readable p p' h v e =
    ground (arith, test_bit-sig_blockable signum h)

report_action-IsKillable :
    (signum : ℕ) (old_action : Pointer (Unit {0})) (ps : List Proc) (p p' : Tss)
    (old : Option SigAction)
    → IsKillable p
    → report_action signum old_action ps p ≡ (old, ok p')
    → IsKillable p'
unfolding report_action kill_kpid
report_action-IsKillable signum user_null ps p p' old v e = ground arith
report_action-IsKillable signum bad_area ps p p' old v e = absurd (ground arith)
report_action-IsKillable signum (area u) ps p p' old v e = ground arith

set_action-IsKillable :
    (signum : ℕ) (action : Pointer SigAction) (handler_readable : Bool)
    (old_action : Pointer (Unit {0})) (ps : List Proc) (p p' : Tss) (old : Option SigAction)
    → signum < 32
    → IsKillable p
    → set_action signum action handler_readable old_action ps p ≡ (old, ok p')
    → IsKillable p'
unfolding set_action
set_action-IsKillable signum user_null r old_action ps p p' old h v e =
    report_action-IsKillable signum old_action ps p p' old v e
set_action-IsKillable signum bad_area r old_action ps p p' old h v e = absurd (ground arith)
set_action-IsKillable signum (area a) r old_action ps p p' old h v e =
    go (install signum a r p) refl e
  where
    go :
        (result : Result Tss)
        → install signum a r p ≡ result
        → elim result as (λ x. Option SigAction × Result Tss) [
          | ok q ↦ report_action signum old_action ps q
          | err f ↦ (none, err f)
        ]
          ≡ (old, ok p')
        → IsKillable p'
    go (ok q) i f =
        report_action-IsKillable signum old_action ps q p' old
          (install-IsKillable signum a r p q h v i) f
    go (err x) i f = absurd (ground arith)

-- No `sys_sigaction` gives SIGKILL or SIGSTOP another handler than the default, whatever its
-- arguments are.
pub sys_sigaction-IsKillable :
    (signum : ℕ) (action : Pointer SigAction) (handler_readable : Bool)
    (old_action : Pointer (Unit {0})) (ps : List Proc) (p p' : Tss) (old : Option SigAction)
    → IsKillable p
    → sys_sigaction signum action handler_readable old_action ps p ≡ (old, ok p')
    → IsKillable p'
unfolding sys_sigaction
sys_sigaction-IsKillable signum action r user_null ps p p' old v e =
    elim (Bool-cases ((signum == 0) || leb 32 signum)) [
      | inl bad ↦ absurd (ground arith)
      | inr fine ↦
          set_action-IsKillable signum action r user_null ps p p' old (ground arith) v
            (rw fine at e)
    ]
sys_sigaction-IsKillable signum action r bad_area ps p p' old v e = absurd (ground arith)
sys_sigaction-IsKillable signum action r (area u) ps p p' old v e =
    elim (Bool-cases ((signum == 0) || leb 32 signum)) [
      | inl bad ↦ absurd (ground arith)
      | inr fine ↦
          set_action-IsKillable signum action r (area u) ps p p' old (ground arith) v (rw fine at e)
    ]
