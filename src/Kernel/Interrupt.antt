-- ===== src/Kernel/Interrupt.antt =====
-- The test for signals in the loop of `sleep` of kernel/sleep.c, with the choice of a signal by
-- `__issig` of kernel/signal.c.
use os_thix.Prelude.{
  ℕ, zero, suc, ◌-◌, Bool, true, false, not, ◌&&◌, ◌||◌, Option, none, some, ◌==◌, ltb,
  if◌then◌else◌,
}
use os_thix.Word.{test_bit, andn_word}
use os_thix.Kernel.Tss.{Signals}
use os_thix.Kernel.Signal.{nsig, sigchld, sig_dfl, sig_ign, u_threshold_priority}

-- `signals()`
abbrev pub pending_signals : Signals → ℕ
pending_signals s = andn_word (s.sigpending) (s.sigblocked)

-- A loop `for (signum = …; signum < _NSIG; …)` over the pending signals that pass a test, with
-- `left` numbers left.
unfoldable pub first_signal : (ℕ → Bool) → ℕ → ℕ → ℕ → Option ℕ
first_signal ok_signal word signum zero = none
first_signal ok_signal word signum (suc left) =
    let later = first_signal ok_signal word (suc signum) left in
    if test_bit word signum && ok_signal signum then some signum else later

-- What `__issig` does: it ends the process by a signal, or returns a number.
pub data Issig : Type 0 where
  exits : ℕ → Issig
  chosen : ℕ → Issig

unfoldable pub sleep_issig : Signals → Issig
unfolding first_signal
sleep_issig s =
    elim (first_signal (λ n. ((s.sigactions n).sa_handler == sig_dfl) && not (n == sigchld))
      (pending_signals s) 1 (nsig - 1)) [
        | some signum ↦ exits signum
        | none ↦ elim (first_signal (λ n. true) (pending_signals s) 1 (nsig - 1)) [
          | some signum ↦ chosen signum
          | none ↦ chosen 0
        ]
      ]

-- What the test for signals in the loop of `sleep` comes to: the process goes to sleep, `sleep`
-- returns, or the process ends. The flag is whether the zombies are released before.
pub data SignalTest : Type 0 where
  goes_on : Bool → SignalTest
  returns : Bool → ℕ → SignalTest
  ends : ℕ → SignalTest

-- The case SIGCHLD of that test; `in_waitpid` is `address == &sys_waitpid`.
unfoldable pub child_signal : ℕ → Bool → SignalTest
child_signal sa_handler in_waitpid =
    if (sa_handler == sig_ign) || (sa_handler == sig_dfl)
    then if in_waitpid then returns (sa_handler == sig_ign) 0 else goes_on (sa_handler == sig_ign)
    else returns false (if in_waitpid then 0 else sigchld)

unfoldable pub test_signals : ℕ → Bool → Signals → SignalTest
unfolding sleep_issig child_signal
test_signals wakeup_priority in_waitpid s =
    if ltb wakeup_priority u_threshold_priority && not (pending_signals s == 0)
    then elim (sleep_issig s) [
      | exits signum ↦ ends signum
      | chosen signum ↦
          if signum == sigchld
          then child_signal ((s.sigactions sigchld).sa_handler) in_waitpid
          else returns false signum
    ]
    else goes_on false
