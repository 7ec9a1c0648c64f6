-- ===== src/Kernel/Sleep/Lost.antt =====
-- Where `wakeup_and_kill` sends its signal.
use os_thix.Prelude.{
  ℕ, zero, suc, ◌%◌, ◌≡◌, ◌≢◌, refl, true, false, List, [], ◌∷◌, ◌==◌, update, eq→==, ne→==, sym,
  some, none,
}
use os_thix.Word.{test_bit, set_bit}
use os_thix.Word.Laws.{test_bit-set_bit}
use os_thix.Kernel.Tss.{Tss}
use os_thix.Kernel.Signal.{sig_ign, is_asleep}
use os_thix.Kernel.Sleep.{
  SleepTable, sleep_buckets, bucket, link_value, awake, rouse, send_signal, wakeup_and_kill_from,
  wakeup_and_kill,
}
use os_thix.Kernel.Sleep.Table.{Linked, IsSleepTable}

-- A process to which a signal can be sent without waking anyone up.
abbrev pub IsOpen : ℕ → Tss → Type 0
IsOpen signum p = ((p.sig.sigactions signum).sa_handler ≢ sig_ign) × (is_asleep (p.status) ≡ false)

-- Sending a signal to the process 0 from a table.
abbrev signalled : ℕ → SleepTable → SleepTable
signalled signum s =
    let p = s.u_area 0 in
    record s {
      u_area = update (s.u_area) 0 (record p {
        sig = record (p.sig) { sigpending = set_bit (p.sig.sigpending) signum };
        ru_nsignals = suc (p.ru_nsignals);
      });
    }

send_signal-idle :
    (signum : ℕ) (s : SleepTable)
    → IsOpen signum (s.u_area 0)
    → send_signal 0 signum s ≡ some (signalled signum s)
unfolding send_signal
send_signal-idle signum s (caught, up) = rw (ne→== _ _ caught, up) refl

-- A round of the loop at a process that sleeps on the address, and the end of a list.
kill_round :
    (fuel a signum i : ℕ) (s : SleepTable)
    → s.sleep_hash i ≢ 0
    → (s.address (s.sleep_hash i) == a) ≡ true
    → let k = s.sleep_hash i in
      let r = rouse awake (bucket i) k s in
      wakeup_and_kill_from (suc fuel) a signum (bucket i) s
      ≡ (elim (send_signal (link_value r (bucket i)) signum r) [
        | none ↦ none
        | some s' ↦ wakeup_and_kill_from fuel a signum (bucket i) s'
      ])
unfolding wakeup_and_kill_from
kill_round fuel a signum i s nz at_a = rw (ne→== (s.sleep_hash i) 0 nz, at_a) refl

kill_end :
    (fuel a signum i : ℕ) (s : SleepTable)
    → s.sleep_hash i ≡ 0
    → wakeup_and_kill_from fuel a signum (bucket i) s ≡ some s
unfolding wakeup_and_kill_from
kill_end zero a signum i s e = refl
kill_end (suc fuel) a signum i s e = rw (eq→== (s.sleep_hash i) 0 e) refl

-- The table after the whole call.
abbrev pub misdirected : ℕ → ℕ → ℕ → SleepTable → SleepTable
misdirected signum i k s = signalled signum (rouse awake (bucket i) k s)

rouse-sleep_hash :
    (i k : ℕ) (s : SleepTable) → s.next k ≡ 0 → (rouse awake (bucket i) k s).sleep_hash i ≡ 0
unfolding rouse
rouse-sleep_hash i k s last = rw (eq→== i i refl) last

rouse-IsOpen :
    (signum i k : ℕ) (s : SleepTable)
    → k ≢ 0
    → IsOpen signum (s.u_area 0)
    → IsOpen signum ((rouse awake (bucket i) k s).u_area 0)
unfolding rouse
rouse-IsOpen signum i k s nz free = rw (ne→== k 0 nz) free

kill_from-misdirected :
    (fuel a signum i : ℕ) (s : SleepTable)
    → s.sleep_hash i ≢ 0
    → s.address (s.sleep_hash i) ≡ a
    → s.next (s.sleep_hash i) ≡ 0
    → IsOpen signum (s.u_area 0)
    → wakeup_and_kill_from (suc fuel) a signum (bucket i) s
      ≡ some (misdirected signum i (s.sleep_hash i) s)
kill_from-misdirected fuel a signum i s nz at_a last free =
    let k = s.sleep_hash i in
    let gone = rouse-sleep_hash i k s last in
    rw
      (
        kill_round fuel a signum i s nz (eq→== _ _ at_a),
        gone,
        send_signal-idle signum (rouse awake (bucket i) k s) (rouse-IsOpen signum i k s nz free),
      )
      (kill_end fuel a signum i (misdirected signum i k s) gone)

wakeup_and_kill-misdirected :
    (a signum : ℕ) (s : SleepTable)
    → let i = a % sleep_buckets in
      s.sleep_hash i ≢ 0
      → s.address (s.sleep_hash i) ≡ a
      → s.next (s.sleep_hash i) ≡ 0
      → IsOpen signum (s.u_area 0)
      → wakeup_and_kill a signum s ≡ some (misdirected signum i (s.sleep_hash i) s)
unfolding wakeup_and_kill
wakeup_and_kill-misdirected a signum s nz at_a last free =
    kill_from-misdirected 63 a signum (a % sleep_buckets) s nz at_a last free

-- Where one process alone sleeps in the bucket of an address, and on that address,
-- `wakeup_and_kill` leaves the signals that are pending for it as they are, and sends the signal to
-- the process 0 (IDLE), if that does not ignore it and is not asleep.
pub wakeup_and_kill-lost :
    (a signum k : ℕ) (s : SleepTable) (qs : ℕ → List ℕ)
    → IsSleepTable s qs
    → qs (a % sleep_buckets) ≡ k ∷ []
    → s.address k ≡ a
    → IsOpen signum (s.u_area 0)
    → (s' : SleepTable) × (wakeup_and_kill a signum s ≡ some s')
      × ((s'.u_area k).sig.sigpending ≡ (s.u_area k).sig.sigpending)
      × (test_bit ((s'.u_area 0).sig.sigpending) signum ≡ true)
unfolding Linked rouse
wakeup_and_kill-lost a signum k s qs t one at_a free =
    let i = a % sleep_buckets in
    let (e, nz, once, last) = rw one at (t.linked i) in
    (
      misdirected signum i k s,
      rw (← e) (wakeup_and_kill-misdirected a signum s (rw e nz) (rw e at_a) (rw e last) free),
      rw (eq→== k k refl, ne→== 0 k (λ z. nz (sym z))) refl,
      rw (test_bit-set_bit _ signum signum, eq→== signum signum refl) refl,
    )
