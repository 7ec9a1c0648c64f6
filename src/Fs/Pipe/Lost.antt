-- ===== src/Fs/Pipe/Lost.antt =====
-- A last write that a waiting reader never sees (fs/pipe.c).
use os_thix.Prelude.{
  leb, ltb, ◌&&◌, ℕ, zero, suc, ◌%◌, ◌<◌, ◌≤◌, ◌≡◌, ◌≢◌, ◌∙◌, ap, refl, false, some, List, [], ◌++◌,
  length, ◌==◌, if-elim, arith, eq→==, ne→==, ◌-◌,
}
use os_thix.Fs.Pipe.{
  Pipe, Blocks, pipe_buf, finished, waits_input, WriteEnd, written, waits_space, waits_room,
  no_space, broken, cut_short, waits_lock, out_of_fuel, pipe_read, read_loop, read_wait, read_exit,
  read_woken, pipe_write, write_locked, write_loop, write_exit, write_wait, broken_pipe, copy_in,
  i_lock, i_unlock, nonblocking, tell, wakeup, on_roff, on_woff, wrap,
}
use os_thix.Fs.Pipe.Ring.{unread, ring, IsPipe, IsUsable, length-ring, relabel}
use os_thix.Fs.Pipe.Send.{Sent, IsAtomic, pipe_write-Sent, pipe_write-IsAtomic}
use os_thix.Fs.Pipe.Open.{pipe_close, o_wronly}

-- A write that returns has not changed the number of writers.
abbrev WritersKept : ℕ → WriteEnd → Type 0
WritersKept w (written n p) = p.i_pipewcnt ≡ w
WritersKept w _ = Unit

write_exit-WritersKept : (n : ℕ) (p : Pipe) → WritersKept (p.i_pipewcnt) (write_exit n p)
unfolding write_exit tell i_unlock
write_exit-WritersKept n p = if-elim (WritersKept (p.i_pipewcnt)) (n == 0) (λ e. tt) (λ e. refl)

write_loop-WritersKept :
    (b : Blocks) (fuel wcount : ℕ) (bytes : List ℕ) (p : Pipe)
    → WritersKept (p.i_pipewcnt) (write_loop b fuel wcount bytes p)
unfolding write_loop write_wait broken_pipe copy_in
write_loop-WritersKept b zero wcount bytes p = tt
write_loop-WritersKept b (suc fuel) wcount bytes p =
    if-elim (WritersKept (p.i_pipewcnt)) (length bytes == 0) (λ e. write_exit-WritersKept wcount p)
      (λ e.
        if-elim (WritersKept (p.i_pipewcnt)) (p.i_pipesize == pipe_buf)
          (λ e'. if-elim (WritersKept (p.i_pipewcnt)) (p.i_pipercnt == 0) (λ h. tt) (λ h. tt))
          (λ e'.
            if-elim (WritersKept (p.i_pipewcnt)) (p.i_pipercnt == 0) (λ h. tt)
              (λ h.
                if-elim (WritersKept (p.i_pipewcnt)) (b.wbmap (wrap (p.i_pipewoff)))
                  (λ m. write_loop-WritersKept b fuel _ _ _)
                  (λ m.
                    write_exit-WritersKept wcount
                      (record p { i_pipewoff = wrap (p.i_pipewoff) })))))

write_locked-WritersKept :
    (b : Blocks) (bytes : List ℕ) (p : Pipe) → WritersKept (p.i_pipewcnt) (write_locked b bytes p)
unfolding write_locked broken_pipe
write_locked-WritersKept b bytes p =
    if-elim (WritersKept (p.i_pipewcnt))
      (leb (length bytes) pipe_buf && ltb (pipe_buf - p.i_pipesize) (length bytes))
      (λ e. if-elim (WritersKept (p.i_pipewcnt)) (p.i_pipercnt == 0) (λ h. tt) (λ h. tt))
      (λ e. write_loop-WritersKept b (suc (length bytes)) 0 bytes p)

pipe_write-WritersKept :
    (b : Blocks) (bytes : List ℕ) (p : Pipe) → WritersKept (p.i_pipewcnt) (pipe_write b bytes p)
unfolding pipe_write i_lock
pipe_write-WritersKept b bytes p =
    if-elim (WritersKept (p.i_pipewcnt)) (p.busy) (λ e. tt)
      (λ e. write_locked-WritersKept b bytes (i_lock p))

-- The pipe that `pipe_read` leaves where it goes to sleep.
abbrev left_asleep : Pipe → Pipe
left_asleep p = tell (wakeup on_woff) (i_unlock (i_lock p))

pipe_read-asleep :
    (b : Blocks) (flags count : ℕ) (p : Pipe)
    → p.busy ≡ false
    → p.i_pipesize ≡ 0
    → 0 < p.i_pipewcnt
    → 0 < count
    → nonblocking flags ≡ false
    → pipe_read b flags count p ≡ waits_input (left_asleep p)
unfolding pipe_read read_loop read_wait i_lock
pipe_read-asleep b flags count p free empty writers wanted blocks =
    rw
      (
        free,
        ne→== count 0 (omega (arith, wanted)),
        eq→== (p.i_pipesize) 0 empty,
        blocks,
        ne→== (p.i_pipewcnt) 0 (omega (arith, writers)),
      )
      refl

-- What the last writer's close leaves, and what the reader gets.
closed_early :
    (b : Blocks) (flags count wflags : ℕ) (bytes : List ℕ) (p : Pipe)
    → p.busy ≡ false
    → unread p ≡ bytes
    → 0 < length bytes
    → p.i_pipewcnt ≡ 1
    → wflags % 4 ≡ o_wronly
    → (p3 : Pipe) × (p4 : Pipe) × (pipe_close wflags p ≡ some p3)
      × (read_woken b flags false count p3 ≡ finished [] p4)
      × (unread p4 ≡ bytes)
unfolding pipe_close read_woken read_exit i_lock i_unlock tell
closed_early b flags count wflags bytes p free same some_bytes one access = (
  closed,
  tell (wakeup on_woff) (i_unlock (i_lock closed)),
  rw (access, one) refl,
  rw (free, ne→== (p.i_pipesize) 0 held) refl,
  same,
)
  where
    closed : Pipe
    closed = tell (wakeup on_roff) (record p { i_pipewcnt = 0 })

    held : p.i_pipesize ≢ 0
    held =
        omega (
          arith,
          ap length same,
          some_bytes,
          length-ring (p.contents) (p.i_piperoff) (p.i_pipesize),
        )

-- A reader sleeps on an empty pipe that is well formed. Before it runs again, the only writer writes 1 to PIPE_BUF
-- bytes and closes the pipe. The write returns their number, and then the read returns no bytes, as at the end of
-- the file, and leaves those bytes in the pipe.
pub read_woken-pipe_close :
    (b : Blocks) (flags count wflags : ℕ) (bytes : List ℕ) (p : Pipe)
    → IsUsable b
    → IsPipe p
    → p.busy ≡ false
    → p.i_pipesize ≡ 0
    → 0 < p.i_pipercnt
    → p.i_pipewcnt ≡ 1
    → 0 < count
    → nonblocking flags ≡ false
    → wflags % 4 ≡ o_wronly
    → 0 < length bytes
    → length bytes ≤ pipe_buf
    → (p1 p2 p3 p4 : Pipe) × (pipe_read b flags count p ≡ waits_input p1)
      × (pipe_write b bytes p1 ≡ written (length bytes) p2)
      × (pipe_close wflags p2 ≡ some p3)
      × (read_woken b flags false count p3 ≡ finished [] p4)
      × (unread p4 ≡ bytes)
unfolding i_lock i_unlock tell ring
read_woken-pipe_close b flags count wflags bytes p u v free empty readers one wanted blocks access
      some_bytes small =
    went (pipe_write b bytes (left_asleep p)) refl
      (pipe_write-Sent b bytes (left_asleep p) u asleep-IsPipe refl readers some_bytes)
      (pipe_write-IsAtomic b bytes (left_asleep p) u asleep-IsPipe refl readers some_bytes small)
      (pipe_write-WritersKept b bytes (left_asleep p))
  where
    asleep-IsPipe : IsPipe (left_asleep p)
    asleep-IsPipe = relabel (p.modified) false false _ v

    nothing : unread p ≡ []
    nothing = ap (ring (p.contents) (p.i_piperoff)) empty

    went :
        (r : WriteEnd)
        → pipe_write b bytes (left_asleep p) ≡ r
        → Sent (left_asleep p) bytes r
        → IsAtomic (left_asleep p) bytes r
        → WritersKept (p.i_pipewcnt) r
        → (p1 p2 p3 p4 : Pipe) × (pipe_read b flags count p ≡ waits_input p1)
          × (pipe_write b bytes p1 ≡ written (length bytes) p2)
          × (pipe_close wflags p2 ≡ some p3)
          × (read_woken b flags false count p3 ≡ finished [] p4)
          × (unread p4 ≡ bytes)
    went (written n p2) e sent (all, same) kept =
        let (p3, p4, closes, lost, still) =
          closed_early b flags count wflags bytes p2 (sent.3)
            (same ∙ ap (λ xs. xs ++ bytes) nothing) some_bytes (kept ∙ one) access in
        (
          left_asleep p,
          p2,
          p3,
          p4,
          pipe_read-asleep b flags count p free empty (omega (arith, one)) wanted blocks,
          e ∙ ap (λ k. written k p2) all,
          closes,
          lost,
          still,
        )
    went (waits_room rest p2) e sent atomic kept = absurd (omega (arith, sent.2, empty, small))
    went (waits_space n rest p2) e sent atomic kept = absurd atomic
    went (no_space p2) e sent atomic kept = absurd atomic
    went (broken p2) e sent atomic kept = absurd atomic
    went (cut_short p2) e sent atomic kept = absurd atomic
    went (waits_lock p2) e sent atomic kept = absurd atomic
    went out_of_fuel e sent atomic kept = absurd atomic
