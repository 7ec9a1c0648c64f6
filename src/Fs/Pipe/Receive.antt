-- ===== src/Fs/Pipe/Receive.antt =====
-- What `pipe_read` (fs/pipe.c) owes its caller.
use os_thix.Prelude.{
  ℕ, suc, ◌<◌, ◌≡◌, ◌⊎◌, inl, inr, refl, true, false, [], ◌++◌, length, ◌==◌, if-elim, Bool-cases,
  arith, min, eq→==, ne→==, eq-cases, ==→eq,
}
use os_thix.Fs.Pipe.{
  Pipe, Blocks, ReadEnd, finished, waits_input, waits_lock, interrupted, panicked, out_of_fuel,
  read_exit, read_wait, read_loop, pipe_read, read_woken, i_lock, nonblocking,
}
use os_thix.Fs.Pipe.Ring.{unread, IsPipe, IsUsable, length-ring, relabel}
use os_thix.Fs.Pipe.Read.{Delivered, read_loop-Delivered, read_loop-end, read_exit-Delivered}

-- What `pipe_read` owes its caller. Either it returns bytes off the front of the unread ones, as many as it
-- was asked for or as there are; no bytes mean that none were asked for, or that there are none and
-- the read does not wait or no one writes. Or it sleeps since there are none, it may wait, and some one writes.
abbrev pub Received : ℕ → ℕ → Pipe → ReadEnd → Type 0
Received flags count p (finished got p') =
    (got ++ unread p' ≡ unread p)
    × (length got ≡ min count (p.i_pipesize))
    × ((0 < length got)
        ⊎ (count ≡ 0)
        ⊎ ((p.i_pipesize ≡ 0) × ((nonblocking flags ≡ true) ⊎ (p.i_pipewcnt ≡ 0))))
    × IsPipe p'
    × (p'.busy ≡ false)
Received flags count p (waits_input p') =
    (p.i_pipesize ≡ 0)
    × (0 < count)
    × (nonblocking flags ≡ false)
    × (0 < p.i_pipewcnt)
    × (unread p' ≡ unread p)
    × IsPipe p'
    × (p'.busy ≡ false)
Received flags count p _ = ⊥

Delivered-Received :
    (flags count : ℕ) (p : Pipe) (r : ReadEnd)
    → (0 < p.i_pipesize) ⊎ (count ≡ 0)
    → Delivered [] count (unread p) r
    → Received flags count p r
Delivered-Received flags count p (finished all p') some_bytes (now, same, rest, size, v, free) =
    (rw same rest, rw same sized, rw same some_now, v, free)
  where
    sized : length now ≡ min count (p.i_pipesize)
    sized = omega (arith, size, length-ring (p.contents) (p.i_piperoff) (p.i_pipesize))

    some_now :
        (0 < length now)
        ⊎ (count ≡ 0)
        ⊎ ((p.i_pipesize ≡ 0) × ((nonblocking flags ≡ true) ⊎ (p.i_pipewcnt ≡ 0)))
    some_now = elim (eq-cases count 0) [
      | inl none_wanted ↦ inr (inl none_wanted)
      | inr wanted ↦ inl (ground (arith, sized, some_bytes, wanted))
    ]
Delivered-Received flags count p (waits_input p') some_bytes h = absurd h
Delivered-Received flags count p (waits_lock p') some_bytes h = h
Delivered-Received flags count p (interrupted p') some_bytes h = h
Delivered-Received flags count p panicked some_bytes h = h
Delivered-Received flags count p out_of_fuel some_bytes h = h

-- A read that finds the pipe empty.
read_loop-none :
    (b : Blocks) (flags fuel count : ℕ) (p : Pipe)
    → IsPipe p
    → 0 < count
    → p.i_pipesize ≡ 0
    → Received flags count p (read_loop b flags (suc fuel) [] count (i_lock p))
unfolding read_loop read_exit read_wait i_lock
read_loop-none b flags fuel count p v wanted empty =
    rw (ne→== count 0 (omega arith), eq→== (p.i_pipesize) 0 empty)
      (if-elim (Received flags count p) (nonblocking flags)
        (λ now. (
          refl,
          omega arith,
          inr (inr (empty, inl now)),
          relabel (p.modified) false false _ v,
          refl,
        ))
        (λ later.
          if-elim (Received flags count p) (p.i_pipewcnt == 0)
            (λ no_writer. (
              refl,
              omega arith,
              inr (inr (empty, inr (==→eq _ _ no_writer))),
              relabel (p.modified) false false _ v,
              refl,
            ))
            (λ writers. (
              empty,
              wanted,
              later,
              ground (arith, writers),
              refl,
              relabel (p.modified) false false _ v,
              refl,
            ))))

i_lock-IsPipe : (p : Pipe) → IsPipe p → IsPipe (i_lock p)
unfolding i_lock
i_lock-IsPipe p v = relabel (p.modified) true (p.in_demand) (p.events) v

locked-Received :
    (b : Blocks) (flags count : ℕ) (p : Pipe)
    → IsUsable b
    → IsPipe p
    → Received flags count p (read_loop b flags (suc count) [] count (i_lock p))
unfolding i_lock
locked-Received b flags count p u v = elim (eq-cases (p.i_pipesize) 0) [
  | inl empty ↦ elim (eq-cases count 0) [
    | inl none_wanted ↦ rw none_wanted (nothing)
    | inr wanted ↦ read_loop-none b flags count count p v (omega (arith, wanted)) empty
  ]
  | inr held ↦ bytes (omega (arith, held))
]
  where
    locked : IsPipe (i_lock p)
    locked = i_lock-IsPipe p v

    nothing : Received flags 0 p (read_loop b flags 1 [] 0 (i_lock p))
    nothing = rw (read_loop-end b flags 0 [] (i_lock p)) (
        Delivered-Received flags 0 p _ (inr refl)
          (read_exit-Delivered [] 0 (i_lock p) locked (omega arith)))

    bytes :
        0 < p.i_pipesize
        → Received flags count p (read_loop b flags (suc count) [] count (i_lock p))
    bytes held = Delivered-Received flags count p _ (inl held) (
        read_loop-Delivered b flags (suc count) [] count (i_lock p) u locked (omega arith)
          (omega arith))

-- On an unlocked pipe that is well formed and can use its blocks, `pipe_read` returns bytes off the
-- front of the unread ones, as many as it was asked for or as there are, and sleeps only on an empty pipe
-- that some one may still write to. The pipe stays well formed and is left unlocked.
pub pipe_read-Received :
    (b : Blocks) (flags count : ℕ) (p : Pipe)
    → IsUsable b
    → IsPipe p
    → p.busy ≡ false
    → Received flags count p (pipe_read b flags count p)
unfolding pipe_read
pipe_read-Received b flags count p u v free = rw free (locked-Received b flags count p u v)

-- A blocking read that is woken up without a signal while some one may still write goes on as a
-- new read of the same bytes would.
pub read_woken-pipe_read :
    (b : Blocks) (flags count : ℕ) (p : Pipe)
    → p.busy ≡ false
    → 0 < count
    → 0 < p.i_pipewcnt
    → nonblocking flags ≡ false
    → read_woken b flags false count p ≡ pipe_read b flags count p
unfolding read_woken pipe_read i_lock
read_woken-pipe_read b flags count p free wanted writers waits =
    rw (free, waits, ne→== count 0 (omega arith), ne→== (p.i_pipewcnt) 0 (omega arith))
      (elim (Bool-cases (p.i_pipesize == 0)) [ inl e ↦ rw e refl | inr e ↦ rw e refl ])

woken_exit :
    (b : Blocks) (flags count : ℕ) (p : Pipe)
    → p.busy ≡ false
    → 0 < p.i_pipesize
    → p.i_pipewcnt ≡ 0
    → read_woken b flags false count p ≡ read_exit [] (i_lock p)
unfolding read_woken
woken_exit b flags count p free held no_writer =
    rw (free, ne→== (p.i_pipesize) 0 (omega arith), eq→== (p.i_pipewcnt) 0 no_writer) refl
