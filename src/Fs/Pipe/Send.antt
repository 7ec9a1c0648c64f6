-- ===== src/Fs/Pipe/Send.antt =====
-- What `pipe_write` (fs/pipe.c) owes its caller.
use os_thix.Prelude.{
  ℕ, suc, ◌+◌, ◌-◌, ◌<◌, ◌≤◌, ◌≡◌, inl, inr, refl, ap, Bool, true, false, ◌&&◌, List, ◌++◌, length,
  length-append, leb, ltb, Bool-cases, arith, ne→==,
}
use os_thix.Fs.Pipe.{
  Pipe, Blocks, pipe_buf, WriteEnd, written, waits_space, waits_room, no_space, broken, cut_short,
  waits_lock, out_of_fuel, write_loop, pipe_write, i_lock, i_unlock,
}
use os_thix.Fs.Pipe.Ring.{unread, IsPipe, IsUsable, length-ring, relabel}
use os_thix.Fs.Pipe.Write.{Wrote, write_loop-Wrote}

-- What `pipe_write` may do besides: sleep with all the bytes, which the pipe could hold and has no room for.
abbrev pub Sent : Pipe → List ℕ → WriteEnd → Type 0
Sent p bytes (waits_room rest p') =
    (rest ≡ bytes)
    × (length bytes ≤ pipe_buf)
    × (pipe_buf < p.i_pipesize + length bytes)
    × IsPipe p'
    × (unread p' ≡ unread p)
    × (p'.busy ≡ false)
Sent p bytes r = Wrote 0 (unread p) bytes r

Wrote-Sent :
    (p : Pipe) (bytes : List ℕ) (r : WriteEnd) → Wrote 0 (unread p) bytes r → Sent p bytes r
Wrote-Sent p bytes (written n p') h = h
Wrote-Sent p bytes (waits_space n rest p') h = h
Wrote-Sent p bytes (no_space p') h = h
Wrote-Sent p bytes (broken p') h = h
Wrote-Sent p bytes (cut_short p') h = h
Wrote-Sent p bytes (waits_room rest p') h = absurd h
Wrote-Sent p bytes (waits_lock p') h = h
Wrote-Sent p bytes out_of_fuel h = h

-- The test of the first loop of `pipe_write`.
abbrev must_wait : Pipe → List ℕ → Bool
must_wait p bytes = leb (length bytes) pipe_buf && ltb (pipe_buf - p.i_pipesize) (length bytes)

pipe_write-loop :
    (b : Blocks) (bytes : List ℕ) (p : Pipe)
    → p.busy ≡ false
    → must_wait p bytes ≡ false
    → pipe_write b bytes p ≡ write_loop b (suc (length bytes)) 0 bytes (i_lock p)
unfolding pipe_write
pipe_write-loop b bytes p free go = rw (free, go) refl

pipe_write-wait :
    (b : Blocks) (bytes : List ℕ) (p : Pipe)
    → p.busy ≡ false
    → 0 < p.i_pipercnt
    → must_wait p bytes ≡ true
    → pipe_write b bytes p ≡ waits_room bytes (i_unlock (i_lock p))
unfolding pipe_write
pipe_write-wait b bytes p free readers wait =
    rw (free, wait, ne→== (p.i_pipercnt) 0 (omega arith)) refl

i_lock-Wrote :
    (b : Blocks) (bytes : List ℕ) (p : Pipe)
    → IsUsable b
    → IsPipe p
    → 0 < p.i_pipercnt
    → 0 < length bytes
    → Wrote 0 (unread p) bytes (write_loop b (suc (length bytes)) 0 bytes (i_lock p))
unfolding i_lock
i_lock-Wrote b bytes p u v readers some_bytes =
    write_loop-Wrote b (suc (length bytes)) 0 bytes (i_lock p) u
      (relabel (p.modified) true (p.in_demand) (p.events) v) readers (omega (arith, some_bytes))
      (omega arith)

-- A write of at least one byte, on an unlocked pipe that is well formed, has a reader and can use
-- its blocks, appends to the unread bytes. It returns their number when all are in. It sleeps with all of
-- them where they fit the pipe but not the room in it; it sleeps with a rest, and then the pipe is full and
-- holds what is missing in the rest. The pipe stays well formed and is left unlocked.
pub pipe_write-Sent :
    (b : Blocks) (bytes : List ℕ) (p : Pipe)
    → IsUsable b
    → IsPipe p
    → p.busy ≡ false
    → 0 < p.i_pipercnt
    → 0 < length bytes
    → Sent p bytes (pipe_write b bytes p)
unfolding i_lock i_unlock
pipe_write-Sent b bytes p u v free readers some_bytes = elim (Bool-cases (must_wait p bytes)) [
  | inl wait ↦ rw (pipe_write-wait b bytes p free readers wait) (
    refl,
    ground (arith, wait),
    ground (arith, wait),
    relabel (p.modified) false false _ v,
    refl,
    refl,
  )
  | inr go ↦
      rw (pipe_write-loop b bytes p free go)
        (Wrote-Sent p bytes _ (i_lock-Wrote b bytes p u v readers some_bytes))
]

-- Where the bytes fit the pipe at once, a write is all or nothing.
abbrev pub IsAtomic : Pipe → List ℕ → WriteEnd → Type 0
IsAtomic p bytes (written n p') = (n ≡ length bytes) × (unread p' ≡ unread p ++ bytes)
IsAtomic p bytes (waits_room rest p') = (rest ≡ bytes) × (unread p' ≡ unread p)
IsAtomic p bytes _ = ⊥

Wrote-IsAtomic :
    (p : Pipe) (bytes : List ℕ) (r : WriteEnd)
    → p.i_pipesize + length bytes ≤ pipe_buf
    → Wrote 0 (unread p) bytes r
    → IsAtomic p bytes r
Wrote-IsAtomic p bytes (written n p') fits (count, v, same, free) = (omega (arith, count), same)
Wrote-IsAtomic p bytes (waits_space n rest p') fits
      (now, all, some_rest, count, v, same, full, free) =
    absurd (
      omega (
        arith,
        ap length all,
        ap length same,
        length-append now rest,
        some_rest,
        full,
        length-append (unread p) now,
        length-ring (p.contents) (p.i_piperoff) (p.i_pipesize),
        length-ring (p'.contents) (p'.i_piperoff) (p'.i_pipesize),
      ))
Wrote-IsAtomic p bytes (no_space p') fits h = h
Wrote-IsAtomic p bytes (broken p') fits h = h
Wrote-IsAtomic p bytes (cut_short p') fits h = h
Wrote-IsAtomic p bytes (waits_room rest p') fits h = absurd h
Wrote-IsAtomic p bytes (waits_lock p') fits h = h
Wrote-IsAtomic p bytes out_of_fuel fits h = h

-- A write of 1 to PIPE_BUF bytes, on an unlocked pipe that is well formed, has a reader and can use its
-- blocks, is atomic: it appends all of its bytes to the unread ones and returns their number, or it
-- sleeps and has changed no unread byte.
pub pipe_write-IsAtomic :
    (b : Blocks) (bytes : List ℕ) (p : Pipe)
    → IsUsable b
    → IsPipe p
    → p.busy ≡ false
    → 0 < p.i_pipercnt
    → 0 < length bytes
    → length bytes ≤ pipe_buf
    → IsAtomic p bytes (pipe_write b bytes p)
unfolding i_lock i_unlock
pipe_write-IsAtomic b bytes p u v free readers some_bytes small =
    elim (Bool-cases (must_wait p bytes)) [
      | inl wait ↦ rw (pipe_write-wait b bytes p free readers wait) (refl, refl)
      | inr go ↦
          rw (pipe_write-loop b bytes p free go)
            (Wrote-IsAtomic p bytes _ (fits go) (i_lock-Wrote b bytes p u v readers some_bytes))
    ]
  where
    fits : must_wait p bytes ≡ false → p.i_pipesize + length bytes ≤ pipe_buf
    fits go = ground (arith, go, small, v.size_inside)
