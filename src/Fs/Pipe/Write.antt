-- ===== src/Fs/Pipe/Write.antt =====
-- What `pipe_write` (fs/pipe.c) does to the bytes in a pipe.
use mathlib.Core.List.{append_assoc, append-nil}
use os_thix.Prelude.{
  ℕ, zero, suc, ◌+◌, ◌-◌, ◌%◌, ◌<◌, ◌≤◌, ◌≡◌, ◌≢◌, ◌⊎◌, inl, inr, refl, sym, ap, ◌∙◌, subst, Bool,
  true, false, ◌&&◌, List, [], ◌∷◌, ◌++◌, length, take, drop, length-take, length-append,
  length-drop, ltb, if◌then◌else◌, arith, min, eq→==, ne→==, eq-cases,
}
use os_thix.Fs.Pipe.{
  Pipe, Blocks, pipe_buf, copy_to, wrap, to_block_end, WriteEnd, written, waits_space, waits_room,
  no_space, broken, cut_short, waits_lock, out_of_fuel, buffer_ok, copy_in, write_exit, write_wait,
  write_loop, i_unlock, tell, wakeup, on_roff,
}
use os_thix.Fs.Pipe.Ring.{
  unread, ring, IsPipe, IsUsable, to_block_end_bounds, wrap_bounds, ring-append, ring-turn,
  ring-copy_from, copy_from-copy_to, ring-copy_to, relabel,
}

-- The pipe after a turn of the loop that writes `xs` at the write offset.
abbrev put : List ℕ → Pipe → Pipe
put xs p = record p {
  i_pipewoff = wrap (p.i_pipewoff) + length xs;
  i_pipesize = p.i_pipesize + length xs;
  contents = copy_to (p.contents) (wrap (p.i_pipewoff)) xs;
}

module _ (xs : List ℕ) (p : Pipe) (v : IsPipe p) (fits : p.i_pipesize + length xs ≤ pipe_buf)
    (inside : wrap (p.i_pipewoff) + length xs ≤ pipe_buf) (room : p.i_pipesize < pipe_buf) where
  put-IsPipe : IsPipe (put xs p)
  put-IsPipe = record {
    read_inside = v.read_inside;
    write_inside = inside;
    size_inside = fits;
    between = ground (arith, v.between);
  }

  put-unread : unread (put xs p) ≡ unread p ++ xs
  put-unread =
      ring-append after (p.i_piperoff) (p.i_pipesize) (length xs)
      ∙ rw
          (
            ring-copy_to (p.contents) (wrap (p.i_pipewoff)) xs (p.i_piperoff) (p.i_pipesize)
                (v.read_inside) inside fits place,
            behind,
          )
          refl
    where
      after : ℕ → ℕ
      after = copy_to (p.contents) (wrap (p.i_pipewoff)) xs

      place :
          (p.i_piperoff + p.i_pipesize ≡ wrap (p.i_pipewoff))
          ⊎ (p.i_piperoff + p.i_pipesize ≡ wrap (p.i_pipewoff) + 8192)
      place = ground (arith, v.between, v.read_inside)

      copied :
          ring (copy_to (p.contents) (wrap (p.i_pipewoff)) xs) (wrap (p.i_pipewoff)) (length xs)
          ≡ xs
      copied =
          ring-copy_from after (wrap (p.i_pipewoff)) (length xs) inside
          ∙ copy_from-copy_to (p.contents) (wrap (p.i_pipewoff)) xs

      behind :
          ring
            (copy_to (p.contents) (wrap (p.i_pipewoff)) xs)
            (p.i_piperoff + p.i_pipesize)
            (length xs)
          ≡ xs
      behind = elim place [
        | inl e ↦ rw e copied
        | inr e ↦ rw e (ring-turn after (wrap (p.i_pipewoff)) (length xs) ∙ copied)
      ]

buffer_ok-true :
    (b : Blocks) (u : IsUsable b) (bcount woff roff : ℕ) → buffer_ok b bcount woff roff ≡ true
unfolding buffer_ok
buffer_ok-true b u bcount woff roff =
    rw (u.reads woff) (if_same (ltb bcount (b.s_blksz) && ltb (woff - woff % b.s_blksz) roff))
  where
    if_same : (t : Bool) → (if t then true else true) ≡ true
    if_same true = refl
    if_same false = refl

-- The number of bytes that a turn of the loop takes.
abbrev taken : Blocks → List ℕ → Pipe → ℕ
taken b bytes p =
    min (length bytes) (min (to_block_end b (wrap (p.i_pipewoff))) (pipe_buf - p.i_pipesize))

-- The pipe after that turn.
abbrev put_taken : Blocks → List ℕ → Pipe → Pipe
put_taken b bytes p = put (take (taken b bytes p) bytes) p

-- A turn of the loop: it takes a part of the bytes, at least one, that fits, and puts it.
module _ (b : Blocks) (u : IsUsable b) (wcount : ℕ) (bytes : List ℕ) (p : Pipe) (v : IsPipe p)
    (some_bytes : 0 < length bytes) (room : p.i_pipesize < pipe_buf) where
  taken_bounds :
      (0 < taken b bytes p)
      × (taken b bytes p ≤ length bytes)
      × (p.i_pipesize + taken b bytes p ≤ pipe_buf)
      × (wrap (p.i_pipewoff) + taken b bytes p ≤ pipe_buf)
  taken_bounds = omega (
    arith,
    to_block_end_bounds b (wrap (p.i_pipewoff)) u (wrap_bounds (p.i_pipewoff) (v.write_inside)),
  )

  length-taken : length (take (taken b bytes p) bytes) ≡ taken b bytes p
  length-taken = omega (arith, length-take (taken b bytes p) bytes, taken_bounds)

  copy_in-put :
      (next : ℕ → List ℕ → Pipe → WriteEnd)
      → copy_in b next wcount bytes p
        ≡ next (wcount + taken b bytes p) (drop (taken b bytes p) bytes) (put_taken b bytes p)
  unfolding copy_in
  copy_in-put next =
      rw
        (
          u.wbmap_finds (wrap (p.i_pipewoff)),
          buffer_ok-true b u (taken b bytes p) (wrap (p.i_pipewoff)) (p.i_piperoff),
          length-taken,
        )
        refl

-- What a write on a pipe that holds `old` owes its caller. It has written all the bytes behind the old ones, or it
-- has written some of them, the pipe is full and it sleeps with the rest.
abbrev pub Wrote : ℕ → List ℕ → List ℕ → WriteEnd → Type 0
Wrote wcount old bytes (written n p) =
    (n ≡ wcount + length bytes) × IsPipe p × (unread p ≡ old ++ bytes) × (p.busy ≡ false)
Wrote wcount old bytes (waits_space n rest p) =
    (now : List ℕ) × (now ++ rest ≡ bytes)
    × (0 < length rest)
    × (n ≡ wcount + length now)
    × IsPipe p
    × (unread p ≡ old ++ now)
    × (p.i_pipesize ≡ pipe_buf)
    × (p.busy ≡ false)
Wrote wcount old bytes _ = ⊥

write_loop-end :
    (b : Blocks) (fuel wcount : ℕ) (bytes : List ℕ) (p : Pipe)
    → length bytes ≡ 0
    → write_loop b (suc fuel) wcount bytes p ≡ write_exit wcount p
unfolding write_loop
write_loop-end b fuel wcount bytes p e = rw e refl

write_loop-full :
    (b : Blocks) (fuel wcount : ℕ) (bytes : List ℕ) (p : Pipe)
    → 0 < length bytes
    → p.i_pipesize ≡ pipe_buf
    → 0 < p.i_pipercnt
    → write_loop b (suc fuel) wcount bytes p
      ≡ waits_space wcount bytes (tell (wakeup on_roff) (i_unlock p))
unfolding write_loop write_wait
write_loop-full b fuel wcount bytes p some_bytes full readers =
    rw
      (
        ne→== (length bytes) 0 (omega arith),
        eq→== (p.i_pipesize) pipe_buf full,
        ne→== (p.i_pipercnt) 0 (omega arith),
      )
      refl

write_loop-turn :
    (b : Blocks) (fuel wcount : ℕ) (bytes : List ℕ) (p : Pipe)
    → 0 < length bytes
    → p.i_pipesize < pipe_buf
    → 0 < p.i_pipercnt
    → write_loop b (suc fuel) wcount bytes p ≡ copy_in b (write_loop b fuel) wcount bytes p
unfolding write_loop
write_loop-turn b fuel wcount bytes p some_bytes room readers =
    rw
      (
        ne→== (length bytes) 0 (omega arith),
        ne→== (p.i_pipesize) pipe_buf (omega arith),
        ne→== (p.i_pipercnt) 0 (omega arith),
      )
      refl

write_exit-Wrote :
    (wcount : ℕ) (p : Pipe)
    → IsPipe p
    → 0 < wcount
    → Wrote wcount (unread p) [] (write_exit wcount p)
unfolding write_exit
write_exit-Wrote wcount p v some_bytes =
    rw (ne→== wcount 0 (omega arith))
      (omega arith, relabel true false false _ v, sym (append-nil (unread p)), refl)

waits-Wrote :
    (wcount : ℕ) (bytes : List ℕ) (p : Pipe)
    → IsPipe p
    → 0 < length bytes
    → p.i_pipesize ≡ pipe_buf
    → Wrote wcount (unread p) bytes (waits_space wcount bytes (tell (wakeup on_roff) (i_unlock p)))
unfolding tell i_unlock
waits-Wrote wcount bytes p v some_bytes full = (
  [],
  refl,
  some_bytes,
  omega arith,
  relabel (p.modified) false false _ v,
  sym (append-nil (unread p)),
  full,
  refl,
)

-- What is written after `xs` counts as written together with it.
Wrote-append :
    (wcount : ℕ) (old xs ys : List ℕ) (r : WriteEnd)
    → Wrote (wcount + length xs) (old ++ xs) ys r
    → Wrote wcount old (xs ++ ys) r
Wrote-append wcount old xs ys (written n p) (count, v, bytes, free) =
    (omega (arith, count, length-append xs ys), v, bytes ∙ append_assoc old xs ys, free)
Wrote-append wcount old xs ys (waits_space n rest p)
      (now, all, some_rest, count, v, bytes, full, free) =
    (
      xs ++ now,
      append_assoc xs now rest ∙ ap (xs ++◌) all,
      some_rest,
      omega (arith, count, length-append xs now),
      v,
      bytes ∙ append_assoc old xs now,
      full,
      free,
    )
Wrote-append wcount old xs ys (no_space p) h = h
Wrote-append wcount old xs ys (broken p) h = h
Wrote-append wcount old xs ys (cut_short p) h = h
Wrote-append wcount old xs ys (waits_room rest p) h = h
Wrote-append wcount old xs ys (waits_lock p) h = h
Wrote-append wcount old xs ys out_of_fuel h = h

take-append-drop : (n : ℕ) (xs : List ℕ) → take n xs ++ drop n xs ≡ xs
take-append-drop zero xs = refl
take-append-drop (suc n) [] = refl
take-append-drop (suc n) (x ∷ xs) = ap (x ∷◌) (take-append-drop n xs)

-- A turn of the loop, and what the rest of it writes.
module _ (b : Blocks) (u : IsUsable b) (wcount : ℕ) (bytes : List ℕ) (p : Pipe) (v : IsPipe p)
    (some_bytes : 0 < length bytes) (room : p.i_pipesize < pipe_buf) where
  turn_fits :
      (p.i_pipesize + length (take (taken b bytes p) bytes) ≤ pipe_buf)
      × (wrap (p.i_pipewoff) + length (take (taken b bytes p) bytes) ≤ pipe_buf)
  turn_fits = omega (
    arith,
    length-taken b u wcount bytes p v some_bytes room,
    taken_bounds b u wcount bytes p v some_bytes room,
  )

  turn-IsPipe : IsPipe (put_taken b bytes p)
  turn-IsPipe = put-IsPipe (take (taken b bytes p) bytes) p v (turn_fits.0) (turn_fits.1) room

  turn-Wrote :
      (r : WriteEnd)
      → Wrote
          (wcount + taken b bytes p)
          (unread (put_taken b bytes p))
          (drop (taken b bytes p) bytes)
          r
      → Wrote wcount (unread p) bytes r
  turn-Wrote r rest =
      subst (λ all. Wrote wcount (unread p) all r) (take-append-drop (taken b bytes p) bytes)
        (Wrote-append wcount (unread p) (take (taken b bytes p) bytes)
          (drop (taken b bytes p) bytes) r
          (rw (length-taken b u wcount bytes p v some_bytes room) (
            rw (← put-unread (take (taken b bytes p) bytes) p v (turn_fits.0) (turn_fits.1) room)
              rest)))

pub write_loop-Wrote :
    (b : Blocks) (fuel wcount : ℕ) (bytes : List ℕ) (p : Pipe)
    → IsUsable b
    → IsPipe p
    → 0 < p.i_pipercnt
    → 0 < wcount + length bytes
    → length bytes < fuel
    → Wrote wcount (unread p) bytes (write_loop b fuel wcount bytes p)
write_loop-Wrote b zero wcount bytes p u v readers some_bytes h = absurd (omega arith)
write_loop-Wrote b (suc fuel) wcount [] p u v readers some_bytes h =
    rw (write_loop-end b fuel wcount [] p refl)
      (write_exit-Wrote wcount p v (omega (arith, some_bytes)))
write_loop-Wrote b (suc fuel) wcount (x ∷ xs) p u v readers some_bytes h =
    elim (eq-cases (p.i_pipesize) pipe_buf) [
      | inl full ↦
          rw (write_loop-full b fuel wcount (x ∷ xs) p (omega arith) full readers)
            (waits-Wrote wcount (x ∷ xs) p v (omega arith) full)
      | inr free ↦
          rw
            (
              write_loop-turn b fuel wcount (x ∷ xs) p (omega arith) (room free) readers,
              copy_in-put b u wcount (x ∷ xs) p v (omega arith) (room free) (write_loop b fuel),
            )
            (turn-Wrote b u wcount (x ∷ xs) p v (omega arith) (room free) _ (
              write_loop-Wrote b fuel (wcount + taken b (x ∷ xs) p)
                (drop (taken b (x ∷ xs) p) (x ∷ xs)) (put_taken b (x ∷ xs) p) u
                (turn-IsPipe b u wcount (x ∷ xs) p v (omega arith) (room free)) readers
                (omega (
                  arith,
                  some_bytes,
                  taken_bounds b u wcount (x ∷ xs) p v (omega arith) (room free),
                ))
                (omega (
                  arith,
                  h,
                  length-drop (taken b (x ∷ xs) p) (x ∷ xs),
                  taken_bounds b u wcount (x ∷ xs) p v (omega arith) (room free),
                ))))
    ]
  where
    room : p.i_pipesize ≢ pipe_buf → p.i_pipesize < pipe_buf
    room free = omega (arith, v.size_inside, free)
