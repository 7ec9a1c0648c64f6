-- ===== src/Fs/Pipe/Read.antt =====
-- What `pipe_read` (fs/pipe.c) does to the bytes in a pipe.
use mathlib.Core.List.{append_assoc, append-nil}
use os_thix.Prelude.{
  ℕ, zero, suc, ◌+◌, ◌-◌, ◌<◌, ◌≤◌, ◌≡◌, ◌≢◌, inl, inr, refl, sym, ap, ◌∙◌, subst, Bool, true,
  false, List, [], ◌++◌, length, length-append, ◌==◌, if◌then◌else◌, arith, min, eq→==, ne→==,
  eq-cases,
}
use os_thix.Fs.Pipe.{
  Pipe, Blocks, pipe_buf, copy_from, wrap, to_block_end, ReadEnd, finished, waits_input, waits_lock,
  interrupted, panicked, out_of_fuel, copy_out, read_exit, read_loop,
}
use os_thix.Fs.Pipe.Ring.{
  unread, ring, IsPipe, IsUsable, to_block_end_bounds, wrap_bounds, length-ring, ring-append,
  ring-turn, ring-copy_from, length-copy_from, relabel,
}

-- The pipe after a turn of the loop that reads `n` bytes.
abbrev cut : ℕ → Pipe → Pipe
cut n p = record p { i_piperoff = wrap (p.i_piperoff) + n; i_pipesize = p.i_pipesize - n }

below : (off : ℕ) → off ≤ pipe_buf → off ≢ pipe_buf → wrap off ≡ off
below off h ne = ground arith

module _ (n : ℕ) (p : Pipe) (v : IsPipe p) (some_bytes : 0 < p.i_pipesize) (held : n ≤ p.i_pipesize)
    (inside : wrap (p.i_piperoff) + n ≤ pipe_buf) where
  cut-IsPipe : IsPipe (cut n p)
  cut-IsPipe = record {
    read_inside = inside;
    write_inside = v.write_inside;
    size_inside = omega (arith, v.size_inside);
    between = ground (arith, v.between, v.read_inside, v.write_inside);
  }

  cut-unread : copy_from (p.contents) (wrap (p.i_piperoff)) n ++ unread (cut n p) ≡ unread p
  cut-unread =
      rw (← ring-copy_from (p.contents) (wrap (p.i_piperoff)) n inside) (
        sym (ring-append (p.contents) (wrap (p.i_piperoff)) n (p.i_pipesize - n))
        ∙ rw (whole) start)
    where
      whole : n + (p.i_pipesize - n) ≡ p.i_pipesize
      whole = omega arith

      start :
          ring (p.contents) (wrap (p.i_piperoff)) (p.i_pipesize)
          ≡ ring (p.contents) (p.i_piperoff) (p.i_pipesize)
      start = elim (eq-cases (p.i_piperoff) pipe_buf) [
        | inl e ↦ rw e (sym (ring-turn (p.contents) 0 (p.i_pipesize)))
        | inr ne ↦ rw (below (p.i_piperoff) (v.read_inside) ne) refl
      ]

-- The number of bytes that a turn of the loop takes.
abbrev taken : Blocks → ℕ → Pipe → ℕ
taken b count p = min count (min (to_block_end b (wrap (p.i_piperoff))) (p.i_pipesize))

module _ (b : Blocks) (u : IsUsable b) (count : ℕ) (p : Pipe) (v : IsPipe p) (wanted : 0 < count)
    (some_bytes : 0 < p.i_pipesize) where
  taken_bounds :
      (0 < taken b count p)
      × (taken b count p ≤ count)
      × (taken b count p ≤ p.i_pipesize)
      × (wrap (p.i_piperoff) + taken b count p ≤ pipe_buf)
  taken_bounds = omega (
    arith,
    to_block_end_bounds b (wrap (p.i_piperoff)) u (wrap_bounds (p.i_piperoff) (v.read_inside)),
  )

  copy_out-cut :
      (next : List ℕ → ℕ → Pipe → ReadEnd) (got : List ℕ)
      → copy_out b next got count p
        ≡ next
            (got ++ copy_from (p.contents) (wrap (p.i_piperoff)) (taken b count p))
            (count - taken b count p)
            (cut (taken b count p) p)
  unfolding copy_out
  copy_out-cut next got =
      rw (ne→== (taken b count p) 0 (positive), u.rbmap_finds (wrap (p.i_piperoff))) refl
    where
      positive : taken b count p ≢ 0
      positive = omega (arith, taken_bounds)

pub read_loop-end :
    (b : Blocks) (flags fuel : ℕ) (got : List ℕ) (p : Pipe)
    → read_loop b flags (suc fuel) got 0 p ≡ read_exit got p
unfolding read_loop
read_loop-end b flags fuel got p = refl

-- An empty pipe ends a read that has some bytes.
read_loop-empty :
    (b : Blocks) (flags fuel : ℕ) (got : List ℕ) (count : ℕ) (p : Pipe)
    → 0 < length got
    → p.i_pipesize ≡ 0
    → read_loop b flags (suc fuel) got count p ≡ read_exit got p
unfolding read_loop
read_loop-empty b flags fuel got count p have empty =
    rw (eq→== (p.i_pipesize) 0 empty, ne→== (length got) 0 (omega arith))
      (if_same (count == 0) (read_exit got p))
  where
    if_same : (t : Bool) (r : ReadEnd) → (if t then r else r) ≡ r
    if_same true r = refl
    if_same false r = refl

read_loop-turn :
    (b : Blocks) (flags fuel : ℕ) (got : List ℕ) (count : ℕ) (p : Pipe)
    → 0 < count
    → 0 < p.i_pipesize
    → read_loop b flags (suc fuel) got count p ≡ copy_out b (read_loop b flags fuel) got count p
unfolding read_loop
read_loop-turn b flags fuel got count p wanted some_bytes =
    rw (ne→== (p.i_pipesize) 0 (omega arith), ne→== count 0 (omega arith)) refl

-- What a read owes that has `got` bytes, wants `count` more and finds `old` in the pipe.
abbrev pub Delivered : List ℕ → ℕ → List ℕ → ReadEnd → Type 0
Delivered got count old (finished all p) =
    (now : List ℕ) × (all ≡ got ++ now)
    × (now ++ unread p ≡ old)
    × (length now ≡ min count (length old))
    × IsPipe p
    × (p.busy ≡ false)
Delivered got count old _ = ⊥

Delivered-append :
    (got xs : List ℕ) (count : ℕ) (old : List ℕ) (r : ReadEnd)
    → length xs ≤ count
    → Delivered (got ++ xs) (count - length xs) old r
    → Delivered got count (xs ++ old) r
Delivered-append got xs count old (finished all p) some_of (now, taken_all, rest, size, v, free) = (
  xs ++ now,
  taken_all ∙ append_assoc got xs now,
  append_assoc xs now (unread p) ∙ ap (xs ++◌) rest,
  omega (arith, size, length-append xs now, length-append xs old),
  v,
  free,
)
Delivered-append got xs count old (waits_input p) some_of h = h
Delivered-append got xs count old (waits_lock p) some_of h = h
Delivered-append got xs count old (interrupted p) some_of h = h
Delivered-append got xs count old panicked some_of h = h
Delivered-append got xs count old out_of_fuel some_of h = h

pub read_exit-Delivered :
    (got : List ℕ) (count : ℕ) (p : Pipe)
    → IsPipe p
    → min count (p.i_pipesize) ≡ 0
    → Delivered got count (unread p) (read_exit got p)
unfolding read_exit
read_exit-Delivered got count p v done_all = (
  [],
  sym (append-nil got),
  refl,
  omega (arith, done_all, length-ring (p.contents) (p.i_piperoff) (p.i_pipesize)),
  relabel (p.modified) false false _ v,
  refl,
)

module _ (b : Blocks) (u : IsUsable b) (count : ℕ) (p : Pipe) (v : IsPipe p) (wanted : 0 < count)
    (some_bytes : 0 < p.i_pipesize) where
  -- The bytes that a turn of the loop takes.
  abbrev piece : List ℕ
  piece = copy_from (p.contents) (wrap (p.i_piperoff)) (taken b count p)

  turn-Delivered :
      (got : List ℕ) (r : ReadEnd)
      → Delivered (got ++ piece) (count - taken b count p) (unread (cut (taken b count p) p)) r
      → Delivered got count (unread p) r
  turn-Delivered got r rest =
      subst (λ old. Delivered got count old r)
        (cut-unread (taken b count p) p v some_bytes
          (omega (arith, taken_bounds b u count p v wanted some_bytes))
          (omega (arith, taken_bounds b u count p v wanted some_bytes)))
        (Delivered-append got piece count (unread (cut (taken b count p) p)) r
          (omega (
            arith,
            taken_bounds b u count p v wanted some_bytes,
            length-copy_from (p.contents) (wrap (p.i_piperoff)) (taken b count p),
          ))
          (rw (length-copy_from (p.contents) (wrap (p.i_piperoff)) (taken b count p)) rest))

  turn-IsPipe : IsPipe (cut (taken b count p) p)
  turn-IsPipe =
      cut-IsPipe (taken b count p) p v some_bytes
        (omega (arith, taken_bounds b u count p v wanted some_bytes))
        (omega (arith, taken_bounds b u count p v wanted some_bytes))

  length-piece : (got : List ℕ) → length (got ++ piece) ≡ length got + taken b count p
  length-piece got = omega (
    arith,
    length-append got piece,
    length-copy_from (p.contents) (wrap (p.i_piperoff)) (taken b count p),
  )

pub read_loop-Delivered :
    (b : Blocks) (flags fuel : ℕ) (got : List ℕ) (count : ℕ) (p : Pipe)
    → IsUsable b
    → IsPipe p
    → 0 < length got + p.i_pipesize
    → count < fuel
    → Delivered got count (unread p) (read_loop b flags fuel got count p)
read_loop-Delivered b flags zero got count p u v some_bytes h = absurd (omega arith)
read_loop-Delivered b flags (suc fuel) got zero p u v some_bytes h =
    rw (read_loop-end b flags fuel got p) (read_exit-Delivered got 0 p v (omega arith))
read_loop-Delivered b flags (suc fuel) got (suc n) p u v some_bytes h =
    elim (eq-cases (p.i_pipesize) 0) [
      | inl empty ↦
          rw (read_loop-empty b flags fuel got (suc n) p (omega (arith, some_bytes, empty)) empty)
            (read_exit-Delivered got (suc n) p v (omega (arith, empty)))
      | inr held ↦
          rw
            (
              read_loop-turn b flags fuel got (suc n) p (omega arith) (omega arith),
              copy_out-cut b u (suc n) p v (omega arith) (omega arith) (read_loop b flags fuel) got,
            )
            (turn-Delivered b u (suc n) p v (omega arith) (omega arith) got _ (
              read_loop-Delivered b flags fuel
                (got ++ piece b u (suc n) p v (omega arith) (omega arith))
                (suc n - taken b (suc n) p) (cut (taken b (suc n) p) p) u
                (turn-IsPipe b u (suc n) p v (omega arith) (omega arith))
                (omega (
                  arith,
                  length-piece b u (suc n) p v (omega arith) (omega arith) got,
                  taken_bounds b u (suc n) p v (omega arith) (omega arith),
                ))
                (omega (arith, h, taken_bounds b u (suc n) p v (omega arith) (omega arith)))))
    ]
