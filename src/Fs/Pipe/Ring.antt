-- ===== src/Fs/Pipe/Ring.antt =====
-- The bytes of a pipe (fs/pipe.c) as a ring in the first PIPE_BUF bytes of its file.
use native.Mathlib.Nat.{mod-lt, zero-lt-suc, div-add-mod, mul-le-mul_right, lt_of_mul-lt-mul_left}
use os_thix.Prelude.{
  ℕ, zero, suc, ◌+◌, ◌-◌, ◌*◌, ◌/◌, ◌%◌, ◌<◌, ◌≤◌, ◌≡◌, ◌⊎◌, inl, Bool, true, refl, ap, ◌∙◌, List,
  [], ◌∷◌, ◌++◌, length, ne→==, arith, update,
}
use os_thix.Fs.Pipe.{Pipe, Event, Blocks, pipe_buf, copy_from, copy_to, wrap, to_block_end}

-- `n` bytes of the ring from offset `i` on.
unfoldable pub ring : (ℕ → ℕ) → ℕ → ℕ → List ℕ
ring t i zero = []
ring t i (suc n) = t (i % 8192) ∷ ring t (suc i) n

-- The bytes that were written and not read yet.
abbrev pub unread : Pipe → List ℕ
unread p = ring (p.contents) (p.i_piperoff) (p.i_pipesize)

-- The offsets stay in the ring, the size never exceeds it, and the write offset is the read offset
-- with the size added, up to one turn.
pub record IsPipe (p : Pipe) : Type 0 where
  pub read_inside : p.i_piperoff ≤ pipe_buf
  pub write_inside : p.i_pipewoff ≤ pipe_buf
  pub size_inside : p.i_pipesize ≤ pipe_buf
  pub between :
      (p.i_piperoff + p.i_pipesize ≡ p.i_pipewoff)
      ⊎ (p.i_piperoff + p.i_pipesize ≡ p.i_pipewoff + pipe_buf)

-- The fields outside the ring do not matter.
pub relabel :
    {p : Pipe} (modified' busy' in_demand' : Bool) (events' : List Event)
    → IsPipe p
    → IsPipe
        (record p { modified = modified'; busy = busy'; in_demand = in_demand'; events = events' })
relabel modified' busy' in_demand' events' v = record {
  read_inside = v.read_inside;
  write_inside = v.write_inside;
  size_inside = v.size_inside;
  between = v.between;
}

pub length-ring : (t : ℕ → ℕ) (i n : ℕ) → length (ring t i n) ≡ n
unfolding ring
length-ring t i zero = refl
length-ring t i (suc n) = ap suc (length-ring t (suc i) n)

pub ring-append : (t : ℕ → ℕ) (i m n : ℕ) → ring t i (m + n) ≡ ring t i m ++ ring t (i + m) n
unfolding ring
ring-append t i zero n = rw (none_added, start) refl
  where
    none_added : 0 + n ≡ n
    none_added = omega arith

    start : i + 0 ≡ i
    start = omega arith
ring-append t i (suc m) n =
    rw (more) (ap (t (i % 8192) ∷◌) (ring-append t (suc i) m n ∙ rw (start) refl))
  where
    more : suc m + n ≡ suc (m + n)
    more = omega arith

    start : suc i + m ≡ i + suc m
    start = omega arith

-- A turn later the ring is the same.
pub ring-turn : (t : ℕ → ℕ) (i n : ℕ) → ring t (i + 8192) n ≡ ring t i n
unfolding ring
ring-turn t i zero = refl
ring-turn t i (suc n) = rw (same, later, ring-turn t (suc i) n) refl
  where
    same : (i + 8192) % 8192 ≡ i % 8192
    same = omega arith

    later : suc (i + 8192) ≡ suc i + 8192
    later = omega arith

pub ring-copy_from : (t : ℕ → ℕ) (i n : ℕ) → i + n ≤ 8192 → ring t i n ≡ copy_from t i n
unfolding ring copy_from
ring-copy_from t i zero h = refl
ring-copy_from t i (suc n) h = rw (inside, ring-copy_from t (suc i) n (omega arith)) refl
  where
    inside : i % 8192 ≡ i
    inside = omega arith

pub length-copy_from : (t : ℕ → ℕ) (i n : ℕ) → length (copy_from t i n) ≡ n
unfolding copy_from
length-copy_from t i zero = refl
length-copy_from t i (suc n) = ap suc (length-copy_from t (suc i) n)

copy_to_outside :
    (t : ℕ → ℕ) (i : ℕ) (xs : List ℕ) (j : ℕ)
    → (j < i) ⊎ (i + length xs ≤ j)
    → copy_to t i xs j ≡ t j
unfolding copy_to
copy_to_outside t i [] j h = refl
copy_to_outside t i (x ∷ xs) j h =
    copy_to_outside (update t i x) (suc i) xs j (ground arith) ∙ rw (ne→== i j (ground arith)) refl

pub copy_from-copy_to :
    (t : ℕ → ℕ) (i : ℕ) (xs : List ℕ) → copy_from (copy_to t i xs) i (length xs) ≡ xs
unfolding copy_from copy_to
copy_from-copy_to t i [] = refl
copy_from-copy_to t i (x ∷ xs) = rw (first, copy_from-copy_to (update t i x) (suc i) xs) refl
  where
    first : copy_to (update t i x) (suc i) xs i ≡ x
    first = copy_to_outside (update t i x) (suc i) xs i (inl (omega arith)) ∙ ground arith

-- A copy behind the end of the bytes in the ring, which has room for it, leaves them alone.
pub ring-copy_to :
    (t : ℕ → ℕ) (w : ℕ) (xs : List ℕ) (i n : ℕ)
    → i ≤ 8192
    → w + length xs ≤ 8192
    → n + length xs ≤ 8192
    → (i + n ≡ w) ⊎ (i + n ≡ w + 8192)
    → ring (copy_to t w xs) i n ≡ ring t i n
unfolding ring
ring-copy_to t w xs i n hi hw hn h = walk i n (ground arith)
  where
    walk :
        (i n : ℕ)
        → ((i + n ≡ w) × (i + n ≤ 8192)) ⊎ ((i + n ≡ w + 8192) × (n + length xs ≤ 8192))
        → ring (copy_to t w xs) i n ≡ ring t i n
    walk i zero h = refl
    walk i (suc n) h =
        rw (copy_to_outside t w xs (i % 8192) (ground arith), walk (suc i) n (ground arith)) refl

-- The file system's part: blocks that fill the ring, all of which are there and can be read.
pub record IsUsable (b : Blocks) : Type 0 where
  pub turns : ℕ
  pub fills : turns * b.s_blksz ≡ pipe_buf
  pub rbmap_finds : (off : ℕ) → b.rbmap off ≡ true
  pub wbmap_finds : (off : ℕ) → b.wbmap off ≡ true
  pub reads : (off : ℕ) → b.buf_read off ≡ true

block_end :
    (off blksz turns : ℕ)
    → turns * blksz ≡ 8192
    → off < 8192
    → (0 < blksz - off % blksz) × (off + (blksz - off % blksz) ≤ 8192)
block_end off zero turns whole h = absurd (grind arith)
block_end off (suc b) turns whole h =
    (omega (arith, below), omega (arith, below, parts, turn_ends, whole))
  where
    below : off % suc b < suc b
    below = mod-lt off (zero-lt-suc b)

    parts : suc b * (off / suc b) + off % suc b ≡ off
    parts = div-add-mod off (suc b)

    earlier : off / suc b < turns
    earlier = lt_of_mul-lt-mul_left (suc b) (grind (arith, parts, whole, h))

    turn_ends : suc b * (off / suc b) + suc b ≤ turns * suc b
    turn_ends =
        grind (arith, mul-le-mul_right {m = suc (off / suc b)} {n = turns} (suc b) (earlier))

pub to_block_end_bounds :
    (b : Blocks) (off : ℕ)
    → IsUsable b
    → off < pipe_buf
    → (0 < to_block_end b off) × (off + to_block_end b off ≤ pipe_buf)
to_block_end_bounds b off u h = block_end off (b.s_blksz) (u.turns) (u.fills) h

pub wrap_bounds : (off : ℕ) → off ≤ pipe_buf → wrap off < pipe_buf
wrap_bounds off h = ground arith
