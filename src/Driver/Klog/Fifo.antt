-- ===== src/Driver/Klog/Fifo.antt =====
-- The log of driver/character/klog.c as a queue of bytes.
use os_thix.Prelude.{
  ℕ, zero, suc, ◌+◌, ◌-◌, ◌<◌, ◌≤◌, ◌≡◌, refl, sym, ap, ◌∙◌, true, false, ◌&&◌, List, [], ◌∷◌, ◌++◌,
  length, ◌==◌, ltb, if◌then◌else◌, arith, ◌⊎◌, inl, inr, Bool-cases, ℤ, pos, negsuc, pos_part,
  neg_part, ok,
}
use os_thix.Driver.Klog.{
  Klog, finished, sleeps, fetch, store, decrease, klog_reset, read_loop, klog_read, klog_write,
  nonblocking,
}
use os_thix.Driver.Klog.Bytes.{
  length-store, fetch-append, fetch-store, fetch-store_before, length-fetch,
}

-- The bytes that were written and not read yet.
abbrev pub unread : Klog → List ℕ
unread k = fetch (k.klog_buf) (k.klog_rptr) (k.klog_wptr - k.klog_rptr)

-- The pointers are in order and the count of free bytes never promises more room than there is
-- behind the write pointer: it is the room less the bytes read since the last reset.
pub record IsKlog (k : Klog) : Type 0 where
  pub ordered : k.klog_rptr ≤ k.klog_wptr
  pub in_buffer : k.klog_size ≤ length (k.klog_buf)
  pub room :
      pos_part (k.klog_free) + k.klog_wptr + k.klog_rptr ≡ k.klog_size + neg_part (k.klog_free)

pub decrease_lem :
    (z : ℤ) (n : ℕ)
    → pos_part (decrease z n) + neg_part z + n ≡ pos_part z + neg_part (decrease z n)
unfolding decrease
decrease_lem (pos m) n = ground arith
decrease_lem (negsuc m) n = omega arith

-- A write that succeeds stays inside the buffer, appends its bytes to the unread ones, returns
-- their number and keeps the log well formed.
pub klog_write-unread :
    (current_kpid : ℕ) (bytes : List ℕ) (k : Klog) (n : ℕ) (k' : Klog)
    → IsKlog k
    → klog_write current_kpid bytes k ≡ ok (n, k')
    → (n ≡ length bytes)
      × (k.klog_wptr + length bytes ≤ length (k.klog_buf))
      × (unread k' ≡ unread k ++ bytes)
      × IsKlog k'
unfolding klog_write
klog_write-unread current_kpid bytes k n k' inv e =
    let (at_n, at_k, fits) = written in
    (at_n, inside fits, rw (sym at_k) (appended (inside fits)), rw (sym at_k) (well_formed fits))
  where
    inside :
        length bytes + neg_part (k.klog_free) ≤ pos_part (k.klog_free)
        → k.klog_wptr + length bytes ≤ length (k.klog_buf)
    inside fits = omega (arith, fits, inv.room, inv.in_buffer)

    after : Klog
    after = record k {
      klog_buf = store (k.klog_buf) (k.klog_wptr) bytes;
      klog_wptr = k.klog_wptr + length bytes;
      klog_free = decrease (k.klog_free) (length bytes);
    }

    written :
        (n ≡ length bytes)
        × (after ≡ k')
        × (length bytes + neg_part (k.klog_free) ≤ pos_part (k.klog_free))
    written = ground (arith, e)

    appended : k.klog_wptr + length bytes ≤ length (k.klog_buf) → unread after ≡ unread k ++ bytes
    appended inside =
        let new = store (k.klog_buf) (k.klog_wptr) bytes in
        let r = k.klog_rptr in
        fetch-append new r (k.klog_wptr) (k.klog_wptr - r) (length bytes)
          (k.klog_wptr + length bytes - r) (omega (arith, inv.ordered)) (omega (arith, inv.ordered))
        ∙ rw
            (
              fetch-store_before (k.klog_buf) r (k.klog_wptr - r) (k.klog_wptr) bytes
                  (ordered inv.ordered) inside,
              fetch-store (k.klog_buf) (k.klog_wptr) bytes inside,
            )
            refl
      where
        ordered :
            k.klog_rptr ≤ k.klog_wptr → k.klog_rptr + (k.klog_wptr - k.klog_rptr) ≤ k.klog_wptr
        ordered h = omega arith

    well_formed : length bytes + neg_part (k.klog_free) ≤ pos_part (k.klog_free) → IsKlog after
    well_formed fits = record {
      ordered = omega (arith, inv.ordered);
      in_buffer = omega (arith, inv.in_buffer, length-store (k.klog_buf) (k.klog_wptr) bytes);
      room = omega (arith, inv.room, decrease_lem (k.klog_free) (length bytes));
    }

-- What a read that is let in owes its caller. Either it returns `count` bytes off the front of the
-- queue, or it sleeps with all of them, fewer than `count`, and the queue is empty.
abbrev pub IsDelivered : ℕ → Klog → Type 0
IsDelivered count k =
    (got : List ℕ) × (k' : Klog) × IsKlog k'
    × (got ++ unread k' ≡ unread k)
    × (((klog_read count k ≡ finished got k') × (length got ≡ count))
        ⊎ ((klog_read count k ≡ sleeps got (count - length got) k')
            × (length got < count)
            × (unread k' ≡ [])))

read_loop-empty :
    (fuel : ℕ) (got : List ℕ) (count : ℕ) (k : Klog)
    → k.klog_rptr ≡ k.klog_wptr
    → read_loop (suc fuel) got count k ≡ (if count == 0 then finished got k else sleeps got count k)
unfolding read_loop
read_loop-empty fuel got zero k e = refl
read_loop-empty fuel got (suc n) k e = ground arith

unread-empty : (k : Klog) → k.klog_rptr ≡ k.klog_wptr → unread k ≡ []
unfolding fetch
unread-empty k e = rw (none_left) refl
  where
    none_left : k.klog_wptr - k.klog_rptr ≡ 0
    none_left = omega arith

-- On an open log that is well formed, `klog_read` takes bytes off the front of the queue: it
-- returns `count` of them, or it empties the queue and sleeps for the rest. The condition leaves
-- out the non-blocking read of an empty log, which returns EAGAIN.
pub klog_read-IsDelivered :
    (count : ℕ) (k : Klog)
    → IsKlog k
    → k.klog_opened ≡ true
    → ((k.klog_rptr == k.klog_wptr) && nonblocking k) ≡ false
    → IsDelivered count k
unfolding klog_read read_loop klog_reset
klog_read-IsDelivered zero k inv is_open ready =
    ([], k, inv, refl, inl (ground (arith, is_open, ready), refl))
klog_read-IsDelivered (suc n) k inv is_open ready = elim (Bool-cases (k.klog_rptr == k.klog_wptr)) [
  | inl e ↦ nothing e
  | inr some ↦ elim (Bool-cases (ltb count available)) [
    | inl less ↦ front some less (ground arith)
    | inr all ↦ whole some all (ground arith)
  ]
]
  where
    count : ℕ
    count = suc n

    available : ℕ
    available = k.klog_wptr - k.klog_rptr

    nothing : (k.klog_rptr == k.klog_wptr) ≡ true → IsDelivered (suc n) k
    nothing e = (
      [],
      k,
      inv,
      refl,
      inr (ground (arith, is_open, ready, e), omega arith, unread-empty k (ground arith)),
    )

    after : Klog
    after = record k { klog_rptr = k.klog_rptr + suc n; klog_free = decrease (k.klog_free) (suc n) }

    front :
        (k.klog_rptr == k.klog_wptr) ≡ false
        → ltb (suc n) (k.klog_wptr - k.klog_rptr) ≡ true
        → suc n < k.klog_wptr - k.klog_rptr
        → IsDelivered (suc n) k
    front some less lt = (
      fetch (k.klog_buf) (k.klog_rptr) (suc n),
      after,
      record {
        ordered = omega (arith, lt);
        in_buffer = inv.in_buffer;
        room = omega (arith, inv.room, decrease_lem (k.klog_free) (suc n));
      },
      sym (
          fetch-append (k.klog_buf) (k.klog_rptr) (k.klog_rptr + suc n) (suc n)
            (k.klog_wptr - (k.klog_rptr + suc n)) (k.klog_wptr - k.klog_rptr) refl
            (omega (arith, lt))),
      inl (
        ground (arith, is_open, ready, some, less),
        length-fetch (k.klog_buf) (k.klog_rptr) (suc n),
      ),
    )

    reset : Klog
    reset = klog_reset k

    IsKlog-reset : IsKlog reset
    IsKlog-reset = record { ordered = omega arith; in_buffer = inv.in_buffer; room = omega arith }

    no_bytes : unread reset ≡ []
    no_bytes = unread-empty reset refl

    again :
        (got : List ℕ) (left : ℕ)
        → read_loop (suc n) got left reset
          ≡ (if left == 0 then finished got reset else sleeps got left reset)
    again got left = read_loop-empty n got left reset refl

    size : length (unread k) ≡ k.klog_wptr - k.klog_rptr
    size = length-fetch (k.klog_buf) (k.klog_rptr) (k.klog_wptr - k.klog_rptr)

    append-[] : (xs : List ℕ) → xs ++ [] ≡ xs
    append-[] [] = refl
    append-[] (x ∷ xs) = ap (x ∷◌) (append-[] xs)

    whole :
        (k.klog_rptr == k.klog_wptr) ≡ false
        → ltb (suc n) (k.klog_wptr - k.klog_rptr) ≡ false
        → (k.klog_wptr - k.klog_rptr ≤ suc n) × (1 ≤ k.klog_wptr - k.klog_rptr)
        → IsDelivered (suc n) k
    whole some all (le, positive) = (
      unread k,
      reset,
      IsKlog-reset,
      rw no_bytes (append-[] (unread k)),
      elim (Bool-cases (suc n - (k.klog_wptr - k.klog_rptr) == 0)) [
        | inl empty ↦ inl (
          ground (arith, is_open, ready, some, all, again (unread k) (suc n - available), empty),
          ground (arith, size, empty, le),
        )
        | inr more ↦ inr (
          rw size (
              ground
                (arith, is_open, ready, some, all, again (unread k) (suc n - available), more)),
          ground (arith, size, more, le),
          no_bytes,
        )
      ],
    )
