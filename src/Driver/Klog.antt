-- ===== src/Driver/Klog.antt =====
-- driver/character/klog.c: the kernel's message log, written by the kernel and read by one process.
pub mod Bytes
pub mod Fifo
use os_thix.Prelude.{
  ℕ, zero, suc, ◌+◌, ◌-◌, Bool, true, false, ◌&&◌, List, [], ◌∷◌, ◌++◌, length, set, get_or, ◌==◌,
  ltb, if◌then◌else◌, ℤ, pos, negsuc, pos_part, ltb_ℤ, Result, ok, err, Errno, eperm, eio, einval,
  espipe, eagain,
}
use os_thix.Word.{test_bit}

-- The static variables of the driver. The read and write pointers are offsets into the buffer.
pub record Klog : Type 0 where
  pub klog_size : ℕ
  pub klog_kpid : ℕ
  pub klog_opened : Bool
  pub klog_flags : ℕ
  pub klog_buf : List ℕ
  pub klog_rptr : ℕ
  pub klog_wptr : ℕ
  pub klog_free : ℤ

-- `memcpy` out of the buffer: `n` bytes from `i` on.
unfoldable pub fetch : List ℕ → ℕ → ℕ → List ℕ
fetch buf i zero = []
fetch buf i (suc n) = get_or buf i 0 ∷ fetch buf (suc i) n

-- `memcpy` into the buffer, from `i` on.
unfoldable pub store : List ℕ → ℕ → List ℕ → List ℕ
store buf i [] = buf
store buf i (b ∷ bs) = store (set buf i b) (suc i) bs

-- `z -= n`
unfoldable pub decrease : ℤ → ℕ → ℤ
decrease (pos m) n = if ltb m n then negsuc (n - m - 1) else pos (m - n)
decrease (negsuc m) n = negsuc (m + n)

unfoldable pub klog_reset : Klog → Klog
klog_reset k = record k { klog_free = pos (k.klog_size); klog_rptr = 0; klog_wptr = 0 }

unfoldable pub klog_open : ℕ → Klog → Result Klog
klog_open current_kpid k =
    if k.klog_opened
    then err eperm
    else ok (record k { klog_kpid = current_kpid; klog_opened = true })

unfoldable pub klog_close : Klog → Klog
klog_close k = record k { klog_opened = false }

-- How a read ends. `sleeps`: the process waits for input, with the bytes that it has so far and
-- the number that it still wants; when it is woken up, `read_loop` goes on from there, and a signal ends the read with EINTR.
pub data ReadEnd : Type 0 where
  finished : List ℕ → Klog → ReadEnd
  sleeps : List ℕ → ℕ → Klog → ReadEnd
  refused : Errno → Klog → ReadEnd
  out_of_fuel : ReadEnd

-- The loop of `klog_read`, with the bytes copied so far.
unfoldable pub read_loop : ℕ → List ℕ → ℕ → Klog → ReadEnd
unfolding klog_reset fetch decrease
read_loop zero got count k = out_of_fuel
read_loop (suc fuel) got zero k = finished got k
read_loop (suc fuel) got (suc n) k =
    let count = suc n in
    let available = k.klog_wptr - k.klog_rptr in
    let rest =
      read_loop fuel (got ++ fetch (k.klog_buf) (k.klog_rptr) available) (count - available)
        (klog_reset k) in
    if k.klog_rptr == k.klog_wptr
    then sleeps got count k
    else if ltb count available
    then finished (got ++ fetch (k.klog_buf) (k.klog_rptr) count)
        (record k { klog_rptr = k.klog_rptr + count; klog_free = decrease (k.klog_free) count })
    else rest

-- `klog_flags & O_NONBLOCK`
abbrev pub nonblocking : Klog → Bool
nonblocking k = test_bit (k.klog_flags) 7

-- `klog_read`; each turn of the loop but the last takes a byte, so `count` turns and one more do.
unfoldable pub klog_read : ℕ → Klog → ReadEnd
unfolding read_loop klog_reset
klog_read count k =
    if k.klog_opened
    then if (k.klog_rptr == k.klog_wptr) && nonblocking k
      then refused eagain (klog_reset k)
      else read_loop (suc count) [] count k
    else refused eio k

-- `klog_write`: the result is the number of bytes and the driver's state; `wakeup(&klog_rptr)`
-- changes nothing here.
unfoldable pub klog_write : ℕ → List ℕ → Klog → Result (ℕ × Klog)
unfolding store decrease
klog_write current_kpid bytes k =
    if k.klog_opened
    then if current_kpid == k.klog_kpid
      then err eio
      else if ltb_ℤ (k.klog_free) (pos (length bytes))
      then err eperm
      else ok (
        length bytes,
        record k {
          klog_buf = store (k.klog_buf) (k.klog_wptr) bytes;
          klog_wptr = k.klog_wptr + length bytes;
          klog_free = decrease (k.klog_free) (length bytes);
        },
      )
    else err eio

unfoldable pub klog_fcntl : ℕ → Klog → Result Klog
klog_fcntl flags k = if k.klog_opened then ok (record k { klog_flags = flags }) else err eio

-- `klog_lseek`; the driver has one minor device.
unfoldable pub klog_lseek : ℕ → Result ℕ
klog_lseek minor = if ltb minor 1 then err einval else err espipe
