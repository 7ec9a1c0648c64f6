-- ===== src/Fs/Pipe.antt =====
-- fs/pipe.c: pipes, with the locking of the inode (fs/inode.c) that they use.
pub mod Ring
pub mod Write
pub mod Send
pub mod Read
pub mod Receive
pub mod Lost
pub mod Open
pub mod Create
use os_thix.Prelude.{
  ℕ, zero, suc, ◌+◌, ◌-◌, ◌%◌, min, Bool, true, false, ◌&&◌, ◌||◌, not, List, [], ◌∷◌, ◌++◌, length,
  take, drop, ◌==◌, ltb, leb, if◌then◌else◌, update,
}
use os_thix.Word.{test_bit}

abbrev pub pipe_buf : ℕ
pipe_buf = 8192

-- The addresses that processes sleep on: those of the pipe's fields and of its inode.
pub data Channel : Type 0 where
  on_roff on_woff on_readers on_writers on_inode : Channel

-- What a routine asks of the modules for sleeping and signals.
pub data Event : Type 0 where
  wakeup : Channel → Event
  wakeup_and_kill : Channel → Event
  kill_current : Event

-- The fields of the pipe's inode, the bytes of its file, and the events so far, the last one first.
pub record Pipe : Type 0 where
  pub i_pipesize : ℕ
  pub i_pipercnt : ℕ
  pub i_pipewcnt : ℕ
  pub i_piperoff : ℕ
  pub i_pipewoff : ℕ
  pub modified : Bool
  pub busy : Bool
  pub in_demand : Bool
  pub contents : ℕ → ℕ
  pub events : List Event

-- What the pipe asks of the file system: the size of a block, and at which offsets of the file
-- `rbmap` and `wbmap` find a buffer and `_buf_read` can fill it.
pub record Blocks : Type 0 where
  pub s_blksz : ℕ
  pub rbmap : ℕ → Bool
  pub wbmap : ℕ → Bool
  pub buf_read : ℕ → Bool

unfoldable pub tell : Event → Pipe → Pipe
tell e p = record p { events = e ∷ p.events }

-- `i_unlock`, which clears `in_demand` where it is set.
unfoldable pub i_unlock : Pipe → Pipe
i_unlock p = record p {
  busy = false;
  in_demand = false;
  events = if p.in_demand then wakeup on_inode ∷ p.events else p.events;
}

-- The two ways through `i_lock`: past its loop, and into the sleep.
unfoldable pub i_lock : Pipe → Pipe
i_lock p = record p { busy = true }

unfoldable pub await_lock : Pipe → Pipe
await_lock p = record p { in_demand = true }

-- `memcpy` from and to the file: bytes from offset `i` on.
unfoldable pub copy_from : (ℕ → ℕ) → ℕ → ℕ → List ℕ
copy_from t i zero = []
copy_from t i (suc n) = t i ∷ copy_from t (suc i) n

unfoldable pub copy_to : (ℕ → ℕ) → ℕ → List ℕ → ℕ → ℕ
copy_to t i [] = t
copy_to t i (x ∷ xs) = copy_to (update t i x) (suc i) xs

-- `if (off >= PIPE_BUF) off = 0`
abbrev pub wrap : ℕ → ℕ
wrap off = if leb pipe_buf off then 0 else off

-- `blksz - off % blksz`, the bytes from an offset to the end of its block.
abbrev pub to_block_end : Blocks → ℕ → ℕ
to_block_end b off = b.s_blksz - off % b.s_blksz

-- How `pipe_read` ends. `waits_input`: it sleeps on an empty pipe, with nothing read.
-- `waits_lock`: it sleeps in `i_lock`. `interrupted`: EINTR.
pub data ReadEnd : Type 0 where
  finished : List ℕ → Pipe → ReadEnd
  waits_input : Pipe → ReadEnd
  waits_lock : Pipe → ReadEnd
  interrupted : Pipe → ReadEnd
  panicked : ReadEnd
  out_of_fuel : ReadEnd

-- `pipe_read_exit`
unfoldable pub read_exit : List ℕ → Pipe → ReadEnd
unfolding i_unlock tell
read_exit got p = finished got (tell (wakeup on_woff) (i_unlock p))

-- The body of the loop that waits for input, to its sleep.
unfoldable pub read_wait : Pipe → ReadEnd
unfolding read_exit i_unlock tell
read_wait p =
    if p.i_pipewcnt == 0 then read_exit [] p else waits_input (tell (wakeup on_woff) (i_unlock p))

-- The part of the loop of `pipe_read` that copies bytes; `next` is the next turn.
unfoldable pub copy_out : Blocks → (List ℕ → ℕ → Pipe → ReadEnd) → List ℕ → ℕ → Pipe → ReadEnd
unfolding read_exit copy_from
copy_out b next got count p =
    let roff = wrap (p.i_piperoff) in
    let bcount = min count (min (to_block_end b roff) (p.i_pipesize)) in
    if bcount == 0
    then read_exit got (record p { i_piperoff = roff })
    else if b.rbmap roff
    then next (got ++ copy_from (p.contents) roff bcount) (count - bcount)
        (record p { i_piperoff = roff + bcount; i_pipesize = p.i_pipesize - bcount })
    else panicked

-- `O_NONBLOCK`
abbrev pub nonblocking : ℕ → Bool
nonblocking flags = test_bit flags 7

-- The loop of `pipe_read`, with the bytes read so far.
unfoldable pub read_loop : Blocks → ℕ → ℕ → List ℕ → ℕ → Pipe → ReadEnd
unfolding read_exit read_wait copy_out
read_loop b flags zero got count p = out_of_fuel
read_loop b flags (suc fuel) got count p =
    let copied = copy_out b (read_loop b flags fuel) got count p in
    if count == 0
    then read_exit got p
    else if p.i_pipesize == 0
    then if not (length got == 0) || nonblocking flags then read_exit got p else read_wait p
    else copied

-- Each turn but the last reads a byte at least.
unfoldable pub pipe_read : Blocks → ℕ → ℕ → Pipe → ReadEnd
unfolding read_loop i_lock await_lock
pipe_read b flags count p =
    if p.busy then waits_lock (await_lock p) else read_loop b flags (suc count) [] count (i_lock p)

-- `pipe_read` from the sleep of `waits_input` on, where `signalled` is the result of `sleep`.
unfoldable pub read_woken : Blocks → ℕ → Bool → ℕ → Pipe → ReadEnd
unfolding read_loop read_wait copy_out read_exit i_lock await_lock
read_woken b flags signalled count p =
    if signalled
    then interrupted p
    else if p.busy
    then waits_lock (await_lock p)
    else if p.i_pipesize == 0
    then read_wait (i_lock p)
    else if p.i_pipewcnt == 0
    then read_exit [] (i_lock p)
    else copy_out b (read_loop b flags count) [] count (i_lock p)

-- How `pipe_write` ends. `waits_room`: it sleeps in the first loop, where the bytes do not fit at
-- once. `waits_space`: it sleeps on a full pipe, with a number of bytes written and the rest.
pub data WriteEnd : Type 0 where
  written : ℕ → Pipe → WriteEnd
  no_space : Pipe → WriteEnd
  broken : Pipe → WriteEnd
  cut_short : Pipe → WriteEnd
  waits_room : List ℕ → Pipe → WriteEnd
  waits_space : ℕ → List ℕ → Pipe → WriteEnd
  waits_lock : Pipe → WriteEnd
  out_of_fuel : WriteEnd

-- The end of `pipe_write`: the number of bytes, or ENOSPC for none.
unfoldable pub write_exit : ℕ → Pipe → WriteEnd
unfolding i_unlock tell
write_exit wcount p =
    if wcount == 0
    then no_space (tell (wakeup on_roff) (i_unlock p))
    else written wcount (tell (wakeup on_roff) (i_unlock (record p { modified = true })))

-- `pipe_check_readers` where there is no reader: SIGPIPE and EPIPE.
unfoldable pub broken_pipe : Pipe → WriteEnd
unfolding i_unlock tell
broken_pipe p = broken (i_unlock (tell kill_current p))

-- The body of the loop that waits while the pipe is full, to its sleep.
unfoldable pub write_wait : ℕ → List ℕ → Pipe → WriteEnd
unfolding broken_pipe i_unlock tell
write_wait wcount bytes p =
    if p.i_pipercnt == 0
    then broken_pipe p
    else waits_space wcount bytes (tell (wakeup on_roff) (i_unlock p))

-- The test that guards the use of the buffer; `woff & ~(blksz - 1)` is the start of the block.
unfoldable pub buffer_ok : Blocks → ℕ → ℕ → ℕ → Bool
buffer_ok b bcount woff roff =
    if ltb bcount (b.s_blksz) && ltb (woff - woff % b.s_blksz) roff then b.buf_read woff else true

-- The part of the loop of `pipe_write` that copies bytes; `next` is the next turn.
unfoldable pub copy_in : Blocks → (ℕ → List ℕ → Pipe → WriteEnd) → ℕ → List ℕ → Pipe → WriteEnd
unfolding write_exit copy_to
copy_in b next wcount bytes p =
    let woff = wrap (p.i_pipewoff) in
    let bcount = min (length bytes) (min (to_block_end b woff) (pipe_buf - p.i_pipesize)) in
    if b.wbmap woff
    then next (wcount + bcount) (drop bcount bytes) (record p {
      i_pipewoff = woff + bcount;
      i_pipesize = p.i_pipesize + bcount;
      contents =
          if buffer_ok b bcount woff (p.i_piperoff)
          then copy_to (p.contents) woff (take bcount bytes)
          else p.contents;
    })
    else write_exit wcount (record p { i_pipewoff = woff })

-- The second loop of `pipe_write`, with the number of bytes written so far.
unfoldable pub write_loop : Blocks → ℕ → ℕ → List ℕ → Pipe → WriteEnd
unfolding write_exit write_wait broken_pipe copy_in
write_loop b zero wcount bytes p = out_of_fuel
write_loop b (suc fuel) wcount bytes p =
    let copied = copy_in b (write_loop b fuel) wcount bytes p in
    if length bytes == 0
    then write_exit wcount p
    else if p.i_pipesize == pipe_buf
    then write_wait wcount bytes p
    else if p.i_pipercnt == 0
    then broken_pipe p
    else copied

-- The loops of `pipe_write` on a locked pipe: as many bytes as the pipe holds go in at once.
unfoldable pub write_locked : Blocks → List ℕ → Pipe → WriteEnd
unfolding write_loop broken_pipe i_unlock
write_locked b bytes p =
    if leb (length bytes) pipe_buf && ltb (pipe_buf - p.i_pipesize) (length bytes)
    then if p.i_pipercnt == 0 then broken_pipe p else waits_room bytes (i_unlock p)
    else write_loop b (suc (length bytes)) 0 bytes p

unfoldable pub pipe_write : Blocks → List ℕ → Pipe → WriteEnd
unfolding write_locked i_lock await_lock
pipe_write b bytes p = if p.busy then waits_lock (await_lock p) else write_locked b bytes (i_lock p)

-- A sleep of `pipe_write` that a signal ends: EPIPE for SIGPIPE, EINTR for any other.
unfoldable pub write_interrupted : Bool → Pipe → WriteEnd
write_interrupted sigpipe p = if sigpipe then broken p else cut_short p

-- `pipe_write` from the sleep of `waits_space` on, if no signal ends it.
unfoldable pub write_woken : Blocks → ℕ → List ℕ → Pipe → WriteEnd
unfolding write_loop i_lock await_lock
write_woken b wcount bytes p =
    if p.busy
    then waits_lock (await_lock p)
    else write_loop b (suc (length bytes)) wcount bytes (i_lock p)
