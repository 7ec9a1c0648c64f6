-- ===== src/Fs/Pipe/Open.antt =====
-- fs/pipe.c: opening and closing a pipe, and the call that makes one.
use os_thix.Prelude.{
  ℕ, ◌+◌, ◌%◌, Bool, Option, none, some, ◌==◌, if◌then◌else◌, update, Errno, efault, enospc, enfile,
  emfile, eperm,
}
use os_thix.Fs.Descriptor.{FdTable, UfdTable, get_fd, release_fd, get_ufd, release_ufd}
use os_thix.Fs.Pipe.{
  Pipe, Channel, on_roff, on_woff, on_readers, on_writers, wakeup, wakeup_and_kill, tell, i_unlock,
  nonblocking,
}

-- The counts are unsigned shorts.
abbrev pub one_more : ℕ → ℕ
one_more n = (n + 1) % 65536

abbrev pub one_less : ℕ → ℕ
one_less n = (n + 65535) % 65536

-- `flags & 3`
abbrev pub o_rdonly : ℕ
o_rdonly = 0

abbrev pub o_wronly : ℕ
o_wronly = 1

-- How `pipe_open` ends. `waits_other`: it sleeps until the other end is opened; EINTR if a signal
-- ends the sleep.
pub data OpenEnd : Type 0 where
  opened : Pipe → OpenEnd
  waits_other : Channel → Pipe → OpenEnd
  refused_open : Errno → Pipe → OpenEnd

-- The loop of a reader that waits for a writer and of a writer that waits for a reader.
unfoldable pub wait_writer : ℕ → Pipe → OpenEnd
wait_writer flags p =
    if nonblocking flags
    then opened p
    else if p.i_pipewcnt == 0
    then waits_other on_writers p
    else opened p

unfoldable pub wait_reader : ℕ → Pipe → OpenEnd
wait_reader flags p =
    if nonblocking flags
    then opened p
    else if p.i_pipercnt == 0
    then waits_other on_readers p
    else opened p

unfoldable pub pipe_open : ℕ → Pipe → OpenEnd
unfolding wait_writer wait_reader i_unlock tell
pipe_open flags p =
    let q = i_unlock p in
    if flags % 4 == o_rdonly
    then wait_writer flags
        (tell (wakeup on_readers) (record q { i_pipercnt = one_more (q.i_pipercnt) }))
    else if flags % 4 == o_wronly
    then wait_reader flags
        (tell (wakeup on_writers) (record q { i_pipewcnt = one_more (q.i_pipewcnt) }))
    else refused_open eperm q

-- `pipe_close`; `none` stands for the panic on other flags.
unfoldable pub pipe_close : ℕ → Pipe → Option Pipe
unfolding tell
pipe_close flags p =
    let left_readers = record p { i_pipercnt = one_less (p.i_pipercnt) } in
    let left_writers = record p { i_pipewcnt = one_less (p.i_pipewcnt) } in
    if flags % 4 == o_rdonly
    then some (
        if left_readers.i_pipercnt == 0
        then tell (wakeup_and_kill on_woff) left_readers
        else left_readers)
    else if flags % 4 == o_wronly
    then some
        (if left_writers.i_pipewcnt == 0 then tell (wakeup on_roff) left_writers else left_writers)
    else none

-- What `sys_pipe` works on: the descriptors, and of each in-core inode the pipe, `i_mode`,
-- `i_nlinks` and `nref`.
pub record Files : Type 0 where
  pub fds : FdTable
  pub ufds : UfdTable
  pub pipes : ℕ → Pipe
  pub i_mode : ℕ → ℕ
  pub i_nlinks : ℕ → ℕ
  pub nref : ℕ → ℕ

abbrev pub s_ififo : ℕ
s_ififo = 4096

-- `fdt[fd].flags = flags; fdt[fd].inode = i_no`
unfoldable pub bind_fd : ℕ → ℕ → ℕ → FdTable → FdTable
bind_fd fd flags i_no t = record t {
  fdt = update (t.fdt) fd (record (t.fdt fd) { flags = flags; inode = i_no });
}

-- `this->ufdt[ufd] = fd`
unfoldable pub bind_ufd : ℕ → ℕ → UfdTable → UfdTable
bind_ufd ufd fd t = record t { ufdt = update (t.ufdt) ufd fd }

unfoldable pub new_pipe : Pipe → Pipe
unfolding i_unlock
new_pipe p =
    i_unlock
      (record p { i_pipesize = 0; i_piperoff = 0; i_pipewoff = 0; i_pipercnt = 1; i_pipewcnt = 1 })

-- How `sys_pipe` ends: with the two descriptors, or with an error.
pub data PipeEnd : Type 0 where
  made : ℕ → ℕ → Files → PipeEnd
  refused : Errno → Files → PipeEnd

-- The end of `sys_pipe`, where all resources are there.
unfoldable pub fill_pipe : ℕ → ℕ → ℕ → ℕ → ℕ → Files → PipeEnd
unfolding bind_fd bind_ufd new_pipe
fill_pipe i_no fd0 fd1 ufd0 ufd1 s = made ufd0 ufd1 (record s {
  fds = bind_fd fd1 o_wronly i_no (bind_fd fd0 o_rdonly i_no (s.fds));
  ufds = bind_ufd ufd1 fd1 (bind_ufd ufd0 fd0 (s.ufds));
  pipes = update (s.pipes) i_no (new_pipe (s.pipes i_no));
  i_mode = update (s.i_mode) i_no s_ififo;
  i_nlinks = update (s.i_nlinks) i_no 0;
  nref = update (s.nref) i_no 2;
})

-- The four steps that take a descriptor, the last one first; each releases what is taken where it
-- fails.
unfoldable pub take_ufd1 : ℕ → ℕ → ℕ → ℕ → Files → PipeEnd
unfolding fill_pipe
take_ufd1 i_no fd0 fd1 ufd0 s = elim (get_ufd 0 (s.ufds)) [
  | none ↦
      refused emfile (record s {
        fds = release_fd fd1 (release_fd fd0 (s.fds));
        ufds = release_ufd ufd0 (s.ufds);
      })
  | some (ufd1, u) ↦ fill_pipe i_no fd0 fd1 ufd0 ufd1 (record s { ufds = u })
]

unfoldable pub take_ufd0 : ℕ → ℕ → ℕ → Files → PipeEnd
unfolding take_ufd1
take_ufd0 i_no fd0 fd1 s = elim (get_ufd 0 (s.ufds)) [
  | none ↦ refused emfile (record s { fds = release_fd fd1 (release_fd fd0 (s.fds)) })
  | some (ufd0, u) ↦ take_ufd1 i_no fd0 fd1 ufd0 (record s { ufds = u })
]

unfoldable pub take_fd1 : ℕ → ℕ → Files → PipeEnd
unfolding take_ufd0
take_fd1 i_no fd0 s = elim (get_fd (s.fds)) [
  | none ↦ refused enfile (record s { fds = release_fd fd0 (s.fds) })
  | some (fd1, t) ↦ take_ufd0 i_no fd0 fd1 (record s { fds = t })
]

unfoldable pub take_fd0 : ℕ → Files → PipeEnd
unfolding take_fd1
take_fd0 i_no s = elim (get_fd (s.fds)) [
  | none ↦ refused enfile s
  | some (fd0, t) ↦ take_fd1 i_no fd0 (record s { fds = t })
]

-- `sys_pipe`: whether `ok_to_write_area` lets the caller's area pass, and the inode that `i_alloc`
-- returns, locked, with `none` for 0.
unfoldable pub sys_pipe : Bool → Option ℕ → Files → PipeEnd
unfolding take_fd0
sys_pipe writable allocated s =
    if writable
    then elim allocated [ none ↦ refused enospc s | some i_no ↦ take_fd0 i_no s ]
    else refused efault s
