-- ===== src/Fs/Pipe/Create.antt =====
-- What `sys_pipe` (fs/pipe.c) leaves of the descriptor tables and of the pipe.
use os_thix.Prelude.{
  ℕ, ◌-◌, ◌≡◌, ◌≢◌, refl, sym, subst, Bool, true, false, Option, none, some, [], eq→==, ne→==,
  Option-cases, inl, inr, arith, max,
}
use os_thix.Fs.Descriptor.{
  FdTable, UfdTable, scan, get_fd, release_fd, get_ufd, release_ufd, fd_free, ufd_free, with_count,
  with_ufd, system_open_max, open_max,
}
use os_thix.Fs.Descriptor.Alloc.{scan-some}
use os_thix.Fs.Pipe.Ring.{IsPipe, unread, ring}
use os_thix.Fs.Pipe.Open.{
  Files, PipeEnd, made, refused, sys_pipe, take_fd0, take_fd1, take_ufd0, take_ufd1, fill_pipe,
  o_rdonly, o_wronly, new_pipe,
}

get_fd-with_count :
    (t : FdTable) (fd : ℕ) (t' : FdTable)
    → get_fd t ≡ some (fd, t')
    → (fd_free t fd ≡ true) × (t' ≡ with_count t fd 1 fd)
unfolding get_fd
get_fd-with_count t fd t' e =
    elim (Option-cases (scan (fd_free t) (system_open_max - t.ff_fd) (t.ff_fd))) [
      | inl h ↦ absurd (ground arith)
      | inr (r, h) ↦ (
        ground (arith, scan-some (fd_free t) (system_open_max - t.ff_fd) (t.ff_fd) r h),
        ground arith,
      )
    ]

get_ufd-with_ufd :
    (t : UfdTable) (ufd : ℕ) (t' : UfdTable)
    → get_ufd 0 t ≡ some (ufd, t')
    → (ufd_free t ufd ≡ true) × (t' ≡ with_ufd t ufd 65535 ufd)
unfolding get_ufd
get_ufd-with_ufd t ufd t' e =
    elim (Option-cases (scan (ufd_free t) (open_max - max 0 (t.ff_ufd)) (max 0 (t.ff_ufd)))) [
      | inl h ↦ absurd (ground arith)
      | inr (r, h) ↦ (
        ground (arith, scan-some (ufd_free t) (open_max - max 0 (t.ff_ufd)) (max 0 (t.ff_ufd)) r h),
        ground arith,
      )
    ]

-- No descriptor is free that was in use or in use that was free, and no pipe has changed.
pub record IsAsBefore (s s' : Files) : Type 0 where
  pub fds : (fd : ℕ) → fd_free (s'.fds) fd ≡ fd_free (s.fds) fd
  pub ufds : (ufd : ℕ) → ufd_free (s'.ufds) ufd ≡ ufd_free (s.ufds) ufd
  pub pipes : s'.pipes ≡ s.pipes

-- `ufd` is a descriptor of the process that was free; it names one of the system that was free, is
-- counted once, and has the inode and the access of an end of the pipe.
pub record IsEnd (s s' : Files) (i_no ufd access : ℕ) : Type 0 where
  pub fd : ℕ
  pub names : s'.ufds.ufdt ufd ≡ fd
  pub ufd_was_free : ufd_free (s.ufds) ufd ≡ true
  pub fd_was_free : fd_free (s.fds) fd ≡ true
  pub counted : (s'.fds.fdt fd).count ≡ 1
  pub inode : (s'.fds.fdt fd).inode ≡ i_no
  pub flags : (s'.fds.fdt fd).flags ≡ access

-- What `sys_pipe` owes its caller: two ends of an empty pipe, or everything as before.
abbrev pub IsComplete : Option ℕ → Files → PipeEnd → Type 0
IsComplete allocated s (refused e s') = IsAsBefore s s'
IsComplete allocated s (made ufd0 ufd1 s') =
    (i_no : ℕ) × (allocated ≡ some i_no)
    × (ufd0 ≢ ufd1)
    × IsEnd s s' i_no ufd0 o_rdonly
    × IsEnd s s' i_no ufd1 o_wronly
    × IsPipe (s'.pipes i_no)
    × (unread (s'.pipes i_no) ≡ [])
    × ((s'.pipes i_no).i_pipercnt ≡ 1)
    × ((s'.pipes i_no).i_pipewcnt ≡ 1)
    × ((s'.pipes i_no).busy ≡ false)

fill_pipe-IsComplete :
    (s : Files) (i_no fd0 fd1 ufd0 ufd1 : ℕ)
    → fd_free (s.fds) fd0 ≡ true
    → fd_free (with_count (s.fds) fd0 1 fd0) fd1 ≡ true
    → ufd_free (s.ufds) ufd0 ≡ true
    → ufd_free (with_ufd (s.ufds) ufd0 65535 ufd0) ufd1 ≡ true
    → IsComplete (some i_no) s (
        fill_pipe i_no fd0 fd1 ufd0 ufd1 (record s {
          fds = with_count (with_count (s.fds) fd0 1 fd0) fd1 1 fd1;
          ufds = with_ufd (with_ufd (s.ufds) ufd0 65535 ufd0) ufd1 65535 ufd1;
        }))
unfolding fill_pipe ring
fill_pipe-IsComplete s i_no fd0 fd1 ufd0 ufd1 free0 free1 ufree0 ufree1 = (
  i_no,
  refl,
  ufds_differ,
  record {
    fd = fd0;
    names = rw (ne→== ufd1 ufd0 (λ e. ufds_differ (sym e)), eq→== ufd0 ufd0 refl) refl;
    ufd_was_free = ufree0;
    fd_was_free = free0;
    counted = ground arith;
    inode = ground arith;
    flags = ground arith;
  },
  record {
    fd = fd1;
    names = rw (eq→== ufd1 ufd1 refl) refl;
    ufd_was_free = ground (arith, ufree1, ufds_differ);
    fd_was_free = ground (arith, free1, fds_differ);
    counted = ground arith;
    inode = ground arith;
    flags = ground arith;
  },
  rw (eq→== i_no i_no refl) empty,
  rw (eq→== i_no i_no refl) refl,
  rw (eq→== i_no i_no refl) refl,
  rw (eq→== i_no i_no refl) refl,
  rw (eq→== i_no i_no refl) refl,
)
  where
    ufds_differ : ufd0 ≢ ufd1
    ufds_differ = ground (arith, ufree1)

    fds_differ : fd0 ≢ fd1
    fds_differ = ground (arith, free1)

    empty : IsPipe (new_pipe (s.pipes i_no))
    empty = record {
      read_inside = omega arith;
      write_inside = omega arith;
      size_inside = omega arith;
      between = inl refl;
    }

-- Releasing what has just been taken leaves the free descriptors as they were.
release_fd-free :
    (t : FdTable) (fd first : ℕ)
    → fd_free t fd ≡ true
    → (i : ℕ) → fd_free (release_fd fd (with_count t fd 1 first)) i ≡ fd_free t i
unfolding release_fd
release_fd-free t fd first free i = ground (arith, free)

release_fds-free :
    (t : FdTable) (fd0 fd1 : ℕ)
    → fd_free t fd0 ≡ true
    → fd_free (with_count t fd0 1 fd0) fd1 ≡ true
    → (i : ℕ)
    → fd_free (release_fd fd1 (release_fd fd0 (with_count (with_count t fd0 1 fd0) fd1 1 fd1))) i
      ≡ fd_free t i
unfolding release_fd
release_fds-free t fd0 fd1 free0 free1 i = ground (arith, free0, free1)

release_ufd-free :
    (t : UfdTable) (ufd : ℕ)
    → ufd_free t ufd ≡ true
    → (i : ℕ) → ufd_free (release_ufd ufd (with_ufd t ufd 65535 ufd)) i ≡ ufd_free t i
unfolding release_ufd
release_ufd-free t ufd free i = ground (arith, free)

module _ (s : Files) (i_no fd0 fd1 : ℕ) (free0 : fd_free (s.fds) fd0 ≡ true)
    (free1 : fd_free (with_count (s.fds) fd0 1 fd0) fd1 ≡ true) where
  -- The system's descriptors after both have been taken.
  abbrev both : FdTable
  both = with_count (with_count (s.fds) fd0 1 fd0) fd1 1 fd1

  take_ufd1-IsComplete :
      (ufd0 : ℕ) (u : UfdTable)
      → (ufd_free (s.ufds) ufd0 ≡ true) × (u ≡ with_ufd (s.ufds) ufd0 65535 ufd0)
      → IsComplete (some i_no) s (take_ufd1 i_no fd0 fd1 ufd0 (record s { fds = both; ufds = u }))
  unfolding take_ufd1
  take_ufd1-IsComplete ufd0 u (ufree0, at) = elim (Option-cases (get_ufd 0 u)) [
    | inl h ↦
        rw (h, take_ufd1)
          (record {
            fds = release_fds-free (s.fds) fd0 fd1 free0 free1;
            ufds = λ i. rw at (release_ufd-free (s.ufds) ufd0 ufree0 i);
            pipes = refl;
          })
    | inr ((ufd1, u'), h) ↦ rw (h, take_ufd1) (filled ufd1 u' (get_ufd-with_ufd u ufd1 u' h))
  ]
    where
      filled :
          (ufd1 : ℕ) (u' : UfdTable)
          → (ufd_free u ufd1 ≡ true) × (u' ≡ with_ufd u ufd1 65535 ufd1)
          → IsComplete
              (some i_no)
              s
              (fill_pipe i_no fd0 fd1 ufd0 ufd1 (record s { fds = both; ufds = u' }))
      filled ufd1 u' (ufree1, at') =
          rw (at', at)
            (fill_pipe-IsComplete s i_no fd0 fd1 ufd0 ufd1 free0 free1 ufree0
              (subst (λ t. ufd_free t ufd1 ≡ true) at ufree1))

  take_ufd0-IsComplete : IsComplete (some i_no) s (take_ufd0 i_no fd0 fd1 (record s { fds = both }))
  unfolding take_ufd0
  take_ufd0-IsComplete = elim (Option-cases (get_ufd 0 (s.ufds))) [
    | inl h ↦
        rw (h, take_ufd0)
          (record {
            fds = release_fds-free (s.fds) fd0 fd1 free0 free1;
            ufds = λ i. refl;
            pipes = refl;
          })
    | inr ((ufd0, u), h) ↦
        rw (h, take_ufd0) (take_ufd1-IsComplete ufd0 u (get_ufd-with_ufd (s.ufds) ufd0 u h))
  ]

take_fd1-IsComplete :
    (s : Files) (i_no fd0 : ℕ)
    → fd_free (s.fds) fd0 ≡ true
    → IsComplete (some i_no) s (take_fd1 i_no fd0 (record s { fds = with_count (s.fds) fd0 1 fd0 }))
unfolding take_fd1
take_fd1-IsComplete s i_no fd0 free0 = elim (Option-cases (get_fd (with_count (s.fds) fd0 1 fd0))) [
  | inl h ↦
      rw (h, take_fd1)
        (record { fds = release_fd-free (s.fds) fd0 fd0 free0; ufds = λ i. refl; pipes = refl })
  | inr ((fd1, t), h) ↦
      rw (h, take_fd1) (second fd1 t (get_fd-with_count (with_count (s.fds) fd0 1 fd0) fd1 t h))
]
  where
    second :
        (fd1 : ℕ) (t : FdTable)
        → (fd_free (with_count (s.fds) fd0 1 fd0) fd1 ≡ true)
          × (t ≡ with_count (with_count (s.fds) fd0 1 fd0) fd1 1 fd1)
        → IsComplete (some i_no) s (take_ufd0 i_no fd0 fd1 (record s { fds = t }))
    second fd1 t (free1, at) = rw at (take_ufd0-IsComplete s i_no fd0 fd1 free0 free1)

-- `sys_pipe` is all or nothing on the descriptors. If it succeeds, `i_alloc` has returned an inode, and
-- the two results are different descriptors of the process that were free; they name free
-- descriptors of the system, each now counted once, the read end and the write end of that inode,
-- which is unlocked and an empty, well-formed pipe with a reader and a writer. If it fails, the free descriptors of
-- the process and of the system are what they were, and no pipe has changed.
pub sys_pipe-IsComplete :
    (writable : Bool) (allocated : Option ℕ) (s : Files)
    → IsComplete allocated s (sys_pipe writable allocated s)
unfolding sys_pipe
sys_pipe-IsComplete false allocated s = record { fds = λ i. refl; ufds = λ i. refl; pipes = refl }
sys_pipe-IsComplete true none s = record { fds = λ i. refl; ufds = λ i. refl; pipes = refl }
sys_pipe-IsComplete true (some i_no) s = elim (Option-cases (get_fd (s.fds))) [
  | inl h ↦ rw (h, take_fd0) (record { fds = λ i. refl; ufds = λ i. refl; pipes = refl })
  | inr ((fd0, t), h) ↦ rw (h, take_fd0) (first fd0 t (get_fd-with_count (s.fds) fd0 t h))
]
  where
    first :
        (fd0 : ℕ) (t : FdTable)
        → (fd_free (s.fds) fd0 ≡ true) × (t ≡ with_count (s.fds) fd0 1 fd0)
        → IsComplete (some i_no) s (take_fd1 i_no fd0 (record s { fds = t }))
    first fd0 t (free0, at) = rw at (take_fd1-IsComplete s i_no fd0 free0)
