-- ===== src/Fs/Tests/Pipes.antt =====
-- Runs of the pipe code (fs/pipe.c), and its theorems at concrete inputs.
use os_thix.Prelude.{
  ℕ, ◌≡◌, refl, inl, inr, true, false, some, List, [], ◌∷◌, ◌==◌, if◌then◌else◌, arith,
}
use os_thix.Word.{test_bit}
use os_thix.Fs.Pipe.Lost.{read_woken-pipe_close}
use os_thix.Fs.Pipe.{
  read_woken, finished, waits_input, Pipe, Blocks, pipe_write, pipe_read, written, buffer_ok,
}
use os_thix.Fs.Pipe.Ring.{IsPipe, IsUsable, unread, ring}
use os_thix.Fs.Pipe.Send.{Sent, IsAtomic, pipe_write-Sent, pipe_write-IsAtomic}
use os_thix.Fs.Pipe.Receive.{Received, pipe_read-Received}
use os_thix.Fs.Pipe.Open.{Files, sys_pipe, pipe_close}
use os_thix.Fs.Pipe.Create.{IsComplete, sys_pipe-IsComplete}

-- Blocks of 1024 bytes, all there.
abbrev kilobytes : Blocks
kilobytes = record {
  s_blksz = 1024;
  rbmap = λ off. true;
  wbmap = λ off. true;
  buf_read = λ off. true;
}

kilobytes-IsUsable : IsUsable kilobytes
kilobytes-IsUsable = record {
  turns = 8;
  fills = refl;
  rbmap_finds = λ off. refl;
  wbmap_finds = λ off. refl;
  reads = λ off. refl;
}

-- The bytes 7 at the end of the ring and 8 at its start.
abbrev two_bytes : ℕ → Pipe
two_bytes writers = record {
  i_pipesize = 2;
  i_pipercnt = 1;
  i_pipewcnt = writers;
  i_piperoff = 8191;
  i_pipewoff = 1;
  modified = false;
  busy = false;
  in_demand = false;
  contents = λ off. if off == 0 then 8 else 7;
  events = [];
}

two_bytes-IsPipe : (writers : ℕ) → IsPipe (two_bytes writers)
two_bytes-IsPipe writers = record {
  read_inside = omega arith;
  write_inside = omega arith;
  size_inside = omega arith;
  between = inr refl;
}

abbrev written_bytes : Blocks → List ℕ → Pipe → List ℕ
written_bytes b bytes p = elim (pipe_write b bytes p) [ written n p' ↦ unread p' | _ ↦ [] ]

two_more : written_bytes kilobytes (5 ∷ 6 ∷ []) (two_bytes 1) ≡ 7 ∷ 8 ∷ 5 ∷ 6 ∷ []
unfolding pipe_write buffer_ok ring
two_more = refl

pipe_write-Sent_example :
    Sent (two_bytes 1) (5 ∷ 6 ∷ []) (pipe_write kilobytes (5 ∷ 6 ∷ []) (two_bytes 1))
pipe_write-Sent_example =
    pipe_write-Sent kilobytes (5 ∷ 6 ∷ []) (two_bytes 1) kilobytes-IsUsable (two_bytes-IsPipe 1)
      refl (omega arith) (omega arith)

pipe_write-IsAtomic_example :
    IsAtomic (two_bytes 1) (5 ∷ 6 ∷ []) (pipe_write kilobytes (5 ∷ 6 ∷ []) (two_bytes 1))
pipe_write-IsAtomic_example =
    pipe_write-IsAtomic kilobytes (5 ∷ 6 ∷ []) (two_bytes 1) kilobytes-IsUsable (two_bytes-IsPipe 1)
      refl (omega arith) (omega arith) (omega arith)

pipe_read-Received_example : Received 0 3 (two_bytes 1) (pipe_read kilobytes 0 3 (two_bytes 1))
pipe_read-Received_example =
    pipe_read-Received kilobytes 0 3 (two_bytes 1) kilobytes-IsUsable (two_bytes-IsPipe 1) refl

-- The first entry of each table is in use.
abbrev some_files : Files
some_files = record {
  fds = record {
    fdt = λ fd. record { inode = 1; flags = 2; count = if fd == 0 then 1 else 0; offset = 0 };
    ff_fd = 1;
  };
  ufds = record { ufdt = λ ufd. if ufd == 0 then 1 else 0; ff_ufd = 1; exec_words = λ i. 0 };
  pipes = λ i. two_bytes 1;
  i_mode = λ i. 0;
  i_nlinks = λ i. 1;
  nref = λ i. 1;
}

sys_pipe-IsComplete_example : IsComplete (some 9) some_files (sys_pipe true (some 9) some_files)
sys_pipe-IsComplete_example = sys_pipe-IsComplete true (some 9) some_files

abbrev no_bytes : Pipe
no_bytes = record (two_bytes 1) { i_pipesize = 0; i_piperoff = 1 }

no_bytes-IsPipe : IsPipe no_bytes
no_bytes-IsPipe = record {
  read_inside = omega arith;
  write_inside = omega arith;
  size_inside = omega arith;
  between = inl refl;
}

read_woken-pipe_close_example :
    (p1 p2 p3 p4 : Pipe) × (pipe_read kilobytes 0 3 no_bytes ≡ waits_input p1)
    × (pipe_write kilobytes (7 ∷ 8 ∷ []) p1 ≡ written 2 p2)
    × (pipe_close 1 p2 ≡ some p3)
    × (read_woken kilobytes 0 false 3 p3 ≡ finished [] p4)
    × (unread p4 ≡ 7 ∷ 8 ∷ [])
unfolding test_bit
read_woken-pipe_close_example =
    read_woken-pipe_close kilobytes 0 3 1 (7 ∷ 8 ∷ []) no_bytes kilobytes-IsUsable no_bytes-IsPipe
      refl refl (omega arith) refl (omega arith) refl refl (omega arith) (omega arith)
