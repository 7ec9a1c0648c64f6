-- ===== src/Fs/Descriptor/Flags.antt =====
-- The close-on-exec flags and the block count of fs/generic.c.
use os_thix.Prelude.{
  ℕ, ◌+◌, ◌-◌, ◌/◌, ◌%◌, min, ◌<◌, ◌≤◌, ◌≡◌, ◌⊎◌, inl, inr, Bool, ◌==◌, if◌then◌else◌, arith,
}
use os_thix.Word.Laws.{test_bit-set_bit, test_bit-clear_bit}
use os_thix.Fs.Descriptor.{UfdTable, is_close_on_exec, close_on_exec, io_blocks, count_io_blocks}

-- Setting the close-on-exec flag of a descriptor changes that flag and no other.
pub is_close_on_exec-close_on_exec :
    (t : UfdTable) (ufd other : ℕ) (status : Bool)
    → is_close_on_exec other (close_on_exec ufd status t)
      ≡ (if ufd == other then status else is_close_on_exec other t)
unfolding is_close_on_exec close_on_exec
is_close_on_exec-close_on_exec t ufd other status =
    let w = t.exec_words (ufd / 32) in
    ground (
      arith,
      test_bit-set_bit w (ufd % 32) (other % 32),
      test_bit-clear_bit w (ufd % 32) (other % 32),
    )

-- For the block sizes of TFS (512, 1024, 2048) and a transfer that starts inside the file, `io_blocks` is the
-- number of blocks from the one of the first byte to the one of the last byte.
pub io_blocks_lem :
    (offset count fsize blksz : ℕ)
    → (blksz ≡ 512) ⊎ ((blksz ≡ 1024) ⊎ (blksz ≡ 2048))
    → offset < fsize
    → 1 ≤ count
    → io_blocks offset count fsize blksz
      ≡ (offset + min count (fsize - offset) - 1) / blksz - offset / blksz + 1
unfolding io_blocks count_io_blocks
io_blocks_lem offset count fsize blksz (inl e) inside some = rw e (ground arith)
io_blocks_lem offset count fsize blksz (inr (inl e)) inside some = rw e (ground arith)
io_blocks_lem offset count fsize blksz (inr (inr e)) inside some = rw e (ground arith)
