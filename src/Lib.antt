-- ===== src/Lib.antt =====
-- Thix, a small Unix kernel for the i386 (thix-0.3.7): a model of the parts of it that keep the
-- kernel's tables, and the theorems on them.
--
-- Parts and files. Paths are those of the repository.
--   Prelude: names of the libraries passed on, Boolean tests, lists, tables as functions
--     (`update`), error numbers, results, user pointers, and `Run` for routines that may sleep
--     or panic.
--   Word: 32-bit words, their bits and the `bsf` instruction (thix-0.3.7/include/thix/proc/i386.h).
--   Kernel/Kpid: thix-0.3.7/kernel/kpid.c, the table of kernel process ids.
--   Kernel/Process: thix-0.3.7/kernel/process.c, process, user and group ids.
--   Kernel/Tss: the fields of `tss_t` in thix-0.3.7/include/thix/vm.h.
--   Kernel/Resource: thix-0.3.7/kernel/resource.c, limits and usage.
--   Kernel/Clock: the calendar of thix-0.3.7/kernel/sched.c, `get_CMOS_time` and `sys_stime`.
--   Kernel/Alarm, Kernel/Itimer: the alarm list and the interval timers of
--     thix-0.3.7/kernel/sched.c.
--   Kernel/Timer: the clock interrupt of thix-0.3.7/kernel/sched.c, with `sys_time` and `sys_times`.
--   Kernel/Run, Kernel/Priority: the lists of runnable processes with `scheduler`, and the priority
--     calls, of thix-0.3.7/kernel/sched.c.
--   Kernel/Signal, Kernel/Action: thix-0.3.7/kernel/signal.c, sending signals, and masks and actions.
--   Kernel/Sleep: thix-0.3.7/kernel/sleep.c, the hash table of sleepers, which sends a process that
--     is woken up to the lists of Kernel/Run.
--   Kernel/Interrupt: the test for signals in `sleep`, with `__issig` of
--     thix-0.3.7/kernel/signal.c.
--   Kernel/Semaphore: thix-0.3.7/kernel/semaphore.c, over Kernel/Sleep. The critical region is a
--     step relation on the calls of `down` and `up`; a wait ends only by `up`, since the kernel
--     waits for semaphores at priorities that signals do not interrupt.
--   Fs/Bitmap, Fs/Cluster: thix-0.3.7/fs/cluster.c and the macros of
--     thix-0.3.7/include/thix/cluster.h.
--   Fs/Block: thix-0.3.7/fs/block.c, `b_alloc` and `b_free`, which use Fs/Cluster and Fs/Bitmap.
--   Fs/Descriptor: the descriptor tables and permissions of thix-0.3.7/fs/generic.c.
--   Fs/Pipe: thix-0.3.7/fs/pipe.c. Its children are `pipe_open`, `pipe_close` and `sys_pipe`, which uses
--     Fs/Descriptor; the bytes as a ring; reading and writing.
--   Fs/Links, Fs/Hash: the circular lists and the hash tables that thix-0.3.7/fs/buffer.c and
--     thix-0.3.7/fs/inode.c share the code of.
--   Fs/Buffer: thix-0.3.7/fs/buffer.c over Fs/Links and Fs/Hash. `buf_get_turn` is a turn of the loop of
--     `buf_get`, which ends with a buffer or with what the routine has to wait for.
--   Fs/Inode: thix-0.3.7/fs/inode.c over Fs/Links and Fs/Hash, the inodes in memory, with the lock of one
--     and the state that `i_init` sets up. `i_get_turn` is a turn of the loop of `i_get`. The inodes on the
--     disk are part of the state, by their number of links and mode; whether `buf_read` returns a buffer or
--     sleeps is an argument, and a sleep in `i_read` ends a turn. The mount table is a parameter that gives the
--     device that is mounted on an inode.
--     Fs/Inode/Disk: the number on the disk in `i_alloc`, up to its call of `i_get`, and `i_free`.
--   Driver/Klog: thix-0.3.7/driver/character/klog.c, the kernel log.
--
-- How the code is read. A routine has the name of the C function and returns the new values of
-- the variables it changes. A system call that returns `-EPERM` returns `err eperm`; an area that
-- a process hands over is a `Pointer`, or a flag that says what the check of the area gives. The
-- process list is a list in its order. A call of `sleep` ends a run with `asleep` (Fs/Cluster, Fs/Block, Fs/Inode/Disk;
-- a driver that waits for the disk is taken to return) or
-- with the state to go on from (Driver/Klog, Fs/Pipe,
-- where `read_woken` and `write_woken` go on). Unsigned words are numbers below 2 ^ 32, and
-- ticks, times of day and priorities wrap around as in the code; counts of free blocks, of usage
-- and of seconds used are taken not to overflow. Fields that no modelled routine reads
-- are left out, and so is what goes to the screen or to the hardware, but for the CMOS registers.
--
-- Fuel. `find_unused_pid` takes fuel for its retries, and 65535 rounds are enough if a number is
-- unused. The walks along the alarm list, along a bucket of sleepers and the refilling of the run
-- lists take 64 rounds, one for each process there can be. `klog_read` takes one round more than
-- it wants bytes. `sys_stime` takes 70 rounds for the years of a time below 2 ^ 31. The walk along
-- the list of kernel process ids takes the length of the list. `pipe_read` and `pipe_write` take a
-- round more than they have bytes, since each turn moves one at least, and the search of a bucket a
-- round more than the table has entries.
--
-- Not modelled: virtual memory, the flushing of buffers (Fs/Cluster sees the cache as the
-- buffers that blocks have, over the device, Fs/Pipe as the bytes of the file), the blocks of files, the
-- mount table and directories, process creation and exit, terminals, the disk drivers, and the
-- assembly code. They are I/O and hardware set-up, or they are left for an extension of this library.
pub mod Prelude
pub mod Word
pub mod Driver
pub mod Fs
pub mod Kernel
