-- ===== src/Lib.antt =====
-- A verification library for the kernel of Project 1/xv6-public (x86 xv6 with the added system calls
-- cps, shm_alloc and describe), and for parts of its user library and programs.
--
-- The parts of the program and the files that model them:
--   Project 1/xv6-public/log.c       Log (Disk: the disk and its buffers; Commit: the functions that
--                                    move blocks; Write: log_write, begin_op, end_op), with proofs in
--                                    Log/Loops, Install, Recovery, Atomic, Transaction and Cycle
--   Project 1/xv6-public/pipe.c      Pipe, with proofs in Pipe/Contents, Refine and Traffic
--   Project 1/xv6-public/spinlock.c  Spinlock, with proofs in Spinlock/Nesting and Exclusion
--   Project 1/xv6-public/proc.c      Proc (Table, Lifecycle, Wait, Schedule), with proofs in
--                                    Proc/Loops, Reap, Birth, Kill, Orphans and Exit
--   Project 1/xv6-public/sleeplock.c Sleeplock
--   Project 1/xv6-public/bio.c       Bcache (binit, bget, brelse), with proofs in Bcache/Lru, Unique
--                                    and Init
--   Project 1/xv6-public/file.c      File (the table and its reference counts), with proofs in File/Refs
--   Project 1/xv6-public/fs.c        Fs: blocks and the bitmap (Fs, proofs in Bitmap), inodes and
--                                    their content (Inode, Words; proofs in Update, Layout, Map,
--                                    Bmap, Transfer, Writes, ReadWrite, WriteFile, Truncate), the
--                                    inode cache (Icache), directories (Dir) and paths (Path, Names)
--   Project 1/xv6-public/console.c   Console (consoleintr, consoleread), with proofs in
--                                    Console/Ring, Editing, Typing, Refine, Text and Reading
--   Project 1/xv6-public/kalloc.c    Kalloc, with proofs in Kalloc/Pages
--   Project 1/xv6-public/string.c    String, with proofs in String/Copy, Compare and Bounded
--   Project 1/xv6-public/grep.c      Grep (the matcher), with its specification in Grep/Pattern and
--                                    the proof in Grep/Matching
--   Project 1/xv6-public/wc.c        Wc, with the specification and the proof in Wc/Counting
--   Project 1/xv6-public/printf.c, ulib.c   Ulib (printint, atoi, strchr), with proofs in
--                                    Ulib/Numbers
--   Project 1/xv6-public/sysproc.c, trap.c  Clock (sys_sleep, sys_uptime, the timer), with proofs
--                                    in Clock/Sleeping
--   Project 1/xv6-public/syscall.c   Syscall (the fetching of arguments), with proofs in Syscall/Args
--
-- How code becomes definitions. A kernel function is a state monad (Prelude/Kernel): a run
-- returns, panics, or sleeps at a named point with the state that it leaves to others; the run
-- that goes on behind a sleep is a definition of its own (write_again, wait_again), or enters the
-- same loop again (consoleread). A spin lock around a table is a flag that acquire and release
-- test as spinlock.c does, and Spinlock shows what the flag stands for when CPUs compete. A
-- pointer into a table is an index. An array is a function of its index. A loop over a range
-- recurs on the rounds that are left: for readi and writei the bytes that are left, for a
-- directory its size over that of an entry, for namex the length of the path, for ^U the length
-- of the line. Loops that wait end in a sleep or at a free lock. Two loops have fuel: strlen,
-- whose theorem says how much is enough, and that of printint, 32 digits, which the theorem on
-- base 10 shows to be enough. The strings of user programs are lists of characters without the
-- NUL. `uint` counters of pipe.c and console.c and the clock's ticks wrap at 2 ^ 32; counters that
-- the kernel bounds (indices, the depth of cli) are plain numbers, and pids and the counts of wc
-- are taken not to overflow an `int`.
--
-- How the parts interact. Log reads and writes blocks as bio.c offers them: a block reads from
-- its pinned buffer if it has one and from the disk if not. The power may fail before any disk
-- write: `power` is the number of writes that still reach the disk. Fs reads and writes blocks as
-- the running transaction sees them, each log_write as one update of a block; Log shows what such
-- a view is worth when the power fails. The panics of log_write, outside of a transaction and with
-- a full log, are modelled in Log only: a call of Fs stands for one within begin_op and end_op that
-- logs no more blocks than begin_op keeps free for it. Proc takes what kalloc and copyuvm return
-- as arguments and records its calls of the other parts in order, without their effects but for
-- the panics of kfree and freevm on a null pointer. Console records what
-- consputc is called with and how often sleepers are woken.
--
-- Not modelled: devices, boot code, page tables, exec, the file system calls, the dispatch of
-- system calls, and user programs but the parts above; the manifest lists each with the reason.
pub mod Bcache
pub mod Clock
pub mod Console
pub mod Grep
pub mod File
pub mod Fs
pub mod Kalloc
pub mod Log
pub mod Pipe
pub mod Prelude
pub mod Proc
pub mod Sleeplock
pub mod Spinlock
pub mod String
pub mod Syscall
pub mod Ulib
pub mod Wc
