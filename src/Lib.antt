-- ===== src/Lib.antt =====
-- A model of the kernel of this repository, xv6 for x86 with ticket counts and a process listing
-- added.
--
-- The parts and their files.
-- - Proc, with the modules below it: proc.c, proc.h, pstat.h and the ticket calls of sysproc.c.
--   Proc/Table holds the data: `Proc` is struct proc, `Kernel` is ptable with initproc and nextpid
--   and the state of the rest of the kernel; a pointer to an entry is its index. Proc/Sleep has
--   wakeup1, sleep, yield and kill; Proc/Info gettickets, fillpstat and sys_settickets; Proc/Alloc
--   allocproc, fork, userinit and growproc; Proc/Life exit and wait; Proc/Schedule the scheduler.
--   Proc/Inv is the invariant of the table, and Proc/Steps runs the parts of these from boot on.
-- - Strings: string.c; Strings/Copies is about its copying functions.
-- - Kalloc: the free list of kalloc.c, with who holds which page in Kalloc/Pages.
-- - Vm: the page tables of vm.c, as words of the pages of a memory. Vm/Space says what each page is
--   for in a well-formed address space; Vm/Walk and Vm/Made are about walkpgdir, Vm/Entries and
--   Vm/Frames about entries that are set and frames that come and go. Vm/Shrink, Drop and Dealloc
--   are about deallocuvm, Vm/MapPage, Grow, Restore, AllocRounds and Alloc about allocuvm; Vm/User
--   has uva2ka and copyout, with Vm/Bytes and Vm/Copyout.
-- - Pipe: pipe.c. Pipe/Window and Pipe/Queue read the ring as a queue, Pipe/Fifo runs it.
-- - Log: log.c. The disk stops after a given number of writes, which is where a crash can be:
--   Log/Copy and Log/Install are the two loops of a commit, Log/Crash and Log/Atomic what the disk
--   holds at each stop, Log/Recovery and Log/Durable recovery from it; Log/Lengths and Space the room
--   in the log that begin_op sets aside.
-- - Bio: the buffer cache of bio.c as the list of its buffers; Bio/Unique has one buffer for a block.
-- - File: the reference counts of file.c, against the pointers that are held in File/Counts.
-- - Fs: the directories and path names of fs.c. Fs/Names is about namecmp, Fs/Entries and
--   Fs/Links about dirlink, Fs/Paths about skipelem; Fs/Inodes has the inode cache and namex,
--   Fs/Refs its references, Fs/Numbers ialloc; Fs/Bitmap has balloc and bfree, with the set of
--   free blocks in Fs/Bitmap/Blocks. In Fs and Fs/Inodes an inode has the entries of its
--   directory in place of size and addrs. Fs/Content has bmap, readi and writei on the addrs:
--   Fs/Content/Words and Bytes are about the data of a block, Blocks says what each block is
--   for, View reads a file as the data of its blocks; Slots, Steps, Given and Bmap are about
--   bmap, Store, Round, Ranges, Write, Logged and Writei about writei, Read and Readi about readi.
-- - Syscall: the fetch of system call arguments in syscall.c.
-- - Spinlock: the locks of spinlock.c, with the nesting of pushcli on one CPU.
-- - Sleeplock: sleeplock.c, with its users as processes in any order in Sleeplock/Exclusion.
-- - Console: cprintf and the input ring of console.c. Console/Line reads the ring as a line under
--   editing and a queue, Console/Loop and Reading are about consoleread, Console/Format
--   compares cprintf with printf.
-- - Printf and Ulib: printf.c, and strcmp, strchr and atoi of ulib.c; Printf/Digits reads numbers back.
-- - Shell: the parser of sh.c. Shell/Scan, Consume and Ends count the bytes that it takes;
--   Shell/Printing writes a command as text, and Words, Levels and Roundtrip read it back.
-- - Grep: the matcher of grep.c, against the texts an expression stands for in Grep/Language.
-- - Base: Boolean tests, C arrays, signed and 32-bit integers. Tests: runs on concrete inputs.
--
-- How the parts meet. The calls that proc.c makes of kalloc.c, vm.c, file.c, fs.c and log.c are the
-- record `Services` of Proc/Services, over a state of theirs that the model does not look into; each
-- may say on which channels it wakes processes. In Log, bread and the driver are a map from block
-- numbers to contents, once for the cache and once for the disk. writei and dirlink take the number
-- of calls of log_write that the log takes before one panics, as Log/Space bounds it; balloc, bmap and
-- ialloc by themselves leave that panic out.
--
-- Concurrency. What the source does under one lock, up to a release or a call of sched, is one
-- function, and interleavings are sequences of these: `Step` of Proc/Steps, Pipe/Fifo and
-- Sleeplock. sleep, wait, pipewrite and piperead are cut where they sleep. fork and exit are there
-- twice: `fork` and `exit` are a run of the caller alone, with only the wakeups of the services in
-- between. In Proc/Steps both are cut at their releases of ptable.lock, and exit also at each call
-- of another file, where it may sleep. The parts of fork in between write the EMBRYO entry, of which
-- other processes write at most `killed`, and call kalloc, copyuvm, filedup and idup, which neither
-- sleep nor touch the table. growproc, which takes no lock of the table either, is one step.
--
-- Bounds. Loops over the table and over the descriptors run for NPROC and NOFILE rounds,
-- given as a number that is counted down. uint counters wrap at 2 ^ 32; nextpid is an int,
-- and where a fresh pid matters it is assumed to be positive. freerange has one round for
-- each address below its end, which is more than there are pages; running out counts as a
-- panic there. The parser of the shell gets fuel for four calls at each byte of the text, and
-- its loops for one round at each byte, which Shell/Ends shows to be enough. namex has as
-- many rounds as its path has bytes and one more, and balloc as many as there are blocks and
-- one more. The digits of a number have as many rounds as its value and one more. allocuvm
-- and deallocuvm have a round for each address below their upper end and one more, copyout,
-- readi and writei one for each byte and one more; Vm/Alloc, Vm/Dealloc, Vm/Copyout,
-- Fs/Content/Readi and Fs/Content/Write show that these suffice.
--
-- Not modelled: the context switch and per-CPU state, device drivers, the boot code, the
-- running of commands by the shell and the other user programs, itrunc on blocks, file system
-- calls, the kernel's own mappings, copyuvm, freevm and the segments, the data in the buffer
-- cache, and the dispatch of system calls.
pub mod Base
pub mod Proc
pub mod Strings
pub mod Pipe
pub mod Bio
pub mod Log
pub mod File
pub mod Kalloc
pub mod Spinlock
pub mod Sleeplock
pub mod Grep
pub mod Printf
pub mod Console
pub mod Ulib
pub mod Shell
pub mod Fs
pub mod Vm
pub mod Syscall
pub mod Tests
