-- ===== src/Lib.antt =====
-- A model of the kernel of this xv6-riscv repository, with proofs: the multilevel feedback queue
-- scheduler, the process table, the page tables and the allocator of pages, eviction, the write-ahead
-- log, the buffer cache, the file system, open files and the system calls on them, pipes, locks, the
-- console, the disk driver, the formatters, a pattern matcher, the shell's parser, and the string
-- functions of the kernel and of the user library.
--
-- A function of the C code is a function of the model under the same name; one that changes shared
-- state takes the state and returns the new one. A loop is a recursion on the rounds that are
-- left. A function that calls `sched` or `swtch` is modelled up to that call. Each function is
-- run under the lock that the code holds while it runs, so it is one step, but for `sleep` and
-- `wakeup` in Proc/Sleep/Handover; locks are modelled on their own, in Locks. `panic` is `none`.
--
-- Proc         kernel/proc.h, and the globals of kernel/proc.c
--   Queue      qinit, push_proc, pop_proc; Queue/Fifo against bounded queues as lists
--   Tick       event_tick; Tick/Slice on slices, demotion and preemption
--   Schedule   a round of SC_MLFQ; Schedule/Boost on the boost, Schedule/Choice on the choice
--   Sleep      sleep, wakeup, kkill, setkilled, killed, yield; Sleep/Wake, Sleep/Kill;
--              Sleep/Handover  the steps of sleep and wakeup with their locks, in any order
--   Alloc      procinit, allocpid, allocproc, freeproc; Alloc/Pids on process ids
--   Exit       reparent, kexit; Exit/Orphans
--   Wait       a round of kwait; Wait/Reap
--   Query      kgetppid, kgetnumchild, kgetchildsyscount, kgetmlfqinfo, kgetvmstats; Query/Counts
-- Vm           the frame table of kernel/vm.c
--   Machine    the memory of 64-bit words, and functions that may panic
--   Table      walk, walkaddr, mappages and the entries of kernel/riscv.h; Shape on the forest of
--              tables, Walk on lookups, Extend and Grow on new tables, Store and Map on mappages
--   Frames     kernel/kalloc.c and evict_page; Freelist on the free list
--   Space      uvmunmap, uvmalloc, uvmcopy, freewalk, vmfault; Copy  copyin, copyout, copyinstr
--   Process    kvmmake, and the page tables of processes in kernel/proc.c
--   Swap       sinit, alloc_swap_index, free_swap_index, get_swap_addr; Swap/Slots
--   Clock      the victim search of evict_page; Clock/Pass on one pass, Clock/Victim on the result
-- Log          kernel/log.c, with bwrite, bpin and bunpin of kernel/bio.c as the log sees them
--   Copy       write_log; Install  install_trans; Recover  the header block and recovery
--   Crash      a machine that stops in commit; Absorb  log_write; Reserve  begin_op
-- Locks        kernel/spinlock.c and kernel/sleeplock.c; Nesting  push_off and pop_off
-- Cache        kernel/bio.c; Ring  the list as a list of buffers; Search  the loops of bget
--   Lookup     bget; Release  brelse and binit
-- Pipe         kernel/pipe.c but pipealloc; Fifo  the ring as a queue; Write  pipewrite; Read  piperead
-- Fs           the constants of kernel/fs.h, inodes, and functions that may panic
--   Blocks     bzero, balloc, bfree of kernel/fs.c; Blocks/Bitmap on balloc
--   Inodes     ialloc, iupdate, iget, idup, ilock, iput, ireclaim, bmap, itrunc; Table on iget
--   Content    stati, readi, writei; Content/Rounds on their loops
--   Directory  namecmp, dirlookup, dirlink; Path  skipelem, namex; Path/Elements on skipelem,
--              Path/Rounds on the loop of namex
-- Files        kernel/file.c, and the process that calls
--   Transfer   fileread, filewrite, and pipealloc of kernel/pipe.c
--   Descriptors argfd, fdalloc, dup, read, write, close, fstat and pipe of kernel/sysfile.c
--   Names      link, unlink, mkdir, mknod and chdir; Open  open
--   References the counts of references under sys_dup; Close  the same under sys_close
-- Console      kernel/console.c; Edits  an editor on two lists, Line  consoleintr
-- Virtio       kernel/virtio_disk.c; Alloc  alloc3_desc, Descriptors  the chain of a request,
--              Chain  virtio_disk_rw
-- Strings      kernel/string.c; Areas  on areas of the memory; Copies  on C strings
-- Printf       kernel/printf.c; Digits on the numbers it prints
-- User         user/grep.c, and user/printf.c with its agreement with the kernel's
--   Library    user/ulib.c; Same  its memmove and the kernel's, Numbers  atoi
--   Shell      the parser of user/sh.c; Print  a text for each command, Words, Parts and RoundTrip
--              on reading it back, Steps and Fuel on the end of the parser
-- Base         shared helpers; Tests   concrete states, and the theorems at these states
--
-- Pointers into the process table are numbers: 0 is NULL, and i + 1 is &proc[i]. Counters of C
-- type int are unbounded, but for `nextpid`; `uint` counters wrap around. Each loop has a number of rounds
-- that is fixed, an argument, or read from the state; those of copyin and copyout take a round for
-- each byte at most, and so do those of `readi` and `writei`, and that of `namex` one for each
-- character of the path. The loops of `bget` take a round for each buffer and one for the head.
-- The parser of the shell takes fuel, four rounds for each character and five more, which is
-- enough for every text.
--
-- What `kalloc` and `proc_pagetable` return, the `copyout` of `kwait`, and the `copyin` and
-- `copyout` of pipes are arguments; calls into the file system and of `kfree` are recorded as a
-- list. In Log the buffer cache is a map from block numbers to contents, and the state counts the
-- disk writes that still take effect, so that a crash is a state in which none is left. A call on
-- a pipe is modelled up to the caller's next wait, without its calls of `wakeup`. In Fs a block is
-- what the buffer cache shows, `log_write` keeps its argument in a list, and sleep locks have no
-- model; `either_copyout` and `either_copyin` are arguments there. In Files the memory of the caller
-- is a function from addresses to bytes with the addresses that can be read and written, the
-- functions of `devsw` are arguments, what `kalloc` returns is one of `pipealloc`, and `begin_op` and
-- `end_op` have no effect. In Cache the disk is a function of the device and the block.
-- In Virtio the device writes three fields of the state, and `virtio_disk_rw` is two functions, up to its
-- wait for the device and from there on. `free_chain` takes NUM + 1 rounds, one more than there are
-- descriptors to free.
-- `fsinit`, `sys_exec`, `kexec`, `kfork`, traps, the other devices and most user programs are not modelled.
pub mod Base
pub mod Locks
pub mod Cache
pub mod Log
pub mod Fs
pub mod Files
pub mod Console
pub mod Virtio
pub mod Pipe
pub mod Strings
pub mod Printf
pub mod User
pub mod Proc
pub mod Vm
pub mod Tests
