-- ===== src/Lib.antt =====
-- The kernel of the Pintos projects of SUSTech CS302: the priority scheduler with priority
-- donation, the multi-level feedback queue and sleeping of pintos/src, and the buffer cache, the
-- inode table and the open files of pintos_pro3/src with the files, arguments, loading and children
-- of its processes. Beside it, exercises that stand by themselves: the job scheduler of lab4, the
-- banker's algorithm of lab7, the memory allocation of lab8, the page replacement of lab9 and the
-- threaded merge sort of Bonus_Lab4.
--
-- Parts and files:
-- - Klist models pintos_pro3/src/lib/kernel/list.c. A list is the sequence of its elements. Klist
--   has the routines with an order (list_insert_ordered, list_sort and what it is made of),
--   Klist.Basic the others. pintos/src is a part of a source tree without lib/, so the library of
--   pintos_pro3 stands for it.
-- - FixedPoint models pintos_pro3/src/threads/fixed_point.h, in integers of 32 bits.
-- - State has struct thread and the globals of pintos/src/threads/thread.c, synch.c and
--   pintos/src/devices/timer.c. Pointers are numbers, and memory behind pointers is a function.
-- - Threads models the scheduler of pintos/src/threads/thread.c, Donation its functions on donated
--   priorities with the donation loop of lock_acquire, Mlfqs its functions for the feedback queue.
-- - Synch models pintos/src/threads/synch.c, Timer pintos/src/devices/timer.c with intr_handler of
--   pintos_pro3/src/threads/interrupt.c, for the interrupt of the timer. timer_interrupt calls
--   thread_tick and thread_b_check of thread.c; the semaphores call thread_block, thread_unblock
--   and thread_yield; locks call the donation.
-- - Block models the accesses of pintos_pro3/src/devices/block.c, Cache
--   pintos_pro3/src/filesys/cache.c above it, Inode the table of open inodes, the block index, the
--   reading and the writing of pintos_pro3/src/filesys/inode.c, File
--   pintos_pro3/src/filesys/file.c. Inode.Contents says what the bytes of a file are, Inode.Whole
--   and Inode.Rewrite compare inode_read_at and inode_write_at with it. A write that would make the
--   file grow stops at that point, with a result of its own.
-- - Process models pintos_pro3/src/userprog/process.c: Process.Files the file descriptors, with the
--   closing of all of them in thread_exit (threads/thread.c), on top of File; Process.Stack the
--   function setup_argument; Process.Segment and Process.Load the check and the loading of the
--   segments of an executable, over the operations that they call, which are a parameter (Machine);
--   Process.Children the children of a process, with exit of userprog/syscall.c.
-- - Syscall models the checks of user pointers and the calls on open files of
--   pintos_pro3/src/userprog/syscall.c, on top of Process.Files and File.
-- - Jobs models lab4/scheduler.c, the scheduler of the fourth exercise, which runs jobs by signals.
--   It stands by itself.
-- - Banker models lab7/banker.cpp. The three maps are one list of entries, and main is a function
--   on commands. Banker.Order says what a safe state is.
-- - Replacement models lab9/main.cpp: Replacement.Fifo, Replacement.Lru, Replacement.Clock and
--   Replacement.SecondChance have fifo, lru, _clock and second_chance, each with its loop over the
--   accesses; Replacement itself has the sets, queues and lists that they share.
-- - MergeSort models Bonus_Lab4/OS_BONUS1_11612917.c: merge, merge_sort, and main with its threads,
--   which work on slices that do not overlap and are run one after the other in any order.
-- - Allocator models lab8/mm.cpp: the three algorithms, the lists of blocks and the menu. A new
--   block's `next`, which is read before it is set, is an argument.
-- - Tests has concrete states and the theorems applied to them.
--
-- Conventions: a function whose ASSERT or PANIC fails returns `none`. Each function is one step, as
-- it is with interrupts off or under the lock that it holds. After a switch of threads the state is
-- the one in which the next thread goes on. process_wait is two steps, as interrupts are on between
-- its tests and the wait. Loops that a switch interrupts (sema_down, lock_acquire, cond_wait,
-- cond_broadcast) are modelled up to the switch.
--
-- Bounds and fuel: list_sort has fuel for one more pass than the list has elements, and each pass
-- for as many runs; its passes at least halve the number of runs. The clock of the cache has 65
-- turns, one more than there are entries: a full turn clears every access bit. The donation loop of
-- lock_acquire takes its fuel as an argument. inode_read_at and inode_write_at have fuel for as
-- many rounds as there are bytes, and one more, of which each round moves one at least;
-- load_segment for as many as there are pages, and one more. The loop of a miss in _clock has K + 1
-- turns, as one round clears every bit; the rounds of safe_check have the bound of the source; the
-- loops of merge have as many turns as the slice has elements, and merge_sort a depth as large as
-- the array. Counters (ticks, read and write counts, semaphore values, open counts, descriptors,
-- the times of jobs) do not wrap around; fixed-point numbers, pointers and sizes of segments do, at
-- 32 bits.
--
-- Not modelled: the interrupt level, and preemption inside a function but process_wait; the name,
-- stack and magic number of a thread; memory allocation, of which the results are arguments, but
-- for lab4 and lab8, where malloc is taken to succeed; the insertion of new threads into all_list,
-- the allocation of thread numbers, thread_init, thread_start and the idle thread's loop; the
-- calibration and the busy waits of timer.c; the allocation and deallocation of an inode's data,
-- and with it the growth of files; directories, and the system calls that take names of files; the
-- start of a process. Of lab4, the command lines, the fork and the signal handler, and the programs
-- that write to the fifo. Of lab9, the algorithm min, whose victim can depend on the order of an
-- unordered_map, and of all exercises the reading and the printing. The numbers of lab7, the sizes
-- of lab8 and the pages of lab9 are not negative, and sums of them do not overflow. The device
-- driver behind block.c is taken for an array of sectors.
pub mod Prelude
pub mod Klist
pub mod FixedPoint
pub mod State
pub mod Threads
pub mod Donation
pub mod Synch
pub mod Mlfqs
pub mod Timer
pub mod Block
pub mod Cache
pub mod Inode
pub mod File
pub mod Process
pub mod Syscall
pub mod Jobs
pub mod Banker
pub mod Replacement
pub mod MergeSort
pub mod Allocator
pub mod Tests
