-- ===== src/Lib.antt =====
-- Xinu for x86, with demand paging: the kernel under xinu-x86-qemu/system and the backing stores
-- under xinu-x86-qemu/paging.
--
-- The kernel keeps a table of processes, a table of semaphores, and one table of doubly linked queues
-- in which the first NPROC entries stand for the processes and each later pair for the head and the
-- tail of a queue. A process stands in at most one queue: the ready list by priority, the sleep queue
-- by the difference of wake-up times, or the queue of the semaphore that it waits on. Every system
-- call that makes a process ready ends in `resched`, which moves the current process to the ready
-- list unless its priority exceeds the first one's, and switches to the first.
--
-- The files:
--   Base       numbers, lists and functions that the others share: `bias` and `slt` are the signed
--              comparison of 32-bit patterns, `put` is the assignment to one index of an array.
--   Config     the constants of config/Configuration and include/*.h, and `proctab` (ProcTab).
--   Queue      `queuetab` (QTab) with system/queue.c, getitem.c, insert.c, insertd.c, newqueue.c. Its
--              children relate the links to the lists they stand for (Queue/Contents, `Holds`).
--   Kernel     the global state (Kernel) with system/resched.c, ready.c, yield.c. Kernel/Invariant
--              says when a kernel is well formed; Kernel/Running what holds between two calls;
--              Kernel/Chosen which process runs next.
--   Semaphore  system/wait.c, signal.c, signaln.c, semcreate.c, semdelete.c, semreset.c, semcount.c.
--   Process    system/resume.c, suspend.c, chprio.c, getprio.c, and create.c in Process/Create.
--   Sleep      system/sleep.c, unsleep.c, wakeup.c, clkhandler.c.
--   Message    system/send.c, receive.c, recvclr.c, recvtime.c.
--   Boot       `sysinit` of system/initialize.c up to its devices.
--   Memory     the free list (Mem) with system/getmem.c, freemem.c, getstk.c and meminit.c, related to
--              the list of free blocks (Memory/Blocks, `IsHeap`).
--   Backing    the backing stores (Server) with paging/*.c. A call gives `none` if it never returns.
--   Frames     the frame table `ivptab` (Frames) of system/initialize.c and the queue of the frames that
--              hold pages, oldest first. A pointer into the table is an index.
--   Paging     page tables, `bsmap` and the state of paging (Paging), with hooks.c, srpolicy.c and
--              get_faults.c. Paging/Replace is get_free_frame_number with both policies, and
--              Paging/Fault is myPageFault, create_pagetable and initialize_paging.
--   Vheap      the virtual heaps' free lists (Vheap) with system/vgetmem.c and vfreemem.c.
--   Vprocess   system/vcreate.c, and kill.c in Vprocess/Kill: what a process with a virtual heap gets, and
--              what is taken back from one that ends.
--   Strings    the functions on strings and blocks of memory of lib/*.c, on memory as bytes.
--   Ports      the message ports (Ports) with system/pt*.c. Ports/Lists relates a port to the messages it
--              holds, and the free nodes to a list.
--   Buffers    the buffer pools (Pools) with system/mkbufpool.c, getbuf.c, freebuf.c, bufinit.c.
--   Tests      runs on concrete tables and kernels.
--   The C names are kept, but for `ready`, which is `make_ready`, and `resched_cntl`, whose two cases
--   are `defer_start` and `defer_stop`, and `myPageFault`, which is `page_fault`.
--
-- Numbers are natural numbers below 2 ^ 32, read as the pattern of an `int32` or `uint32`; additions
-- and subtractions wrap. Arrays are functions on indices, structures of arrays are records of them.
-- The walks of `insert` and `insertd` have the size of the table as fuel, and the theorems about
-- them show that this is enough, since no queue holds more than NPROC processes. The loops of
-- `wakeup`, `semdelete` and `semreset` have NPROC + 1. The walks over the free list have `maxheap`,
-- more than the heap has blocks. The hand of the clock algorithm has three steps for each frame; two
-- and one more are enough. The walks over the virtual heap's list and over the messages of a port
-- that is cleared have 2 ^ 32, as many as there are addresses. A heap of n pages needs one call of
-- `bs_mapping` for each 200 pages, which the fuel of `map_heap` counts.
--
-- Each call runs with interrupts disabled, so a call is a function from kernel to kernel. A call
-- that blocks its caller is modelled up to the context switch, and what the caller does when it runs
-- again is a function of its own (`receive_wait` and `receive_take`, `ptsend_wait` and
-- `ptsend_rest`, `ptrecv_wait` and `ptrecv_rest`, `getbuf_wait` and `getbuf_rest`, `kill_send` and
-- `kill_rest`). The saved stack pointers of the context switch, the debugging output and the
-- interrupt mask are not modelled. `create` takes the stack that `getstk` returned as an argument.
-- The remote disk is its blocks, each with whether an access to it succeeds. The memory of paging is
-- kept in two views, page table entries by the number of their word and bytes by their address: a
-- frame is used in one of them at a time. The processor's control registers but CR3 and CR2, and its
-- translation buffer, are not modelled. Of lib/ the formatted input and output, strncat, the
-- conversions of numbers, qsort and rand are not modelled, nor are the devices, the network and the
-- shell. The function that `ptreset` and `ptdelete` pass the messages to is an argument: it may
-- change the kernel (as freebuf does) and data of its own, but not the lists of the ports. With no
-- free store `bs_mapping` reads and writes the memory in front of `bsmap`, which is index 2 ^ 32 - 1
-- of the map.
pub mod Base
pub mod Config
pub mod Queue
pub mod Kernel
pub mod Semaphore
pub mod Boot
pub mod Process
pub mod Sleep
pub mod Message
pub mod Tests
pub mod Memory
pub mod Backing
pub mod Frames
pub mod Vheap
pub mod Paging
pub mod Vprocess
pub mod Strings
pub mod Ports
pub mod Buffers
