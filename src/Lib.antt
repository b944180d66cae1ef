-- ===== src/Lib.antt =====
-- Verification library of the kernel: lists, blocking, locks, barriers, conditions, the scheduler, process
-- control, mailboxes, strings, page allocation, page tables, shared pages, swapping, the kernel lock, the
-- file system, the network card, the network stream, and numbers as text.
--
-- The kernel keeps a table of process control blocks and links each of them into at most one queue: the
-- ready queue, or the queue of the object that the process waits for. `Kernel` is that shared state, and
-- `Block` the two moves between queues (`do_block`, `do_unblock`) with the invariant `WellQueued`. The
-- locking objects are built on these moves. A call that gives up the processor ends in a `Control` value
-- that says so; what it does when its process runs again is a definition of its own (`resume_acquire`,
-- `resume_wait`). A spin lock that is held makes a call end in `spins`, with the state as it was;
-- interleavings are sequences of such calls by different current processes.
--
--   Prelude      shared tests, lists, searches of tables, integers
--   Links        kernel/list/list.c: the pointers of the circular lists, with `Links.Ring` for their shape
--   Kernel       include/os/sched.h, include/os/lock.h: control blocks, objects, queues as plain lists
--   Block        do_block and do_unblock of kernel/sched/sched.c, wakeup of kernel/sched/proc.c
--   Slots        the search of do_mutex_lock_init and its like for an entry of a table
--   Spin, Mutex  kernel/locking/lock.c
--   Barrier      kernel/locking/barrier.c
--   Condition    kernel/locking/condition.c
--   Sched        kernel/sched/sched.c and check_sleeping of kernel/sched/time.c
--   Workload     kernel/sched/workload.c
--   Process      kernel/sched/proc.c
--   Strings      libs/string.c, on a memory of bytes
--   Mm           allocPage, freePage and get_free_memory of kernel/mm/mm.c
--   Mailboxes    kernel/locking/mbox.c, without the pinning of pages
--   Pipes        kernel/pipe/pipe.c: the table of pipes and the moves of their rings
--   PageTable    arch/riscv/include/pgtable.h and the mapping functions of kernel/mm/mm.c
--   Ioremap      kernel/mm/ioremap.c, on map_page_kernel
--   KernelLock   lock_kernel and unlock_kernel of kernel/smp/smp.c
--   SharedPages  kernel/mm/shm.c
--   Swap         kernel/mm/swap.c, the SD card being a parameter
--   Fs           kernel/fs/fs_tools.c, kernel/fs/fs.c and include/os/fs.h: `Fs.Card` the transfers and the
--                inodes, `Fs.Maps` the bitmaps, `Fs.Blocks` the blocks of a file, `Fs.Names` and `Fs.Paths`
--                the directories, `Fs.Files` the open files, `Fs.Dirs` and `Fs.Removal` the calls that make and
--                remove files and directories, `Fs.Make` the new file system
--   Stream       kernel/net/stream.c and include/os/net.h
--   Nic          drivers/e1000.c and drivers/e1000.h: the rings of the network card
--   Net          kernel/net/net.c: sending, receiving and the interrupts of the card
--   Numbers      tiny_libc/atoi.c, tiny_libc/itoa.c, tiny_libc/rand.c
--   Tests        the theorems at concrete states
--
-- The file system is a state (`Fs`) with the card, the superblock that is known, the page TEMP_BUF, which
-- all its functions share as a buffer, and the two tables of descriptors that the header file gives to
-- fs.c and fs_tools.c. The card is a parameter (`Fs.Card.Card`): transfers of sectors with the law that a
-- read gives what was written last. Buffers are functions from offsets to bytes. What a call does behind
-- an early return is computed and dropped, so that the order of its steps is that of the source. The
-- stream reads polls of the network card from a list, and sends into a list. The network card is its
-- registers and descriptors (`Nic`); what it does to them is not modelled, but stated of the state in
-- which a call begins (`IsSending`, `IsReceiving`).
--
-- Bounds: the walks of kernel/list/list.c run on fuel; any fuel above the number of nodes is proved to be
-- enough for them to end, and so is any fuel above the number of bytes left to send. Keys and indices of
-- the locking objects are integers, without the wrap-around of int, which no operation reaches; counters
-- are natural numbers. do_read runs on one unit of fuel more than it has bytes to read, and do_write
-- likewise, since each round transfers a byte at least; the loop of do_net_recv_stream needs more than
-- twice its polls and one for each packet in the queue, which is proved. Paths and names are lists of
-- characters other than zero, shorter than the arrays of the source. Addresses wrap at 2^64.
--
-- Not modelled: output (printk, printl, do_ls), preemption flags, registers and stacks, devices, the boot
-- code, and the parts of the kernel that the modules above do not name.
pub mod Prelude
pub mod Links
pub mod Kernel
pub mod Block
pub mod Slots
pub mod Spin
pub mod Mutex
pub mod Barrier
pub mod Condition
pub mod Mm
pub mod Net
pub mod Nic
pub mod Tests
pub mod Sched
pub mod Process
pub mod Strings
pub mod Mailboxes
pub mod PageTable
pub mod SharedPages
pub mod Ioremap
pub mod KernelLock
pub mod Swap
pub mod Workload
pub mod Pipes
pub mod Fs
pub mod Stream
pub mod Numbers
