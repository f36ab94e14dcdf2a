-- ===== src/Lib.antt =====
-- libut: user-level threads on dedicated cores, with their base library in C. This library models the
-- parts of libut that hold its own logic, and proves what their callers rely on.
--
-- A kernel thread of the runtime (kthread) receives commands over a one-way channel in shared memory
-- (lrpc), keeps a heap of timers, and runs light threads that synchronise through the objects of
-- sync.c. Its scheduler keeps queues of runnable threads, and steals from other kthreads when it has
-- none; a kthread that finds nothing parks, and another detaches it and takes over its timers. Objects of
-- one size come from memory pools, through caches of each thread. A daemon (hwalloc) gives cores to the
-- kthreads of all processes, and takes them back.
--
-- What models what:
--   Bitmap   inc/base/bitmap.h and base/bitmap.c: bits in an array of 64-bit words.
--   Common   the shared names: tests, list helpers, machine words, bits, integers, sums over arrays.
--   Cores    hwalloc/cores.c and hwalloc/defs.h, the core allocator: `core_reserve`, `core_cede`,
--            `thread_reserve`, `thread_cede`, the picks, `cores_park_kthread`, `cores_add_core`,
--            `cores_init_proc`, `cores_is_proc_congested` and `grant` (the second loop of
--            cores_adjust_assignments). A bitmap is the function of its bits, a thread or process a
--            number, and the array of active or polled threads a record. Cores/Placed says where each
--            thread is, Cores/Running which core it has. What is read of queues and clocks, whether a
--            thread could be pinned, and whether commands were in flight are arguments.
--   Kref     inc/base/kref.h: reference counts, under the operations of those who hold references.
--   Kthread  runtime/kthread.c: kthreads are numbered by their place in allks, and a record of the
--            runtime holds them all. `attach` is kthread_attach, `detach` kthread_detach, `park` and
--            `unpark` the two halves of kthread_park, before and after it waits for the core allocator.
--   Lrpc     inc/base/lrpc.h and base/lrpc.c: `send` is lrpc_send, `send_slow` __lrpc_send, `recv`
--            lrpc_recv, `is_empty` lrpc_empty, `init_out` and `init_in` the two initialisers. The two
--            ends and the memory that they share are records; each call is one step. Lrpc/Slots and
--            Lrpc/Inv relate the table to a queue of messages.
--   Mempool  base/mempool.c and inc/base/mempool.h. Items are addresses.
--   Page     inc/base/page.h and base/page.c: the addresses of pages and of their descriptors, and
--            lgpage_alloc_on_node and lgpage_free, the allocator of large pages of one node. The
--            addresses are numbers; whether the system maps a page is an argument.
--   Sched    runtime/sched.c: `push` and `thread_ready` are thread_ready, `steal_work` and
--            `join_kthread` the functions of that name, and `round` one round of schedule after the
--            watchdog. Sched/Queue relates the arrays of a kthread to lists; Sched/Once and Sched/Sound
--            say what holds of the runtime between steps. The kthreads, the cpus and the threads that
--            an allocator grants are arguments, as is whether a lock was free.
--   Shm      runtime/ioqueues.c, inc/hwalloc/shm.h and inc/hwalloc/control.h: the layout of the memory that
--            a process shares with the daemon. `ioqueues_shm_setup` and its helpers have the names of the
--            source; addresses are numbers, the base of the mapping is an argument. The sizes of the
--            structs are those of a 64-bit machine.
--   Slab     base/slab.c: `node_alloc` is __slab_node_alloc, `slab_create` and `slab_node_free` have
--            their names. Pages are numbers, a chain of free items is a list. The page that the
--            system would grant and the maps between pages and addresses are arguments. Slab/Inv says
--            where each item is.
--   Softirq  runtime/softirq.c: `gather` is softirq_gather_work, over the channel and the timers.
--   Sync     runtime/sync.c and inc/runtime/sync.h, a module for each object. An operation runs under
--            the spin lock of its object and is one step; a thread is a name; `thread_ready` is a log,
--            and an operation that parks returns false. The wait queues are the lists of the source.
--   Tcache   base/tcache.c and inc/base/tcache.h. A chain of items is a list, NULL the empty one; the
--            operations that back a cache are parameters.
--   Timer    runtime/timer.c and inc/runtime/timer.h. The array of timers is a function of the slot,
--            and the entries of the program are a store, so that an entry and its slot can name each
--            other. A kthread's heap is valid if it is ordered and each entry in it is armed, knows its
--            slot, and names the kthread.
--
-- Failed assertions and BUG are `none`: assertions are those of a build with DEBUG. Positions and counters
-- of 32 and 64 bits wrap where they are computed, also the `int` counters of the wait group, of the
-- read-write mutex and of the bitmap search; those that an array or a capacity bounds do not.
-- Loops are structural where they count, and otherwise bounded by a number that is enough: a sift
-- up from slot i takes at most i rounds, a sift down in a heap of n slots at most n, the softirq its
-- budget.
--
-- Not modelled: the memory order of the channel and the spin locks (each operation is one step), time
-- but as readings of a clock, the loop of timer_cancel over a timer that moves between kthreads
-- meanwhile, the sleeps, and the calls of the C library, whose allocations are answers that the model
-- takes as arguments. Of the scheduler, the context switches, the counts of preemption and RCU, the
-- statistics, the fast path of a thread that yields or parks, and what a softirq thread carries. Of
-- pages, the small ones, their reference counts and the system calls. Of the core
-- allocator, the references to processes, hyperthreads (which the source switches off), the table of
-- cores, the exit of a process, and its sockets. Of the shared memory, what is written to it during set-up,
-- and the chains of messages. Of slabs, the NUMA nodes but one, the callbacks of the thread cache,
-- and what `page_put` does with a page. Of builds with DEBUG,
-- the poison in items, the checks of slab items, and the heap check of timer_softirq, which valid heaps
-- pass. Start-up is not part of this library.
pub mod Bitmap
pub mod Common
pub mod Cores
pub mod Kref
pub mod Kthread
pub mod Lrpc
pub mod Mempool
pub mod Page
pub mod Sched
pub mod Shm
pub mod Slab
pub mod Softirq
pub mod Sync
pub mod Tcache
pub mod Timer
