-- ===== src/Lib.antt =====
-- Verification of the core of Seraph: the physical memory allocator, the run queues, the IPC
-- objects and the capabilities of the kernel, and the readers of programs and FAT volumes in user
-- space, as functions on explicit state, with the theorems that they keep their promises.
--
-- Mm.Buddy models `BuddyAllocator` of kernel/src/mm/buddy.rs: the pool of 4096 slots, the eleven
-- free lists threaded through it, the splitting of `alloc`, the coalescing of `free`, and the loops
-- that add a region and drain blocks. Mm.Buddy.Blocks is the abstract view, the addresses of the
-- free blocks of each order, and what it means that an allocator holds them; Mm.Buddy.Cover counts
-- for every address the free blocks that cover it. Places, Push, Take, Remove, Split and Merge
-- carry the parts of the operations; Alloc, Release, Region and Drain are about the operations as a
-- whole.
--
-- Sched is the scheduler. Sched.RunQueue models `RunQueue` of kernel/src/sched/run_queue.rs: the
-- intrusive FIFO whose links stand in the thread control blocks, so each method takes and returns
-- the map of links. Sched.PerCpu models `PerCpuScheduler` of the same file: 32 run queues, the mask
-- of those that are not empty, and the load counters it shares with the other CPUs.
-- Sched.PerCpu.Ready is the abstract view, a list of threads for each priority, and
-- Sched.PerCpu.Dispatch shows that each method implements it. Sched.PerCpu.Load is about the load
-- counter. Sched.Thread has the states of a thread (kernel/src/sched/thread.rs) and the message it
-- holds (kernel/src/ipc/message.rs), and Sched.Smp the schedulers of all CPUs with the choice of a
-- CPU for a woken thread (`select_target_cpu` and `enqueue_and_wake` of kernel/src/sched/mod.rs).
--
-- Ipc has the objects that threads block on. Ipc.World is the state they share: the objects by
-- their addresses and the machine of Sched.Smp. Ipc.Endpoint models kernel/src/ipc/endpoint.rs,
-- Ipc.EventQueue kernel/src/ipc/event_queue.rs, Ipc.Signal kernel/src/ipc/signal.rs, and
-- Ipc.WaitSet kernel/src/ipc/wait_set.rs, function by function under the names of the source. An
-- endpoint, an event queue and a signal notify the wait set they belong to, a wait set wakes its
-- waiter through Sched.Smp. Both rings, of payloads and of pending members, are the ring of
-- Prelude.Ring. Ipc.Signal.Race has the steps of senders and waiters as a relation, since
-- `signal_send` looks at the signal without its lock.
--
-- Cap is the capability system. Cap.Slot and Cap.Rights model kernel/src/cap/slot.rs, Cap.CSpace
-- the capability space of kernel/src/cap/cspace.rs with the free list through its slots, and
-- Cap.Derivation the registry of spaces of kernel/src/cap/mod.rs and the tree of derived
-- capabilities of kernel/src/cap/derivation.rs, whose links stand in the slots of all spaces.
-- Cap.Derivation.Children is the abstract view of the children of a capability as a list,
-- Cap.Derivation.Forest that of all that is derived from it. The system calls of
-- kernel/src/syscall/cap.rs are in Cap.Derive (derive, derive with a token, copy, insert) and
-- Cap.Delete (delete, revoke), and the lookup that most system calls start with, of
-- kernel/src/syscall/mod.rs, is in Cap.Lookup.
--
-- Elf models shared/elf/src/lib.rs, with which init and procmgr load programs: the checks of the
-- header, and the two iterators over the segments to load, of a whole image and of the first part
-- of a file. An unchecked read through a pointer gives none outside of the bytes, and the theorems
-- show that there is none.
--
-- Fat models fs/fat/src/bpb.rs and fs/fat/src/fat.rs of the file system server: the geometry of a
-- volume, the chain of clusters in the FAT with the one sector of it that is cached, and the read
-- of a part of a file. Fat.Read.file_read is the specification, a read without a cache. The block
-- driver is a parameter that gives the bytes of a sector or fails.
--
-- A pointer is the number of its address, and `None`, null and slot 0 are 0. A map of fields is a
-- function from addresses, since a method writes the fields of threads that other queues hold too;
-- a theorem about one queue therefore says what happens to the others. Sums and differences of
-- machine words wrap as they do in a release build, and the theorems show that they do not wrap
-- where the counters are right. Debug assertions are left out. A method that can panic or spin
-- returns an Option, and none stands for that.
--
-- The loops of `remove`, `unlink_from_wait_queue` and `remove_block` run on fuel, because an
-- arbitrary map of links may have a cycle. Any fuel above the length of the list is enough, which
-- the theorems prove by giving the result; `remove_block` has a step more than the pool has slots.
-- `pop_ready` has 16 steps for a ring of 15 entries, and `add_region` one more than the region has
-- pages. `pre_allocate` has 257 rounds for 256 pages, `insert_cap_at` as many as a space has slots,
-- and the loops of `reparent_children` and `revoke_subtree` one for each capability in the list or
-- the tree, which the theorems take as a hypothesis and prove to be enough. The other loops recurse
-- on the number of rounds that are left.
--
-- Not modelled: the locks (an operation runs with the lock of its object held), the ordering of
-- atomic accesses beyond the single order that the fences of a signal give, the debug and console
-- output, and the parts of the system listed nowhere above: boot loader, page tables, slab
-- allocator, the other system calls, the release of kernel objects, drivers, file systems and
-- services.
pub mod Prelude
pub mod Cap
pub mod Elf
pub mod Fat
pub mod Ipc
pub mod Mm
pub mod Sched
