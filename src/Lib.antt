-- ===== src/Lib.antt =====
-- A model of the kernel's core, kernel/: its memory, its containers and its string routines, and
-- the proofs that they do what their callers rely on.
--
-- Base holds the shared names: Boolean tests on native numbers, lists measured by them, the bits
-- of machine words (Base.Bits) and runs of stateful code (Base.Run). A run is `ok` with a result
-- and the new state, a `fault` (an access through NULL or outside of every object), or a `hang`
-- (a `while(1)`, or a lock that stays taken). Machine words are natural numbers with the
-- wrap-around of the C type written out; a spinlock is a flag, and locking it twice hangs.
--
--   Strings   kernel/utils/string.c, kernel/utils/ctype.h: byte blocks (Strings.Memory, memory as
--             a function from addresses to bytes) and NUL-terminated strings (Strings.Text, a
--             pointer as the list of bytes to the end of its object); Strings.Zeros and
--             Strings.Words are about the loops that take eight bytes at a time.
--   Pmm       kernel/mem/pmm.c with the bitmap macros of kernel/arch/riscv64/defines.h: the bits
--             of pages (Pmm.Bitmap), the search for a run of them (Pmm.Runs), allocation and release
--             (Pmm.Alloc), the bitmap's own pages (Pmm.Reserved), and start-up from the memory map
--             (Pmm.Init, Pmm.InitBug). The search has PmmLength steps of fuel: each
--             round moves on by the alignment, which is at least 1.
--   Kalloc    kernel/mem/alloc.c over Pmm: block headers by address; kmalloc, kfree, krealloc,
--             kcalloc (Kalloc.Blocks, Kalloc.Free).
--   Lists     list_* of kernel/utils/lists.c over a heap of nodes; Lists.Seg says which cells a
--             chain of nodes stands for. kmalloc's answer is the argument `fresh` of the functions
--             that allocate. The walks have one step of fuel more than the list's length.
--   Trees     gentree_* of kernel/utils/lists.c: a node is its address, its value and its list of
--             children (Trees.Parents).
--   Hashmap   hashmap_* of kernel/utils/lists.c: a bucket is the list of its entries; the
--             specification is a partial function from keys to values (Hashmap.Table).
--   Devtree   kernel/utils/dtb.c and kernel/utils/utils.c: byte order (Devtree.Endian), the property
--             readers (Devtree.Props), dtb_find_node (Devtree.Nodes) and dtb_init (Devtree.Blob), whose
--             blocks and their bytes are Devtree.Blob.Blocks, .Stream and .Whole, and the tree that it
--             builds Devtree.Blob.Flat and .Built. The locks and the copy of
--             the path are left out; each loop has as many rounds as its object has bytes.
--   Vmm       kernel/arch/riscv64/vmm.c over a memory of 64-bit entries: level indices and entries
--             (Vmm.Entries), release (Vmm.Unmap, whose loop runs for at most `fuel` rounds). What
--             pmm_alloc(1) returns is a list of pages.
--   Paging    kernel/arch/x86_64/vmm.c over the same memory: four levels and entries with their flags
--             below bit 12 and in bit 63 (Paging.Entries).
--   Tasking   kernel/tasking/process.c, thread.c and scheduler.c: slots and the process table
--             (Tasking.Slots), user stacks (Tasking.Stacks), the next task (Tasking.Next). The
--             search for a task runs for at most `fuel` rounds.
--   Cpu       kernel/arch/riscv64/cpu.c: the table of processors and its accessors (Cpu), the ISA
--             string (Cpu.Isa), one processor (Cpu.Slots) and start-up (Cpu.Boot). The loop over the boot loader's
--             processors is a recursion on their list.
--   Plic      kernel/arch/riscv64/plic.c over Devtree: the registers of the interrupt controller
--             (Plic.Enable).
--   Sched     scheduler_init and scheduler_schedule with kernel/arch/riscv64/scheduler.c, over Tasking
--             and Cpu: the start (Sched.Start), loading a thread (Sched.Enter), switching threads
--             (Sched.Switch). `fuel` bounds the search for the next task.
--   Irq       kernel/arch/riscv64/int.c over Cpu and Sched: traps, and interprocessor interrupts
--             (Irq.Masks, Irq.Ipi, Irq.Wide). The loop over the windows of 64 harts has `fuel`; one more
--             than the windows is enough.
--   Print     kernel/utils/system.c: number formatting and the writer of sprintf (Print,
--             Print.Numbers), the format interpreter (Print.Format, Print.Plain), sprintf and printf
--             (Print.Calls). A format has as many rounds as characters, each of which takes at
--             least one.
--   Vfs       kernel/fs/vfs.c and kernel/fs/devfs/devfs.c: the tree of mount points (Vfs), paths as
--             lists of names (Vfs.Paths), mounting (Vfs.Mounts), whole paths (Vfs.Remounts),
--             looking up (Vfs.Lookup, Vfs.Whole), nodes and the calls that go through them
--             (Vfs.Nodes), devices (Vfs.Devices), kopen (Vfs.Open, Vfs.Walking, Vfs.Opened,
--             Vfs.Halting, Vfs.Ends), the log (Vfs.Logs) and start-up (Vfs.Boot). What a node's function pointer stands
--             for is the argument `drivers`; Vfs.Devices has the kernel's own. Looking up
--             is a recursion on the tree; mounting has as many rounds as the path has bytes, each
--             of which takes one at least. The loop of kopen has `fuel`, for a driver may move the path on.
--   Spin      kernel/arch/riscv64/spinlock.c: any number of processors at one lock as a step
--             relation, each shared access one step; its invariant (Spin.Invariant) and progress
--             (Spin.Progress). Every processor is taken to be set up (riscv_cpu_inited). An
--             interrupt handler that asks for the lock its own processor holds is not a step.
--             Spin.X86 is kernel/arch/x86_64/spinlock.c on the word of one lock.
--   Tests     runs on concrete inputs.
--
-- Not modelled: interleavings of several processors outside of Spin; hashmap_delete, which only
-- frees; the set-up of page tables and of the boot protocol, and console output, which are input and
-- output with no logic of their own; and what else no module above names.
pub mod Base
pub mod Strings
pub mod Pmm
pub mod Kalloc
pub mod Lists
pub mod Trees
pub mod Hashmap
pub mod Devtree
pub mod Vmm
pub mod Paging
pub mod Tasking
pub mod Cpu
pub mod Plic
pub mod Sched
pub mod Irq
pub mod Print
pub mod Vfs
pub mod Spin
pub mod Tests
