-- ===== src/Lib.antt =====
-- A model of TestKernel, a small kernel for the IA-32 processor, whose sources lie in TestKernel1.
--
-- The program. At start-up the kernel fills a table of segments, a table of interrupt gates and a
-- page directory. A timer interrupt then calls the scheduler, which hands the processor from one
-- thread of a fixed table to the next. Threads wait in queues whose entries lie on their own stacks;
-- mutex, semaphore, monitor and the two events are built of these queues and of spin locks. What a
-- thread prints goes to one of ten terminals, of which one is on the screen.
--
-- The files. Paths are from TestKernel1/src/arch/ia32 unless they are written out, and the headers
-- of the same names in TestKernel1/include belong to them.
--   Base: tests on numbers, words, updates of arrays, bit operations, counted loops.
--   Paging: cpu/tables.c. Paging.antt has the entries, Paging/Directory the kernel's directory
--     (init_directory), Paging/Pages the allocation (alloc_page, free_page).
--   Gdt: cpu/gdt.c. Idt: cpu/idt.c, the tables that init_idt fills and, in Idt/Pic, the interrupt
--     controllers behind the ports of cpu/io.c.
--   Threads: threads.c. Threads.antt has the table, the scheduler (change_thread) and the spin lock
--     as one step, Threads/Spin the spin lock an access at a time, Threads/Lifecycle the table from
--     the start on, with the status and the place of each thread of Threads/Status; Threads/Queue
--     the queues (queue_waiting_thread, wake_queued_thread, wake_queued_threads).
--   Sync: autoResetEvent.c and manualResetEvent.c in Sync/Events, mutex.c, semaphore.c, monitor.c
--     each in a file of its name; Sync/Semaphore/Interleaved is the semaphore between threads.
--     mutexExample.c is in Sync/Mutex/Example, monitorExample.c in Sync/Monitor/Example,
--     autoResetEventExample.c in Sync/Events/AutoExample, manualResetEventExample.c in
--     Sync/Events/ManualExample. Sync/Ownership is what mutex, semaphore and monitor share,
--     Sync/Stages what the examples do.
--   Boot: TestKernel1/src/main.c. Boot.antt has the boot loader's map of the memory and the search
--     for a free page, Boot/Stack the move of the stack, Boot/Report printMultibootInfo,
--     Boot/PagingTest test_paging, and Boot/Start kernel_main with init_cpu of cpu/cpu.c, on top of
--     all other parts.
--   Vmem: vmem.c, the blocks in use (add_dirty_block, remove_dirty_block) and the pages (palloc, pfree).
--   Display: display.c. Mem: TestKernel1/src/mem.c. Cpu: irq_handler of cpu/cpu.c, which is on top of
--     the threads, the terminals and the conversions.
-- A function of the source keeps its name; a C struct is a record, an enum a data type. The Tests
-- file of each part has runs at concrete states.
--
-- State. A C function is a function of the state it reads and changes; an array, and memory, is a
-- function of the index. A w-bit integer is a number below 2^w with its wrap-around written out, a
-- signed one is its two's complement pattern. `none` is a function that does not return: a spin lock
-- that nobody frees, a loop without end, an entry behind the end of the page directory.
-- The table of threads is a function of any index: `create_thread` does not test whether its 200
-- places are taken, and what a write behind them destroys is not modelled, so the theorems on whole
-- runs ask for room in the table.
--
-- Interleaving. Mutex, semaphore, monitor and three of the examples are step relations: each thread
-- is at a program counter, any thread may move next, and what is between the capture and the release
-- of the object's own spin lock is one step. Waiting threads may be woken at any time. The spin lock itself
-- is a step relation whose steps are single accesses. The manual-reset event and the queues are
-- modelled for a thread that runs alone; two orders of events in which the queue fails are spelled
-- out in Threads/Queue/Hazards.
--
-- Fuel. `change_thread` takes the number of indices it may look at, as many as there are threads are
-- enough where one is scheduled; `wake_queued_threads` takes its number of rounds, one more than
-- there are entries is enough; `atoi` takes one more than there are digits; a search of the memory
-- map or of the blocks in use one more than there are entries or blocks; `move_stack` more than the
-- size of the stack and than the 2^20 pages that there are; `kernel_main` more than there are entries
-- and characters of the command line.
--
-- Parameters. Addresses that the linker chooses, those of the interrupt stubs, the entry that a
-- waiting thread keeps on its stack, the map that the boot loader leaves, and what a pointer holds
-- that is never assigned are arguments; so is what is left of the variables of cpu/tables.c where
-- free_page writes its node over them. The machine's ports are an interface, and what an 8259A does
-- with them is a hypothesis; so is the processor's walk through the page tables.
--
-- Interrupts. `init_interrupts` gives the interrupt flag that idt_flush of cpu/idt.asm sets, and Cpu
-- has what a handler does. `kernel_main` is the start in which no interrupt is raised before its last
-- loop: one that came would run a handler in between, and a key would be printed.
--
-- Not modelled. Loads of processor registers; create_directory of cpu/tables.c, which writes through
-- addresses that may be those of its own variables; the bodies of the threads of TestKernel1/src/main.c,
-- which no code starts and whose mutex no code sets up; debugging/i386-stub.c and, but for the
-- fields that are read, multiboot.h, which are copies of other projects' files.
pub mod Base
pub mod Paging
pub mod Gdt
pub mod Idt
pub mod Threads
pub mod Sync
pub mod Display
pub mod Mem
pub mod Cpu
pub mod Boot
pub mod Vmem
