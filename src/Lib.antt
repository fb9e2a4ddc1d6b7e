-- ===== src/Lib.antt =====
-- A verification of the core of the VitrOS kernel (`kernel/`, with `common/` for shared types) and of its
-- boot loader (`bootloader/`): the scheduler, the blocking primitives on top of it, the timers, the heap,
-- and the structures around them.
--
-- The program and its parts. A task (`kernel/src/sched/task.rs`) is built on a stack whose first frame
-- `Context::new` (`kernel/src/sched/context.rs`) writes. `schedule` (`kernel/src/sched/scheduler.rs`)
-- takes the next task from the three queues and puts the one that leaves into the queue of its class,
-- among the blocked tasks, or nowhere. `kernel/src/sched/blocking.rs` blocks the current task and wakes
-- a task by its id, with a set of wake-ups that came too early. The timer interrupt
-- (`kernel/src/timer.rs`) moves expired timers to a second queue, whose callbacks run as a softirq and
-- wake sleeping tasks. Wait queues and mutexes (`kernel/src/sync/`) stand on blocking and waking. The
-- heap (`kernel/src/allocator.rs`) serves small requests from slabs and large ones from a buddy
-- allocator. Tasks draw through command buffers; the compositor draws into a shadow buffer and
-- transfers what has changed (`kernel/src/graphics/`). The page tables (`kernel/src/paging.rs`) map the
-- whole memory at the kernel's base address; PCI devices are found through their configuration space
-- (`kernel/src/pci.rs`) and signal by messages (`kernel/src/msi.rs`). The
-- tables of the firmware (`kernel/src/acpi.rs`) give the window for configuration space, the address of
-- the local APIC (`kernel/src/apic.rs`), whose timer is calibrated with the HPET (`kernel/src/hpet.rs`) or
-- the PIT (`kernel/src/pit.rs`) and interrupts through the IDT (`kernel/src/idt.rs`). Before all that, the boot loader
-- (`bootloader/src/main.rs`) reads the memory map of the firmware, loads the kernel image, sets up the
-- first page tables and enters the kernel with a `BootInfo`.
--
-- Files and code:
-- - Base and its children: Boolean tests, lists and integers over the native numbers, results that can
--   be an error or a panic.
-- - Collections: `BTreeMap` and `BTreeSet` of Rust's library as sorted association lists, with the
--   operations that the scheduler calls (`insert`, `get`, `contains_key`, `delete` for `remove`,
--   `pop_first`).
-- - Sched/Task: `Task`, its constructors, `nice_to_weight`, `update_vruntime`.
-- - Sched/Context: `Context::new`, and the two halves of `switch_context` as `save` and `restore`, on a
--   memory of words.
-- - Sched/Scheduler: the statics of the module as the record `Sched`; `schedule` as `pick_next`, then
--   `switch_from`, which charges the task that leaves and hands it to `retire`.
-- - Sched/Blocking: `prepare_block` is the critical section of `block_current_task`; `unblock_task`.
-- - Sched/Invariant and its children: the invariant of the scheduler, step by step.
-- - Timer: `register_timer`, `check_timers`, `do_softirq`, and in Timer/Sleep `sleep_ms` and the end of
--   an interrupt handler, `check_resched_on_interrupt_exit`.
-- - Sync: `WaitQueue`, and `BlockingMutex` with the drop of its guard.
-- - Allocator/Size, Allocator/Buddy, Allocator/Slab: sizes and size classes; the buddy allocator with
--   its lists, bit maps and node memory; slab caches and `GlobalAlloc`. Below Allocator/Buddy, Links and
--   Unlinks are about the doubly linked lists, Blocks and Packing about addresses, indices and buddies,
--   Sound has the invariant, and Moves, Cuts, Joins and Start follow the operations step by step to Safety.
-- - Paging: the page tables of `kernel/src/paging.rs`, `map_mmio` and huge pages; in Paging/Init `init`
--   with its ranges of devices, in Paging/Init/Devices what the search in them finds, and in
--   Paging/Init/Rights the rights that pages are to have. Paging/Walk is the processor's translation, as its manual describes it.
-- - Pci, Msi: `kernel/src/pci.rs` and `kernel/src/msi.rs` on the registers of devices. Boot:
--   `common/src/boot_info.rs`.
-- - Acpi, Hpet: `kernel/src/acpi.rs` on a memory of bytes, and `kernel/src/hpet.rs`, which it starts.
-- - Addr: `kernel/src/addr.rs`, and the guard page test of `kernel/src/stack.rs`.
-- - Loader: `bootloader/src/main.rs`. Loader/Image is `load_kernel_elf` with `common/src/elf.rs`,
--   Loader/Pages `setup_initial_page_tables`, Loader/Start `efi_main` on what the firmware returns, and
--   Loader/Console the text output.
-- - Main: the choice of the memory for the heap in `kernel_main_inner` of `kernel/src/main.rs`, and the
--   start of the heap there; Main/Heap has what the choice gives to the allocators.
-- - Descriptors: `kernel/src/gdt.rs` and `kernel/src/idt.rs`; Descriptors/Decode reads the tables as the
--   processor's manual says. Apic: `kernel/src/apic.rs`, and in Apic/Pit `kernel/src/pit.rs` with
--   `kernel/src/timer_device.rs`.
-- - Graphics/Region, Graphics/Shadow, Graphics/Writer: rectangles, the shadow buffer, command buffers.
--   Graphics/Draw and Graphics/Font: the drawing routines of `kernel/src/graphics/mod.rs` on a function
--   from pixels to colours, and the font. Graphics/Compositor: the round of `compositor_task` in
--   `kernel/src/graphics/compositor.rs`, with `try_lock` of a buffer as a flag.
--   Graphics/TaskWriter: `TaskWriter` of `kernel/src/graphics/writer.rs`.
--
-- Conventions. A field of 32 or 64 bits is a number, with the wrap-around written where the code adds,
-- multiplies or subtracts. A spin lock is held within one operation and with interrupts disabled, so an
-- operation is one atomic step; where the code gives up the lock in between (`block_current_task`,
-- `BlockingMutex::lock`) the parts are steps of their own. Of Rust's `BinaryHeap` only the documented
-- behaviour of `pop` is used, as the hypothesis `IsBinaryHeap`, which the selection sort of Timer/Heap
-- meets. The callbacks of other modules are a parameter of the softirq.
-- The registers of a device keep what is written to them and are read without effect. The symbols of
-- the linker script, the addresses of the static tables and the features of the processor are arguments
-- or fields; an operation on the page tables returns them with its outcome, changed up to the point of an
-- error. The translation cache is not modelled: a table counts as soon as it is written.
--
-- Fuel. The loop of `check_timers` gets one round more than the queue has timers, which is enough since
-- each round takes one out. `do_softirq` ends with two rounds of its outer loop, and an inner loop
-- longer than the pending queue, for callbacks that register no expired timer. The buddy allocator's
-- `init` gets a round for each block of the least size, and its merges at most one for each order.
-- The loops over pages and tables are counted, and the walk over capabilities has the code's 48 rounds. The
-- loop over the MADT ends with as much fuel as the table has bytes, if it ends at all; that over the MCFG
-- always does. The loops of the boot loader are counted too. A delay runs on the readings of the counter.
--
-- Not modelled: what the drawing routines write past the last pixel of the shadow buffer, and a segment of
-- the kernel image that is loaded over the buffer of the file itself; interrupts inside the softirq; the memory behind stacks beyond the words of a frame;
-- logging, observers and visualisation; the handlers of exceptions, which print and stop, and the
-- assembly around handlers; the registers of memory types, ports and the serial port. Of the start of
-- the kernel only that of the heap is modelled. Of UEFI only the answers that the boot loader uses are
-- modelled; they, and the contents of the file and of the memory map, are arguments.
pub mod Base
pub mod Collections
pub mod Sched
pub mod Timer
pub mod Sync
pub mod Allocator
pub mod Graphics
pub mod Paging
pub mod Boot
pub mod Pci
pub mod Msi
pub mod Hpet
pub mod Acpi
pub mod Addr
pub mod Loader
pub mod Apic
pub mod Descriptors
pub mod Main
