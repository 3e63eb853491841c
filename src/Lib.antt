-- ===== src/Lib.antt =====
-- A verification library for the kernel of ZenithOS (kernel/src): a model of its core in functions
-- that take and return the state that the C code keeps in static variables and in the objects that
-- its pointers lead to, and the theorems that make it correct.
--
-- The parts, and the files that model them:
--
--   * kernel/src/mm/bitmap.c: Mm/Bitmap.antt. `bitmap` and `bitmap_bits` are a record; a buffer is a
--     list of bytes.
--   * kernel/src/mm/pmm.c, the allocator of physical pages: Mm/Pmm.antt and, for `pmm_init`,
--     Mm/Pmm/Init.antt. The memory map, the type codes of limine.h and the place of the kernel image
--     come from the boot loader and are arguments. Mm/Pmm/Valid.antt is the invariant.
--   * kernel/src/vmm/vma/vma.c, the table of virtual memory areas: Vmm/Vma.antt.
--   * kernel/src/scheduler/queue.c: Scheduler/Queue.antt, with the field `next` of all tasks as a
--     function. The walks run on fuel, and the length of the queue is enough.
--   * kernel/src/scheduler/scheduler.c: Scheduler/State.antt (the state), Scheduler/Core.antt (the
--     calls made by tasks) and Scheduler/Core/Interrupt.antt (the calls made by interrupts, with the
--     end of `common_isr_entry` of kernel/src/cpu/isr.asm). Here a queue is a list, which
--     Scheduler/Queue/Push.antt and Remove.antt relate to the links of queue.c. Each function disables
--     interrupts around its changes, so a call is one step; Scheduler/Core/Reach.antt has the step
--     relation, with the calls of task.c and mutex.c that change this state. A context switch is the result of a call.
--   * kernel/src/kernel_err/errno.h: KernelErr.antt.
--   * kernel/src/fs: Fs/Fd.antt (fd.c), Fs/Path.antt (path.c), Fs/File.antt (file.c), Fs/Vfs.antt
--     (vfs.c, over any tables of operations), Fs/Tables.antt (the tables of ramfs.c) and
--     Fs/SysFile.antt (sys_file.c, for the table of the current process). The walk along a path runs
--     on fuel, and one round more than the path has bytes is enough.
--     A string is the list of the bytes from its pointer on.
--   * kernel/src/fs/ramfs.c: Fs/Ramfs.antt, over the nodes of Fs/Vnode.antt. The results of `kmalloc`
--     are arguments, and an access behind the end of an object is an outcome of its own.
--   * kernel/src/lib: Klib/String.antt (string.c), Klib/Memory.antt (memory.c, over a memory that is
--     a function from addresses to bytes) and Klib/Convert.antt (convert.c). The digits are written
--     on fuel, and the value itself is enough.
--   * kernel/src/sync/mutex.c: Sync/Mutex.antt, over the state of the scheduler. `mutex_lock` is what
--     a round of its loop does under the guard, and `lock_wait` behind it, the `scheduler_yield` of a
--     task that has to wait, with interrupts on. Sync/Mutex/Exclusion.antt has the calls of any tasks
--     in any order.
--   * kernel/src/vmm/page_table.c: Vmm/Paging.antt (the walk) and Vmm/Paging/Calls.antt (the functions
--     that the kernel calls). A table is 512 numbers at the pointer of its page, and the pages come
--     from the allocator of pmm.c. Vmm/Paging/View.antt is what the entries map, by the indices of
--     an address alone; Vmm/Paging/Kept.antt is the invariant: below the root in use each table has
--     one place, and no free page is a table.
--   * kernel/src/mm/heap.c: Mm/Heap.antt (the blocks) and Mm/Heap/Calls.antt (the functions on the
--     whole state, with the page tables and the areas). The headers are a function from pointers, and
--     Mm/Heap/Chain.antt relates them to a list of sizes. Walks run on as much fuel as the heap has
--     bytes, which is more than it has blocks; `kmalloc` runs on fuel, and two rounds more than there
--     are free pages are enough.
--   * kernel/src/vmm/demand_paging.c: Vmm/Fault.antt, over the areas, the page tables and the page
--     allocator.
--   * kernel/src/sync/spinlock.c and irq_spinlock.c: Sync/Spinlock.antt, as the accesses of any number
--     of processors in any order; memory is taken to be sequentially consistent.
--   * kernel/src/elf: Elf.antt (elf.c) and Elf/Loader.antt (elf_loader.c). An image is a function from
--     offsets to bytes, and a write behind the end of the block is an outcome of its own.
--   * kernel/src/terminal/terminal.c: Terminal.antt, the cells and the input line; and
--     kernel/src/drivers/keyboard.c and scancode.c: Drivers/Keyboard.antt, over the terminal.
--   * kernel/src/scheduler/task.c and context.c: Scheduler/Task.antt, over the scheduler.
--   * kernel/src/process/process.c, process_memory.c and process_heap.c: Process.antt and, for the
--     state and the pages, Process/Memory.antt, over the page tables and the scheduler. The walks
--     along the list run on fuel, and one round more than there are processes is enough.
--
-- Machine words are natural numbers with the wrap-around of the C type written out; pointers are
-- numbers, and NULL is 0. Prelude.antt holds what the parts share. The files named Tests apply the
-- theorems to concrete states.
--
-- Not modelled: printing and the assembly routines under the steps above; what only reads and writes
-- ports, registers or the frame buffer (kernel/src/cpu, hal, framebuffer, graphics, font, gui and the
-- drawing of kernel/src/terminal); and kernel/src/vmm/paging.c, kernel/src/drivers/mouse.c,
-- kernel/src/stdio, and process_loader.c, process_exec.c and process_exec_file.c of
-- kernel/src/process, which the theorems do not use.
pub mod Prelude
pub mod Mm
pub mod Vmm
pub mod Scheduler
pub mod KernelErr
pub mod Klib
pub mod Fs
pub mod Terminal
pub mod Drivers
pub mod Elf
pub mod Process
pub mod Sync
