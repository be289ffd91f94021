-- ===== src/Lib.antt =====
-- A verification library for the kernel of nekonix (kernel/).
--
-- The kernel runs on x86-64 in ring 0 with all of physical memory mapped at one offset, the higher
-- half direct map (`hhdm_offset`). Its parts, from the bottom up:
--
--   * the physical page allocator (kernel/src/mm/pmm.c) keeps a stack of free page addresses in an
--     array that it carves out of the memory map;
--   * the virtual memory manager (kernel/src/mm/vmm.c) builds four-level page tables in pages that it
--     requests from the allocator, and reads them back through the direct map;
--   * the virtual memory areas (kernel/src/mm/vma.c) are lists of regions of a page map, each in a page
--     of its own, which the heap (kernel/src/mm/liballoc) grows by;
--   * the scheduler (kernel/src/proc/scheduler.c) keeps a list of processes, each with a page map of
--     its own and the registers it was stopped with, and switches on every tick of the timer;
--   * interrupts come in through the controller (kernel/src/sys/pic.c) and the descriptor table
--     (kernel/src/sys/idt.c) to idt_handler, which runs the timer (kernel/src/main.c) and with it the
--     scheduler, the keyboard, or a system call;
--   * the device manager (kernel/src/proc/manager.c) is a table of handles, which the devices
--     kernel/src/devices/stdin.c and stdout.c fill and the system calls of kernel/src/sys/syscall.c
--     use;
--   * the loader (kernel/src/proc/elf.c) maps pages for the segments of an executable and fills them;
--   * the file system (kernel/src/dev/vfs.c) is a tree of nodes in memory, under the descriptors of
--     kernel/src/dev/hvfs.c;
--   * the archive reader (kernel/src/fs/ramfs.c) fills that tree from the archive that the boot loader
--     leaves in memory;
--   * the real-time clock (kernel/src/dev/rtc.c) packs the time of a file into a word, and the file
--     system unpacks it when it lists a directory;
--   * at the start an image is drawn on the frame buffer (kernel/src/main.c);
--   * the memory and string functions (kernel/src/lib/string.c) serve all of the above.
--
-- Where to find what (file: code):
--
--   Base, Base/*: shared names; Boolean tests on numbers, lists by native indices, machine words
--     (u8, u16, u32, u64 wrap around), the arithmetic of bit masks.
--   Pmm: pmm_request_page (request_page), pmm_free_page (free_page) and the macros of
--     kernel/include/mm/pmm.h (higher_half, physical, align_up, align_down, div_round_up).
--     Pmm/Init: pmm_init. Pmm/Pages: the free list behind the array. Pmm/Owner: clients.
--   Vmm: virt_to_phys, vmm_map (map; ensure is one level of it), vmm_unmap (unmap), vmm_new_pagemap
--     (new_pagemap), vmm_destroy_pagemap. Vmm/Entry: entries as bits. Vmm/Tree: page tables as a
--     tree. Vmm/Grow, Frames, Ensure, Map, Unmap: what one table, one level and one page add or take
--     away. Vmm/Held: pages of a client. Vmm/Space: a page map as a map from pages to frames.
--     Vmm/Init: vmm_init and pagemap_is_valid. Vmm/Range: the regions that vmm_init maps.
--     Vmm/Client: what a client of an address space does with its pages.
--   Vma: vma_create_context, vma_alloc, vma_free, vma_destroy_context, and liballoc_alloc and
--     liballoc_free of kernel/src/mm/liballoc/liballoc_wrappers.c. Vma/Regions: the search for a gap.
--     Vma/Insert, Fresh: a new region behind the last one. Vma/Place: its place and its pages.
--     Vma/Extend: the list of regions. Vma/Heap: requests of the heap.
--   Interrupts: the controller (pic_set_mask, pic_mask, pic_unmask, pic_configure,
--     pic_send_end_of_interrupt, pic_init) and the descriptor table (idt_set_gate, idt_init).
--     Interrupts/Dispatch: idt_handler, idt_irq_register, idt_irq_deregister, the handlers
--     timer_interrupt_handler and keyboard_handler, timer_init. Interrupts/Masks, Gates, Trains: one
--     line, one entry, one train of interrupts.
--   Scheduler: process_create, process_destroy, scheduler_init (init), scheduler_create_process
--     (create_process), scheduler_context_switch (context_switch; save and resume are its halves),
--     scheduler_terminate_current_process. Scheduler/Switch: one switch. Scheduler/Rounds: a round
--     of ticks. Scheduler/Exit: the end of a process. Scheduler/Launch:
--     scheduler_create_elf_process. Scheduler/Launch/Parts: what it calls.
--     Scheduler/Launch/Listed: the process that it makes.
--   Devices: the device manager and the keyboard. Devices/Manager: the table. Devices/Keyboard: keys
--     in order. Syscalls: the system call handler.
--   Vfs: vfs_create, vfs_remove, vfs_search_node, vfs_chmod, vfs_chown. Vfs/Children: the pointers of
--     siblings as a list. Vfs/Insert, Remove, Search: what the operations do to that list.
--     Vfs/Content: vfs_read and vfs_write. Vfs/Paths: vfs_init, vfs_traverse_path, vfs_lookup,
--     vfs_lookup_parent, vfs_get_path. Vfs/Lookup: lookups along a path.
--   Hvfs: hvfs_permission_check, open (open'), read, write, chmod, chown and close of
--     kernel/src/dev/hvfs.c. Hvfs/Open: a file that is opened and read. Hvfs/Transfer: a read
--     and a write that are permitted.
--   Ramfs: ramfs_init and ramfs_parse of kernel/src/fs/ramfs.c. Ramfs/Names: names of one component.
--     Ramfs/Files: a node that is made. Ramfs/Flat: archives of files in one directory. Ramfs/Entry,
--     Parse, Init: one entry, the loop over them, and the root. Ramfs/Offsets: from entry to entry.
--     Ramfs/Modes: permissions.
--   Elf: elf_load of kernel/src/proc/elf.c. Elf/Pages: what one page gets. Elf/Segments: one round of
--     the loop over pages. Elf/Rounds: the loop. Elf/Table: the table of segments. Elf/Loaded,
--     Program: one of them, and all.
--   Screen: putpixel and draw_image of kernel/src/main.c. Screen/Pixels, Rows, Image: a pixel, a row,
--     the whole image.
--   Serial: kernel/src/dev/serial_util.c and serial_putchar. Serial/Search: the port that is found.
--   Clock: the real-time clock. Clock/Stamp: packing and unpacking.
--   Strings: string.c over a memory of bytes. Strings/Copy: block moves. Strings/Terminated: walks
--     along a string. Text: strstr, strtok, strdup, strndup, strtol. Text/Content: strings as lists.
--     Text/Digits: numbers. Text/Tokens: pieces between separators.
--   The Tests files hold runs at concrete inputs.
--
-- How state is modelled. `Machine` is the allocator's stack and the memory, word by word, at the
-- addresses that the kernel uses; `pages`, the array of the stack, is kept apart from that memory,
-- and so is `table`, which holds the process structures by address. string.c has a memory by byte, and the
-- loader has both: a page that the loader requests for a segment comes zeroed in both, and a page that
-- vmm_map requests for a table only in the words. A function that changes state takes it and returns the new one. `none` is a run that dereferences a
-- null pointer, or, in Strings, Text and Vma, one that is out of fuel. In Vma a null pointer is
-- address 0 of the memory, which the kernel maps. What is printed is left out.
--
-- Bounds and fuel. Words wrap around where the source's types do. A counted loop recurs on its
-- counter. `push_pages` has a round for each page of an entry, `length / 4096 + 1`, and one more than
-- the pages changes nothing. `shift_down` has 256 rounds, MAX_PROCESSES, which is enough for a list
-- that is full. A walk along a string of k bytes needs fuel k + 1, and one along n siblings or along
-- n regions needs more than n; the theorems say so. A lookup has a round for each byte of its path, a
-- segment one for each page below its end, and an archive one for each entry and one more.
-- Addresses in Strings do not wrap around.
--
-- What is a parameter. `hhdm_offset` comes from the boot loader. Devices are handles whose functions
-- are fields. What a port of the interrupt controller gives is an argument, as are the stubs that the
-- descriptor table leads to (kernel/src/sys/idt.asm). The registers of the clock are an
-- argument, and so are the addresses that the kernel's heap hands to the file system.
--
-- What is not modelled: printing (kernel/src/lib/stdio.c stands on nanoprintf, a third-party
-- library) and diagnostics; inline assembly, cr3 and invlpg; the allocator liballoc, the
-- terminal and the boot protocol, which are third-party code; the zeros that strtok writes into the
-- archive.
pub mod Base
pub mod Pmm
pub mod Vmm
pub mod Scheduler
pub mod Strings
pub mod Devices
pub mod Syscalls
pub mod Clock
pub mod Vfs
pub mod Hvfs
pub mod Text
pub mod Interrupts
pub mod Vma
pub mod Elf
pub mod Ramfs
pub mod Screen
pub mod Serial
