-- ===== src/Lib.antt =====
-- Verification of the core of the Ych kernel: memory management, the kernel heap, timers and interrupt
-- vectors, the keyboard, and text.
--
-- The parts, and the files of the repository they follow:
--   * Krtl: `Krtl.Mem` is the memory helpers of Kernel/Source/KRTL/Krnlmem.c and Krnlmem.asm,
--     `Krtl.Text` the text of numbers of Kernel/Source/KRTL/Krnlstring.c and `Krtl.Text.Format` its
--     format strings, whose variable arguments are a list. A memory is a function from addresses to
--     bytes.
--   * Arena: the bump allocator of Kernel/Source/Memory/BootstrapArena.c, which serves the bitmaps of
--     the physical memory manager.
--   * Physmem: the physical memory manager, Kernel/Source/Memory/Physmemmgmt.c and its header.
--     `Physmem` holds the state (`KrPhysmemmgmtState` is `Pmm`) and the queries; `Physmem.Bitmap` is
--     `KrSetPhysicalPageStatus`; `Physmem.Hunt` is the search of `PmAcquirePages`, the loops behind
--     its label `Hunt`; `Physmem.Acquire` is the rest of it and `PmAcquirePage`; `Physmem.Release` is
--     `PmRelinquishPage` and `KrReservePhysicalPage`; `Physmem.Init` is `KrInitPhysmemmgmt` and
--     `KrInitPhysMetaArray`. `Physmem.State` states the invariant, `Physmem.Steps` the sequences of
--     operations. A bitmap is a function from byte index and bit to a Boolean, the metadata a function
--     from page ids. The spinlock makes each call one step of the relation.
--   * Keyboard: `Keyboard.Codes`, `Keyboard.Tables` and `Keyboard.Names` are the key codes, scancodes
--     and the translations between them (Kernel/Include/HumanInterface/Keycodes.h,
--     Kernel/Source/Devdriv/Keyboard/PS2Scancodes.h, Kernel/Source/HumanInterface/Keycodes.c);
--     `Keyboard.Handler` is the interrupt handler of Kernel/Source/Devdriv/Keyboard/PS2Keyboard.c as a
--     function of the byte at the data port, one field for each flag of `Listen`; `Keyboard.Hub` is
--     the ring that it pushes to, Kernel/Source/HumanInterface/KeyboardHub.c.
--   * Pte: page-table entries and virtual addresses, Kernel/Source/Memory/PTE.c, and the selection of
--     a memory type, Kernel/Source/CPU/PAT.c. `Pte.Structs` is `PteGetPageStruct` and
--     `PteGetOrAcquirePageStruct`, over 64-bit words by virtual address and the physical memory
--     manager.
--   * Memmap: the canonical memory map, the second half of `KrInitMemmap` in
--     Kernel/Source/Init/KrInitMemmap.c, which `KrInitPhysmemmgmt` reads; `Memmap.Sort` is the sorting
--     of the firmware's map in its first half.
--   * Vmm: the regions of an address space, Kernel/Source/Memory/Virtmemmgmt.c. The doubly linked
--     list is its links by the addresses of the nodes, beside the list of the regions, in which a
--     position is an index; the node that the node allocator returns is an argument. `Vmm.Linked` is
--     about the links.
--     `Vmm.Nodes` is that allocator, Kernel/Source/Memory/PrivateVMM/RegionNodeAllocator.h, over the
--     physical memory manager; `Vmm.Mapping` is `VmMapStatic`, over the page structures of `Pte`;
--     `Vmm.Kernel` is `KrInitKrnlAddrSpace`.
--   * Heap: the kernel heap, Kernel/Source/Memory/Krnlheap.c, over a store of headers by address and
--     one of offset words. `Heap.Chain` states the list of blocks that the headers are.
--   * Mmio: the addresses for the registers of devices, Kernel/Source/Memory/MMIO.c, over `Vmm`.
--   * Display: text on the frame buffer, Kernel/Source/Earlyvideo/DisplaywideTextProtocol.c;
--     `Display.Formatted` is `KrdwtpOutFormatTextVariadic`. Both frame buffers are in one memory, and
--     characters are below 128.
--   * Timers: the queues of timers of a processor, `SetTimer` and `Sleep` of
--     Kernel/Source/CPU/PerCpu.c and the timer interrupt of Kernel/Source/Intmgmt/Timer.c. What a
--     callback does to the queues is an argument.
--   * Vectors: the interrupt tables of the processors in Kernel/Source/CPU/PerCpu.c, the dispatch of
--     Kernel/Source/CPU/Interrupt.c, and the distribution of IRQs, Kernel/Source/Intmgmt/IRQAldist.c.
--   * Tests: runs on concrete inputs, and the theorems at such inputs.
--   * Prelude: the shared names, lists and tests over the native numbers, and `&` and `|` on disjoint
--     fields as arithmetic.
--
-- Numbers are natural numbers with the wrap-around of their C type written out where the code can
-- reach it. Loops are structural recursions on the rounds that are left: a byte has eight bits and
-- a bitmap its number of bytes; the range write and the runs of a request recurse on the number of
-- pages that is left, of which each round takes at least one. The digits of a 64-bit number and
-- their reversal take at most 64 rounds, and the sorting and the canonical map as many as the map
-- has descriptors. The walk over the headers of the heap has a round for every header that its
-- region has room for, the chain of node pages one for every page, the mapping one for every 4096
-- bytes of a region and two more, the table of a processor one for every vector from 32 on, and the offers one
-- for every retry. A string is read for at most `string_fuel` bytes.
--
-- Not modelled: spinning on a lock and interleavings inside a call, the registration of the
-- keyboard with its controller, the direct map, interrupt controllers, devices and drivers, ACPI,
-- the processor's registers and tables, the fonts, the boot loader and the image tools. A read
-- outside a table is `none`; a meltdown is an outcome of its own, and so is a fault of the heap.
-- On the display a division by 0 and a wait for the own lock are `none`, and in the mapping a loop that
-- is not at its end after its rounds.
pub mod Prelude
pub mod Krtl
pub mod Arena
pub mod Physmem
pub mod Memmap
pub mod Keyboard
pub mod Pte
pub mod Vmm
pub mod Heap
pub mod Mmio
pub mod Display
pub mod Timers
pub mod Vectors
pub mod Tests
