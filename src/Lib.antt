-- ===== src/Lib.antt =====
-- The toyos kernel library of the guest tests, modelled and verified.
--
-- The guest tests are small kernels that boot on a machine or in a virtual machine and report what
-- they find. They stand on a freestanding C++ library, src/lib/toyos, whose core logic is modelled
-- here: 64-bit arithmetic helpers, intervals and ranges, memory allocators, containers and the
-- paging structures. Sizes and addresses are native natural numbers below 2 ^ 64 with the wrap of
-- the C++ type written out; a failed ASSERT, PANIC_ON or an exception of the C++ library is `none`
-- (Base/Panic.antt). Loops are recursion on the rounds that are left; where the code gives no such
-- count they take fuel, and a theorem shows how much is enough.
--
-- Base        lists, tests, binary digits and multiples of powers of two, shared by all parts
-- Math        src/lib/toyos/include/toyos/util/math.hpp
-- Interval    src/lib/toyos/include/toyos/util/interval.hpp
-- OrderRange  src/lib/toyos/include/toyos/util/order_range.hpp: a range is cut into aligned pieces;
--             fuel above the size of the range is enough, since each piece takes a byte or more
-- OrderedSet  std::set<uintptr_t> of the C++ library, as ascending lists
-- Buddy       src/lib/toyos/include/toyos/memory/buddy.hpp: heap_block_manager (get_free,
--             split_free, merge_free, mark_used, add_free), buddy_impl (alloc, free) and
--             buddy_reclaim_range; merging takes max_ord - order + 1 rounds at most
-- SplittingBuddy  src/lib/toyos/include/toyos/memory/splitting_buddy.hpp
-- SimpleBuddy  src/lib/toyos/include/toyos/memory/simple_buddy.hpp; what its function for more memory
--             answers is a parameter of alloc
-- LockFreeQueue  src/lib/toyos/include/toyos/util/lock_free_queue.hpp and lock_free_queue_def.h:
--             Fifo and Bounded take its operations one by one, Spsc and Interleaving take one
--             producer and one consumer apart at their atomic accesses
-- IntervalMap  src/lib/toyos/include/toyos/util/interval_map.hpp: iterators are indices of the vector
-- MapVector   src/lib/toyos/include/toyos/util/map.hpp: map_vector, with indices for iterators
-- Multiboot2  src/lib/toyos/include/toyos/multiboot2: the builder of the boot information and its
--             reader; Header is locate_header. A search takes a round for each tag up to the one it
--             finds, and two more than there are tags if it finds none
-- Ioapic      src/lib/toyos/include/toyos/testhelper/ioapic.hpp, with the loop of src/boot.cpp that
--             masks the entries; the device is a parameter, a record of its registers and of the bits that
--             they keep
-- Pic         src/lib/toyos/include/toyos/testhelper/pic.hpp; the state is the masks of both
--             controllers. unmask calls itself at most once
-- Heaps       the operators new and delete of src/lib/toyos/src/boot.cpp over SimpleBuddy and the
--             contributed first fit heap, which is a parameter; so is what the nodes of the sets of
--             SimpleBuddy take from it
-- ArrayLockFree  src/lib/toyos/include/toyos/util/array_lock_free.hpp: Laws takes its operations one by
--             one, Threads takes the insertions of any number of threads apart, each once
-- Boot        the command line of entry64 in src/lib/toyos/src/boot.cpp, and the searches of
--             include/toyos/acpi.hpp in memory, which is a function from addresses to bytes
-- Segments    gdt_entry of src/lib/toyos/include/toyos/x86/segmentation.hpp, and what init_tss of
--             src/lib/toyos/src/boot.cpp stores in it
-- ShadowReg   src/lib/toyos/include/toyos/util/shadow_reg.hpp and buffer_view.hpp; a register is the
--             list of its bytes. What acquires its host resource is a callback and is left out.
-- Strings     src/lib/toyos/src/string_util.cpp and include/toyos/util/algorithm.hpp; a string is a
--             list of codes, and one round more than it has characters is enough for split
-- Pci         src/lib/toyos/include/toyos/pci: Bdf is bdf.hpp, Bus is bus.hpp, where the loop takes a
--             round for each function, Device is device.hpp, where a search takes a round for each
--             capability and a list of capabilities that runs in a circle never ends, Msi and Msix are
--             capabilities.hpp and msix_entry.hpp, Bar is bar.hpp
-- Xhci        src/lib/toyos: Trb and TrbRing are include/toyos/xhci/trb.hpp and ring.hpp, where a
--             pointer is the index of its block; DebugDevice is the event loop and the output of
--             src/xhci/debug_device.cpp and debug_device_transfers.cpp. Looking for the written blocks
--             takes a lap at most, and the event loop a round for each
-- RingBuffer  src/lib/toyos/include/toyos/util/simple_ring_buffer.hpp
-- Paging      src/lib/toyos: Entry is include/toyos/page_table_base.hpp and
--             paging_directory_entry_base.hpp; Pml4e, Pdpte, Pde and Pte are src/pml4.cpp, pdpt.cpp,
--             pd.cpp and pt.cpp with their headers; Walk is src/mm.cpp. An entry is its raw value, and
--             a flush of the TLB is a value beside the result
--
-- Not modelled: privileged instructions, ports and devices (the local APIC, timers, the registers of
-- xHCI, VMX), the firmware tables but the RSDP, the RSDT and the MCFG, printing, the test cases and the
-- contributed libraries. Of the writes to control registers only the value or the choice is
-- modelled. The lock free queue and the lock free array are interleaved under sequential consistency,
-- which is the order their code asks for.
pub mod Base
pub mod Math
pub mod Pic
pub mod ArrayLockFree
pub mod Boot
pub mod Heaps
pub mod Ioapic
pub mod MapVector
pub mod Multiboot2
pub mod Interval
pub mod OrderRange
pub mod OrderedSet
pub mod Buddy
pub mod SplittingBuddy
pub mod LockFreeQueue
pub mod Paging
pub mod IntervalMap
pub mod RingBuffer
pub mod Pci
pub mod Segments
pub mod ShadowReg
pub mod SimpleBuddy
pub mod Strings
pub mod Xhci
mod Tests
