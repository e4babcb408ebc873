-- ===== src/Tests.antt =====
-- Runs of the definitions on concrete inputs, and the theorems at inputs that meet their hypotheses.
mod Math
mod Interval
mod Buddy
mod SimpleBuddy
mod Queue
mod Paging
mod IntervalMap
mod RingBuffer
mod Pci
mod Strings
mod Xhci
mod ShadowReg
mod Multiboot2
mod Ioapic
mod Heaps
mod Boot
mod ArrayLockFree
mod Pic
mod MapVector
mod Segments
