-- ===== src/Xhci.antt =====
-- src/lib/toyos/include/toyos/xhci: the rings of transfer request blocks that an xHCI controller and its
-- driver share.
pub mod Trb
pub mod TrbRing
pub mod DebugDevice
