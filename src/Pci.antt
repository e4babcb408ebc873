-- ===== src/Pci.antt =====
-- src/lib/toyos/include/toyos/pci: addresses of functions on the bus, the scan for them, their base
-- address registers and their capabilities. The configuration space is a parameter.
pub mod Bdf
pub mod Device
pub mod Bus
pub mod Msi
pub mod Msix
pub mod Bar
