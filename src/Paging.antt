-- ===== src/Paging.antt =====
-- src/lib/toyos: the paging structures and the walk through them (page_table_base.hpp,
-- paging_directory_entry_base.hpp, pml4, pdpt, pd, pt and mm).
pub mod Entry
pub mod Fields
pub mod Pml4e
pub mod Pdpte
pub mod Pde
pub mod Pte
pub mod Walk
