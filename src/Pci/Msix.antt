-- ===== src/Pci/Msix.antt =====
-- src/lib/toyos/include/toyos/pci: the MSI-X and SR-IOV capabilities of capabilities.hpp, and the
-- entries of an MSI-X table of msix_entry.hpp.
use guest_tests.Base.{
  ℕ, ◌+◌, ◌-◌, ◌*◌, ◌/◌, ◌%◌, ◌^◌, bit_and, bit_or, Bool, not, ◌&&◌, ◌==◌, low_mask,
}
use guest_tests.Math.{mask, complement}

pub record MsixCapability : Type 0 where
  pub id : ℕ
  pub next : ℕ
  pub msg_ctrl : ℕ
  pub offset_table : ℕ
  pub offset_pba : ℕ

abbrev pub is_enabled : ℕ
is_enabled = 2 ^ 15

abbrev pub bar_mask : ℕ
bar_mask = mask 3 0

abbrev pub tbl_size_mask : ℕ
tbl_size_mask = mask 11 0

unfoldable pub enabled : MsixCapability → Bool
enabled c = not (bit_and c.msg_ctrl is_enabled == 0)

unfoldable pub table_bar : MsixCapability → ℕ
table_bar c = bit_and c.offset_table bar_mask % 2 ^ 8

unfoldable pub table_offset : MsixCapability → ℕ
table_offset c = bit_and c.offset_table (complement bar_mask)

unfoldable pub table_entries : MsixCapability → ℕ
table_entries c = bit_and c.msg_ctrl tbl_size_mask + 1

-- An entry takes 16 bytes.
unfoldable pub table_size : MsixCapability → ℕ
table_size c = table_entries c * 16

unfoldable pub enable : MsixCapability → MsixCapability
enable c = record c { msg_ctrl = bit_or c.msg_ctrl is_enabled }

unfoldable pub disable : MsixCapability → MsixCapability
disable c = record c { msg_ctrl = bit_and c.msg_ctrl (low_mask 16 - is_enabled) }

unfoldable pub copy : MsixCapability → MsixCapability → MsixCapability
copy c rhs = record c {
  id = rhs.id;
  next = rhs.next;
  msg_ctrl = rhs.msg_ctrl;
  offset_table = rhs.offset_table;
  offset_pba = rhs.offset_pba;
}

-- `sriov_control & VF_ENABLED`
unfoldable pub vf_enabled : ℕ → Bool
vf_enabled sriov_control = not (bit_and sriov_control (2 ^ 0) == 0)

pub record MsixEntry : Type 0 where
  pub msg_addr : ℕ
  pub msg_addr_hi : ℕ
  pub msg_data : ℕ
  pub ctrl : ℕ

abbrev pub is_masked : ℕ
is_masked = 0x1

unfoldable pub msix_entry : MsixEntry
msix_entry = record { msg_addr = 0; msg_addr_hi = 0; msg_data = 0; ctrl = is_masked }

unfoldable pub masked : MsixEntry → Bool
masked e = not (bit_and e.ctrl is_masked == 0)

unfoldable pub msi_address : MsixEntry → ℕ
msi_address e = bit_or (e.msg_addr_hi * 2 ^ 32) e.msg_addr

unfoldable pub mask_entry : MsixEntry → MsixEntry
mask_entry e = record e { ctrl = bit_or e.ctrl is_masked }

unfoldable pub unmask : MsixEntry → MsixEntry
unmask e = record e { ctrl = bit_and e.ctrl (low_mask 32 - is_masked) }

unfoldable pub set_msi_address : ℕ → MsixEntry → MsixEntry
set_msi_address addr e = record e { msg_addr = addr % 2 ^ 32; msg_addr_hi = addr / 2 ^ 32 % 2 ^ 32 }

unfoldable pub set_entry_data : ℕ → MsixEntry → MsixEntry
set_entry_data value e = record e { msg_data = value % 2 ^ 32 }

unfoldable pub equals : MsixEntry → MsixEntry → Bool
equals e o =
    e.msg_addr == o.msg_addr
    && e.msg_addr_hi == o.msg_addr_hi
    && e.msg_data == o.msg_data
    && e.ctrl == o.ctrl
