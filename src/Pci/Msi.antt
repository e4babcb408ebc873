-- ===== src/Pci/Msi.antt =====
-- src/lib/toyos/include/toyos/pci/capabilities.hpp: the MSI capability. Its union is kept as the 32 bits
-- `msg_addr_hi` and the 16 bits `msg_data_64b` behind them; `msg_data` is the low half of the former.
pub mod RoundTrip
use guest_tests.Base.{
  ℕ, ◌+◌, ◌-◌, ◌*◌, ◌/◌, ◌%◌, ◌^◌, bit_and, bit_or, Bool, not, ◌==◌, if◌then◌else◌, low_mask,
}

pub record MsiCapability : Type 0 where
  pub id : ℕ
  pub next : ℕ
  pub msg_ctrl : ℕ
  pub msg_addr : ℕ
  pub msg_addr_hi : ℕ
  pub msg_data_64b : ℕ

abbrev pub is_enabled : ℕ
is_enabled = 0x1

abbrev pub order_mask : ℕ
order_mask = 0x70

abbrev pub order_shift : ℕ
order_shift = 4

abbrev pub is_64b_capable : ℕ
is_64b_capable = 0x80

abbrev pub pervector_maskable_bit : ℕ
pervector_maskable_bit = 0x100

-- `msg_ctrl & bit` as a condition.
abbrev pub has : MsiCapability → ℕ → Bool
has c bit = not (bit_and c.msg_ctrl bit == 0)

abbrev pub msg_data : MsiCapability → ℕ
msg_data c = c.msg_addr_hi % 2 ^ 16

-- The low half of `msg_addr_hi`, written.
abbrev pub set_msg_data : ℕ → MsiCapability → MsiCapability
set_msg_data value c = record c { msg_addr_hi = c.msg_addr_hi / 2 ^ 16 * 2 ^ 16 + value % 2 ^ 16 }

unfoldable pub is_64bit : MsiCapability → Bool
is_64bit c = has c is_64b_capable

unfoldable pub size : MsiCapability → ℕ
size c = if is_64bit c then 14 else 10

unfoldable pub is_pervector_maskable : MsiCapability → Bool
is_pervector_maskable c = has c pervector_maskable_bit

unfoldable pub enabled : MsiCapability → Bool
enabled c = has c is_enabled

unfoldable pub order : MsiCapability → ℕ
order c = bit_and c.msg_ctrl order_mask / 2 ^ order_shift % 2 ^ 8

unfoldable pub msi_addr : MsiCapability → ℕ
msi_addr c = if is_64bit c then bit_or (c.msg_addr_hi * 2 ^ 32) c.msg_addr else c.msg_addr

unfoldable pub msi_data : MsiCapability → ℕ
msi_data c = if is_64bit c then c.msg_data_64b else msg_data c

unfoldable pub enable : MsiCapability → MsiCapability
enable c = record c { msg_ctrl = bit_or c.msg_ctrl is_enabled }

unfoldable pub disable : MsiCapability → MsiCapability
disable c = record c { msg_ctrl = bit_and c.msg_ctrl (low_mask 16 - is_enabled) }

unfoldable pub set_order : ℕ → MsiCapability → MsiCapability
set_order order c = record c {
  msg_ctrl =
      bit_or (bit_and c.msg_ctrl (low_mask 16 - order_mask)) (order * 2 ^ order_shift) % 2 ^ 16;
}

unfoldable pub set_msi_addr : ℕ → MsiCapability → MsiCapability
set_msi_addr addr c =
    let low = record c { msg_addr = addr % 2 ^ 32 } in
    if is_64bit c then record low { msg_addr_hi = addr / 2 ^ 32 % 2 ^ 32 } else low

unfoldable pub set_msi_data : ℕ → MsiCapability → MsiCapability
set_msi_data value c =
    if is_64bit c then record c { msg_data_64b = value % 2 ^ 16 } else set_msg_data value c

-- `c = rhs`: the fields in the order in which they are copied.
unfoldable pub copy : MsiCapability → MsiCapability → MsiCapability
copy c rhs =
    let common = record c {
      id = rhs.id;
      next = rhs.next;
      msg_ctrl = rhs.msg_ctrl;
      msg_addr = rhs.msg_addr;
    } in
    if is_64bit rhs
    then record common { msg_addr_hi = rhs.msg_addr_hi; msg_data_64b = rhs.msg_data_64b }
    else set_msg_data (msg_data rhs) common
