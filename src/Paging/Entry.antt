-- ===== src/Paging/Entry.antt =====
-- src/lib/toyos/include/toyos/page_table_base.hpp and paging_directory_entry_base.hpp: what all paging
-- entries have in common. An entry is its raw 64-bit value. The compare-and-exchange loop of
-- `set_bits` stores what it has computed from the value that it replaces; that exchange is one step.
use guest_tests.Base.{
  ℕ, ◌/◌, ◌^◌, ◌%◌, bit_and, bit_or, Bool, true, false, not, ◌&&◌, ◌==◌, if◌then◌else◌, Option,
  none, some,
}
use guest_tests.Math.{mask, complement}

abbrev pub addr_bits : ℕ
addr_bits = 40

abbrev pub pr_mask : ℕ
pr_mask = mask 1 0

abbrev pub rw_mask : ℕ
rw_mask = mask 1 1

abbrev pub us_mask : ℕ
us_mask = mask 1 2

abbrev pub pwt_mask : ℕ
pwt_mask = mask 1 3

abbrev pub pcd_mask : ℕ
pcd_mask = mask 1 4

abbrev pub a_mask : ℕ
a_mask = mask 1 5

abbrev pub addr_mask : ℕ
addr_mask = mask addr_bits 12

abbrev pub xd_mask : ℕ
xd_mask = mask 1 63

-- `raw & m` as a condition.
abbrev pub has : ℕ → ℕ → Bool
has raw m = not (bit_and raw m == 0)

unfoldable pub is_present : ℕ → Bool
is_present raw = has raw pr_mask

unfoldable pub is_writeable : ℕ → Bool
is_writeable raw = is_present raw && has raw rw_mask

unfoldable pub is_usermode : ℕ → Bool
is_usermode raw = is_present raw && has raw us_mask

unfoldable pub is_pwt : ℕ → Bool
is_pwt raw = is_present raw && has raw pwt_mask

unfoldable pub is_pcd : ℕ → Bool
is_pcd raw = is_present raw && has raw pcd_mask

unfoldable pub is_accessed : ℕ → Bool
is_accessed raw = is_present raw && has raw a_mask

unfoldable pub is_exec_disable : ℕ → Bool
is_exec_disable raw = is_present raw && has raw xd_mask

unfoldable pub set_bits : ℕ → ℕ → ℕ → ℕ
set_bits raw clr_mask set_mask = bit_or (bit_and raw (complement clr_mask)) set_mask

-- A `bool` as a factor.
abbrev pub times : Bool → ℕ → ℕ
times value m = if value then m else 0

-- The entries of directories: `paging_directory_entry_base`.
abbrev pub d_mask : ℕ
d_mask = mask 1 6

abbrev pub ps_mask : ℕ
ps_mask = mask 1 7

abbrev pub gl_mask : ℕ
gl_mask = mask 1 8

abbrev pub pat_mask : ℕ
pat_mask = mask 1 12

abbrev pub prot_key_mask : ℕ
prot_key_mask = mask 4 59

unfoldable pub is_large : ℕ → Bool
is_large raw = is_present raw && has raw ps_mask

unfoldable pub is_dirty : ℕ → Bool
is_dirty raw = is_large raw && has raw d_mask

unfoldable pub is_global : ℕ → Bool
is_global raw = is_large raw && has raw gl_mask

unfoldable pub is_pat : ℕ → Bool
is_pat raw = is_large raw && has raw pat_mask

unfoldable pub get_prot_key : ℕ → Option ℕ
get_prot_key raw =
    if is_large raw && is_present raw
    then some (bit_and raw prot_key_mask / 2 ^ 59 % 2 ^ 8)
    else none

-- The answer and the raw value behind `set_bits_if_small_ps` and `set_bits_if_big_ps`.
unfoldable pub set_bits_if_small_ps : ℕ → ℕ → ℕ → Bool × ℕ
set_bits_if_small_ps raw clr_mask set_mask =
    if not (is_large raw) then (true, set_bits raw clr_mask set_mask) else (false, raw)

unfoldable pub set_bits_if_big_ps : ℕ → ℕ → ℕ → Bool × ℕ
set_bits_if_big_ps raw clr_mask set_mask =
    if is_large raw then (true, set_bits raw clr_mask set_mask) else (false, raw)

-- `paging_directory_entry_t`
pub record DirectoryConfig : Type 0 where
  pub address : ℕ
  pub present : Bool
  pub readwrite : Bool
  pub usermode : Bool
  pub pwt : Bool
  pub pcd : Bool
  pub accessed : Bool
  pub dirty : Bool
  pub pagesize : Bool
  pub global : Bool
  pub pat : Bool
  pub key : ℕ
  pub execute : Bool

-- What the memory manager does to the TLB: the calls of `invalidate_entry`.
pub data Tlb : Type 0 where
  kept : Tlb
  -- `invalidate_tlb_non_global`
  non_global : Tlb
  -- `invalidate_tlb_all`
  everything : Tlb
  -- `invalidate_tlb(addr)`
  one_page : ℕ → Tlb
