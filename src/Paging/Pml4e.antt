-- ===== src/Paging/Pml4e.antt =====
-- src/lib/toyos/include/toyos/pml4.hpp and src/lib/toyos/src/pml4.cpp. A setter gives the new raw
-- value and what happens to the TLB.
pub mod Setters
use guest_tests.Base.{ℕ, bit_and, bit_or, Bool, if◌then◌else◌, Option, none, some}
use guest_tests.Paging.Entry.{
  pr_mask, rw_mask, us_mask, pwt_mask, pcd_mask, a_mask, xd_mask, addr_mask, is_present, set_bits,
  times, Tlb,
}
use Tlb.{kept, non_global}

-- `pml4_entry_t`
pub record Pml4Config : Type 0 where
  pub address : ℕ
  pub present : Bool
  pub readwrite : Bool
  pub usermode : Bool
  pub pwt : Bool
  pub pcd : Bool
  pub accessed : Bool
  pub execute : Bool

-- `PML4E(config)`
unfoldable pub from_config : Pml4Config → ℕ
from_config config =
    let raw = times config.present pr_mask in
    let raw = bit_or raw (times config.readwrite rw_mask) in
    let raw = bit_or raw (times config.usermode us_mask) in
    let raw = bit_or raw (times config.pwt pwt_mask) in
    let raw = bit_or raw (times config.pcd pcd_mask) in
    let raw = bit_or raw (times config.accessed a_mask) in
    let raw = bit_or raw (times config.execute xd_mask) in
    bit_or raw (bit_and config.address addr_mask)

unfoldable pub invalidate_entry : Bool → Tlb
invalidate_entry invl = if invl then non_global else kept

unfoldable pub access_helper : Bool → ℕ → Bool → ℕ → ℕ × Tlb
access_helper value m invl raw = (set_bits raw m (times value m), invalidate_entry invl)

unfoldable pub set_present : Bool → Bool → ℕ → ℕ × Tlb
set_present pres invl raw = access_helper pres pr_mask invl raw

unfoldable pub set_writeable : Bool → Bool → ℕ → ℕ × Tlb
set_writeable wr invl raw = access_helper wr rw_mask invl raw

unfoldable pub set_usermode : Bool → Bool → ℕ → ℕ × Tlb
set_usermode mode invl raw = access_helper mode us_mask invl raw

unfoldable pub set_pwt : Bool → Bool → ℕ → ℕ × Tlb
set_pwt pwt invl raw = access_helper pwt pwt_mask invl raw

unfoldable pub set_pcd : Bool → Bool → ℕ → ℕ × Tlb
set_pcd pcd invl raw = access_helper pcd pcd_mask invl raw

unfoldable pub set_accessed : Bool → Bool → ℕ → ℕ × Tlb
set_accessed acc invl raw = access_helper acc a_mask invl raw

unfoldable pub set_exec_disable : Bool → Bool → ℕ → ℕ × Tlb
set_exec_disable exec invl raw = access_helper exec xd_mask invl raw

unfoldable pub get_pdpt : ℕ → Option ℕ
get_pdpt raw = if is_present raw then some (bit_and raw addr_mask) else none

unfoldable pub set_pdpt : ℕ → Bool → ℕ → ℕ × Tlb
set_pdpt addr invl raw = (set_bits raw addr_mask addr, invalidate_entry invl)
