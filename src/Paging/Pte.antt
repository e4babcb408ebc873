-- ===== src/Paging/Pte.antt =====
-- src/lib/toyos/include/toyos/pt.hpp and src/lib/toyos/src/pt.cpp. A setter gives the new raw value
-- and what happens to the TLB; `none` is the use of an optional without a value.
pub mod Setters
use guest_tests.Base.{
  ℕ, ◌*◌, ◌/◌, ◌^◌, ◌%◌, bit_and, bit_or, Bool, not, ◌&&◌, if◌then◌else◌, Option, none, some, ◌>>=◌,
}
use guest_tests.Math.{mask, word}
use guest_tests.Paging.Entry.{
  pr_mask, rw_mask, us_mask, pwt_mask, pcd_mask, a_mask, xd_mask, addr_mask, is_present, has,
  set_bits, times, Tlb,
}
use Tlb.{kept, everything, one_page}

abbrev pub d_mask : ℕ
d_mask = mask 1 6

abbrev pub pat_mask : ℕ
pat_mask = mask 1 7

abbrev pub gl_mask : ℕ
gl_mask = mask 1 8

abbrev pub prot_key_mask : ℕ
prot_key_mask = mask 4 59

-- `pt_entry_t`
pub record PtConfig : Type 0 where
  pub address : ℕ
  pub present : Bool
  pub readwrite : Bool
  pub usermode : Bool
  pub pwt : Bool
  pub pcd : Bool
  pub accessed : Bool
  pub dirty : Bool
  pub pat : Bool
  pub global : Bool
  pub key : ℕ
  pub execute : Bool

-- `PTE(config)`
unfoldable pub from_config : PtConfig → ℕ
from_config config =
    let raw = times config.present pr_mask in
    let raw = bit_or raw (times config.readwrite rw_mask) in
    let raw = bit_or raw (times config.usermode us_mask) in
    let raw = bit_or raw (times config.pwt pwt_mask) in
    let raw = bit_or raw (times config.pcd pcd_mask) in
    let raw = bit_or raw (times config.accessed a_mask) in
    let raw = bit_or raw (times config.dirty d_mask) in
    let raw = bit_or raw (times config.pat pat_mask) in
    let raw = bit_or raw (times config.global gl_mask) in
    let raw = bit_or raw (times config.execute xd_mask) in
    let raw = bit_or raw (bit_and config.address addr_mask) in
    bit_or raw (bit_and (config.key * 2 ^ 59 % word) prot_key_mask)

unfoldable pub is_dirty : ℕ → Bool
is_dirty raw = is_present raw && has raw d_mask

unfoldable pub is_pat : ℕ → Bool
is_pat raw = is_present raw && has raw pat_mask

unfoldable pub is_global : ℕ → Bool
is_global raw = is_present raw && has raw gl_mask

unfoldable pub get_phys_addr : ℕ → Option ℕ
get_phys_addr raw = if is_present raw then some (bit_and raw addr_mask) else none

unfoldable pub get_prot_key : ℕ → Option ℕ
get_prot_key raw =
    if is_present raw then some (bit_and raw prot_key_mask / 2 ^ 59 % 2 ^ 8) else none

unfoldable pub invalidate_entry : Bool → ℕ → Option Tlb
invalidate_entry invl raw =
    let page = (do addr ← get_phys_addr raw; some (one_page addr)) in
    if not invl then some kept else if is_global raw then some everything else page

unfoldable pub access_helper : Bool → ℕ → Bool → ℕ → Option (ℕ × Tlb)
access_helper value m invl raw =
    let raw2 = set_bits raw m (times value m) in (do t ← invalidate_entry invl raw2; some (raw2, t))

unfoldable pub set_present : Bool → Bool → ℕ → Option (ℕ × Tlb)
set_present pres invl raw = access_helper pres pr_mask invl raw

unfoldable pub set_writeable : Bool → Bool → ℕ → Option (ℕ × Tlb)
set_writeable wr invl raw = access_helper wr rw_mask invl raw

unfoldable pub set_usermode : Bool → Bool → ℕ → Option (ℕ × Tlb)
set_usermode mode invl raw = access_helper mode us_mask invl raw

unfoldable pub set_pwt : Bool → Bool → ℕ → Option (ℕ × Tlb)
set_pwt pwt invl raw = access_helper pwt pwt_mask invl raw

unfoldable pub set_pcd : Bool → Bool → ℕ → Option (ℕ × Tlb)
set_pcd pcd invl raw = access_helper pcd pcd_mask invl raw

unfoldable pub set_accessed : Bool → Bool → ℕ → Option (ℕ × Tlb)
set_accessed acc invl raw = access_helper acc a_mask invl raw

unfoldable pub set_exec_disable : Bool → Bool → ℕ → Option (ℕ × Tlb)
set_exec_disable exec invl raw = access_helper exec xd_mask invl raw

unfoldable pub set_dirty : Bool → Bool → ℕ → Option (ℕ × Tlb)
set_dirty dirty invl raw = access_helper dirty d_mask invl raw

unfoldable pub set_pat : Bool → Bool → ℕ → Option (ℕ × Tlb)
set_pat pat invl raw = access_helper pat pat_mask invl raw

unfoldable pub set_global : Bool → Bool → ℕ → Option (ℕ × Tlb)
set_global global invl raw = access_helper global gl_mask invl raw

unfoldable pub set_phys_addr : ℕ → Bool → ℕ → Option (ℕ × Tlb)
set_phys_addr addr invl raw =
    let raw2 = set_bits raw addr_mask addr in (do t ← invalidate_entry invl raw2; some (raw2, t))

-- The key is not masked: its upper four bits leave the word, or reach XD.
unfoldable pub set_prot_key : ℕ → Bool → ℕ → Option (ℕ × Tlb)
set_prot_key key invl raw =
    let raw2 = set_bits raw prot_key_mask (key * 2 ^ 59 % word) in
    (do t ← invalidate_entry invl raw2; some (raw2, t))
