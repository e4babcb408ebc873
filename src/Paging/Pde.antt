-- ===== src/Paging/Pde.antt =====
-- src/lib/toyos/include/toyos/pd.hpp and src/lib/toyos/src/pd.cpp. A setter gives its answer,
-- the new raw value and what happens to the TLB; `none` is the use of an optional without a value.
pub mod Setters
pub mod Pages
use guest_tests.Base.{
  ℕ, ◌*◌, ◌^◌, ◌%◌, bit_and, bit_or, Bool, true, false, not, ◌&&◌, if◌then◌else◌, Option, none,
  some, ◌>>=◌,
}
use guest_tests.Math.{mask, word}
use guest_tests.Paging.Entry.{
  pr_mask, rw_mask, us_mask, pwt_mask, pcd_mask, a_mask, d_mask, ps_mask, gl_mask, pat_mask,
  xd_mask, addr_mask, prot_key_mask, is_present, is_large, is_global, set_bits,
  set_bits_if_small_ps, set_bits_if_big_ps, times, Tlb, DirectoryConfig,
}
use Tlb.{kept, non_global, everything, one_page}

-- A page of 2^21 bytes: `LPAGE_SHIFT` and `LPAGE_BITS`.
abbrev pub lpage_mask : ℕ
lpage_mask = mask 31 21

-- `PDE(config)`
unfoldable pub from_config : DirectoryConfig → ℕ
from_config config =
    let raw = times config.present pr_mask in
    let raw = bit_or raw (times config.readwrite rw_mask) in
    let raw = bit_or raw (times config.usermode us_mask) in
    let raw = bit_or raw (times config.pwt pwt_mask) in
    let raw = bit_or raw (times config.pcd pcd_mask) in
    let raw = bit_or raw (times config.accessed a_mask) in
    let raw = bit_or raw (times config.dirty d_mask) in
    let raw = bit_or raw (times config.pagesize ps_mask) in
    let raw = bit_or raw (times config.global gl_mask) in
    let raw = bit_or raw (times config.pat pat_mask) in
    let raw = bit_or raw (times config.execute xd_mask) in
    let large = bit_or raw (bit_and config.address lpage_mask) in
    if config.pagesize
    then bit_or large (bit_and (config.key * 2 ^ 59 % word) prot_key_mask)
    else bit_or raw (bit_and config.address addr_mask)

unfoldable pub pde_to_pt : DirectoryConfig → ℕ
pde_to_pt config =
    from_config
      (record config { dirty = false; pagesize = false; global = false; pat = false; key = 0 })

unfoldable pub pde_to_2mb_page : DirectoryConfig → ℕ
pde_to_2mb_page config = from_config (record config { pagesize = true })

unfoldable pub get_pt : ℕ → Option ℕ
get_pt raw = if not (is_large raw) && is_present raw then some (bit_and raw addr_mask) else none

unfoldable pub get_page : ℕ → Option ℕ
get_page raw = if is_large raw && is_present raw then some (bit_and raw lpage_mask) else none

unfoldable pub invalidate_entry : Bool → ℕ → Option Tlb
invalidate_entry invl raw =
    let page = (do addr ← get_page raw; some (one_page addr)) in
    if not invl
    then some kept
    else if is_global raw
    then some everything
    else if is_large raw
    then page
    else some non_global

unfoldable pub access_helper : Bool → ℕ → Bool → ℕ → Option (ℕ × Tlb)
access_helper value m invl raw =
    let raw2 = set_bits raw m (times value m) in (do t ← invalidate_entry invl raw2; some (raw2, t))

-- What the setters share that need a page, or need a table.
unfoldable pub finish : Bool → Bool × ℕ → Option (Bool × ℕ × Tlb)
finish invl r =
    let flushed = (do t ← invalidate_entry invl r.1; some (true, r.1, t)) in
    if r.0 then flushed else some (false, r.1, kept)

unfoldable pub set_if_large : ℕ → ℕ → Bool → ℕ → Option (Bool × ℕ × Tlb)
set_if_large clr_mask set_mask invl raw = finish invl (set_bits_if_big_ps raw clr_mask set_mask)

unfoldable pub set_present : Bool → Bool → ℕ → Option (ℕ × Tlb)
set_present pres invl raw = access_helper pres pr_mask invl raw

unfoldable pub set_writeable : Bool → Bool → ℕ → Option (ℕ × Tlb)
set_writeable wr invl raw = access_helper wr rw_mask invl raw

unfoldable pub set_usermode : Bool → Bool → ℕ → Option (ℕ × Tlb)
set_usermode mode invl raw = access_helper mode us_mask invl raw

unfoldable pub set_pwt : Bool → Bool → ℕ → Option (ℕ × Tlb)
set_pwt pwt invl raw = access_helper pwt pwt_mask invl raw

unfoldable pub set_pcd : Bool → Bool → ℕ → Option (ℕ × Tlb)
set_pcd pcd invl raw = access_helper pcd pcd_mask invl raw

unfoldable pub set_accessed : Bool → Bool → ℕ → Option (ℕ × Tlb)
set_accessed acc invl raw = access_helper acc a_mask invl raw

unfoldable pub set_exec_disable : Bool → Bool → ℕ → Option (ℕ × Tlb)
set_exec_disable exec invl raw = access_helper exec xd_mask invl raw

unfoldable pub set_dirty : Bool → Bool → ℕ → Option (Bool × ℕ × Tlb)
set_dirty dirty invl raw = set_if_large d_mask (times dirty d_mask) invl raw

unfoldable pub set_global : Bool → Bool → ℕ → Option (Bool × ℕ × Tlb)
set_global global invl raw = set_if_large gl_mask (times global gl_mask) invl raw

unfoldable pub set_pat : Bool → Bool → ℕ → Option (Bool × ℕ × Tlb)
set_pat pat invl raw = set_if_large pat_mask (times pat pat_mask) invl raw

-- The key is not masked: its upper four bits leave the word, or reach XD.
unfoldable pub set_prot_key : ℕ → Bool → ℕ → Option (Bool × ℕ × Tlb)
set_prot_key key invl raw = set_if_large prot_key_mask (key * 2 ^ 59 % word) invl raw

unfoldable pub set_pt : ℕ → Bool → ℕ → Option (Bool × ℕ × Tlb)
set_pt addr invl raw = finish invl (set_bits_if_small_ps raw addr_mask addr)

unfoldable pub set_page : ℕ → Bool → ℕ → Option (Bool × ℕ × Tlb)
set_page addr invl raw = set_if_large lpage_mask addr invl raw
