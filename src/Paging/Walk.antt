-- ===== src/Paging/Walk.antt =====
-- src/lib/toyos/src/mm.cpp and src/lib/toyos/include/toyos/mm.hpp: the walk through the paging
-- structures. `mem` gives the 64-bit word at a linear address, and `cr3` is the register; `none` is
-- PANIC_ON or the use of an optional without a value.
pub mod Levels
pub mod Translation
use guest_tests.Base.{
  ℕ, ◌+◌, ◌*◌, ◌/◌, ◌^◌, ◌%◌, bit_and, bit_or, Bool, not, if◌then◌else◌, Option, none, some, ◌>>=◌,
  ◌>>◌, assert,
}
use guest_tests.Math.{mask, word, complement}
use guest_tests.Paging.Entry.{is_large, is_present}
use guest_tests.Paging.Pml4e
use guest_tests.Paging.Pdpte
use guest_tests.Paging.Pde
use guest_tests.Paging.Pte

-- `paging_level`
pub data PagingLevel : Type 0 where
  pte : PagingLevel
  pde : PagingLevel
  pdpte : PagingLevel

abbrev pub pml4_mask : ℕ
pml4_mask = mask 40 12

unfoldable pub pml4_offset : ℕ → ℕ
pml4_offset lin_addr = bit_and lin_addr (mask 9 39) / 2 ^ 39

unfoldable pub pdpt_offset : ℕ → ℕ
pdpt_offset lin_addr = bit_and lin_addr (mask 9 30) / 2 ^ 30

unfoldable pub pd_offset : ℕ → ℕ
pd_offset lin_addr = bit_and lin_addr (mask 9 21) / 2 ^ 21

unfoldable pub pt_offset : ℕ → ℕ
pt_offset lin_addr = bit_and lin_addr (mask 9 12) / 2 ^ 12

-- The bits that the `switch` of `phys_offset` adds up, as it falls through.
unfoldable pub offset_bits : PagingLevel → ℕ
offset_bits PagingLevel.pdpte = 9 + 9 + 12
offset_bits PagingLevel.pde = 9 + 12
offset_bits PagingLevel.pte = 12

unfoldable pub phys_offset : ℕ → PagingLevel → ℕ
phys_offset lin_addr level = bit_and lin_addr (mask (offset_bits level) 0) / 2 ^ 0

unfoldable pub phy_to_lin : ℕ → ℕ
phy_to_lin phy_addr = phy_addr

-- `set_pml4`: the new value of cr3.
unfoldable pub set_pml4 : (cr3 pml4 : ℕ) → ℕ
set_pml4 cr3 pml4 = bit_or (bit_and cr3 (complement pml4_mask)) (bit_and pml4 pml4_mask)

module _ (mem : ℕ → ℕ) (cr3 : ℕ) where
  -- The entry with an index in the table at `base`.
  unfoldable pub entry_at : ℕ → ℕ → ℕ
  entry_at base index = mem ((base + 8 * index) % word)

  unfoldable pub pml4 : ℕ
  pml4 = phy_to_lin (bit_and cr3 pml4_mask)

  unfoldable pub pml4_entry : ℕ → ℕ
  pml4_entry lin_addr = entry_at pml4 (pml4_offset lin_addr)

  unfoldable pub pdpt : ℕ → Option ℕ
  pdpt lin_addr = do addr ← Pml4e.get_pdpt (pml4_entry lin_addr); some (phy_to_lin addr)

  unfoldable pub pdpt_entry : ℕ → Option ℕ
  pdpt_entry lin_addr = do table ← pdpt lin_addr; some (entry_at table (pdpt_offset lin_addr))

  unfoldable pub pd : ℕ → Option ℕ
  pd lin_addr = do
    entry ← pdpt_entry lin_addr
    assert (not (is_large entry))
    addr ← Pdpte.get_pdir entry
    some (phy_to_lin addr)

  unfoldable pub pd_entry : ℕ → Option ℕ
  pd_entry lin_addr = do table ← pd lin_addr; some (entry_at table (pd_offset lin_addr))

  unfoldable pub pt : ℕ → Option ℕ
  pt lin_addr = do
    entry ← pd_entry lin_addr
    assert (not (is_large entry))
    addr ← Pde.get_pt entry
    some (phy_to_lin addr)

  unfoldable pub pt_entry : ℕ → Option ℕ
  pt_entry lin_addr = do table ← pt lin_addr; some (entry_at table (pt_offset lin_addr))

  unfoldable pub lin_to_phys : ℕ → Option ℕ
  lin_to_phys lin_addr =
      let small = (do
        entry ← pt_entry lin_addr
        page ← Pte.get_phys_addr entry
        some (bit_or page (phys_offset lin_addr PagingLevel.pte))) in
      let lower = pd_entry lin_addr >>= (λ entry.
        let large =
          Pde.get_page entry
          >>= (λ page. some (bit_or page (phys_offset lin_addr PagingLevel.pde))) in
        if is_large entry then large else small) in
      pdpt_entry lin_addr >>= (λ entry.
        let huge =
          Pdpte.get_page entry
          >>= (λ page. some (bit_or page (phys_offset lin_addr PagingLevel.pdpte))) in
        if is_large entry then huge else lower)
