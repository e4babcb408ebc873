-- ===== src/Paging/Pdpte/Pages.antt =====
-- The setters of src/lib/toyos/src/pdpt.cpp that need an entry for a page, or one for a table.
use guest_tests.Base.{
  ℕ, ◌<◌, ◌*◌, ◌^◌, refl, arith, Bool, List, [], ◌∷◌, All, Option, Bool-cases, inl, inr,
}
use guest_tests.Math.{mask, word}
use native.Mathlib.Nat.{mod-eq_of_lt}
use guest_tests.Paging.Entry.{
  Tlb, times, set_bits, is_large, set_bits_if_big_ps, set_bits_if_small_ps, addr_mask,
}
use guest_tests.Paging.Fields.{Replaced, flag-Replaced, set_bits-Replaced, OnPage, OnTable}
use guest_tests.Paging.Pdpte.{
  finish, set_if_large, set_dirty, set_global, set_pat, set_prot_key, set_page, set_pdir,
}
use guest_tests.Paging.Pdpte.Setters.{invalidate_entry-some}

-- A store that replaces a field, made only in an entry for a page.
set_if_large-OnPage :
    (s b w m new : ℕ) (invl : Bool) (raw : ℕ)
    → Replaced s b w raw (set_bits raw m new)
    → OnPage s b w raw (set_if_large m new invl raw)
unfolding set_if_large finish set_bits_if_big_ps
set_if_large-OnPage s b w m new invl raw r = elim (Bool-cases (is_large raw)) [
  | inl large ↦
      let (t, flushed) = invalidate_entry-some invl (set_bits raw m new) in
      rw (large, flushed) (OnPage.on_page (set_bits raw m new) t large r)
  | inr small ↦ rw small (OnPage.no_page small)
]

-- The setters of flags of a page, each with its bit.
abbrev pub pdpte_page_setters : List ((Bool → Bool → ℕ → Option (Bool × ℕ × Tlb)) × ℕ)
pdpte_page_setters = (set_dirty, 6) ∷ (set_global, 8) ∷ (set_pat, 12) ∷ []

pub SetsPageFlag : (Bool → Bool → ℕ → Option (Bool × ℕ × Tlb)) × ℕ → Type 0
SetsPageFlag (f, k) =
    (value invl : Bool) (raw : ℕ) → OnPage k 1 (times value 1) raw (f value invl raw)

-- Every setter of a flag of a page answers false and changes nothing if the PDPT entry does not
-- map a page; else it answers true, stores the value in the bit of its flag and leaves all other bits
-- as they were.
pub pdpte_page_setters-SetsPageFlag : All SetsPageFlag pdpte_page_setters
unfolding SetsPageFlag set_dirty set_global set_pat mask
pdpte_page_setters-SetsPageFlag = (
  λ value invl raw.
      set_if_large-OnPage 6 1 _ _ _ invl raw (flag-Replaced 6 raw _ value (omega arith) refl),
  (
    λ value invl raw.
        set_if_large-OnPage 8 1 _ _ _ invl raw (flag-Replaced 8 raw _ value (omega arith) refl),
    (
      λ value invl raw.
          set_if_large-OnPage 12 1 _ _ _ invl raw (flag-Replaced 12 raw _ value (omega arith) refl),
      tt,
    ),
  ),
)

-- For a key of four bits, set_prot_key answers false and changes nothing if the PDPT entry does
-- not map a page; else it answers true, stores the key in the four bits from 59 on and leaves all other
-- bits as they were.
pub set_prot_key-OnPage_1gb :
    (key : ℕ) (invl : Bool) (raw : ℕ) → key < 16 → OnPage 59 4 key raw (set_prot_key key invl raw)
unfolding set_prot_key mask
set_prot_key-OnPage_1gb key invl raw h = set_if_large-OnPage 59 4 key _ _ invl raw (
    rw (mod-eq_of_lt {n = key * 2 ^ 59} {m = word} (omega (arith, h)))
      (set_bits-Replaced 59 4 key raw (omega arith) (omega (arith, h))))

-- For the address of a page within 52 bits, set_page answers false and changes nothing if the
-- PDPT entry does not map a page; else it answers true, stores the address in its field and
-- leaves all other bits as they were.
pub set_page-OnPage_1gb :
    (frame : ℕ) (invl : Bool) (raw : ℕ)
    → frame < 2 ^ 22
    → OnPage 30 22 frame raw (set_page (frame * 2 ^ 30) invl raw)
unfolding set_page mask
set_page-OnPage_1gb frame invl raw h =
    set_if_large-OnPage 30 22 frame _ _ invl raw (set_bits-Replaced 30 22 frame raw (omega arith) h)

-- For the address of a table within 52 bits, set_pdir answers false and changes nothing if the
-- PDPT entry maps a page; else it answers true, stores the address in its field and leaves all
-- other bits as they were.
pub set_pdir-OnTable :
    (frame : ℕ) (invl : Bool) (raw : ℕ)
    → frame < 2 ^ 40
    → OnTable 12 40 frame raw (set_pdir (frame * 2 ^ 12) invl raw)
unfolding set_pdir finish set_bits_if_small_ps mask
set_pdir-OnTable frame invl raw h = elim (Bool-cases (is_large raw)) [
  | inl large ↦ rw large (OnTable.no_table large)
  | inr small ↦
      let (t, flushed) = invalidate_entry-some invl (set_bits raw addr_mask (frame * 2 ^ 12)) in
      rw (small, flushed)
        (OnTable.on_table _ t small (set_bits-Replaced 12 40 frame raw (omega arith) h))
]
