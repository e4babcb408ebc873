-- ===== src/Paging/Walk/Translation.antt =====
-- The walk of src/lib/toyos/src/mm.cpp against the four levels of x86 paging.
use guest_tests.Base.{
  ℕ, ◌+◌, ◌/◌, ◌^◌, ◌%◌, ◌≡◌, refl, ap, ◌∙◌, inl, inr, arith, true, false, none, some, digit,
  bit_and, bit_or, bit_and_field, bit_or_fields,
}
use native.Mathlib.Nat.{mod-lt}
use guest_tests.Math.{mask}
use guest_tests.Paging.Entry.{is_present, is_large, addr_mask}
use guest_tests.Paging.Pml4e.{get_pdpt}
use guest_tests.Paging.Pdpte.{get_pdir}
use guest_tests.Paging.Pdpte
use guest_tests.Paging.Pde.{get_pt}
use guest_tests.Paging.Pde
use guest_tests.Paging.Pte.{get_phys_addr}
use guest_tests.Paging.Walk.{
  pml4_offset, pdpt_offset, pd_offset, pt_offset, phys_offset, offset_bits, PagingLevel, entry_at,
  pml4, pml4_entry, pdpt, pdpt_entry, pd, pd_entry, pt, pt_entry, lin_to_phys, phy_to_lin,
}
use guest_tests.Paging.Walk.Levels.{
  frame, first, second, third, fourth, Walked, present_cases, large_cases, small_of_absent,
}
use Walked.{no_first, no_second, huge_page, no_third, large_page, no_fourth, small_page}

module _ (lin : ℕ) where
  pml4_offset-eq : pml4_offset lin ≡ lin / 2 ^ 39 % 2 ^ 9
  unfolding pml4_offset mask
  pml4_offset-eq = omega (arith, bit_and_field 39 9 lin)

  pdpt_offset-eq : pdpt_offset lin ≡ lin / 2 ^ 30 % 2 ^ 9
  unfolding pdpt_offset mask
  pdpt_offset-eq = omega (arith, bit_and_field 30 9 lin)

  pd_offset-eq : pd_offset lin ≡ lin / 2 ^ 21 % 2 ^ 9
  unfolding pd_offset mask
  pd_offset-eq = omega (arith, bit_and_field 21 9 lin)

  pt_offset-eq : pt_offset lin ≡ lin / 2 ^ 12 % 2 ^ 9
  unfolding pt_offset mask
  pt_offset-eq = omega (arith, bit_and_field 12 9 lin)

  -- A page's address and an offset in it, put together by `|`.
  huge-eq :
      (e : ℕ)
      → bit_or (bit_and e Pdpte.lpage_mask) (phys_offset lin PagingLevel.pdpte)
        ≡ frame 30 22 e + lin % 2 ^ 30
  unfolding phys_offset offset_bits mask
  huge-eq e =
      rw (bit_and_field 30 22 e, bit_and_field 0 30 lin)
        (ap (bit_or (frame 30 22 e)) (omega arith)
          ∙ bit_or_fields 30 (e / 2 ^ 30 % 2 ^ 22) (lin % 2 ^ 30) (mod-lt lin (omega arith)))

  large-eq :
      (e : ℕ)
      → bit_or (bit_and e Pde.lpage_mask) (phys_offset lin PagingLevel.pde)
        ≡ frame 21 31 e + lin % 2 ^ 21
  unfolding phys_offset offset_bits mask
  large-eq e =
      rw (bit_and_field 21 31 e, bit_and_field 0 21 lin)
        (ap (bit_or (frame 21 31 e)) (omega arith)
          ∙ bit_or_fields 21 (e / 2 ^ 21 % 2 ^ 31) (lin % 2 ^ 21) (mod-lt lin (omega arith)))

  small-eq :
      (e : ℕ)
      → bit_or (bit_and e addr_mask) (phys_offset lin PagingLevel.pte)
        ≡ frame 12 40 e + lin % 2 ^ 12
  unfolding phys_offset offset_bits mask
  small-eq e =
      rw (bit_and_field 12 40 e, bit_and_field 0 12 lin)
        (ap (bit_or (frame 12 40 e)) (omega arith)
          ∙ bit_or_fields 12 (e / 2 ^ 12 % 2 ^ 40) (lin % 2 ^ 12) (mod-lt lin (omega arith)))

module _ (mem : ℕ → ℕ) (cr3 lin : ℕ) where
  pml4_entry-eq : pml4_entry mem cr3 lin ≡ first mem cr3 lin
  unfolding pml4_entry entry_at pml4 phy_to_lin mask
  pml4_entry-eq = rw (pml4_offset-eq lin, bit_and_field 12 40 cr3) refl

  pdpt_entry-eq :
      is_present (first mem cr3 lin) ≡ true → pdpt_entry mem cr3 lin ≡ some (second mem cr3 lin)
  unfolding pdpt_entry pdpt get_pdpt entry_at phy_to_lin mask
  pdpt_entry-eq p =
      rw (pml4_entry-eq, p, pdpt_offset-eq lin, bit_and_field 12 40 (first mem cr3 lin)) refl

  pdpt_entry-none : is_present (first mem cr3 lin) ≡ false → pdpt_entry mem cr3 lin ≡ none
  unfolding pdpt_entry pdpt get_pdpt
  pdpt_entry-none p = rw (pml4_entry-eq, p) refl

  module _ (p1 : is_present (first mem cr3 lin) ≡ true)
      (l2 : is_large (second mem cr3 lin) ≡ false) where
    pd_entry-eq :
        is_present (second mem cr3 lin) ≡ true → pd_entry mem cr3 lin ≡ some (third mem cr3 lin)
    unfolding pd_entry pd get_pdir entry_at phy_to_lin mask
    pd_entry-eq p =
        rw (pdpt_entry-eq p1, l2, p, pd_offset-eq lin, bit_and_field 12 40 (second mem cr3 lin))
          refl

    pd_entry-none : is_present (second mem cr3 lin) ≡ false → pd_entry mem cr3 lin ≡ none
    unfolding pd_entry pd get_pdir
    pd_entry-none p = rw (pdpt_entry-eq p1, l2, p) refl

    module _ (p2 : is_present (second mem cr3 lin) ≡ true)
        (l3 : is_large (third mem cr3 lin) ≡ false) where
      pt_entry-eq :
          is_present (third mem cr3 lin) ≡ true → pt_entry mem cr3 lin ≡ some (fourth mem cr3 lin)
      unfolding pt_entry pt get_pt entry_at phy_to_lin mask
      pt_entry-eq p =
          rw (pd_entry-eq p2, l3, p, pt_offset-eq lin, bit_and_field 12 40 (third mem cr3 lin)) refl

      pt_entry-none : is_present (third mem cr3 lin) ≡ false → pt_entry mem cr3 lin ≡ none
      unfolding pt_entry pt get_pt
      pt_entry-none p = rw (pd_entry-eq p2, l3, p) refl

  module _ (a : (digit (first mem cr3 lin) 0 ≡ 1) × (is_present (first mem cr3 lin) ≡ true))
      (b : (digit (second mem cr3 lin) 0 ≡ 1) × (is_present (second mem cr3 lin) ≡ true))
      (t2 : (digit (second mem cr3 lin) 7 ≡ 0) × (is_large (second mem cr3 lin) ≡ false)) where
    below_third :
        (digit (third mem cr3 lin) 0 ≡ 1) × (is_present (third mem cr3 lin) ≡ true)
        → (digit (third mem cr3 lin) 7 ≡ 0) × (is_large (third mem cr3 lin) ≡ false)
        → Walked mem cr3 lin (lin_to_phys mem cr3 lin)
    unfolding lin_to_phys get_phys_addr
    below_third c t3 = elim (present_cases (fourth mem cr3 lin)) [
      | inr d ↦
          rw
            (
              pdpt_entry-eq a.1,
              t2.1,
              pd_entry-eq a.1 t2.1 b.1,
              t3.1,
              pt_entry-eq a.1 t2.1 b.1 t3.1 c.1,
              d.1,
            )
            (no_fourth a.0 b.0 t2.0 c.0 t3.0 d.0)
      | inl d ↦
          rw
            (
              pdpt_entry-eq a.1,
              t2.1,
              pd_entry-eq a.1 t2.1 b.1,
              t3.1,
              pt_entry-eq a.1 t2.1 b.1 t3.1 c.1,
              d.1,
              small-eq lin (fourth mem cr3 lin),
            )
            (small_page a.0 b.0 t2.0 c.0 t3.0 d.0)
    ]

    below_second : Walked mem cr3 lin (lin_to_phys mem cr3 lin)
    unfolding lin_to_phys Pde.get_page
    below_second = elim (present_cases (third mem cr3 lin)) [
      | inr c ↦
          let small = small_of_absent _ c.1 in
          rw
            (
              pdpt_entry-eq a.1,
              t2.1,
              pd_entry-eq a.1 t2.1 b.1,
              small,
              pt_entry-none a.1 t2.1 b.1 small c.1,
            )
            (no_third a.0 b.0 t2.0 c.0)
      | inl c ↦ elim (large_cases (third mem cr3 lin) c.1) [
        | inl large ↦
            rw
              (
                pdpt_entry-eq a.1,
                t2.1,
                pd_entry-eq a.1 t2.1 b.1,
                large.1,
                c.1,
                large-eq lin (third mem cr3 lin),
              )
              (large_page a.0 b.0 t2.0 c.0 large.0)
        | inr table ↦ below_third c table
      ]
    ]

  -- For every memory, cr3 and address, lin_to_phys gives no address exactly where one of the entries
  -- that the address selects level by level is not present; else it gives the frame of the first
  -- entry that maps a page (1 GiB, 2 MiB or 4 KiB) plus the address modulo the size of that page.
  pub lin_to_phys-Walked : Walked mem cr3 lin (lin_to_phys mem cr3 lin)
  unfolding lin_to_phys Pdpte.get_page
  lin_to_phys-Walked = elim (present_cases (first mem cr3 lin)) [
    | inr a ↦ rw (pdpt_entry-none a.1) (no_first a.0)
    | inl a ↦ elim (present_cases (second mem cr3 lin)) [
      | inr b ↦
          let small = small_of_absent _ b.1 in
          rw (pdpt_entry-eq a.1, small, pd_entry-none a.1 small b.1) (no_second a.0 b.0)
      | inl b ↦ elim (large_cases (second mem cr3 lin) b.1) [
        | inl huge ↦
            rw (pdpt_entry-eq a.1, huge.1, b.1, huge-eq lin (second mem cr3 lin))
              (huge_page a.0 b.0 huge.0)
        | inr table ↦ below_second a b table
      ]
    ]
  ]
