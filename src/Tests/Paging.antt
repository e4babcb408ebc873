-- ===== src/Tests/Paging.antt =====
-- Tests and instances for the paging structures.
use guest_tests.Base.{ℕ, ◌+◌, ◌^◌, ◌==◌, ◌≡◌, refl, true, false, some, none, if◌then◌else◌}
use guest_tests.Math.{mask}
use guest_tests.Paging.Entry.{Tlb, set_bits, is_present, is_large, set_bits_if_big_ps}
use guest_tests.Paging.Pte
use guest_tests.Paging.Pdpte
use guest_tests.Paging.Walk.{lin_to_phys}
use guest_tests.Paging.Walk.Levels.{Walked}
use guest_tests.Paging.Walk.Translation.{lin_to_phys-Walked}

-- Clearing the present bit of a PT entry with invalidation uses an optional without a value.
clear_present : Pte.set_present false true 0x5001 ≡ none
unfolding Pte.set_present Pte.access_helper Pte.invalidate_entry Pte.is_global Pte.get_phys_addr
    is_present set_bits mask
clear_present = refl

-- A key of more than four bits reaches the execute-disable bit.
wide_key : Pdpte.set_prot_key 16 false 0x81 ≡ some (true, 2 ^ 63 + 0x81, Tlb.kept)
unfolding Pdpte.set_prot_key Pdpte.set_if_large Pdpte.finish Pdpte.invalidate_entry
    set_bits_if_big_ps is_large is_present set_bits mask
wide_key = refl

-- Tables at 0x1000, 0x2000, 0x3000 and 0x4000, and a page at 0x9000 for the address 0x5123.
abbrev memory : ℕ → ℕ
memory a =
    if a == 0x1000
    then 0x2001
    else if a == 0x2000
    then 0x3001
    else if a == 0x3000
    then 0x4001
    else if a == 0x4028
    then 0x9001
    else 0

lin_to_phys-Walked_example : Walked memory 0x1000 0x5123 (lin_to_phys memory 0x1000 0x5123)
lin_to_phys-Walked_example = lin_to_phys-Walked memory 0x1000 0x5123
