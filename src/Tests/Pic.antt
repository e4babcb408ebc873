-- ===== src/Tests/Pic.antt =====
-- Tests and instances for the interrupt controllers.
use guest_tests.Base.{
  ℕ, ◌^◌, ◌<◌, ◌≤◌, ◌≡◌, refl, arith, true, some, [], ◌∷◌, if◌then◌else◌, leb, suc,
}
use guest_tests.Math.{is_aligned}
use guest_tests.Math as Math
use guest_tests.Interval.{contains, empty}
use guest_tests.Pic.{
  Pic, pic, unmask, is_master_vector, is_slave_vector, is_pic_vector, is_spurious, eoi,
}
use guest_tests.Pic.Masks.{PinSet, unmask-PinSet}
use guest_tests.Pic.Pending.{eoi_lem}

abbrev masked_pic : Pic
masked_pic = record { vector_base = 32; master = 0xff; slave = 0xff }

pic_run : pic 32 ≡ some masked_pic
unfolding pic is_aligned Math.mask
pic_run = refl

-- Pin 9 is unmasked, and the pin of the cascade is not.
unmask_run :
    unmask 2 41 masked_pic ≡ some (record { vector_base = 32; master = 0xff; slave = 0xfd })
unfolding unmask is_master_vector is_slave_vector contains empty
unmask_run = refl

spurious_run : is_spurious masked_pic 0 39 ≡ true
unfolding is_spurious is_pic_vector contains empty
spurious_run = refl

unmask-PinSet_example : (p2 : Pic) × (unmask 2 41 masked_pic ≡ some p2) × PinSet 9 0 masked_pic p2
unmask-PinSet_example = unmask-PinSet masked_pic 9 (omega arith) (omega arith) (omega arith)

eoi_lem_example :
    (pin : ℕ) × (2 ^ pin ≤ 0x204)
    × (0x204 < 2 ^ suc pin)
    × (eoi masked_pic 0x204 ≡ (true, if leb 8 pin then 0xa0 ∷ 0x20 ∷ [] else 0x20 ∷ []))
eoi_lem_example = eoi_lem masked_pic 0x204 (omega arith) (omega arith) (omega arith)
