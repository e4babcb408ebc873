-- ===== src/Tests/Math.antt =====
-- Tests and instances for util/math.hpp.
use guest_tests.Base.{
  ◌+◌, ◌-◌, ◌%◌, ◌^◌, ◌≤◌, ◌<◌, ◌≡◌, ◌≢◌, ◌↔◌, refl, arith, [], ◌∷◌, true, false,
}
use guest_tests.Math.{
  is_power_of_2, order_min, order_max, order_min_from, order_max_from, order_envelope, mask,
  align_down, align_up, is_aligned, increment_uint64_without_zero, checksum, will_overflow, word,
  accumulate,
}
use guest_tests.Math.Align.{is_aligned_iff}
use guest_tests.Math.Laws.{increment_uint64_without_zero_lem, will_overflow_iff}

orders_run :
    (order_min 40 ≡ 3) × (order_max 40 ≡ 5) × (order_envelope 40 ≡ 6) × (order_envelope 64 ≡ 6)
unfolding order_min order_max order_envelope order_min_from order_max_from
orders_run = (refl, refl, refl, refl)

masks_run :
    (mask 4 8 ≡ 0xf00) × (mask 64 0 ≡ word - 1) × (align_up 13 3 ≡ 16) × (align_down 13 3 ≡ 8)
unfolding mask align_up align_down
masks_run = (refl, refl, refl, refl)

tests_run :
    (is_power_of_2 0 ≡ false)
    × (is_power_of_2 64 ≡ true)
    × (is_aligned 24 3 ≡ true)
    × (increment_uint64_without_zero (word - 1) ≡ 1)
    × (checksum 8 (200 ∷ 100 ∷ []) ≡ 212)
    × (will_overflow 8 200 55 ≡ false)
    × (will_overflow 8 200 56 ≡ true)
unfolding is_power_of_2 is_aligned mask increment_uint64_without_zero checksum accumulate
    will_overflow
tests_run = (refl, refl, refl, refl, refl, refl, refl)

is_aligned_iff_example : (is_aligned 24 3 ≡ true) ↔ (24 % 2 ^ 3 ≡ 0)
is_aligned_iff_example = is_aligned_iff 24 3 (omega arith)

increment_example :
    (increment_uint64_without_zero (word - 1) ≢ 0)
    × (increment_uint64_without_zero (word - 1) < word)
    × (word - 1 + 1 < word → increment_uint64_without_zero (word - 1) ≡ word - 1 + 1)
    × (word - 1 + 1 ≡ word → increment_uint64_without_zero (word - 1) ≡ 1)
increment_example = increment_uint64_without_zero_lem (word - 1) (omega arith)

will_overflow_iff_example : (will_overflow 8 200 56 ≡ true) ↔ (2 ^ 8 ≤ 200 + 56)
will_overflow_iff_example = will_overflow_iff 8 200 56 (omega arith)
