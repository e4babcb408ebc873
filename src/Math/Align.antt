-- ===== src/Math/Align.antt =====
-- The masks and the alignment of util/math.hpp as divisions by powers of two.
use guest_tests.Base.{
  ℕ, ◌+◌, ◌-◌, ◌*◌, ◌/◌, ◌%◌, ◌^◌, ◌≤◌, ◌<◌, bit_and, ◌≡◌, ◌↔◌, ap, ◌∙◌, inl, inr, arith,
  two-pow-pos, two-pow-le, bit_and_mask, bit_and_high, ◌==◌, Bool-cases, ==_iff, true,
}
use native.Mathlib.Nat.{mod-eq_of_lt, mod-lt, mul-mod_left, div-add-mod'}
use guest_tests.Math.{mask, align_down, align_up, is_aligned, word}

-- `mask(o)` has the `o` low bits.
pub mask-eq : (o : ℕ) → o ≤ 64 → mask o 0 ≡ 2 ^ o - 1
unfolding mask
mask-eq o h = elim (Bool-cases (o == 64)) [
  | inl e ↦ ground arith
  | inr e ↦
      ground (arith, mod-eq_of_lt {n = 2 ^ o - 1} {m = word}, two-pow-le o 64 h, two-pow-pos o)
]

pub align_down-eq : (v o : ℕ) → o ≤ 64 → v < word → align_down v o ≡ v / 2 ^ o * 2 ^ o
unfolding align_down
align_down-eq v o h lt =
    ap (bit_and v) (omega (arith, mask-eq o h, two-pow-pos o, two-pow-le o 64 h))
    ∙ bit_and_high 64 o v h lt

-- `is_aligned` is divisibility by the power of two.
pub is_aligned_iff : (v o : ℕ) → o ≤ 64 → (is_aligned v o ≡ true) ↔ (v % 2 ^ o ≡ 0)
unfolding is_aligned
is_aligned_iff v o h = rw (mask-eq o h, bit_and_mask o v) (==_iff (v % 2 ^ o) 0)

-- `r` is the greatest multiple of `2 ^ o` that is not above `v`.
pub record IsAlignedDown (v o r : ℕ) : Type 0 where
  pub aligned : r % 2 ^ o ≡ 0
  pub at_most : r ≤ v
  pub nearest : v < r + 2 ^ o

-- `r` is the least multiple of `2 ^ o` that is not below `v`.
pub record IsAlignedUp (v o r : ℕ) : Type 0 where
  pub aligned : r % 2 ^ o ≡ 0
  pub at_least : v ≤ r
  pub nearest : r < v + 2 ^ o

-- For an order of at most 64 and a value below 2^64, align_down returns the greatest multiple of
-- the power of two that is not above the value.
pub align_down-IsAlignedDown : (v o : ℕ) → o ≤ 64 → v < word → IsAlignedDown v o (align_down v o)
align_down-IsAlignedDown v o h lt = rw (align_down-eq v o h lt) (record {
  aligned = mul-mod_left (v / 2 ^ o) (2 ^ o);
  at_most = omega (arith, div-add-mod' v (2 ^ o));
  nearest = omega (arith, div-add-mod' v (2 ^ o), mod-lt v (two-pow-pos o));
})

-- For an order of at most 64 and a value that a power of two can be added to within 2^64,
-- align_up returns the least multiple of that power that is not below the value.
pub align_up-IsAlignedUp : (v o : ℕ) → o ≤ 64 → v + 2 ^ o ≤ word → IsAlignedUp v o (align_up v o)
unfolding align_up
align_up-IsAlignedUp v o h lt = rw raised (record {
  aligned = down.aligned;
  at_least = omega (arith, down.nearest);
  nearest = omega (arith, down.at_most, two-pow-pos o);
})
  where
    raised : (v + mask o 0) % word ≡ v + (2 ^ o - 1)
    raised = rw (mask-eq o h) (mod-eq_of_lt (omega (arith, two-pow-pos o)))

    down : IsAlignedDown (v + (2 ^ o - 1)) o (align_down (v + (2 ^ o - 1)) o)
    down = align_down-IsAlignedDown (v + (2 ^ o - 1)) o h (omega (arith, two-pow-pos o))
