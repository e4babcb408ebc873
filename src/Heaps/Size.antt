-- ===== src/Heaps/Size.antt =====
-- The size of the block that `operator new` of src/boot.cpp takes for an alignment.
use guest_tests.Base.{
  ℕ, ◌^◌, ◌≤◌, ◌<◌, max, ◌≡◌, ◌≢◌, ◌↔◌, ◌⊎◌, inl, inr, ap, ◌∙◌, arith, leb, Bool-cases, leb→le,
  two-pow-lt, lt_of_two-pow-lt,
}
use guest_tests.Math.{order_max, word}
use guest_tests.Math.Orders.{IsHighest, order_max-IsHighest, order_max-two-pow}
use guest_tests.Heaps.{aligned_order}

-- For a size that is not 0 and an alignment that is a power of two: the block is as large as the
-- size exactly if the size is at most the alignment or is a power of two. For every other size, such
-- as three times the alignment, the block is smaller than what was asked for.
pub aligned_order-covers_iff :
    (size a : ℕ)
    → size ≢ 0
    → size < word
    → a < 64
    → (size ≤ 2 ^ aligned_order size (2 ^ a)) ↔ ((size ≤ 2 ^ a) ⊎ ((k : ℕ) × (size ≡ 2 ^ k)))
unfolding aligned_order
aligned_order-covers_iff size a real small h = elim (Bool-cases (leb size (2 ^ a))) [
  | inl within ↦ (
    (λ _. inl (leb→le size (2 ^ a) within)),
    (λ _. rw (exact (leb→le size (2 ^ a) within)) (leb→le size (2 ^ a) within)),
  )
  | inr beyond ↦ (
    (λ covers. inr (order_max (max size (2 ^ a)), ground (arith, covers, beyond, top.from_below))),
    (λ w. elim w [
      | inl le ↦ absurd (ground (arith, beyond, le))
      | inr (k, power) ↦ power_covered k power (ground (arith, beyond))
    ]),
  )
]
  where
    top : IsHighest (max size (2 ^ a)) (order_max (max size (2 ^ a)))
    top =
        order_max-IsHighest (max size (2 ^ a)) (ground (arith, real))
          (ground (arith, small, two-pow-lt a 64 h))

    exact : size ≤ 2 ^ a → order_max (max size (2 ^ a)) ≡ a
    exact le = ap order_max (ground (arith, le)) ∙ order_max-two-pow a h

    power_covered : (k : ℕ) → size ≡ 2 ^ k → 2 ^ a ≤ size → size ≤ 2 ^ order_max (max size (2 ^ a))
    power_covered k power above =
        rw
          (ap order_max {x = max size (2 ^ a)} {y = 2 ^ k} (ground (arith, power, above))
            ∙ order_max-two-pow k (lt_of_two-pow-lt k 64 (omega (arith, power, small))))
          (omega (arith, power))
