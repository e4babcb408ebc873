-- ===== src/Buddy/Split.antt =====
-- `split_free` of buddy.hpp, and the loop of `alloc` that calls it.
use guest_tests.Base.{
  ℕ, zero, suc, ◌+◌, ◌-◌, ◌%◌, ◌^◌, false, ◌==◌, ◌≡◌, refl, arith, ap, subst, ◌∙◌, some,
  two-pow-suc, two-pow-pos, multiple_le, multiple-add,
}
use native.Mathlib.Nat.{mod-eq_of_lt, add-suc}
use guest_tests.Math.{word}
use guest_tests.Buddy.{Manager, BlockId, emplace, remove, split_free, split_down}
use guest_tests.Buddy.Cover.{within-halves}
use guest_tests.Buddy.Blocks.{
  IsBlock, IsValid, Has, Removed, Added, Regrouped, remove-Removed, emplace-Added, Has-IsBlock,
}

abbrev pub block : ℕ → ℕ → BlockId
block o a = record { ord = o; addr = a }

halves-IsBlock : (o a : ℕ) → IsBlock (suc o) a → IsBlock o a × IsBlock o (a + 2 ^ o)
halves-IsBlock o a b =
    let aligned : a % 2 ^ o ≡ 0 = multiple_le a o (suc o) (omega arith) b.0 in
    (
      (aligned, omega (arith, two-pow-suc o)),
      (multiple-add a o aligned, omega (arith, two-pow-suc o)),
    )

module _ (m : Manager) (o a : ℕ) (v : IsValid m) (h : Has m (block (suc o) a)) where
  abbrev without : Manager
  without = remove m (block (suc o) a)

  gone : Removed m (suc o) a without
  gone = remove-Removed m (block (suc o) a) v h

  halves : IsBlock o a × IsBlock o (a + 2 ^ o)
  halves = halves-IsBlock o a (Has-IsBlock m (block (suc o) a) v h)

  right_half :
      (m2 : Manager) × (emplace without o (a + 2 ^ o) ≡ some m2) × Added without o (a + 2 ^ o) m2
  right_half =
      emplace-Added without o (a + 2 ^ o) gone.valid (omega (arith, h.in_range, gone.same_max))
        halves.1 (λ x. omega (arith, gone.less x, v.disjoint x, within-halves o x a))

  left_half : (m3 : Manager) × (emplace right_half.0 o a ≡ some m3) × Added right_half.0 o a m3
  left_half =
      emplace-Added right_half.0 o a right_half.2.valid
        (omega (arith, h.in_range, gone.same_max, right_half.2.same_max)) halves.0
        (λ x. omega (arith, gone.less x, v.disjoint x, within-halves o x a, right_half.2.more x))

  middle : (a + 2 ^ (suc o - 1)) % word ≡ a + 2 ^ o
  middle =
      ap (λ t. (a + 2 ^ t) % word) {y = o} (omega arith)
      ∙ mod-eq_of_lt (omega (arith, halves.1, two-pow-pos o))

  -- A free block of order above 0 splits into two free blocks of the order below; what is free
  -- stays the same, and no assertion fails.
  pub split_free_lem :
      (m' : Manager) × (split_free m (block (suc o) a) ≡ some (block o a, m'))
      × Regrouped m m'
      × Has m' (block o a)
  unfolding split_free
  split_free_lem = (
    left_half.0,
    run,
    record {
      valid = left_half.2.valid;
      same_max = omega (arith, gone.same_max, right_half.2.same_max, left_half.2.same_max);
      same = λ x.
          omega (arith, gone.less x, right_half.2.more x, left_half.2.more x, within-halves o x a);
    },
    left_half.2.has,
  )
    where
      below : suc o - 1 ≡ o
      below = omega arith

      nonzero : (suc o == 0) ≡ false
      nonzero = ground arith

      run : split_free m (block (suc o) a) ≡ some (block o a, left_half.0)
      run = rw (nonzero, middle, below, right_half.1, left_half.1)

pub Regrouped-trans : {m1 m2 m3 : Manager} → Regrouped m1 m2 → Regrouped m2 m3 → Regrouped m1 m3
Regrouped-trans p q = record {
  valid = q.valid;
  same_max = q.same_max ∙ p.same_max;
  same = λ x. q.same x ∙ p.same x;
}

-- The loop of `alloc` cuts a free block of order `o + rounds` down to order `o`.
pub split_down_lem :
    (rounds o a : ℕ) (m : Manager)
    → IsValid m
    → Has m (block (o + rounds) a)
    → (m' : Manager) × (split_down rounds m (block (o + rounds) a) ≡ some (block o a, m'))
      × Regrouped m m'
      × Has m' (block o a)
unfolding split_down
split_down_lem zero o a m v h = (
  m,
  ap (λ t. some (block t a, m)) (omega arith),
  record { valid = v; same_max = refl; same = λ x. refl },
  subst (λ t. Has m (block t a)) (omega arith) h,
)
split_down_lem (suc rounds) o a m v h =
    let (m2, run2, same2, h2) = split_free_lem m (o + rounds) a v (rw (← add-suc o rounds) h) in
    let (m3, run3, same3, h3) = split_down_lem rounds o a m2 same2.valid h2 in
    (m3, rw (add-suc o rounds, run2, run3), Regrouped-trans same2 same3, h3)
