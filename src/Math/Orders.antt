-- ===== src/Math/Orders.antt =====
-- What `order_min`, `order_max` and `order_envelope` of util/math.hpp compute.
use guest_tests.Base.{
  ℕ, zero, suc, ◌+◌, ◌%◌, ◌^◌, ◌≤◌, ◌<◌, ◌≡◌, refl, sym, ap, ◌∙◌, ◌≢◌, inl, inr, arith, digit,
  two-pow-pos, le_of_two-pow-le, lt_of_two-pow-lt, two-pow-lt, leb, leb→le, mod-two-pow-digit,
  bit_test, ◌==◌, Bool-cases,
}
use native.Mathlib.Nat.{mod-eq_of_lt, mod-lt, div-eq_of_lt}
use native.Mathlib.Numerals.{add-one}
use guest_tests.Math.{order_min, order_min_from, order_max, order_max_from, order_envelope, word}

-- The order of the lowest bit set of a number that is not 0.
pub record IsLowest (num r : ℕ) : Type 0 where
  pub in_word : r < 64
  pub divides : num % 2 ^ r ≡ 0
  pub bit_set : digit num r ≡ 1

order_min_from-IsLowest :
    (left i num : ℕ)
    → i + left ≡ 64
    → num % 2 ^ i ≡ 0
    → num % word ≢ 0
    → IsLowest num (order_min_from left i num)
unfolding order_min_from
order_min_from-IsLowest zero i num e h ne = absurd (ne (ap (λ t. num % 2 ^ t) (sym i_end) ∙ h))
  where
    i_end : i ≡ 64
    i_end = omega arith
order_min_from-IsLowest (suc left) i num e h ne = elim (Bool-cases (digit num i == 0)) [
  | inl clear ↦
      ground
        (arith, bit_test num i, order_min_from-IsLowest left (i + 1) num, mod-two-pow-digit num i)
  | inr is_set ↦ ground (arith, bit_test num i)
]

-- For every value whose 64-bit word is not 0, order_min returns the position of the lowest bit
-- set: it is below 64, that bit is set, and all lower bits are clear.
pub order_min-IsLowest : (num : ℕ) → num % word ≢ 0 → IsLowest num (order_min num)
unfolding order_min
order_min-IsLowest num ne = order_min_from-IsLowest 64 0 num refl (omega arith) ne

-- The order of the highest bit set of a number that is not 0.
pub record IsHighest (num r : ℕ) : Type 0 where
  pub in_word : r < 64
  pub from_below : 2 ^ r ≤ num
  pub from_above : num < 2 ^ suc r

order_max_from-IsHighest :
    (i num : ℕ) → i < 64 → num ≢ 0 → num < 2 ^ suc i → IsHighest num (order_max_from i num)
unfolding order_max_from
order_max_from-IsHighest zero num b ne lt = omega arith
order_max_from-IsHighest (suc i) num b ne lt = elim (Bool-cases (digit num (suc i) == 0)) [
  | inl clear ↦ ground (
    arith,
    bit_test num (suc i),
    order_max_from-IsHighest i num,
    mod-two-pow-digit num (suc i),
    mod-eq_of_lt lt,
    mod-lt num (two-pow-pos (suc i)),
  )
  | inr is_set ↦ ground (arith, bit_test num (suc i), div-eq_of_lt {n = num} {m = 2 ^ suc i})
]

-- For every value but 0 below 2^64, order_max returns the position of the highest bit set: the
-- value lies between that power of two and the next one.
pub order_max-IsHighest : (num : ℕ) → num ≢ 0 → num < word → IsHighest num (order_max num)
unfolding order_max
order_max-IsHighest num ne lt = order_max_from-IsHighest 63 num (omega arith) ne lt

-- An order with a power of two not below `num`, and the least such order.
pub record IsEnvelope (num r : ℕ) : Type 0 where
  pub covers : num ≤ 2 ^ r
  pub least : (k : ℕ) → num ≤ 2 ^ k → r ≤ k

-- For every value but 0 below 2^64, order_envelope returns the least order whose power of two is
-- not below the value.
pub order_envelope-IsEnvelope :
    (num : ℕ) → num ≢ 0 → num < word → IsEnvelope num (order_envelope num)
unfolding order_envelope
order_envelope-IsEnvelope num ne lt = elim (Bool-cases (leb num (2 ^ m))) [
  | inl fits ↦
      rw (small, fits)
        (record {
          covers = leb→le num (2 ^ m) fits;
          least = λ k h. le_of_two-pow-le m k (omega (arith, highest.from_below));
        })
  | inr over ↦
      rw (small, over)
        (record {
          covers = rw add-one (omega (arith, highest.from_above));
          least = λ k h. omega (arith, lt_of_two-pow-lt m k (ground arith));
        })
]
  where
    m : ℕ
    m = order_max num

    highest : IsHighest num m
    highest = order_max-IsHighest num ne lt

    small : 2 ^ m % word ≡ 2 ^ m
    small = mod-eq_of_lt (omega (arith, highest))

-- Both orders of a power of two are its exponent.
pub order_max-two-pow : (k : ℕ) → k < 64 → order_max (2 ^ k) ≡ k
order_max-two-pow k h =
    let top = order_max-IsHighest (2 ^ k) (omega (arith, two-pow-pos k)) (two-pow-lt k 64 h) in
    omega (
      arith,
      le_of_two-pow-le (order_max (2 ^ k)) k top.from_below,
      lt_of_two-pow-lt k (suc (order_max (2 ^ k))) top.from_above,
    )

pub order_envelope-two-pow : (k : ℕ) → k < 64 → order_envelope (2 ^ k) ≡ k
order_envelope-two-pow k h =
    let hull =
      order_envelope-IsEnvelope (2 ^ k) (omega (arith, two-pow-pos k)) (two-pow-lt k 64 h) in
    omega
      (arith, le_of_two-pow-le k (order_envelope (2 ^ k)) hull.covers, hull.least k (omega arith))
