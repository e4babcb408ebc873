-- ===== src/Math/Laws.antt =====
-- The remaining functions of util/math.hpp: powers of two, checksums, overflow.
use guest_tests.Base.{
  ℕ, zero, suc, ◌+◌, ◌-◌, ◌*◌, ◌/◌, ◌%◌, ◌^◌, ◌≤◌, ◌<◌, bit_and, ◌≡◌, ◌↔◌, refl, sym, ap, ◌∙◌, ◌≢◌,
  List, [], ◌∷◌, arith, two-pow-pos, two-pow-suc, bit_and_step, bit_and_pow, ◌==◌, true, not, ◌&&◌,
}
use mathlib.Core.WellFounded
use native.Mathlib.Decide.{ℕ_discrete}
use native.Mathlib.Nat.{
  div-eq_of_lt, mod-eq_of_lt, mod-lt, mod-add-mod, add-mod-mod, mul-mod_left, div-add-mod',
  add_assoc, add-zero,
}
use guest_tests.Base.Order.{lt_wf}
use guest_tests.Math.{
  is_power_of_2, increment_uint64_without_zero, checksum, accumulate, will_overflow, word,
}

bit_and_self : (a : ℕ) → bit_and a a ≡ a
bit_and_self a = WellFounded.induction lt_wf {C = λ n. bit_and n n ≡ n} a step
  where
    step : (n : ℕ) → ((m : ℕ) → m < n → bit_and m m ≡ m) → bit_and n n ≡ n
    step zero ih = refl
    step (suc n) ih = omega (arith, bit_and_step (suc n) (suc n), ih (suc n / 2) (omega arith))

abbrev IsTwoPow : ℕ → Type 0
IsTwoPow x = (k : ℕ) × (x ≡ 2 ^ k)

double-IsTwoPow : (x y : ℕ) → x ≡ 2 * y → IsTwoPow y → IsTwoPow x
double-IsTwoPow x y e (k, h) = (suc k, omega (arith, two-pow-suc k))

IsTwoPow-of_test : (x : ℕ) → 0 < x → bit_and (x - 1) x ≡ 0 → IsTwoPow x
IsTwoPow-of_test x =
    WellFounded.induction lt_wf {C = λ n. 0 < n → bit_and (n - 1) n ≡ 0 → IsTwoPow n} x step
  where
    step :
        (n : ℕ)
        → ((m : ℕ) → m < n → 0 < m → bit_and (m - 1) m ≡ 0 → IsTwoPow m)
        → 0 < n
        → bit_and (n - 1) n ≡ 0
        → IsTwoPow n
    step n ih pos e = elim (ℕ_discrete (n % 2) 0) [
      | yes even ↦
          let halves : (n - 1) / 2 ≡ n / 2 - 1 = omega arith in
          double-IsTwoPow n (n / 2) (omega arith) (
            ih (n / 2) (omega arith) (omega arith)
              (omega (arith, bit_and_step (n - 1) n, ap (λ t. bit_and t (n / 2)) halves)))
      | no odd ↦
          let halves : (n - 1) / 2 ≡ n / 2 = omega arith in
          (
            0,
            omega (
              arith,
              bit_and_step (n - 1) n,
              ap (λ t. bit_and t (n / 2)) halves,
              bit_and_self (n / 2),
            ),
          )
    ]

-- `is_power_of_2` decides whether a 64-bit value is a power of two.
pub is_power_of_2_iff : (x : ℕ) → x < word → (is_power_of_2 x ≡ true) ↔ ((k : ℕ) × (x ≡ 2 ^ k))
unfolding is_power_of_2
is_power_of_2_iff x lt = (
  λ h. IsTwoPow-of_test x (ground arith) (ground (arith, below x)),
  λ (k, e). rw e (passes k (rw e at lt)),
)
  where
    below : (n : ℕ) → 0 < n → n < word → (n + word - 1) % word ≡ n - 1
    below n pos h = omega arith

    passes :
        (k : ℕ)
        → 2 ^ k < word
        → (not (2 ^ k == 0) && (bit_and ((2 ^ k + word - 1) % word) (2 ^ k) == 0)) ≡ true
    passes k h = ground (
      arith,
      two-pow-pos k,
      below (2 ^ k) (two-pow-pos k) h,
      bit_and_pow k (2 ^ k - 1),
      div-eq_of_lt {n = 2 ^ k - 1} {m = 2 ^ k},
    )

-- The successor, or 1 behind the largest value: never 0, and different from the argument.
pub increment_uint64_without_zero_lem :
    (val : ℕ)
    → val < word
    → (increment_uint64_without_zero val ≢ 0)
      × (increment_uint64_without_zero val < word)
      × (val + 1 < word → increment_uint64_without_zero val ≡ val + 1)
      × (val + 1 ≡ word → increment_uint64_without_zero val ≡ 1)
unfolding increment_uint64_without_zero
increment_uint64_without_zero_lem val h =
    (ground arith, ground arith, λ k. ground arith, λ k. ground arith)

-- `will_overflow` tells whether the sum does not fit the type.
pub will_overflow_iff :
    (w base limit : ℕ) → base < 2 ^ w → (will_overflow w base limit ≡ true) ↔ (2 ^ w ≤ base + limit)
unfolding will_overflow
will_overflow_iff w base limit h = (λ e. ground arith, λ e. ground arith)

abbrev pub sum : List ℕ → ℕ
sum [] = 0
sum (x ∷ xs) = x + sum xs

accumulate-eq-sum :
    (w acc : ℕ) (xs : List ℕ) → acc < 2 ^ w → accumulate w acc xs ≡ (acc + sum xs) % 2 ^ w
unfolding accumulate
accumulate-eq-sum w acc [] h = rw (add-zero acc) (sym (mod-eq_of_lt h))
accumulate-eq-sum w acc (x ∷ xs) h =
    accumulate-eq-sum w ((acc + x) % 2 ^ w) xs (mod-lt (acc + x) (two-pow-pos w))
    ∙ mod-add-mod (acc + x) (2 ^ w) (sum xs)
    ∙ ap (λ t. t % 2 ^ w) (add_assoc acc x (sum xs))

-- The checksum is the value that brings the sum of the values to 0.
pub sum-checksum : (w : ℕ) (xs : List ℕ) → (sum xs + checksum w xs) % 2 ^ w ≡ 0
unfolding checksum
sum-checksum w xs =
    rw (accumulate-eq-sum w 0 xs (two-pow-pos w)) (complement_mod (sum xs) (2 ^ w) (two-pow-pos w))
  where
    complement_mod : (s m : ℕ) → 0 < m → (s + (m - (0 + s) % m) % m) % m ≡ 0
    complement_mod s m h =
        add-mod-mod s (m - (0 + s) % m) m
        ∙ ap (λ t. t % m) {y = (s / m + 1) * m} (whole (0 + s) (omega arith))
        ∙ mul-mod_left (s / m + 1) m
      where
        whole : (t : ℕ) → t ≡ s → s + (m - t % m) ≡ (s / m + 1) * m
        whole t e = rw e (omega (arith, div-add-mod' s m, mod-lt s h))
