-- ===== src/Base/Digits.antt =====
-- The digits of masks, shifts and complements, and equality by digits.
use Prim.Native.Nat.{ℕ, zero, suc, ◌+◌, ◌-◌, ◌*◌, ◌/◌, ◌%◌, ◌^◌, ◌≤◌, ◌<◌}
use mathlib.Core.Path.{◌≡◌, ap, ◌∙◌, sym}
use native.Mathlib.Nat.{div-eq_of_lt, div-div-eq-div-mul}
use native.Mathlib.Omega.{arith}
use guest_tests.Base.Bits.{
  digit, digit-suc, low_mask, two-pow-suc, two-pow-pos, two-pow-le, shifted_suc, two-pow-add,
  bit_and_mask, digit-bit_and,
}

-- Two numbers with the same `w` digits are the same.
pub digits_ext :
    (w a b : ℕ) → a < 2 ^ w → b < 2 ^ w → ((i : ℕ) → i < w → digit a i ≡ digit b i) → a ≡ b
digits_ext zero a b ha hb h = omega (arith, ha, hb)
digits_ext (suc w) a b ha hb h = omega (
  arith,
  h 0 (omega arith),
  digits_ext w (a / 2) (b / 2) (omega (arith, two-pow-suc w)) (omega (arith, two-pow-suc w))
      (λ i hi. sym (digit-suc a i) ∙ h (suc i) (omega (arith, hi)) ∙ digit-suc b i),
)

pub digit-shifted_below : (s v i : ℕ) → i < s → digit (v * 2 ^ s) i ≡ 0
digit-shifted_below zero v i h = absurd (omega (arith, h))
digit-shifted_below (suc s) v zero h = omega (arith, shifted_suc v s)
digit-shifted_below (suc s) v (suc i) h =
    digit-suc (v * 2 ^ suc s) i
    ∙ ap (λ t. digit t i) (omega (arith, shifted_suc v s))
    ∙ digit-shifted_below s v i (omega (arith, h))

pub digit-shifted : (s v i : ℕ) → s ≤ i → digit (v * 2 ^ s) i ≡ digit v (i - s)
digit-shifted zero v i h =
    ap (λ t. digit t i) {y = v} (omega arith) ∙ ap (digit v) {y = i - 0} (omega arith)
digit-shifted (suc s) v zero h = absurd (omega (arith, h))
digit-shifted (suc s) v (suc i) h =
    digit-suc (v * 2 ^ suc s) i
    ∙ ap (λ t. digit t i) {y = v * 2 ^ s} (omega (arith, shifted_suc v s))
    ∙ digit-shifted s v i (omega (arith, h))
    ∙ ap (digit v) {y = suc i - suc s} (omega arith)

pub digit-low_mask : (b i : ℕ) → i < b → digit (low_mask b) i ≡ 1
digit-low_mask zero i h = absurd (omega (arith, h))
digit-low_mask (suc b) zero h = omega (arith, two-pow-suc b, two-pow-pos b)
digit-low_mask (suc b) (suc i) h =
    digit-suc (low_mask (suc b)) i
    ∙ ap (λ t. digit t i) {y = low_mask b} (omega (arith, two-pow-suc b, two-pow-pos b))
    ∙ digit-low_mask b i (omega (arith, h))

pub digit_out : (a w i : ℕ) → a < 2 ^ w → w ≤ i → digit a i ≡ 0
digit_out a w i h hi =
    ap (λ t. t % 2) (div-eq_of_lt {n = a} {m = 2 ^ i} (omega (arith, h, two-pow-le w i hi)))

pub digit-complement : (w c i : ℕ) → c < 2 ^ w → i < w → digit (2 ^ w - 1 - c) i ≡ 1 - digit c i
digit-complement zero c i h hi = absurd (omega (arith, hi))
digit-complement (suc w) c zero h hi = omega (arith, h, two-pow-suc w)
digit-complement (suc w) c (suc i) h hi =
    digit-suc (2 ^ suc w - 1 - c) i
    ∙ ap (λ t. digit t i) {y = 2 ^ w - 1 - c / 2} (omega (arith, h, two-pow-suc w))
    ∙ digit-complement w (c / 2) i (omega (arith, h, two-pow-suc w)) (omega (arith, hi))
    ∙ ap (λ t. 1 - t) (sym (digit-suc c i))

pub digit-div : (v a i : ℕ) → digit (v / 2 ^ a) i ≡ digit v (a + i)
digit-div v a i =
    ap (λ t. t % 2) (div-div-eq-div-mul v (2 ^ a) (2 ^ i) ∙ ap (λ t. v / t) (sym (two-pow-add a i)))

pub digit-mod : (b v i : ℕ) → i < b → digit (v % 2 ^ b) i ≡ digit v i
digit-mod b v i h = omega (
  arith,
  ap (λ t. digit t i) (bit_and_mask b v),
  digit-bit_and v (low_mask b) i,
  digit-low_mask b i h,
)
