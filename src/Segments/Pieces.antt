-- ===== src/Segments/Pieces.antt =====
-- A field of a segment descriptor that stands in pieces: the digits of one piece, and of what the
-- setters leave of the other digits.
use guest_tests.Base.{
  ℕ, ◌+◌, ◌-◌, ◌*◌, ◌/◌, ◌^◌, ◌≤◌, ◌<◌, min, bit_and, ◌≡◌, ap, ◌∙◌, ◌⊎◌, arith, digit, low_mask,
  digit-div, digit-bit_and, digit-complement, digit-shifted, digit-low_mask, bit_and_mask,
  two-pow-pos,
}
use native.Mathlib.Nat.{mod-lt}
use guest_tests.Math.{word, complement}
use guest_tests.Paging.Fields.{field, shifted_out}

-- The `b` bits of `v` at `a`, moved to `s`.
abbrev pub piece : (a b s v : ℕ) → ℕ
piece a b s v = bit_and (v / 2 ^ a) (low_mask b) * 2 ^ s

pub piece_in : (a b s v i : ℕ) → s ≤ i → i < s + b → digit (piece a b s v) i ≡ digit v (a + (i - s))
piece_in a b s v i lo hi = omega (
  arith,
  digit-shifted s (bit_and (v / 2 ^ a) (low_mask b)) i lo,
  digit-bit_and (v / 2 ^ a) (low_mask b) (i - s),
  digit-low_mask b (i - s) (omega (arith, lo, hi)),
  digit-div v a (i - s),
)

pub piece_out : (a b s v i : ℕ) → (i < s) ⊎ (s + b ≤ i) → digit (piece a b s v) i ≡ 0
piece_out a b s v i out =
    shifted_out s b (bit_and (v / 2 ^ a) (low_mask b)) i
      (omega (arith, bit_and_mask b (v / 2 ^ a), mod-lt (v / 2 ^ a) (two-pow-pos b))) out

-- What clearing a mask leaves of a digit.
pub cleared :
    (raw m i : ℕ)
    → m < word
    → i < 64
    → digit (bit_and raw (complement m)) i ≡ min (digit raw i) (1 - digit m i)
cleared raw m i lt hi =
    digit-bit_and raw (complement m) i ∙ ap (min (digit raw i)) (digit-complement 64 m i lt hi)

pub field_out : (s b i : ℕ) → (i < s) ⊎ (s + b ≤ i) → digit (field s b) i ≡ 0
field_out s b i out = shifted_out s b (low_mask b) i (omega (arith, two-pow-pos b)) out
