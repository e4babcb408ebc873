-- ===== src/Segments/Setters.antt =====
-- What each setter of `gdt_entry` in x86/segmentation.hpp makes of the digits of the first value.
use guest_tests.Base.{
  ℕ, ◌+◌, ◌-◌, ◌≤◌, ◌<◌, max, min, bit_and, bit_or, ◌≡◌, ap, ap₂, ◌∙◌, ◌⊎◌, inl, inr, arith, digit,
  digit-bit_or,
}
use native.Mathlib.Decide.{dec_lt}
use guest_tests.Math.{mask, complement}
use guest_tests.Paging.Fields.{field, field-digit_in}
use guest_tests.Segments.{set_ar, set_limit, set_base_raw}
use guest_tests.Segments.Pieces.{piece, piece_in, piece_out, cleared, field_out}
use guest_tests.Segments.Fields.{three_pieces, ar_at, limit_at, base_at}

set_ar-digit :
    (v raw i : ℕ)
    → i < 64
    → digit (set_ar v raw) i
      ≡ max
          (max
            (min (min (digit raw i) (1 - digit (field 40 8) i)) (1 - digit (field 52 4) i))
            (digit (piece 0 8 40 v) i))
          (digit (piece 8 4 52 v) i)
unfolding set_ar mask
set_ar-digit v raw i h =
    three_pieces (bit_and (bit_and raw (complement (field 40 8))) (complement (field 52 4)))
      (piece 0 8 40 v) (piece 8 4 52 v) i
    ∙ ap (λ t. max (max t (digit (piece 0 8 40 v) i)) (digit (piece 8 4 52 v) i))
        (cleared (bit_and raw (complement (field 40 8))) (field 52 4) i (omega arith) h
          ∙ ap (λ t. min t (1 - digit (field 52 4) i)) (cleared raw (field 40 8) i (omega arith) h))

pub set_ar-writes : (v raw i : ℕ) → i < 12 → digit (set_ar v raw) (ar_at i) ≡ digit v i
set_ar-writes v raw i h = elim (dec_lt i 8) [
  | yes lt ↦ ground (
    arith,
    set_ar-digit v raw (40 + i) (omega (arith, lt)),
    field-digit_in 40 8 (40 + i) (omega arith) (omega (arith, lt)),
    piece_in 0 8 40 v (40 + i) (omega arith) (omega (arith, lt)),
    piece_out 8 4 52 v (40 + i) (inl (omega (arith, lt))),
  )
  | no ge ↦ ground (
    arith,
    set_ar-digit v raw (52 + (i - 8)) (omega (arith, h)),
    field-digit_in 52 4 (52 + (i - 8)) (omega arith) (omega (arith, h)),
    piece_out 0 8 40 v (52 + (i - 8)) (inr (omega arith)),
    piece_in 8 4 52 v (52 + (i - 8)) (omega arith) (omega (arith, h)),
  )
]

pub set_ar-keeps :
    (v raw i : ℕ)
    → i < 64
    → (i < 40) ⊎ (48 ≤ i)
    → (i < 52) ⊎ (56 ≤ i)
    → digit (set_ar v raw) i ≡ digit raw i
set_ar-keeps v raw i h low high = omega (
  arith,
  set_ar-digit v raw i h,
  field_out 40 8 i low,
  field_out 52 4 i high,
  piece_out 0 8 40 v i low,
  piece_out 8 4 52 v i high,
)

set_limit-digit :
    (l raw i : ℕ)
    → i < 64
    → digit (set_limit l raw) i
      ≡ max
          (max
            (min (digit raw i) (1 - max (digit (field 0 16) i) (digit (field 48 4) i)))
            (digit (piece 0 16 0 l) i))
          (digit (piece 16 4 48 l) i)
unfolding set_limit mask
set_limit-digit l raw i h =
    three_pieces (bit_and raw (complement (bit_or (field 0 16) (field 48 4)))) (piece 0 16 0 l)
      (piece 16 4 48 l) i
    ∙ ap (λ t. max (max t (digit (piece 0 16 0 l) i)) (digit (piece 16 4 48 l) i))
        (cleared raw (bit_or (field 0 16) (field 48 4)) i (omega arith) h
          ∙ ap (λ t. min (digit raw i) (1 - t)) (digit-bit_or (field 0 16) (field 48 4) i))

pub set_limit-writes : (l raw i : ℕ) → i < 20 → digit (set_limit l raw) (limit_at i) ≡ digit l i
set_limit-writes l raw i h = elim (dec_lt i 16) [
  | yes lt ↦ ground (
    arith,
    set_limit-digit l raw i (omega (arith, lt)),
    field-digit_in 0 16 i (omega arith) (omega (arith, lt)),
    piece_in 0 16 0 l i (omega arith) (omega (arith, lt)),
    piece_out 16 4 48 l i (inl (omega (arith, lt))),
  )
  | no ge ↦ ground (
    arith,
    set_limit-digit l raw (48 + (i - 16)) (omega (arith, h)),
    field-digit_in 48 4 (48 + (i - 16)) (omega arith) (omega (arith, h)),
    piece_out 0 16 0 l (48 + (i - 16)) (inr (omega arith)),
    piece_in 16 4 48 l (48 + (i - 16)) (omega arith) (omega (arith, h)),
  )
]

pub set_limit-keeps :
    (l raw i : ℕ) → i < 64 → 16 ≤ i → (i < 48) ⊎ (52 ≤ i) → digit (set_limit l raw) i ≡ digit raw i
set_limit-keeps l raw i h low high = omega (
  arith,
  set_limit-digit l raw i h,
  field_out 0 16 i (inr low),
  field_out 48 4 i high,
  piece_out 0 16 0 l i (inr low),
  piece_out 16 4 48 l i high,
)

abbrev base_mask : ℕ
base_mask = bit_or (bit_or (field 16 16) (field 32 8)) (field 56 8)

abbrev base_pieces : ℕ → ℕ
base_pieces a = bit_or (bit_or (piece 0 16 16 a) (piece 16 8 32 a)) (piece 24 8 56 a)

set_base-digit :
    (a raw i : ℕ)
    → i < 64
    → digit (set_base_raw a raw) i
      ≡ max
          (min
            (digit raw i)
            (1 - max (max (digit (field 16 16) i) (digit (field 32 8) i)) (digit (field 56 8) i)))
          (max
            (max (digit (piece 0 16 16 a) i) (digit (piece 16 8 32 a) i))
            (digit (piece 24 8 56 a) i))
unfolding set_base_raw mask
set_base-digit a raw i h =
    digit-bit_or (bit_and raw (complement base_mask)) (base_pieces a) i
    ∙ ap₂ max
        (cleared raw base_mask i (omega arith) h
          ∙ ap (λ t. min (digit raw i) (1 - t))
              (three_pieces (field 16 16) (field 32 8) (field 56 8) i))
        (three_pieces (piece 0 16 16 a) (piece 16 8 32 a) (piece 24 8 56 a) i)

pub set_base-writes : (a raw i : ℕ) → i < 32 → digit (set_base_raw a raw) (base_at i) ≡ digit a i
set_base-writes a raw i h = elim (dec_lt i 16) [
  | yes lt ↦ ground (
    arith,
    set_base-digit a raw (16 + i) (omega (arith, h)),
    field-digit_in 16 16 (16 + i) (omega arith) (omega (arith, h, lt)),
    piece_in 0 16 16 a (16 + i) (omega arith) (omega (arith, h, lt)),
    piece_out 16 8 32 a (16 + i) (inl (omega (arith, h, lt))),
    piece_out 24 8 56 a (16 + i) (inl (omega (arith, h, lt))),
  )
  | no ge ↦ elim (dec_lt i 24) [
    | yes lt ↦ ground (
      arith,
      set_base-digit a raw (32 + (i - 16)) (omega (arith, h)),
      piece_out 0 16 16 a (32 + (i - 16)) (inr (omega (arith, h, lt, ge))),
      field-digit_in 32 8 (32 + (i - 16)) (omega arith) (omega (arith, h, lt, ge)),
      piece_in 16 8 32 a (32 + (i - 16)) (omega arith) (omega (arith, h, lt, ge)),
      piece_out 24 8 56 a (32 + (i - 16)) (inl (omega (arith, h, lt, ge))),
    )
    | no ge2 ↦ ground (
      arith,
      set_base-digit a raw (56 + (i - 24)) (omega (arith, h)),
      piece_out 0 16 16 a (56 + (i - 24)) (inr (omega (arith, h, ge2))),
      piece_out 16 8 32 a (56 + (i - 24)) (inr (omega (arith, h, ge2))),
      field-digit_in 56 8 (56 + (i - 24)) (omega arith) (omega (arith, h, ge2)),
      piece_in 24 8 56 a (56 + (i - 24)) (omega arith) (omega (arith, h, ge2)),
    )
  ]
]

pub set_base-keeps :
    (a raw i : ℕ)
    → i < 64
    → (i < 16) ⊎ (32 ≤ i)
    → (i < 32) ⊎ (40 ≤ i)
    → i < 56
    → digit (set_base_raw a raw) i ≡ digit raw i
set_base-keeps a raw i h low mid high = omega (
  arith,
  set_base-digit a raw i h,
  field_out 16 16 i low,
  field_out 32 8 i mid,
  field_out 56 8 i (inl high),
  piece_out 0 16 16 a i low,
  piece_out 16 8 32 a i mid,
  piece_out 24 8 56 a i (inl high),
)
