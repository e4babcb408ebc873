-- ===== src/Segments/Fields.antt =====
-- Where the access rights, the limit and the base of a segment descriptor stand in its first value.
use guest_tests.Base.{
  ℕ, ◌+◌, ◌-◌, ◌/◌, ◌%◌, ◌^◌, ◌≤◌, ◌<◌, max, bit_and, bit_or, ◌≡◌, sym, ap, ◌∙◌, inl, inr, arith,
  ltb, if◌then◌else◌, digit, low_mask, digit-bit_or, digits_ext, digit-mod, bit_or_lt, bit_and_mask,
  two-pow-pos, two-pow-le, two-pow-add,
}
use native.Mathlib.Nat.{mod-lt, mul-lt-mul_of_pos_right}
use native.Mathlib.Decide.{dec_lt}
use guest_tests.Math.{mask}
use guest_tests.Segments.{ar, raw_limit, base32}
use guest_tests.Segments.Pieces.{piece, piece_in, piece_out}

-- A getter reads the `w` digits at `at`, from the lowest on.
pub record Field (w : ℕ) (get at : ℕ → ℕ) : Type 0 where
  pub bound : (raw : ℕ) → get raw < 2 ^ w
  pub reads : (raw i : ℕ) → i < w → digit (get raw) i ≡ digit raw (at i)

pub Field-same :
    (w : ℕ) (get at : ℕ → ℕ) (raw raw2 : ℕ)
    → Field w get at
    → ((i : ℕ) → i < w → digit raw2 (at i) ≡ digit raw (at i))
    → get raw2 ≡ get raw
Field-same w get at raw raw2 f h =
    digits_ext w (get raw2) (get raw) (f.bound raw2) (f.bound raw)
      (λ i hi. f.reads raw2 i hi ∙ h i hi ∙ sym (f.reads raw i hi))

pub Field-stored :
    (w : ℕ) (get at : ℕ → ℕ) (v raw2 : ℕ)
    → Field w get at
    → ((i : ℕ) → i < w → digit raw2 (at i) ≡ digit v i)
    → get raw2 ≡ v % 2 ^ w
Field-stored w get at v raw2 f h =
    digits_ext w (get raw2) (v % 2 ^ w) (f.bound raw2) (mod-lt v (two-pow-pos w))
      (λ i hi. f.reads raw2 i hi ∙ h i hi ∙ sym (digit-mod w v i hi))

abbrev pub ar_at : ℕ → ℕ
ar_at i = if ltb i 8 then 40 + i else 52 + (i - 8)

abbrev pub limit_at : ℕ → ℕ
limit_at i = if ltb i 16 then i else 48 + (i - 16)

abbrev pub base_at : ℕ → ℕ
base_at i = if ltb i 16 then 16 + i else if ltb i 24 then 32 + (i - 16) else 56 + (i - 24)

ar-digit : (raw i : ℕ) → i < 12 → digit (ar raw) i ≡ digit raw (ar_at i)
unfolding ar mask
ar-digit raw i h = elim (dec_lt i 8) [
  | yes lt ↦ ground (
    arith,
    digit-bit_or (piece 40 8 0 raw) (piece 52 4 8 raw) i,
    piece_in 40 8 0 raw i (omega arith) (omega (arith, lt)),
    piece_out 52 4 8 raw i (inl lt),
  )
  | no ge ↦ ground (
    arith,
    digit-bit_or (piece 40 8 0 raw) (piece 52 4 8 raw) i,
    piece_out 40 8 0 raw i (inr (omega (arith, ge))),
    piece_in 52 4 8 raw i (omega (arith, ge)) (omega (arith, h)),
  )
]

limit-digit : (raw i : ℕ) → i < 20 → digit (raw_limit raw) i ≡ digit raw (limit_at i)
unfolding raw_limit mask
limit-digit raw i h = elim (dec_lt i 16) [
  | yes lt ↦ ground (
    arith,
    digit-bit_or (piece 0 16 0 raw) (piece 48 4 16 raw) i,
    piece_in 0 16 0 raw i (omega arith) (omega (arith, lt)),
    piece_out 48 4 16 raw i (inl lt),
  )
  | no ge ↦ ground (
    arith,
    digit-bit_or (piece 0 16 0 raw) (piece 48 4 16 raw) i,
    piece_out 0 16 0 raw i (inr (omega (arith, ge))),
    piece_in 48 4 16 raw i (omega (arith, ge)) (omega (arith, h)),
  )
]

pub three_pieces :
    (a b c i : ℕ) → digit (bit_or (bit_or a b) c) i ≡ max (max (digit a i) (digit b i)) (digit c i)
three_pieces a b c i =
    digit-bit_or (bit_or a b) c i ∙ ap (λ t. max t (digit c i)) (digit-bit_or a b i)

base-digit : (raw i : ℕ) → i < 32 → digit (base32 raw) i ≡ digit raw (base_at i)
unfolding base32 mask
base-digit raw i h = elim (dec_lt i 16) [
  | yes lt ↦ ground (
    arith,
    three_pieces (piece 16 16 0 raw) (piece 32 8 16 raw) (piece 56 8 24 raw) i,
    piece_in 16 16 0 raw i (omega arith) (omega (arith, lt)),
    piece_out 32 8 16 raw i (inl lt),
    piece_out 56 8 24 raw i (inl (omega (arith, lt))),
  )
  | no ge ↦ elim (dec_lt i 24) [
    | yes lt ↦ ground (
      arith,
      three_pieces (piece 16 16 0 raw) (piece 32 8 16 raw) (piece 56 8 24 raw) i,
      piece_out 16 16 0 raw i (inr (omega (arith, ge))),
      piece_in 32 8 16 raw i (omega (arith, ge)) (omega (arith, lt)),
      piece_out 56 8 24 raw i (inl lt),
    )
    | no ge2 ↦ ground (
      arith,
      three_pieces (piece 16 16 0 raw) (piece 32 8 16 raw) (piece 56 8 24 raw) i,
      piece_out 16 16 0 raw i (inr (omega (arith, ge))),
      piece_out 32 8 16 raw i (inr (omega (arith, ge2))),
      piece_in 56 8 24 raw i (omega (arith, ge2)) (omega (arith, h)),
    )
  ]
]

low_lt : (a b w v : ℕ) → b ≤ w → bit_and (v / 2 ^ a) (low_mask b) < 2 ^ w
low_lt a b w v h =
    omega (arith, bit_and_mask b (v / 2 ^ a), mod-lt (v / 2 ^ a) (two-pow-pos b), two-pow-le b w h)

piece_lt : (a b s w v : ℕ) → s + b ≤ w → piece a b s v < 2 ^ w
piece_lt a b s w v h = omega (
  arith,
  mul-lt-mul_of_pos_right {k = 2 ^ s} (low_lt a b b v (omega arith)) (two-pow-pos s),
  two-pow-add b s,
  two-pow-le (b + s) w (omega (arith, h)),
)

pub ar-Field : Field 12 ar ar_at
unfolding ar mask
ar-Field = record {
  bound = λ raw.
      bit_or_lt 12 (bit_and (raw / 2 ^ 40) (low_mask 8)) (piece 52 4 8 raw)
        (low_lt 40 8 12 raw (omega arith)) (piece_lt 52 4 8 12 raw (omega arith));
  reads = ar-digit;
}

pub limit-Field : Field 20 raw_limit limit_at
unfolding raw_limit mask
limit-Field = record {
  bound = λ raw.
      bit_or_lt 20 (bit_and (raw / 2 ^ 0) (low_mask 16)) (piece 48 4 16 raw)
        (low_lt 0 16 20 raw (omega arith)) (piece_lt 48 4 16 20 raw (omega arith));
  reads = limit-digit;
}

pub base-Field : Field 32 base32 base_at
unfolding base32 mask
base-Field = record {
  bound = λ raw.
      bit_or_lt 32 (bit_or (bit_and (raw / 2 ^ 16) (low_mask 16)) (piece 32 8 16 raw))
        (piece 56 8 24 raw)
        (bit_or_lt 32 (bit_and (raw / 2 ^ 16) (low_mask 16)) (piece 32 8 16 raw)
          (low_lt 16 16 32 raw (omega arith)) (piece_lt 32 8 16 32 raw (omega arith)))
        (piece_lt 56 8 24 32 raw (omega arith));
  reads = base-digit;
}
