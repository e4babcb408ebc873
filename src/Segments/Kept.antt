-- ===== src/Segments/Kept.antt =====
-- Each setter of `gdt_entry` in x86/segmentation.hpp against each getter: what it stores is read, and
-- the other two fields are kept.
use guest_tests.Base.{ℕ, ◌%◌, ◌^◌, ◌≤◌, ◌<◌, ◌≡◌, ◌⊎◌, inl, inr, arith}
use native.Mathlib.Decide.{dec_lt}
use guest_tests.Segments.{ar, raw_limit, base32, set_ar, set_limit, set_base_raw}
use guest_tests.Segments.Fields.{
  ar_at, limit_at, base_at, ar-Field, limit-Field, base-Field, Field-same, Field-stored,
}
use guest_tests.Segments.Setters.{
  set_ar-writes, set_ar-keeps, set_limit-writes, set_limit-keeps, set_base-writes, set_base-keeps,
}

ar_place : (i : ℕ) → i < 12 → ((40 ≤ ar_at i) × (ar_at i < 48)) ⊎ ((52 ≤ ar_at i) × (ar_at i < 56))
ar_place i h = elim (dec_lt i 8) [
  | yes lt ↦ inl (ground arith, ground arith)
  | no ge ↦ inr (ground arith, ground arith)
]

limit_place : (i : ℕ) → i < 20 → (limit_at i < 16) ⊎ ((48 ≤ limit_at i) × (limit_at i < 52))
limit_place i h = elim (dec_lt i 16) [
  | yes lt ↦ inl (ground arith)
  | no ge ↦ inr (ground arith, ground arith)
]

base_place :
    (i : ℕ) → i < 32 → ((16 ≤ base_at i) × (base_at i < 40)) ⊎ ((56 ≤ base_at i) × (base_at i < 64))
base_place i h = elim (dec_lt i 24) [
  | yes lt ↦ inl (ground arith, ground arith)
  | no ge ↦ inr (ground arith, ground arith)
]

module _ (v raw : ℕ) where
  pub ar-set_ar : ar (set_ar v raw) ≡ v % 2 ^ 12
  ar-set_ar = Field-stored 12 ar ar_at v (set_ar v raw) ar-Field (set_ar-writes v raw)

  pub limit-set_ar : raw_limit (set_ar v raw) ≡ raw_limit raw
  limit-set_ar = Field-same 20 raw_limit limit_at raw (set_ar v raw) limit-Field (λ i h.
      elim (limit_place i h) [
        | inl low ↦
            set_ar-keeps v raw (limit_at i) (omega (arith, low)) (inl (omega (arith, low)))
              (inl (omega (arith, low)))
        | inr (lo, hi) ↦ set_ar-keeps v raw (limit_at i) (omega (arith, hi)) (inr lo) (inl hi)
      ])

  pub base-set_ar : base32 (set_ar v raw) ≡ base32 raw
  base-set_ar = Field-same 32 base32 base_at raw (set_ar v raw) base-Field (λ i h.
      elim (base_place i h) [
        | inl (lo, hi) ↦
            set_ar-keeps v raw (base_at i) (omega (arith, hi)) (inl hi) (inl (omega (arith, hi)))
        | inr (lo, hi) ↦ set_ar-keeps v raw (base_at i) hi (inr (omega (arith, lo))) (inr lo)
      ])

  pub limit-set_limit : raw_limit (set_limit v raw) ≡ v % 2 ^ 20
  limit-set_limit =
      Field-stored 20 raw_limit limit_at v (set_limit v raw) limit-Field (set_limit-writes v raw)

  pub ar-set_limit : ar (set_limit v raw) ≡ ar raw
  ar-set_limit = Field-same 12 ar ar_at raw (set_limit v raw) ar-Field (λ i h. elim (ar_place i h) [
    | inl (lo, hi) ↦
        set_limit-keeps v raw (ar_at i) (omega (arith, hi)) (omega (arith, lo)) (inl hi)
    | inr (lo, hi) ↦
        set_limit-keeps v raw (ar_at i) (omega (arith, hi)) (omega (arith, lo)) (inr lo)
  ])

  pub base-set_limit : base32 (set_limit v raw) ≡ base32 raw
  base-set_limit = Field-same 32 base32 base_at raw (set_limit v raw) base-Field (λ i h.
      elim (base_place i h) [
        | inl (lo, hi) ↦
            set_limit-keeps v raw (base_at i) (omega (arith, hi)) lo (inl (omega (arith, hi)))
        | inr (lo, hi) ↦
            set_limit-keeps v raw (base_at i) hi (omega (arith, lo)) (inr (omega (arith, lo)))
      ])

  pub base-set_base : base32 (set_base_raw v raw) ≡ v % 2 ^ 32
  base-set_base =
      Field-stored 32 base32 base_at v (set_base_raw v raw) base-Field (set_base-writes v raw)

  pub ar-set_base : ar (set_base_raw v raw) ≡ ar raw
  ar-set_base = Field-same 12 ar ar_at raw (set_base_raw v raw) ar-Field (λ i h.
      elim (ar_place i h) [
        | inl (lo, hi) ↦
            set_base-keeps v raw (ar_at i) (omega (arith, hi)) (inr (omega (arith, lo))) (inr lo)
              (omega (arith, hi))
        | inr (lo, hi) ↦
            set_base-keeps v raw (ar_at i) (omega (arith, hi)) (inr (omega (arith, lo)))
              (inr (omega (arith, lo))) hi
      ])

  pub limit-set_base : raw_limit (set_base_raw v raw) ≡ raw_limit raw
  limit-set_base = Field-same 20 raw_limit limit_at raw (set_base_raw v raw) limit-Field (λ i h.
      elim (limit_place i h) [
        | inl low ↦
            set_base-keeps v raw (limit_at i) (omega (arith, low)) (inl low)
              (inl (omega (arith, low))) (omega (arith, low))
        | inr (lo, hi) ↦
            set_base-keeps v raw (limit_at i) (omega (arith, hi)) (inr (omega (arith, lo)))
              (inr (omega (arith, lo))) (omega (arith, hi))
      ])
