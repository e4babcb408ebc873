-- ===== src/Base/Ring.antt =====
-- Indices into a ring of `n` slots, as they wrap at its end.
use Prim.Native.Nat.{ℕ, suc, ◌+◌, ◌%◌, ◌<◌}
use mathlib.Core.Path.{◌≡◌}
use mathlib.Core.Logic.{inl, inr}
use native.Mathlib.Omega.{arith}
use guest_tests.Base.Bits.{mod_cases}

module _ (n r : ℕ) (h : r < n) where
  -- Slots at different distances from the start are different.
  pub ring_inj : (i j : ℕ) → i < n → j < n → (r + i) % n ≡ (r + j) % n → i ≡ j
  ring_inj i j hi hj e = elim (mod_cases n (r + i) (omega arith)) [
    | inl a ↦ elim (mod_cases n (r + j) (omega arith)) [
      | inl b ↦ omega (arith, a.1, b.1)
      | inr b ↦ omega (arith, a.1, b.1, b.0)
    ]
    | inr a ↦ elim (mod_cases n (r + j) (omega arith)) [
      | inl b ↦ omega (arith, a.1, b.1, a.0)
      | inr b ↦ omega (arith, a.1, b.1)
    ]
  ]

  pub ring_next : (i : ℕ) → i < n → ((r + i) % n + 1) % n ≡ (r + (i + 1)) % n
  ring_next i hi = elim (mod_cases n (r + i) (omega arith)) [
    | inl a ↦ ground (arith, a.1)
    | inr a ↦ elim (mod_cases n ((r + i) % n + 1) (omega (arith, a.1))) [
      | inl b ↦ elim (mod_cases n (r + (i + 1)) (omega arith)) [
        | inl c ↦ omega (arith, a.0, c.0)
        | inr c ↦ omega (arith, a.1, b.1, c.1)
      ]
      | inr b ↦ omega (arith, a.1, b.0)
    ]
  ]

  -- The slot behind the start is the start of the rest.
  pub ring_shift : (i : ℕ) → i < n → ((r + 1) % n + i) % n ≡ (r + suc i) % n
  ring_shift i hi = elim (mod_cases n (r + 1) (omega arith)) [
    | inl a ↦ ground (arith, a.1)
    | inr a ↦ elim (mod_cases n (r + suc i) (omega arith)) [
      | inl c ↦ omega (arith, a.0, c.0)
      | inr c ↦ elim (mod_cases n ((r + 1) % n + i) (omega (arith, a.1))) [
        | inl b ↦ omega (arith, a.1, b.1, c.1)
        | inr b ↦ omega (arith, a.1, b.0)
      ]
    ]
  ]
