-- ===== src/Base/Multiples.antt =====
-- Multiples of powers of two, which are the aligned addresses.
use Prim.Native.Nat.{ℕ, zero, suc, ◌+◌, ◌%◌, ◌^◌, ◌≤◌, ◌<◌, bit_or}
use mathlib.Core.Path.{◌≡◌, ap, ◌∙◌}
use native.Mathlib.Nat.{add-mod_right}
use native.Mathlib.Decide.{dec_lt}
use native.Mathlib.Omega.{arith}
use guest_tests.Base.Bits.{digit, digit-bit_or, mod-two-pow-digit, two-pow-pos}

-- A multiple of `2 ^ j` is one of `2 ^ i` for a smaller `i`.
pub multiple_le : (n i j : ℕ) → i ≤ j → n % 2 ^ j ≡ 0 → n % 2 ^ i ≡ 0
multiple_le n i zero h e = ap (λ t. n % 2 ^ t) {y = 0} (omega arith) ∙ e
multiple_le n i (suc j) h e = elim (dec_lt j i) [
  | yes p ↦ ap (λ t. n % 2 ^ t) {y = suc j} (omega arith) ∙ e
  | no p ↦ multiple_le n i j (omega arith) (omega (arith, mod-two-pow-digit n j))
]

-- Below its alignment a number has no digit set.
pub multiple-digit : (n i j : ℕ) → i < j → n % 2 ^ j ≡ 0 → digit n i ≡ 0
multiple-digit n i j h e =
    grind (arith, mod-two-pow-digit n i, multiple_le n (suc i) j h e, two-pow-pos i)

-- A bitwise or is a multiple exactly when both its arguments are.
pub bit_or-multiple : (a b j : ℕ) → a % 2 ^ j ≡ 0 → b % 2 ^ j ≡ 0 → bit_or a b % 2 ^ j ≡ 0
bit_or-multiple a b zero p q = omega arith
bit_or-multiple a b (suc j) p q = ground (
  arith,
  mod-two-pow-digit a j,
  mod-two-pow-digit b j,
  mod-two-pow-digit (bit_or a b) j,
  digit-bit_or a b j,
  bit_or-multiple a b j,
)

pub multiple_of_bit_or : (a b j : ℕ) → bit_or a b % 2 ^ j ≡ 0 → (a % 2 ^ j ≡ 0) × (b % 2 ^ j ≡ 0)
multiple_of_bit_or a b zero p = omega arith
multiple_of_bit_or a b (suc j) p = ground (
  arith,
  mod-two-pow-digit a j,
  mod-two-pow-digit b j,
  mod-two-pow-digit (bit_or a b) j,
  digit-bit_or a b j,
  multiple_of_bit_or a b j,
)

-- Stepping by the alignment keeps it.
pub multiple-add : (n k : ℕ) → n % 2 ^ k ≡ 0 → (n + 2 ^ k) % 2 ^ k ≡ 0
multiple-add n k e = add-mod_right n (2 ^ k) ∙ e
