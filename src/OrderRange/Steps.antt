-- ===== src/OrderRange/Steps.antt =====
-- One step of the iteration of order_range.hpp: its size and why it cannot be larger.
use mathlib.Core.List.{foldl}
use guest_tests.Base.{
  ℕ, suc, ◌%◌, ◌^◌, ◌≤◌, ◌<◌, min, bit_or, List, [], ◌∷◌, ◌≡◌, ◌≢◌, arith, All, refl, ap,
  bit_or-multiple, multiple_of_bit_or, multiple_le, multiple-digit, lt_of_two-pow-lt, two-pow-le,
  inl, inr, Bool-cases, ◌==◌,
}
use native.Mathlib.Decide.{dec_lt}
use guest_tests.Math.{word, order_min, order_max}
use guest_tests.Math.Orders.{IsLowest, IsHighest, order_min-IsLowest, order_max-IsHighest}
use guest_tests.OrderRange.{order_step, mix, next_step}

-- Every base is a multiple of `2 ^ j`.
abbrev pub AreAligned : ℕ → List ℕ → Type 0
AreAligned j bases = All (λ b. b % 2 ^ j ≡ 0) bases

-- `2 ^ k` is the largest naturally aligned step that fits, under the user's limit `mo`.
pub record IsStep (bases : List ℕ) (rest mo k : ℕ) : Type 0 where
  pub fits : 2 ^ k ≤ rest
  pub within : k ≤ mo
  pub aligned : AreAligned k bases
  pub largest : (j : ℕ) → 2 ^ j ≤ rest → j ≤ mo → AreAligned j bases → j ≤ k

foldl-aligned :
    (j acc : ℕ) (bases : List ℕ)
    → acc % 2 ^ j ≡ 0
    → AreAligned j bases
    → foldl bit_or acc bases % 2 ^ j ≡ 0
foldl-aligned j acc [] h all = h
foldl-aligned j acc (b ∷ bs) h all =
    foldl-aligned j (bit_or acc b) bs (bit_or-multiple acc b j h all.0) all.1

aligned-foldl :
    (j acc : ℕ) (bases : List ℕ)
    → foldl bit_or acc bases % 2 ^ j ≡ 0
    → (acc % 2 ^ j ≡ 0) × AreAligned j bases
aligned-foldl j acc [] h = (h, tt)
aligned-foldl j acc (b ∷ bs) h =
    let (here, rest) = aligned-foldl j (bit_or acc b) bs h in
    let (p, q) = multiple_of_bit_or acc b j here in (p, (q, rest))

AreAligned-le : (i j : ℕ) (bases : List ℕ) → i ≤ j → AreAligned j bases → AreAligned i bases
AreAligned-le i j [] h all = tt
AreAligned-le i j (b ∷ bs) h all = (multiple_le b i j h all.0, AreAligned-le i j bs h all.1)

-- The bit that `order_step` adds keeps the argument of `order_min` from being 0.
guard_bit : (m : ℕ) → bit_or m (2 ^ 63) % word ≢ 0
guard_bit m e = absurd (omega (arith, multiple_of_bit_or m (2 ^ 63) 64 e))

module _ (bases : List ℕ) (rest mo : ℕ) (ne : rest ≢ 0) (lt : rest < word) where
  abbrev guarded : ℕ
  guarded = bit_or (mix bases) (2 ^ 63)

  abbrev chosen : ℕ
  chosen = min (order_min guarded) (min (order_max rest) mo)

  lowest : IsLowest guarded (order_min guarded)
  lowest = order_min-IsLowest guarded (guard_bit (mix bases))

  highest : IsHighest rest (order_max rest)
  highest = order_max-IsHighest rest ne lt

  next_step-eq : next_step bases rest mo ≡ 2 ^ chosen
  unfolding next_step order_step
  next_step-eq = elim (Bool-cases (rest == 0)) [
    | inl e ↦ absurd (ground arith)
    | inr e ↦ rw e (ap (λ t. 2 ^ t) (omega (arith, lowest.in_word, highest.in_word)))
  ]

  guarded-aligned : AreAligned (order_min guarded) bases
  unfolding mix
  guarded-aligned =
      (aligned-foldl (order_min guarded) 0 bases
        (multiple_of_bit_or (mix bases) (2 ^ 63) (order_min guarded) lowest.divides).0).1

  below_highest : (j : ℕ) → 2 ^ j ≤ rest → j ≤ order_max rest
  below_highest j fits =
      omega (arith, lt_of_two-pow-lt j (suc (order_max rest)) (omega (arith, highest.from_above)))

  chosen_largest : (j : ℕ) → 2 ^ j ≤ rest → AreAligned j bases → j ≤ order_min guarded
  unfolding mix
  chosen_largest j fits all = elim (dec_lt (order_min guarded) j) [
    | yes p ↦ absurd (
        omega (
          arith,
          lowest.bit_set,
          multiple-digit guarded (order_min guarded) j p (
              bit_or-multiple (mix bases) (2 ^ 63) j (foldl-aligned j 0 bases (omega arith) all) (
                multiple_le (2 ^ 63) j 63 (omega (arith, below_highest j fits, highest.in_word))
                  refl)),
        ))
    | no p ↦ omega arith
  ]

  chosen-IsStep : IsStep bases rest mo chosen
  chosen-IsStep = record {
    fits = omega (arith, two-pow-le chosen (order_max rest) (omega arith), highest.from_below);
    within = omega arith;
    aligned = AreAligned-le chosen (order_min guarded) bases (omega arith) guarded-aligned;
    largest = λ j fits within all. omega (arith, below_highest j fits, chosen_largest j fits all);
  }

  pub next_step-IsStep : (k : ℕ) × (next_step bases rest mo ≡ 2 ^ k) × IsStep bases rest mo k
  next_step-IsStep = (chosen, next_step-eq, chosen-IsStep)
