-- ===== src/MapVector/Order.antt =====
-- The keys of `map_vector` in util/map.hpp: what the vector maps them to, and where they stand.
use guest_tests.Base.{
  ℕ, zero, suc, ◌≤◌, ◌<◌, ◌≡◌, refl, arith, ◌==◌, if◌then◌else◌, Option, none, some, List, [], ◌∷◌,
  ◌++◌, length, get_elem?,
}
use native.Mathlib.Decide.{dec_lt}
use guest_tests.IntervalMap.{lower_bound, before}
use guest_tests.IntervalMap.Ascent.{Within}

module _ {ℓ} {V : Type ℓ} where
  -- The value of a key.
  unfoldable pub value : List (ℕ × V) → ℕ → Option V
  value [] p = none
  value (e ∷ m) p = if e.0 == p then some e.1 else value m p

  pub value-front :
      (lo k p : ℕ) (xs r : List (ℕ × V)) → Within lo k xs → k ≤ p → value (xs ++ r) p ≡ value r p
  unfolding value
  value-front lo k p [] r w h = refl
  value-front lo k p (e ∷ xs) r w h = ground (arith, value-front (suc e.0) k p xs r w.2 h)

  pub value-rest : (k hi p : ℕ) (r : List (ℕ × V)) → Within k hi r → p < k → value r p ≡ none
  unfolding value
  value-rest k hi p [] w h = refl
  value-rest k hi p (e ∷ r) w h = ground (arith, value-rest (suc e.0) hi p r w.2)

  -- A pair behind lesser keys is the value of its key, and of no other.
  pub value-added :
      (lo k p : ℕ) (v : V) (xs r : List (ℕ × V))
      → Within lo k xs
      → value (xs ++ (k, v) ∷ r) p ≡ (if k == p then some v else value (xs ++ r) p)
  unfolding value
  value-added lo k p v [] r w = refl
  value-added lo k p v (e ∷ xs) r w = ground (arith, value-added (suc e.0) k p v xs r w.2)

  lower_bound-none :
      (k lo hi : ℕ) (m : List (ℕ × V)) → Within lo hi m → k ≤ lo → lower_bound m k ≡ 0
  unfolding lower_bound
  lower_bound-none k lo hi [] w h = refl
  lower_bound-none k lo hi (e ∷ m) w h = ground arith

  -- An index between a lesser key and a greater one is the lower bound.
  pub lower_bound-between :
      (k lo hi it : ℕ) (m : List (ℕ × V))
      → Within lo hi m
      → it ≤ length m
      → ((e : ℕ × V) → get_elem? m it ≡ some e → k < e.0)
      → ((e : ℕ × V) → before m it ≡ some e → e.0 < k)
      → lower_bound m k ≡ it
  unfolding lower_bound before
  lower_bound-between k lo hi it [] w h next prev = omega (arith, h)
  lower_bound-between k lo hi zero (e ∷ m) w h next prev =
      let lt : k < e.0 = next e refl in ground arith
  lower_bound-between k lo hi (suc zero) (e ∷ m) w h next prev =
      let lt : e.0 < k = prev e refl in
      let rest : lower_bound m k ≡ 0 =
        lower_bound-between k (suc e.0) hi 0 m w.2 (omega arith) next (λ p q. cc) in
      ground arith
  lower_bound-between k lo hi (suc (suc i)) (e ∷ m) w h next prev = elim (dec_lt e.0 k) [
    | yes lt ↦
        let rest : lower_bound m k ≡ suc i =
          lower_bound-between k (suc e.0) hi (suc i) m w.2 (omega (arith, h)) next prev in
        ground arith
    | no ge ↦
        let rest : lower_bound m k ≡ suc i =
          lower_bound-between k (suc e.0) hi (suc i) m w.2 (omega (arith, h)) next prev in
        omega (arith, rest, lower_bound-none k (suc e.0) hi m w.2 (omega arith))
  ]
