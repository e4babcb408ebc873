-- ===== src/IntervalMap/Ascent.antt =====
-- The vector of util/interval_map.hpp as a function of points: its elements ascend, and each gives
-- the value from its start on.
use guest_tests.Base.{
  ℕ, suc, ◌+◌, ◌≤◌, ◌<◌, ◌≡◌, refl, ap, arith, List, [], ◌∷◌, ◌++◌, length, leb, ltb, if◌then◌else◌,
  Bool-cases, inl, inr, ltb→lt,
}
use guest_tests.IntervalMap.{lower_bound}

module _ {ℓ} {V : Type ℓ} where
  -- The starts ascend strictly, from `lo` up to below `hi`.
  abbrev pub Within : (lo hi : ℕ) → List (ℕ × V) → Type 0
  Within lo hi [] = Unit
  Within lo hi (e ∷ m) = (lo ≤ e.0) × (e.0 < hi) × Within (suc e.0) hi m

  -- The value at a point, `d` in front of the first start.
  unfoldable pub value_at : V → List (ℕ × V) → ℕ → V
  value_at d [] p = d
  value_at d (e ∷ m) p = if leb e.0 p then value_at e.1 m p else d

  unfoldable pub last_value : V → List (ℕ × V) → V
  last_value d [] = d
  last_value d (e ∷ m) = last_value e.1 m

  pub Within_weak :
      (lo hi lo2 hi2 : ℕ) (m : List (ℕ × V))
      → lo2 ≤ lo
      → hi ≤ hi2
      → Within lo hi m
      → Within lo2 hi2 m
  Within_weak lo hi lo2 hi2 [] h k w = tt
  Within_weak lo hi lo2 hi2 (e ∷ m) h k w =
      (omega arith, omega arith, Within_weak (suc e.0) hi (suc e.0) hi2 m (omega arith) k w.2)

  pub Within-append :
      (lo mid hi : ℕ) (xs r : List (ℕ × V))
      → lo ≤ mid
      → mid ≤ hi
      → Within lo mid xs
      → Within mid hi r
      → Within lo hi (xs ++ r)
  Within-append lo mid hi [] r h k w v = Within_weak mid hi lo hi r h (omega arith) v
  Within-append lo mid hi (e ∷ xs) r h k w v =
      (omega arith, omega arith, Within-append (suc e.0) mid hi xs r (omega arith) k w.2 v)

  pub value_at_below :
      (d : V) (lo hi : ℕ) (m : List (ℕ × V)) (p : ℕ) → Within lo hi m → p < lo → value_at d m p ≡ d
  unfolding value_at
  value_at_below d lo hi [] p w h = refl
  value_at_below d lo hi (e ∷ m) p w h = ground arith

  pub value_at-append_low :
      (d : V) (mid hi : ℕ) (xs r : List (ℕ × V)) (p : ℕ)
      → Within mid hi r
      → p < mid
      → value_at d (xs ++ r) p ≡ value_at d xs p
  unfolding value_at
  value_at-append_low d mid hi [] r p w h = value_at_below d mid hi r p w h
  value_at-append_low d mid hi (e ∷ xs) r p w h =
      ground (arith, value_at-append_low e.1 mid hi xs r p w h)

  pub value_at-append_high :
      (d : V) (lo mid : ℕ) (xs r : List (ℕ × V)) (p : ℕ)
      → Within lo mid xs
      → mid ≤ p
      → value_at d (xs ++ r) p ≡ value_at (last_value d xs) r p
  unfolding value_at last_value
  value_at-append_high d lo mid [] r p w h = refl
  value_at-append_high d lo mid (e ∷ xs) r p w h =
      ground (arith, value_at-append_high e.1 (suc e.0) mid xs r p w.2 h)

  -- What `lower_bound` splits off.
  pub record Split (lo hi a : ℕ) (m : List (ℕ × V)) : Type ℓ where
    pub front : List (ℕ × V)
    pub rest : List (ℕ × V)
    pub whole : m ≡ front ++ rest
    pub at_bound : lower_bound m a ≡ length front
    pub front_Within : Within lo a front
    pub rest_Within : Within a hi rest

  pub Split-at : (lo hi a : ℕ) (m : List (ℕ × V)) → lo ≤ a → Within lo hi m → Split lo hi a m
  unfolding lower_bound
  Split-at lo hi a [] h w = record {
    front = [];
    rest = [];
    whole = refl;
    at_bound = refl;
    front_Within = tt;
    rest_Within = tt;
  }
  Split-at lo hi a (e ∷ m) h w = elim (Bool-cases (ltb e.0 a)) [
    | inl early ↦
        let lt : e.0 < a = ltb→lt e.0 a early in
        let s = Split-at (suc e.0) hi a m (omega arith) w.2 in
        record {
          front = e ∷ s.front;
          rest = s.rest;
          whole = ap (◌∷◌ e) s.whole;
          at_bound = rw early (ap suc s.at_bound);
          front_Within = (w.0, lt, s.front_Within);
          rest_Within = s.rest_Within;
        }
    | inr late ↦ record {
      front = [];
      rest = e ∷ m;
      whole = refl;
      at_bound = rw late refl;
      front_Within = tt;
      rest_Within = (ground (arith, late), w.1, w.2);
    }
  ]

  pub lower_bound-append :
      (lo a b : ℕ) (xs r : List (ℕ × V))
      → Within lo a xs
      → a ≤ b
      → lower_bound (xs ++ r) b ≡ length xs + lower_bound r b
  unfolding lower_bound
  lower_bound-append lo a b [] r w h = omega arith
  lower_bound-append lo a b (e ∷ xs) r w h =
      ground (arith, lower_bound-append (suc e.0) a b xs r w.2 h)
