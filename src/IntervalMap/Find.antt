-- ===== src/IntervalMap/Find.antt =====
-- What `find` of util/interval_map.hpp finds.
use guest_tests.Base.{
  ℕ, ◌≤◌, ◌<◌, ◌≡◌, refl, sym, arith, true, none, some, List, [], ◌∷◌, get_elem?, leb,
  if◌then◌else◌, Bool-cases, inl, inr, leb→le,
}
use guest_tests.Interval.{Interval, contains, empty}
use guest_tests.IntervalMap.Ascent.{value_at}
use guest_tests.IntervalMap.{upper_bound, before, interval_of, find, ival_last}

module _ {ℓ} {V : Type ℓ} where
  -- The last element of `e ∷ m` whose start is not above `p`, if they ascend and `e` is one.
  pub governing : ℕ × V → List (ℕ × V) → ℕ → ℕ × V
  governing e [] p = e
  governing e (x ∷ m) p = let rest = governing x m p in if leb x.0 p then rest else e

  governing-start : (e : ℕ × V) (m : List (ℕ × V)) (p : ℕ) → e.0 ≤ p → (governing e m p).0 ≤ p
  unfolding governing
  governing-start e [] p h = h
  governing-start e (x ∷ m) p h = elim (Bool-cases (leb x.0 p)) [
    | inl starts ↦ rw starts (governing-start x m p (leb→le _ _ starts))
    | inr above ↦ rw above h
  ]

  last_at :
      (e : ℕ × V) (m : List (ℕ × V)) (p : ℕ)
      → get_elem? (e ∷ m) (upper_bound m p) ≡ some (governing e m p)
  unfolding governing upper_bound
  last_at e [] p = refl
  last_at e (x ∷ m) p = elim (Bool-cases (leb x.0 p)) [
    | inl starts ↦ rw starts (last_at x m p)
    | inr above ↦ rw above refl
  ]

  -- Where the interval of `find` ends.
  stop : List (ℕ × V) → ℕ → ℕ
  stop m k = elim (get_elem? m k) [ none ↦ ival_last | some e ↦ e.0 ]

  stop_above : (m : List (ℕ × V)) (p : ℕ) → p < ival_last → p < stop m (upper_bound m p)
  unfolding upper_bound stop
  stop_above [] p h = h
  stop_above (y ∷ m) p h = elim (Bool-cases (leb y.0 p)) [
    | inl starts ↦ rw starts (stop_above m p h)
    | inr above ↦ rw above (ground (arith, above))
  ]

  governing-value : (e : ℕ × V) (m : List (ℕ × V)) (p : ℕ) → (governing e m p).1 ≡ value_at e.1 m p
  unfolding governing value_at
  governing-value e [] p = refl
  governing-value e (x ∷ m) p = elim (Bool-cases (leb x.0 p)) [
    | inl starts ↦ rw starts (governing-value x m p)
    | inr above ↦ rw above refl
  ]

  -- What `find` answers for a point of the map.
  pub record Found (e : ℕ × V) (m : List (ℕ × V)) (p : ℕ) : Type ℓ where
    pub interval : Interval
    pub answer : find (e ∷ m) p ≡ some (interval, value_at e.1 m p)
    pub starts : interval.a ≡ (governing e m p).0
    pub inside : contains interval p ≡ true

  -- For a map whose first element starts at or below the point, and a point below the last number,
  -- find answers an interval that contains the point, which starts at the last element of the leading
  -- ones that start at or below the point, with the value that the elements give to the point.
  pub find-Found : (e : ℕ × V) (m : List (ℕ × V)) (p : ℕ) → e.0 ≤ p → p < ival_last → Found e m p
  unfolding find before upper_bound interval_of contains empty stop
  find-Found e m p h lt = record {
    interval = record { a = (governing e m p).0; b = stop m (upper_bound m p) };
    answer = rw (e_starts, last_at e m p, sym (governing-value e m p)) refl;
    starts = refl;
    inside = ground (arith, governing-start e m p h, stop_above m p lt);
  }
    where
      e_starts : leb e.0 p ≡ true
      e_starts = ground (arith, h)
