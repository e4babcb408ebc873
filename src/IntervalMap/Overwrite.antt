-- ===== src/IntervalMap/Overwrite.antt =====
-- `insert` of util/interval_map.hpp overwrites: every map that covers the numbers from 0 on stays one.
use guest_tests.Base.{
  ℕ, ◌≤◌, ◌<◌, ◌≡◌, sym, ap, ◌∙◌, subst, arith, Bool, true, some, List, [], ◌∷◌, ◌++◌, inl, inr,
  snoc_cases,
}
use guest_tests.Interval.{Interval}
use guest_tests.IntervalMap.{ival_last}
use guest_tests.IntervalMap.Ascent.{Within, last_value, Split-at}
use guest_tests.IntervalMap.Merge.{first_start}
use guest_tests.IntervalMap.Shape.{Around}
use guest_tests.IntervalMap.Branches.{last_value-snoc}
use guest_tests.IntervalMap.Insert.{Inserts, inside-Inserts, over-Inserts}

module _ {V : Type 0} (same : V → V → Bool) (sound : (x y : V) → same x y ≡ true → x ≡ y)
    (i : Interval) (v : V) (lt : i.a < i.b) (le : i.b ≤ ival_last) where
  -- The start at 0 is in front of the interval or inside it.
  no_elements :
      (zs : List (ℕ × V))
      → Within i.b ival_last zs
      → first_start zs ≡ some 0
      → Inserts same sound i v zs
  unfolding first_start
  no_elements [] w e = ground (arith, e)
  no_elements (x ∷ zs) w e = ground (arith, e, w.0, lt)

  module _ (zs : List (ℕ × V)) (g : Within i.b ival_last zs) where
    -- What `insert` does where the elements around the interval are `xs`, `mid` and `zs`.
    abbrev Goal : List (ℕ × V) → List (ℕ × V) → Type 0
    Goal xs mid =
        Within 0 i.a xs
        → Within i.a i.b mid
        → first_start (xs ++ (mid ++ zs)) ≡ some 0
        → Within 0 ival_last (xs ++ (mid ++ zs))
        → Inserts same sound i v (xs ++ (mid ++ zs))

    around :
        (xs mid : List (ℕ × V)) (last : V)
        → Within 0 i.a xs
        → Within i.a i.b mid
        → first_start (xs ++ (mid ++ zs)) ≡ some 0
        → ((d : V) → last_value (last_value d xs) mid ≡ last)
        → Around i xs mid zs last
    around xs mid last f h e values = record {
      front = f;
      covered = h;
      behind = g;
      some_points = lt;
      bounded = le;
      starts = e;
      value_before = values;
    }

    over : (xs ys : List (ℕ × V)) (prev : ℕ × V) → Goal xs (ys ++ prev ∷ [])
    over xs ys prev f h e w =
        over-Inserts same sound i v xs ys prev zs (
          around xs (ys ++ prev ∷ []) prev.1 f h e (λ d. last_value-snoc (last_value d xs) ys prev))

    inside : (front : List (ℕ × V)) (prev : ℕ × V) → Goal (front ++ prev ∷ []) []
    unfolding last_value
    inside front prev f h e w =
        inside-Inserts same sound i v front prev zs
          (around (front ++ prev ∷ []) [] prev.1 f h e (λ d. last_value-snoc d front prev)) w

    nothing_over : (xs : List (ℕ × V)) → Goal xs []
    nothing_over xs = elim (snoc_cases xs) [
      | inl no_front ↦ subst (λ l. Goal l []) (sym no_front) (λ f h e w. no_elements zs g e)
      | inr (front, prev, whole) ↦ subst (λ l. Goal l []) (sym whole) (inside front prev)
    ]

    between : (xs mid : List (ℕ × V)) → Goal xs mid
    between xs mid = elim (snoc_cases mid) [
      | inl none_over ↦ subst (Goal xs) (sym none_over) (nothing_over xs)
      | inr (ys, prev, whole) ↦ subst (Goal xs) (sym whole) (over xs ys prev)
    ]

  -- For a test of equality that is sound, a map whose starts ascend from 0 up to below the last number,
  -- and a non-empty interval that ends at the last number or below it: insert returns a map whose starts
  -- ascend from 0 up to below the last number, and which gives the points of the interval the new value
  -- and every other point below the last number the value that it had.
  pub insert-Inserts :
      (m : List (ℕ × V)) → Within 0 ival_last m → first_start m ≡ some 0 → Inserts same sound i v m
  insert-Inserts m w e =
      let s = Split-at 0 ival_last i.a m (omega arith) w in
      let t = Split-at i.a ival_last i.b s.rest (ground (arith, lt)) s.rest_Within in
      let whole = s.whole ∙ ap (λ l. s.front ++ l) t.whole in
      subst (λ l. first_start l ≡ some 0 → Within 0 ival_last l → Inserts same sound i v l)
        (sym whole) (between t.rest t.rest_Within s.front t.front s.front_Within t.front_Within) e w
