-- ===== src/IntervalMap/Shape.antt =====
-- The vector that `insert` of util/interval_map.hpp leaves, before it is merged: the elements in front
-- of the interval, the start of the interval, and what follows.
use guest_tests.Base.{
  ℕ, suc, ◌≤◌, ◌<◌, ◌≡◌, ap, ◌∙◌, arith, Bool, true, some, List, [], ◌∷◌, ◌++◌, length, ltb,
  if◌then◌else◌, Bool-cases, inl, inr, ltb→lt, some_inj,
}
use guest_tests.Interval.{Interval, contains, empty}
use guest_tests.IntervalMap.{ival_last, merge}
use guest_tests.IntervalMap.Ascent.{
  Within, Within-append, value_at, value_at-append_low, value_at-append_high, last_value,
}
use guest_tests.IntervalMap.Merge.{first_start, Agrees, merge-Agrees}

module _ {V : Type 0} where
  -- What a map is, and that it gives `v` inside the interval, and elsewhere what `m` gives.
  pub record Inserted (i : Interval) (v : V) (m m2 : List (ℕ × V)) : Type 0 where
    pub within : Within 0 ival_last m2
    pub heads : first_start m2 ≡ some 0
    pub values :
        (d : V) (p : ℕ)
        → p < ival_last
        → value_at d m2 p ≡ (if contains i p then v else value_at d m p)

  pub Inserted-Agrees :
      (i : Interval) (v : V) (m n m2 : List (ℕ × V))
      → Inserted i v m n
      → Agrees 0 ival_last n m2
      → Inserted i v m m2
  Inserted-Agrees i v m n m2 f g = record {
    within = g.within;
    heads = g.heads ∙ f.heads;
    values = λ d p h. g.values d p ∙ f.values d p h;
  }

  first_start-Within :
      (lo hi : ℕ) (m : List (ℕ × V)) → Within lo hi m → first_start m ≡ some 0 → lo ≡ 0
  unfolding first_start
  first_start-Within lo hi [] w e = ground (arith, e)
  first_start-Within lo hi (x ∷ m) w e = omega (arith, some_inj e)

  -- A map that starts at 0 still does when what is behind a front is replaced from `a` on.
  first_start-replaced :
      (a hi : ℕ) (xs r : List (ℕ × V)) (v : V) (tail : List (ℕ × V))
      → Within a hi r
      → first_start (xs ++ r) ≡ some 0
      → first_start (xs ++ (a, v) ∷ tail) ≡ some 0
  unfolding first_start
  first_start-replaced a hi [] r v tail w e = ap some (first_start-Within a hi r w e)
  first_start-replaced a hi (x ∷ xs) r v tail w e = e

  -- What has to follow the start of the interval, `last` being the old value before its end.
  pub record Follows (i : Interval) (v : V) (zs : List (ℕ × V)) (last : V) (tail : List (ℕ × V))
      : Type 0 where
    pub ascends : Within (suc i.a) ival_last tail
    pub gives :
        (p : ℕ)
        → i.a ≤ p
        → p < ival_last
        → value_at v tail p ≡ (if ltb p i.b then v else value_at last zs p)

  module _ (i : Interval) (xs mid zs : List (ℕ × V)) (last : V) where
    -- What the elements around an interval are, `last` being the value before its end.
    pub record Around : Type 0 where
      pub front : Within 0 i.a xs
      pub covered : Within i.a i.b mid
      pub behind : Within i.b ival_last zs
      pub some_points : i.a < i.b
      pub bounded : i.b ≤ ival_last
      pub starts : first_start (xs ++ (mid ++ zs)) ≡ some 0
      pub value_before : (d : V) → last_value (last_value d xs) mid ≡ last

    module _ (v : V) (s : Around) where
      rest_Within : Within i.a ival_last (mid ++ zs)
      rest_Within =
          Within-append i.a i.b ival_last mid zs (ground (arith, s.some_points)) s.bounded s.covered
            s.behind

      old_value : (d : V) (p : ℕ) → i.b ≤ p → value_at d (xs ++ (mid ++ zs)) p ≡ value_at last zs p
      old_value d p h =
          value_at-append_high d 0 i.a xs (mid ++ zs) p s.front (ground (arith, s.some_points))
          ∙ value_at-append_high (last_value d xs) i.a i.b mid zs p s.covered h
          ∙ ap (λ w. value_at w zs p) (s.value_before d)

      module _ (tail : List (ℕ × V)) (t : Follows i v zs last tail) where
        new_Within : Within i.a ival_last ((i.a, v) ∷ tail)
        new_Within = (omega arith, ground (arith, s.some_points, s.bounded), t.ascends)

        new_value :
            (d : V) (p : ℕ)
            → p < ival_last
            → value_at d (xs ++ (i.a, v) ∷ tail) p
              ≡ (if contains i p then v else value_at d (xs ++ (mid ++ zs)) p)
        unfolding value_at contains empty
        new_value d p h = elim (Bool-cases (ltb p i.a)) [
          | inl below ↦ ground (
            arith,
            below,
            value_at-append_low d i.a ival_last xs ((i.a, v) ∷ tail) p new_Within
                (ltb→lt p i.a below),
            value_at-append_low d i.a ival_last xs (mid ++ zs) p rest_Within (ltb→lt p i.a below),
          )
          | inr from ↦
              let up : i.a ≤ p = ground (arith, from) in
              let new = value_at-append_high d 0 i.a xs ((i.a, v) ∷ tail) p s.front up in
              elim (Bool-cases (ltb p i.b)) [
                | inl inside ↦ ground (arith, from, inside, new, t.gives p up h, s.some_points)
                | inr past ↦ ground (
                  arith,
                  from,
                  past,
                  new,
                  t.gives p up h,
                  s.some_points,
                  old_value d p (ground (arith, past)),
                )
              ]
        ]

        new_starts : first_start (xs ++ (i.a, v) ∷ tail) ≡ some 0
        new_starts = first_start-replaced i.a ival_last xs (mid ++ zs) v tail rest_Within s.starts

        pub placed-Inserted : Inserted i v (xs ++ (mid ++ zs)) (xs ++ (i.a, v) ∷ tail)
        placed-Inserted = record {
          within =
              Within-append 0 i.a ival_last xs ((i.a, v) ∷ tail) (omega arith)
                (ground (arith, s.some_points, s.bounded)) s.front new_Within;
          heads = new_starts;
          values = new_value;
        }

        pub merged-Inserted :
            (same : V → V → Bool) (sound : (x y : V) → same x y ≡ true → x ≡ y)
            → Inserted i v (xs ++ (mid ++ zs)) (merge same (xs ++ (i.a, v) ∷ tail) (length xs))
        merged-Inserted same sound =
            Inserted-Agrees i v (xs ++ (mid ++ zs)) (xs ++ (i.a, v) ∷ tail) _ placed-Inserted
              (merge-Agrees same sound 0 ival_last xs (i.a, v) tail placed-Inserted.within)
