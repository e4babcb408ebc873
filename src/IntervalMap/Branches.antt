-- ===== src/IntervalMap/Branches.antt =====
-- Which branch `insert` of util/interval_map.hpp takes, and what has to follow the start of the new
-- interval there.
use guest_tests.Base.{
  ℕ, suc, ◌+◌, ◌≤◌, ◌<◌, ◌≡◌, refl, ap, ◌∙◌, arith, Bool, true, false, ◌==◌, some, List, [], ◌∷◌,
  ◌++◌, length, length-append, append_assoc, get_elem?-append_head, get_elem?,
}
use guest_tests.Interval.{Interval, empty}
use guest_tests.IntervalMap.{
  ival_last, lower_bound, before, insert, insert_inside, insert_end, insert_over,
}
use guest_tests.IntervalMap.Ascent.{Within, Within-append, value_at, last_value, lower_bound-append}
use guest_tests.IntervalMap.Shape.{Around, Follows}

module _ {V : Type 0} where
  pub last_value-snoc : (d : V) (ys : List (ℕ × V)) (y : ℕ × V) → last_value d (ys ++ y ∷ []) ≡ y.1
  unfolding last_value
  last_value-snoc d [] y = refl
  last_value-snoc d (x ∷ ys) y = last_value-snoc x.1 ys y

  pub before-snoc :
      (ys : List (ℕ × V)) (y : ℕ × V) (r : List (ℕ × V))
      → before ((ys ++ y ∷ []) ++ r) (length (ys ++ y ∷ [])) ≡ some y
  unfolding before
  before-snoc ys y r =
      ap (before ((ys ++ y ∷ []) ++ r)) {y = suc (length ys)}
        (omega (arith, length-append ys (y ∷ [])))
      ∙ ap (λ l. get_elem? l (length ys)) (append_assoc ys (y ∷ []) r)
      ∙ get_elem?-append_head ys (y ∷ r)

  module _ (same : V → V → Bool) (i : Interval) (v : V) where
    -- Which branch `insert` takes.
    module _ (m : List (ℕ × V)) (lba lbb : ℕ) (at_a : lower_bound m i.a ≡ lba)
        (at_b : lower_bound m i.b ≡ lbb) (some_points : i.a < i.b)
        (some_elements : (length m == 0) ≡ false) where
      has_points : empty i ≡ false
      unfolding empty
      has_points = ground (arith, some_points)

      pub insert-inside :
          (lba == lbb) ≡ true
          → (lba == 0) ≡ false
          → insert same m i v ≡ insert_inside same m lbb i v
      unfolding insert
      insert-inside eq pos = rw (at_a, at_b, has_points, some_elements, eq, pos) refl

      pub insert-end :
          (lba == lbb) ≡ false
          → (lbb == length m) ≡ true
          → insert same m i v ≡ insert_end same m lba lbb i v
      unfolding insert
      insert-end ne eq = rw (at_a, at_b, has_points, some_elements, ne, eq) refl

      pub insert-over :
          (lba == lbb) ≡ false
          → (lbb == length m) ≡ false
          → insert same m i v ≡ insert_over same m lba lbb i v
      unfolding insert
      insert-over ne ne2 = rw (at_a, at_b, has_points, some_elements, ne, ne2) refl

    -- What follows the start of the interval, in each case.
    pub Follows-last : (last : V) → (i.b == ival_last) ≡ true → Follows i v [] last []
    unfolding value_at
    Follows-last last e = record { ascends = tt; gives = λ p up h. ground (arith, e) }

    pub Follows-same : (last : V) → last ≡ v → Follows i v [] last []
    unfolding value_at
    Follows-same last e = record { ascends = tt; gives = λ p up h. ground (arith, e) }

    pub Follows-open :
        (last : V) → i.a < i.b → i.b < ival_last → Follows i v [] last ((i.b, last) ∷ [])
    unfolding value_at
    Follows-open last lt below = record {
      ascends = (omega (arith, lt), below, tt);
      gives = λ p up h. ground arith;
    }

    module _ (last : V) (e : ℕ × V) (t : List (ℕ × V)) (lt : i.a < i.b)
        (w : Within i.b ival_last (e ∷ t)) where
      pub Follows-short : (i.b == e.0) ≡ false → Follows i v (e ∷ t) last ((i.b, last) ∷ e ∷ t)
      unfolding value_at
      Follows-short ne = record {
        ascends = (omega (arith, lt), omega (arith, w.0, w.1), (ground (arith, ne, w.0), w.1, w.2));
        gives = λ p up h. ground (arith, w.0);
      }

      pub Follows-exact : (i.b == e.0) ≡ true → Follows i v (e ∷ t) last (e ∷ t)
      unfolding value_at
      Follows-exact eq = record {
        ascends = (omega (arith, lt, w.0), w.1, w.2);
        gives = λ p up h. ground (arith, eq);
      }

    lower_bound-start :
        (lo hi p : ℕ) (m : List (ℕ × V)) → Within lo hi m → p ≤ lo → lower_bound m p ≡ 0
    unfolding lower_bound
    lower_bound-start lo hi p [] w h = refl
    lower_bound-start lo hi p (e ∷ m) w h = ground (arith, w.0)

    module _ (xs mid zs : List (ℕ × V)) (last : V) (s : Around i xs mid zs last) where
      pub bound_a : lower_bound (xs ++ (mid ++ zs)) i.a ≡ length xs
      bound_a =
          lower_bound-append 0 i.a i.a xs (mid ++ zs) s.front (omega arith)
          ∙ ap (λ n. length xs + n) {y = 0}
              (lower_bound-start i.a ival_last i.a (mid ++ zs) rest (omega arith))
          ∙ omega arith
        where
          rest : Within i.a ival_last (mid ++ zs)
          rest =
              Within-append i.a i.b ival_last mid zs (ground (arith, s.some_points)) s.bounded
                s.covered s.behind

      pub bound_b : lower_bound (xs ++ (mid ++ zs)) i.b ≡ length xs + length mid
      bound_b =
          lower_bound-append 0 i.a i.b xs (mid ++ zs) s.front (ground (arith, s.some_points))
          ∙ ap (λ n. length xs + n)
              (lower_bound-append i.a i.b i.b mid zs s.covered (omega arith)
                ∙ ap (λ n. length mid + n) {y = 0}
                    (lower_bound-start i.b ival_last i.b zs s.behind (omega arith))
                ∙ omega arith)
