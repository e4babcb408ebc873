-- ===== src/IntervalMap/Insert.antt =====
-- `insert` of util/interval_map.hpp on a map that covers the numbers from 0 on.
use guest_tests.Base.{
  ℕ, suc, ◌+◌, ◌≡◌, refl, sym, ap, ◌∙◌, subst, arith, Bool, true, false, ◌==◌, some, List, [], ◌∷◌,
  ◌++◌, length, length-append, append_assoc, Bool-cases, inl, inr,
}
use guest_tests.Interval.{Interval, contains, empty}
use guest_tests.IntervalMap.{ival_last, insert, insert_inside, insert_end, insert_over}
use guest_tests.IntervalMap.Ascent.{
  Within, value_at, value_at_below, value_at-append_high, last_value,
}
use guest_tests.IntervalMap.Shape.{Inserted, Around, placed-Inserted, merged-Inserted}
use guest_tests.IntervalMap.Places.{
  insert_over_short, insert_over_exact, insert_end_last, insert_end_same, insert_end_short,
  insert_inside_same, insert_inside_last, insert_inside_open, insert_inside_two, insert_inside_one,
}
use guest_tests.IntervalMap.Branches.{
  before-snoc, insert-inside, insert-end, insert-over, Follows-last, Follows-same, Follows-open,
  Follows-short, Follows-exact, bound_a, bound_b,
}
use guest_tests.IntervalMap.{merge}

module _ {V : Type 0} (same : V → V → Bool) (sound : (x y : V) → same x y ≡ true → x ≡ y)
    (i : Interval) (v : V) where
  -- The outcome of `insert`.
  pub record Inserts (m : List (ℕ × V)) : Type 0 where
    pub result : List (ℕ × V)
    pub answer : insert same m i v ≡ some result
    pub inserted : Inserted i v m result

  -- Inside the interval that starts at `prev`.
  module _ (front : List (ℕ × V)) (prev : ℕ × V) where
    abbrev xs : List (ℕ × V)
    xs = front ++ prev ∷ []

    inside-eq :
        (zs : List (ℕ × V))
        → Around i xs [] zs prev.1
        → insert same (xs ++ zs) i v ≡ insert_inside same (xs ++ zs) (length xs) i v
    inside-eq zs s =
        insert-inside same i v (xs ++ zs) (length xs) (length xs)
          (bound_a same i v xs [] zs prev.1 s) (bound_b same i v xs [] zs prev.1 s ∙ omega arith)
          s.some_points (ground (arith, length-append xs zs, length-append front (prev ∷ [])))
          (ground arith) (ground (arith, length-append front (prev ∷ [])))

    -- The value is there already.
    inside_same-Inserted :
        (zs : List (ℕ × V))
        → Around i xs [] zs prev.1
        → v ≡ prev.1
        → Within 0 ival_last (xs ++ zs)
        → Inserted i v (xs ++ zs) (xs ++ zs)
    unfolding contains empty last_value
    inside_same-Inserted zs s e w = record {
      within = w;
      heads = s.starts;
      values = λ d p h. elim (Bool-cases (contains i p)) [
        | inl covered ↦ rw covered (
            value_at-append_high d 0 i.a xs zs p s.front (ground (arith, covered))
            ∙ ap (λ w. value_at w zs p) (s.value_before d)
            ∙ value_at_below prev.1 i.b ival_last zs p s.behind (ground (arith, covered))
            ∙ sym e)
        | inr outside ↦ rw outside refl
      ];
    }

    pub inside-Inserts :
        (zs : List (ℕ × V))
        → Around i xs [] zs prev.1
        → Within 0 ival_last (xs ++ zs)
        → Inserts (xs ++ zs)
    inside-Inserts zs s w = elim (Bool-cases (same v prev.1)) [
      | inl repeated ↦ record {
        result = xs ++ zs;
        answer =
            inside-eq zs s
            ∙ insert_inside_same same i v xs prev zs (before-snoc front prev zs) repeated;
        inserted = inside_same-Inserted zs s (sound v prev.1 repeated) w;
      }
      | inr changed ↦ changed_value zs s changed
    ]
      where
        open_end :
            (s : Around i xs [] [] prev.1)
            → same v prev.1 ≡ false
            → (below : (i.b == ival_last) ≡ false) → Inserts (xs ++ [])
        open_end s changed below = record {
          result = xs ++ (i.a, v) ∷ (i.b, prev.1) ∷ [];
          answer =
              inside-eq [] s
              ∙ insert_inside_open same i v xs prev changed below (before-snoc front prev []);
          inserted =
              placed-Inserted i xs [] [] prev.1 v s ((i.b, prev.1) ∷ [])
                (Follows-open same i v prev.1 s.some_points (ground (arith, below, s.bounded)));
        }

        changed_value :
            (zs : List (ℕ × V))
            → Around i xs [] zs prev.1
            → same v prev.1 ≡ false
            → Inserts (xs ++ zs)
        changed_value [] s changed = elim (Bool-cases (i.b == ival_last)) [
          | inl to_end ↦ record {
            result = xs ++ (i.a, v) ∷ [];
            answer =
                inside-eq [] s
                ∙ insert_inside_last same i v xs prev [] (before-snoc front prev []) changed to_end;
            inserted =
                placed-Inserted i xs [] [] prev.1 v s [] (Follows-last same i v prev.1 to_end);
          }
          | inr below ↦ open_end s changed below
        ]
        changed_value (e ∷ t) s changed = elim (Bool-cases (i.b == e.0)) [
          | inl exact ↦ record {
            result = merge same (xs ++ (i.a, v) ∷ e ∷ t) (length xs);
            answer =
                inside-eq (e ∷ t) s
                ∙ insert_inside_one same i v xs prev changed
                    (ground (arith, s.behind.0, s.behind.1)) e t (before-snoc front prev (e ∷ t))
                    exact;
            inserted =
                merged-Inserted i xs [] (e ∷ t) prev.1 v s (e ∷ t)
                  (Follows-exact same i v prev.1 e t s.some_points s.behind exact) same sound;
          }
          | inr short ↦ record {
            result = xs ++ (i.a, v) ∷ (i.b, prev.1) ∷ e ∷ t;
            answer =
                inside-eq (e ∷ t) s
                ∙ insert_inside_two same i v xs prev changed
                    (ground (arith, s.behind.0, s.behind.1)) e t (before-snoc front prev (e ∷ t))
                    short;
            inserted =
                placed-Inserted i xs [] (e ∷ t) prev.1 v s ((i.b, prev.1) ∷ e ∷ t)
                  (Follows-short same i v prev.1 e t s.some_points s.behind short);
          }
        ]

  -- Over the elements of `ys ++ prev ∷ []`.
  module _ (xs ys : List (ℕ × V)) (prev : ℕ × V) where
    abbrev mid : List (ℕ × V)
    mid = ys ++ prev ∷ []

    whole_eq : (zs : List (ℕ × V)) → xs ++ (mid ++ zs) ≡ xs ++ (ys ++ prev ∷ zs)
    whole_eq zs = ap (λ l. xs ++ l) (append_assoc ys (prev ∷ []) zs)

    end-eq :
        Around i xs mid [] prev.1
        → insert same (xs ++ (mid ++ [])) i v
          ≡ insert_end same (xs ++ (ys ++ prev ∷ [])) (length xs) (suc (length xs + length ys)) i v
    end-eq s =
        insert-end same i v (xs ++ (mid ++ [])) (length xs) (suc (length xs + length ys))
          (bound_a same i v xs mid [] prev.1 s)
          (bound_b same i v xs mid [] prev.1 s ∙ omega (arith, length-append ys (prev ∷ [])))
          s.some_points (ground (arith, sizes)) (ground arith) (ground (arith, sizes))
        ∙ ap (λ l. insert_end same l (length xs) (suc (length xs + length ys)) i v) (whole_eq [])
      where
        sizes : length (xs ++ (mid ++ [])) ≡ suc (length xs + length ys)
        sizes = omega (
          arith,
          length-append xs (mid ++ []),
          length-append mid [],
          length-append ys (prev ∷ []),
        )

    over-eq :
        (e : ℕ × V) (t : List (ℕ × V))
        → Around i xs mid (e ∷ t) prev.1
        → insert same (xs ++ (mid ++ e ∷ t)) i v
          ≡ insert_over same
              (xs ++ (ys ++ prev ∷ e ∷ t))
              (length xs)
              (suc (length xs + length ys))
              i
              v
    over-eq e t s =
        insert-over same i v (xs ++ (mid ++ e ∷ t)) (length xs) (suc (length xs + length ys))
          (bound_a same i v xs mid (e ∷ t) prev.1 s)
          (bound_b same i v xs mid (e ∷ t) prev.1 s ∙ omega (arith, length-append ys (prev ∷ [])))
          s.some_points (ground (arith, sizes)) (ground arith) (ground (arith, sizes))
        ∙ ap (λ l. insert_over same l (length xs) (suc (length xs + length ys)) i v)
            (whole_eq (e ∷ t))
      where
        sizes : length (xs ++ (mid ++ e ∷ t)) ≡ suc (suc (length xs + length ys)) + length t
        sizes = omega (
          arith,
          length-append xs (mid ++ e ∷ t),
          length-append mid (e ∷ t),
          length-append ys (prev ∷ []),
        )

    pub over-Inserts : (zs : List (ℕ × V)) → Around i xs mid zs prev.1 → Inserts (xs ++ (mid ++ zs))
    over-Inserts [] s = elim (Bool-cases (i.b == ival_last)) [
      | inl to_end ↦ record {
        result = merge same (xs ++ (i.a, v) ∷ []) (length xs);
        answer = end-eq s ∙ insert_end_last same i v xs ys prev to_end;
        inserted =
            merged-Inserted i xs mid [] prev.1 v s [] (Follows-last same i v prev.1 to_end) same
              sound;
      }
      | inr below ↦ elim (Bool-cases (same prev.1 v)) [
        | inl repeated ↦ record {
          result = merge same (xs ++ (i.a, prev.1) ∷ []) (length xs);
          answer = end-eq s ∙ insert_end_same same i v xs ys prev below repeated;
          inserted =
              subst
                (λ w.
                  Inserted i v (xs ++ (mid ++ [])) (merge same (xs ++ (i.a, w) ∷ []) (length xs)))
                (sym (sound prev.1 v repeated))
                (merged-Inserted i xs mid [] prev.1 v s []
                  (Follows-same same i v prev.1 (sound prev.1 v repeated)) same sound);
        }
        | inr changed ↦ record {
          result = merge same (xs ++ (i.a, v) ∷ (i.b, prev.1) ∷ []) (length xs);
          answer = end-eq s ∙ insert_end_short same i v xs ys prev below changed;
          inserted =
              merged-Inserted i xs mid [] prev.1 v s ((i.b, prev.1) ∷ [])
                (Follows-open same i v prev.1 s.some_points (ground (arith, below, s.bounded))) same
                sound;
        }
      ]
    ]
    over-Inserts (e ∷ t) s = elim (Bool-cases (i.b == e.0)) [
      | inl exact ↦ record {
        result = merge same (xs ++ (i.a, v) ∷ e ∷ t) (length xs);
        answer = over-eq e t s ∙ insert_over_exact same i v xs ys prev e t exact;
        inserted =
            merged-Inserted i xs mid (e ∷ t) prev.1 v s (e ∷ t)
              (Follows-exact same i v prev.1 e t s.some_points s.behind exact) same sound;
      }
      | inr short ↦ record {
        result = merge same (xs ++ (i.a, v) ∷ (i.b, prev.1) ∷ e ∷ t) (length xs);
        answer = over-eq e t s ∙ insert_over_short same i v xs ys prev e t short;
        inserted =
            merged-Inserted i xs mid (e ∷ t) prev.1 v s ((i.b, prev.1) ∷ e ∷ t)
              (Follows-short same i v prev.1 e t s.some_points s.behind short) same sound;
      }
    ]
