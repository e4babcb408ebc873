-- ===== src/IntervalMap/Places.antt =====
-- What each branch of `insert` in util/interval_map.hpp writes where: `xs` are the elements in front
-- of the new interval, and `zs` those behind it.
use guest_tests.Base.{
  ℕ, suc, ◌+◌, ◌≡◌, refl, sym, ap, ap₂, ◌∙◌, arith, Bool, true, false, ◌==◌, some, List, [], ◌∷◌,
  ◌++◌, length, length-append, append_assoc, append-nil, take-append, drop-append, set-append,
  get_elem?-append_head, get_elem?-middle, drop-middle, set-middle, get_elem?-suc-middle,
  drop-suc-middle, less_one,
}
use guest_tests.Interval.{Interval}
use guest_tests.IntervalMap.{
  before, insert_at, erase_range, merge, insert_inside, insert_end, insert_over, ival_last,
}

module _ {V : Type 0} where
  pub insert_at-eq :
      (xs r : List (ℕ × V)) (x : ℕ × V) → insert_at (xs ++ r) (length xs) x ≡ xs ++ x ∷ r
  unfolding insert_at
  insert_at-eq xs r x = ap₂ (λ a b. a ++ x ∷ b) (take-append xs r) (drop-append xs r)

  erase-middle :
      (xs ys zs : List (ℕ × V))
      → erase_range (xs ++ (ys ++ zs)) (length xs) (length xs + length ys) ≡ xs ++ zs
  unfolding erase_range
  erase-middle xs ys zs = ap₂ (λ a b. a ++ b) (take-append xs (ys ++ zs)) (drop-middle xs ys zs)

  erase_suc-middle :
      (xs ys zs : List (ℕ × V)) (y : ℕ × V)
      → erase_range (xs ++ (ys ++ y ∷ zs)) (length xs) (suc (length xs + length ys)) ≡ xs ++ zs
  unfolding erase_range
  erase_suc-middle xs ys zs y =
      ap₂ (λ a b. a ++ b) (take-append xs (ys ++ y ∷ zs)) (drop-suc-middle xs ys zs y)

  insert_next :
      (xs r : List (ℕ × V)) (c x : ℕ × V)
      → insert_at (xs ++ c ∷ r) (length xs + 1) x ≡ xs ++ c ∷ x ∷ r
  insert_next xs r c x =
      ap (λ n. insert_at (xs ++ c ∷ r) n x) {y = length (xs ++ c ∷ [])}
        (omega (arith, length-append xs (c ∷ [])))
      ∙ ap (λ l. insert_at l (length (xs ++ c ∷ [])) x) (sym (append_assoc xs (c ∷ []) r))
      ∙ insert_at-eq (xs ++ c ∷ []) r x
      ∙ append_assoc xs (c ∷ []) (x ∷ r)

  module _ (same : V → V → Bool) (i : Interval) (v : V) where
    -- Over some elements, of which `prev` is the last, with `e` behind them.
    pub insert_over_short :
        (xs ys : List (ℕ × V)) (prev e : ℕ × V) (zs : List (ℕ × V))
        → (i.b == e.0) ≡ false
        → insert_over same
            (xs ++ (ys ++ prev ∷ e ∷ zs))
            (length xs)
            (suc (length xs + length ys))
            i
            v
          ≡ some (merge same (xs ++ (i.a, v) ∷ (i.b, prev.1) ∷ e ∷ zs) (length xs))
    unfolding insert_over before
    insert_over_short xs ys prev e zs ne =
        rw
          (
            get_elem?-suc-middle xs ys (e ∷ zs) prev,
            ne,
            get_elem?-middle xs ys (e ∷ zs) prev,
            less_one (length xs + length ys),
            set-middle xs ys (e ∷ zs) prev (i.b, prev.1),
            erase-middle xs ys ((i.b, prev.1) ∷ e ∷ zs),
            insert_at-eq xs ((i.b, prev.1) ∷ e ∷ zs) (i.a, v),
          )
          refl

    -- The same, where the interval ends at the start of `e`.
    pub insert_over_exact :
        (xs ys : List (ℕ × V)) (prev e : ℕ × V) (zs : List (ℕ × V))
        → (i.b == e.0) ≡ true
        → insert_over same
            (xs ++ (ys ++ prev ∷ e ∷ zs))
            (length xs)
            (suc (length xs + length ys))
            i
            v
          ≡ some (merge same (xs ++ (i.a, v) ∷ e ∷ zs) (length xs))
    unfolding insert_over before
    insert_over_exact xs ys prev e zs eq =
        rw
          (
            get_elem?-suc-middle xs ys (e ∷ zs) prev,
            eq,
            get_elem?-middle xs ys (e ∷ zs) prev,
            erase_suc-middle xs ys (e ∷ zs) prev,
            insert_at-eq xs (e ∷ zs) (i.a, v),
          )
          refl

    -- Up to the last number, over `prev` and what is in front of it.
    pub insert_end_last :
        (xs ys : List (ℕ × V)) (prev : ℕ × V)
        → (i.b == ival_last) ≡ true
        → insert_end same (xs ++ (ys ++ prev ∷ [])) (length xs) (suc (length xs + length ys)) i v
          ≡ some (merge same (xs ++ (i.a, v) ∷ []) (length xs))
    unfolding insert_end
    insert_end_last xs ys prev eq =
        rw (eq, erase_suc-middle xs ys [] prev, append-nil xs, whole_end) refl
      where
        whole_end : insert_at xs (length xs) (i.a, v) ≡ xs ++ (i.a, v) ∷ []
        whole_end =
            ap (λ l. insert_at l (length xs) (i.a, v)) (sym (append-nil xs))
            ∙ insert_at-eq xs [] (i.a, v)

    module _ (xs ys : List (ℕ × V)) (prev : ℕ × V) (ne : (i.b == ival_last) ≡ false) where
      -- Into the last interval, which has the value already.
      pub insert_end_same :
          same prev.1 v ≡ true
          → insert_end same (xs ++ (ys ++ prev ∷ [])) (length xs) (suc (length xs + length ys)) i v
            ≡ some (merge same (xs ++ (i.a, prev.1) ∷ []) (length xs))
      unfolding insert_end
      insert_end_same eq =
          rw
            (
              ne,
              less_one (length xs + length ys),
              erase-middle xs ys (prev ∷ []),
              get_elem?-append_head xs (prev ∷ []),
              eq,
              set-append xs [] prev (i.a, prev.1),
            )
            refl

      -- Into the last interval, of which the end remains.
      pub insert_end_short :
          same prev.1 v ≡ false
          → insert_end same (xs ++ (ys ++ prev ∷ [])) (length xs) (suc (length xs + length ys)) i v
            ≡ some (merge same (xs ++ (i.a, v) ∷ (i.b, prev.1) ∷ []) (length xs))
      unfolding insert_end
      insert_end_short eq =
          rw
            (
              ne,
              less_one (length xs + length ys),
              erase-middle xs ys (prev ∷ []),
              get_elem?-append_head xs (prev ∷ []),
              eq,
              set-append xs [] prev (i.b, prev.1),
              insert_at-eq xs ((i.b, prev.1) ∷ []) (i.a, v),
            )
            refl

    -- Between two neighbouring starts, the one in front being `prev`.
    module _ (xs : List (ℕ × V)) (prev : ℕ × V) (zs : List (ℕ × V))
        (at : before (xs ++ zs) (length xs) ≡ some prev) where
      pub insert_inside_same :
          same v prev.1 ≡ true → insert_inside same (xs ++ zs) (length xs) i v ≡ some (xs ++ zs)
      unfolding insert_inside
      insert_inside_same eq = rw (at, eq) refl

      module _ (ne : same v prev.1 ≡ false) where
        pub insert_inside_last :
            (i.b == ival_last) ≡ true
            → insert_inside same (xs ++ zs) (length xs) i v ≡ some (xs ++ (i.a, v) ∷ zs)
        unfolding insert_inside
        insert_inside_last eq = rw (at, ne, eq, insert_at-eq xs zs (i.a, v)) refl

    -- The same, with the elements behind the interval spelled out.
    module _ (xs : List (ℕ × V)) (prev : ℕ × V) (ne : same v prev.1 ≡ false)
        (below : (i.b == ival_last) ≡ false) where
      pub insert_inside_open :
          before (xs ++ []) (length xs) ≡ some prev
          → insert_inside same (xs ++ []) (length xs) i v
            ≡ some (xs ++ (i.a, v) ∷ (i.b, prev.1) ∷ [])
      unfolding insert_inside
      insert_inside_open at =
          rw
            (
              at,
              ne,
              below,
              get_elem?-append_head xs [],
              insert_inside,
              insert_at-eq xs [] (i.a, v),
              insert_next xs [] (i.a, v) (i.b, prev.1),
            )
            refl

      module _ (e : ℕ × V) (t : List (ℕ × V))
          (at : before (xs ++ e ∷ t) (length xs) ≡ some prev) where
        pub insert_inside_two :
            (i.b == e.0) ≡ false
            → insert_inside same (xs ++ e ∷ t) (length xs) i v
              ≡ some (xs ++ (i.a, v) ∷ (i.b, prev.1) ∷ e ∷ t)
        unfolding insert_inside
        insert_inside_two ne2 =
            rw
              (
                at,
                ne,
                below,
                get_elem?-append_head xs (e ∷ t),
                insert_inside,
                ne2,
                insert_at-eq xs (e ∷ t) (i.a, v),
                insert_next xs (e ∷ t) (i.a, v) (i.b, prev.1),
              )
              refl

        pub insert_inside_one :
            (i.b == e.0) ≡ true
            → insert_inside same (xs ++ e ∷ t) (length xs) i v
              ≡ some (merge same (xs ++ (i.a, v) ∷ e ∷ t) (length xs))
        unfolding insert_inside
        insert_inside_one eq =
            rw
              (
                at,
                ne,
                below,
                get_elem?-append_head xs (e ∷ t),
                insert_inside,
                eq,
                insert_at-eq xs (e ∷ t) (i.a, v),
              )
              refl
