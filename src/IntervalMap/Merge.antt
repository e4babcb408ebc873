-- ===== src/IntervalMap/Merge.antt =====
-- `merge` of util/interval_map.hpp drops starts at which the value does not change.
use guest_tests.Base.{
  ℕ, suc, ◌+◌, ◌-◌, ◌≡◌, refl, sym, ap, ◌∙◌, ap₂, subst, drop-suc-append, get_elem?-suc-append,
  arith, Bool, true, false, Option, none, some, List, [], ◌∷◌, ◌++◌, length, length-append,
  get_elem?, append_assoc, Bool-cases, inl, inr, snoc_cases, take-append, set-suc-append,
  get_elem?-append_head,
}
use native.Mathlib.Numerals.{add-one}
use guest_tests.IntervalMap.{before, erase_range, merge_before, merge_behind, merge}
use guest_tests.IntervalMap.Ascent.{Within, value_at, value_at_below, Within_weak}

module _ {V : Type 0} where
  unfoldable pub first_start : List (ℕ × V) → Option ℕ
  first_start [] = none
  first_start (e ∷ m) = some e.0

  -- `n` is as well-formed as `m`, begins where it does, and gives every point the same value.
  pub record Agrees (lo hi : ℕ) (m n : List (ℕ × V)) : Type 0 where
    pub within : Within lo hi n
    pub heads : first_start n ≡ first_start m
    pub values : (d : V) (p : ℕ) → value_at d n p ≡ value_at d m p

  pub Agrees-refl : (lo hi : ℕ) (m : List (ℕ × V)) → Within lo hi m → Agrees lo hi m m
  Agrees-refl lo hi m w = record { within = w; heads = refl; values = λ d p. refl }

  pub Agrees-trans :
      (lo hi : ℕ) (l m n : List (ℕ × V)) → Agrees lo hi l m → Agrees lo hi m n → Agrees lo hi l n
  Agrees-trans lo hi l m n f g = record {
    within = g.within;
    heads = g.heads ∙ f.heads;
    values = λ d p. g.values d p ∙ f.values d p;
  }

  -- A start with the value of the one before it can go.
  pub drop_repeat :
      (lo hi : ℕ) (xs : List (ℕ × V)) (k1 k2 : ℕ) (v : V) (t : List (ℕ × V))
      → Within lo hi (xs ++ (k1, v) ∷ (k2, v) ∷ t)
      → Agrees lo hi (xs ++ (k1, v) ∷ (k2, v) ∷ t) (xs ++ (k1, v) ∷ t)
  unfolding value_at first_start
  drop_repeat lo hi [] k1 k2 v t w = record {
    within = (w.0, w.1, Within_weak (suc k2) hi (suc k1) hi t (omega arith) (omega arith) w.2.2);
    heads = refl;
    values = λ d p. ground (arith, value_at_below v (suc k2) hi t p w.2.2);
  }
  drop_repeat lo hi (e ∷ xs) k1 k2 v t w =
      let rest = drop_repeat (suc e.0) hi xs k1 k2 v t w.2 in
      record {
        within = (w.0, w.1, rest.within);
        heads = refl;
        values = λ d p. ground (arith, rest.values e.1 p);
      }

  drop_same :
      (lo hi : ℕ) (xs : List (ℕ × V)) (k1 k2 : ℕ) (v1 v2 : V) (t : List (ℕ × V))
      → v1 ≡ v2
      → Within lo hi (xs ++ (k1, v1) ∷ (k2, v2) ∷ t)
      → Agrees lo hi (xs ++ (k1, v1) ∷ (k2, v2) ∷ t) (xs ++ (k1, v1) ∷ t)
  drop_same lo hi xs k1 k2 v1 v2 t e =
      subst
        (λ v.
          Within lo hi (xs ++ (k1, v1) ∷ (k2, v) ∷ t)
          → Agrees lo hi (xs ++ (k1, v1) ∷ (k2, v) ∷ t) (xs ++ (k1, v1) ∷ t))
        e (drop_repeat lo hi xs k1 k2 v1 t)

  drop_earlier :
      (lo hi : ℕ) (xs : List (ℕ × V)) (k1 k2 : ℕ) (v1 v2 : V) (t : List (ℕ × V))
      → v2 ≡ v1
      → Within lo hi (xs ++ (k1, v1) ∷ (k2, v2) ∷ t)
      → Agrees lo hi (xs ++ (k1, v1) ∷ (k2, v2) ∷ t) (xs ++ (k1, v2) ∷ t)
  drop_earlier lo hi xs k1 k2 v1 v2 t e =
      subst
        (λ v.
          Within lo hi (xs ++ (k1, v) ∷ (k2, v2) ∷ t)
          → Agrees lo hi (xs ++ (k1, v) ∷ (k2, v2) ∷ t) (xs ++ (k1, v2) ∷ t))
        e (drop_repeat lo hi xs k1 k2 v2 t)

  erase_one :
      (xs t : List (ℕ × V)) (e : ℕ × V)
      → erase_range (xs ++ e ∷ t) (length xs) (suc (length xs)) ≡ xs ++ t
  unfolding erase_range
  erase_one xs t e = ap₂ (λ a b. a ++ b) (take-append xs (e ∷ t)) (drop-suc-append xs t e)

  module _ (same : V → V → Bool) (sound : (x y : V) → same x y ≡ true → x ≡ y) (lo hi : ℕ) where
    next_of :
        (xs : List (ℕ × V)) (c : ℕ × V) (t : List (ℕ × V))
        → get_elem? (xs ++ c ∷ t) (length xs + 1) ≡ get_elem? t 0
    next_of xs c t =
        ap (get_elem? (xs ++ c ∷ t)) (add-one (length xs)) ∙ get_elem?-suc-append xs t c

    erase_next :
        (xs : List (ℕ × V)) (c e : ℕ × V) (t : List (ℕ × V))
        → erase_range (xs ++ c ∷ e ∷ t) (length xs + 1) (length xs + 2) ≡ xs ++ c ∷ t
    erase_next xs c e t =
        ap₂ (erase_range (xs ++ c ∷ e ∷ t)) {y = length (xs ++ c ∷ [])}
          {v = suc (length (xs ++ c ∷ []))} (omega (arith, length-append xs (c ∷ [])))
          (omega (arith, length-append xs (c ∷ [])))
        ∙ ap (λ l. erase_range l (length (xs ++ c ∷ [])) (suc (length (xs ++ c ∷ []))))
            (sym (append_assoc xs (c ∷ []) (e ∷ t)))
        ∙ erase_one (xs ++ c ∷ []) t e
        ∙ append_assoc xs (c ∷ []) t

    merge_behind-Agrees :
        (xs : List (ℕ × V)) (c : ℕ × V) (t : List (ℕ × V))
        → Within lo hi (xs ++ c ∷ t)
        → Agrees lo hi (xs ++ c ∷ t) (merge_behind same (xs ++ c ∷ t) (length xs) c.1)
    unfolding merge_behind
    merge_behind-Agrees xs c [] w =
        rw (next_of xs c [], merge_behind) (Agrees-refl lo hi (xs ++ c ∷ []) w)
    merge_behind-Agrees xs c (e ∷ t) w = elim (Bool-cases (same c.1 e.1)) [
      | inl repeated ↦
          rw (next_of xs c (e ∷ t), merge_behind, repeated, erase_next xs c e t)
            (drop_same lo hi xs c.0 e.0 c.1 e.1 t (sound c.1 e.1 repeated) w)
      | inr changed ↦
          rw (next_of xs c (e ∷ t), merge_behind, changed) (Agrees-refl lo hi (xs ++ c ∷ e ∷ t) w)
    ]

    -- With a predecessor that has the same value.
    merge_before-eq :
        (xs : List (ℕ × V)) (p c : ℕ × V) (t : List (ℕ × V))
        → same c.1 p.1 ≡ true
        → merge_before same (xs ++ p ∷ c ∷ t) (suc (length xs)) c
          ≡ (xs ++ (p.0, c.1) ∷ t, length xs)
    unfolding merge_before before
    merge_before-eq xs p c t repeated =
        rw
          (
            get_elem?-append_head xs (p ∷ c ∷ t),
            merge_before,
            repeated,
            back,
            set-suc-append xs t p c (p.0, c.1),
            erase_one xs ((p.0, c.1) ∷ t) p,
          )
          refl
      where
        back : suc (length xs) - 1 ≡ length xs
        back = omega arith

    merge_before-ne :
        (xs : List (ℕ × V)) (p c : ℕ × V) (t : List (ℕ × V))
        → same c.1 p.1 ≡ false
        → merge_before same (xs ++ p ∷ c ∷ t) (suc (length xs)) c
          ≡ (xs ++ p ∷ c ∷ t, suc (length xs))
    unfolding merge_before before
    merge_before-ne xs p c t changed =
        rw (get_elem?-append_head xs (p ∷ c ∷ t), merge_before, changed) refl

    -- The element behind `p`, seen behind the front that ends with `p`.
    merge_behind_next :
        (xs : List (ℕ × V)) (p c : ℕ × V) (t : List (ℕ × V))
        → Within lo hi (xs ++ p ∷ c ∷ t)
        → Agrees lo hi (xs ++ p ∷ c ∷ t) (merge_behind same (xs ++ p ∷ c ∷ t) (suc (length xs)) c.1)
    merge_behind_next xs p c t w =
        subst (λ k. Agrees lo hi (xs ++ p ∷ c ∷ t) (merge_behind same (xs ++ p ∷ c ∷ t) k c.1))
          {x = length (xs ++ p ∷ [])} (omega (arith, length-append xs (p ∷ [])))
          (subst
            (λ l. Within lo hi l → Agrees lo hi l (merge_behind same l (length (xs ++ p ∷ [])) c.1))
            (append_assoc xs (p ∷ []) (c ∷ t)) (merge_behind-Agrees (xs ++ p ∷ []) c t) w)

    merge_front :
        (xs : List (ℕ × V)) (p c : ℕ × V) (t : List (ℕ × V))
        → Within lo hi (xs ++ p ∷ c ∷ t)
        → Agrees lo hi (xs ++ p ∷ c ∷ t) (merge same (xs ++ p ∷ c ∷ t) (suc (length xs)))
    unfolding merge
    merge_front xs p c t w = elim (Bool-cases (same c.1 p.1)) [
      | inl repeated ↦
          let f = drop_earlier lo hi xs p.0 c.0 p.1 c.1 t (sound c.1 p.1 repeated) w in
          rw (get_elem?-suc-append xs (c ∷ t) p, merge, merge_before-eq xs p c t repeated)
            (Agrees-trans lo hi (xs ++ p ∷ c ∷ t) (xs ++ (p.0, c.1) ∷ t) _ f
              (merge_behind-Agrees xs (p.0, c.1) t f.within))
      | inr changed ↦
          rw (get_elem?-suc-append xs (c ∷ t) p, merge, merge_before-ne xs p c t changed)
            (merge_behind_next xs p c t w)
    ]

    -- Merging the element behind `xs` with its neighbours changes no value.
    pub merge-Agrees :
        (xs : List (ℕ × V)) (c : ℕ × V) (t : List (ℕ × V))
        → Within lo hi (xs ++ c ∷ t)
        → Agrees lo hi (xs ++ c ∷ t) (merge same (xs ++ c ∷ t) (length xs))
    unfolding merge merge_before before
    merge-Agrees xs c t w = elim (snoc_cases xs) [
      | inl none_before ↦
          subst
            (λ l.
              Within lo hi (l ++ c ∷ t)
              → Agrees lo hi (l ++ c ∷ t) (merge same (l ++ c ∷ t) (length l)))
            (sym none_before) (λ w0. merge_behind-Agrees [] c t w0) w
      | inr (front, p, whole) ↦
          subst
            (λ l.
              Within lo hi (l ++ c ∷ t)
              → Agrees lo hi (l ++ c ∷ t) (merge same (l ++ c ∷ t) (length l)))
            (sym whole) (behind front p) w
    ]
      where
        behind :
            (front : List (ℕ × V)) (p : ℕ × V)
            → Within lo hi ((front ++ p ∷ []) ++ c ∷ t)
            → Agrees lo hi
                ((front ++ p ∷ []) ++ c ∷ t)
                (merge same ((front ++ p ∷ []) ++ c ∷ t) (length (front ++ p ∷ [])))
        behind front p =
            subst
              (λ k.
                Within lo hi ((front ++ p ∷ []) ++ c ∷ t)
                → Agrees lo hi ((front ++ p ∷ []) ++ c ∷ t)
                    (merge same ((front ++ p ∷ []) ++ c ∷ t) k))
              {x = suc (length front)} (omega (arith, length-append front (p ∷ [])))
              (subst (λ l. Within lo hi l → Agrees lo hi l (merge same l (suc (length front))))
                (sym (append_assoc front (p ∷ []) (c ∷ t))) (merge_front front p c t))
