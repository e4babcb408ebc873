-- ===== src/Strings/Erase.antt =====
-- `swap_erase`, `is_in` and `find_if_or` of util/algorithm.hpp.
use guest_tests.Base.{
  suc, ◌+◌, ◌-◌, ◌≡◌, refl, sym, ap, ap₂, ◌∙◌, arith, true, false, ◌==◌, ==_self, some, List, [],
  ◌∷◌, ◌++◌, length, length-append, take, append_assoc, take-append, set-append, set-middle,
  get_elem?-middle, get_elem?-append_head,
}
use guest_tests.Strings.{swap_erase}

module _ {V : Type 0} where
  -- For a vector, an element in it and the elements in front of it and behind it: swap_erase at the element
  -- answers true and puts the last element in its place, and drops the element if it is the last; at the
  -- end it answers false and changes nothing.
  pub swap_erase-lem :
      (xs : List V) (x : V) (ys : List V) (y : V)
      → (swap_erase (xs ++ (x ∷ ys ++ y ∷ [])) (length xs) ≡ some (true, xs ++ y ∷ ys))
        × (swap_erase (xs ++ x ∷ []) (length xs) ≡ some (true, xs))
        × (swap_erase xs (length xs) ≡ some (false, xs))
  unfolding swap_erase
  swap_erase-lem xs x ys y = (inner, last, rw (==_self (length xs)) refl)
    where
      size : length (xs ++ (x ∷ ys ++ y ∷ [])) - 1 ≡ length xs + length (x ∷ ys)
      size = omega (arith, length-append xs (x ∷ ys ++ y ∷ []), length-append (x ∷ ys) (y ∷ []))

      not_end : (length xs == length (xs ++ (x ∷ ys ++ y ∷ []))) ≡ false
      not_end = ground (arith, length-append xs (x ∷ ys ++ y ∷ []))

      one_size : length (xs ++ x ∷ []) - 1 ≡ length xs
      one_size = omega (arith, length-append xs (x ∷ []))

      one_not_end : (length xs == length (xs ++ x ∷ [])) ≡ false
      one_not_end = ground (arith, length-append xs (x ∷ []))

      front : take (length xs + suc (length ys)) (xs ++ (y ∷ ys ++ x ∷ [])) ≡ xs ++ y ∷ ys
      front =
          ap₂ take {y = length (xs ++ y ∷ ys)} (omega (arith, length-append xs (y ∷ ys)))
            (sym (append_assoc xs (y ∷ ys) (x ∷ [])))
          ∙ take-append (xs ++ y ∷ ys) (x ∷ [])

      inner : swap_erase (xs ++ (x ∷ ys ++ y ∷ [])) (length xs) ≡ some (true, xs ++ y ∷ ys)
      inner =
          rw
            (
              not_end,
              size,
              get_elem?-append_head xs (x ∷ ys ++ y ∷ []),
              get_elem?-middle xs (x ∷ ys) [] y,
              set-append xs (ys ++ y ∷ []) x y,
              set-middle xs (y ∷ ys) [] y x,
            )
            (ap (λ l. some (true, l)) front)

      last : swap_erase (xs ++ x ∷ []) (length xs) ≡ some (true, xs)
      last =
          rw
            (
              one_not_end,
              one_size,
              get_elem?-append_head xs (x ∷ []),
              set-append xs [] x x,
              set-append xs [] x x,
              take-append xs (x ∷ []),
            )
            refl
