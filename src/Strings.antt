-- ===== src/Strings.antt =====
-- src/lib/toyos/src/string_util.cpp and include/toyos/util/algorithm.hpp: strings taken apart, and small
-- algorithms on vectors. A string is the list of its characters' codes.
pub mod Pieces
pub mod Words
pub mod Erase
use guest_tests.Base.{
  ℕ, zero, suc, ◌+◌, ◌-◌, Bool, true, false, not, ◌==◌, if◌then◌else◌, Option, none, some, ◌>>=◌,
  List, [], ◌∷◌, ◌++◌, length, get_elem?, set, take, drop,
}

-- `std::string::find` of one character: its first position.
unfoldable pub find : ℕ → List ℕ → Option ℕ
find delimiter [] = none
find delimiter (c ∷ s) =
    let rest = find delimiter s >>= (λ pos. some (suc pos)) in
    if c == delimiter then some 0 else rest

-- The loop of `split` and what is left behind it: it ends within a round for each character and one.
unfoldable pub split_from : ℕ → ℕ → List ℕ → List (List ℕ)
split_from delimiter zero string = []
split_from delimiter (suc fuel) string = elim (find delimiter string) [
  | none ↦ string ∷ []
  | some pos ↦ take pos string ∷ split_from delimiter fuel (drop (pos + 1) string)
]

unfoldable pub split : List ℕ → ℕ → List (List ℕ)
split source delimiter = elim source [
  | [] ↦ []
  | c ∷ s ↦ split_from delimiter (suc (suc (length s))) (c ∷ s)
]

-- `arg.find_first_not_of(token) != npos`
unfoldable pub has_other : ℕ → List ℕ → Bool
has_other token [] = false
has_other token (c ∷ s) = let rest = has_other token s in if c == token then rest else true

-- One step of the loop of `tokenize` is one clause: `arg` is the word so far, `ret` the words before.
unfoldable pub tokenize_from : ℕ → List ℕ → List (List ℕ) → List ℕ → List (List ℕ)
tokenize_from token arg ret [] = if has_other token arg then ret ++ arg ∷ [] else ret
tokenize_from token arg ret (c ∷ input) =
    let next_word =
      tokenize_from token [] (if has_other token arg then ret ++ arg ∷ [] else ret) input in
    let longer = tokenize_from token (arg ++ c ∷ []) ret input in
    if c == token then next_word else longer

unfoldable pub tokenize : List ℕ → ℕ → List (List ℕ)
tokenize input token = tokenize_from token [] [] input

module _ {ℓ} {A : Type ℓ} where
  -- `find_if_or`
  unfoldable pub find_if_or : List A → (A → Bool) → A → A
  find_if_or [] p alternative = alternative
  find_if_or (x ∷ r) p alternative =
      let rest = find_if_or r p alternative in if p x then x else rest

  -- `swap_erase` at the iterator with index `it`: the answer and the vector. The iterator is the end or
  -- in the vector.
  unfoldable pub swap_erase : List A → ℕ → Option (Bool × List A)
  swap_erase vec it =
      let last = length vec - 1 in
      if it == length vec
      then some (false, vec)
      else get_elem? vec it
        >>= (λ x. get_elem? vec last >>= (λ y. some (true, take last (set (set vec it y) last x))))

  -- `is_in`, with the test of equality.
  unfoldable pub is_in : (A → A → Bool) → A → List A → Bool
  is_in same elem [] = false
  is_in same elem (x ∷ list) = let rest = is_in same elem list in if same x elem then true else rest
