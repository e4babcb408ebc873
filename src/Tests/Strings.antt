-- ===== src/Tests/Strings.antt =====
-- Tests and instances for the strings and vectors.
use guest_tests.Base.{ℕ, ◌≡◌, refl, false, List, [], ◌∷◌, ◌==◌}
use guest_tests.Strings.{
  find, split_from, split, has_other, tokenize_from, tokenize, find_if_or, is_in,
}
use guest_tests.Strings.Pieces.{join, Free, IsSplit, split-join}

-- "a,,b" with the comma as 44.
abbrev rest_of_text : List ℕ
rest_of_text = 44 ∷ 44 ∷ 98 ∷ []

abbrev text : List ℕ
text = 97 ∷ rest_of_text

split_run : split text 44 ≡ (97 ∷ []) ∷ [] ∷ (98 ∷ []) ∷ []
unfolding split split_from find
split_run = refl

tokenize_run : tokenize text 44 ≡ (97 ∷ []) ∷ (98 ∷ []) ∷ []
unfolding tokenize tokenize_from has_other
tokenize_run = refl

abbrev text_pieces : List (List ℕ)
text_pieces = [] ∷ (98 ∷ []) ∷ []

text_pieces-IsSplit : IsSplit 44 text ((97 ∷ []) ∷ text_pieces)
unfolding join Free
text_pieces-IsSplit = record { joined = refl; free = ((refl, tt), (tt, ((refl, tt), tt))) }

split-join_example : split text 44 ≡ (97 ∷ []) ∷ text_pieces
split-join_example = split-join 44 97 rest_of_text (97 ∷ []) text_pieces text_pieces-IsSplit

find_if_or_run :
    (find_if_or (1 ∷ 2 ∷ 3 ∷ []) (λ x. x == 2) 9 ≡ 2) × (is_in ◌==◌ 5 (1 ∷ 2 ∷ []) ≡ false)
unfolding find_if_or is_in
find_if_or_run = (refl, refl)
