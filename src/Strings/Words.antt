-- ===== src/Strings/Words.antt =====
-- `tokenize` of util/algorithm.hpp answers the pieces that are not empty.
use guest_tests.Base.{
  ℕ, ◌≡◌, refl, sym, ap, subst, ◌∙◌, false, ◌==◌, if◌then◌else◌, Bool-cases, inl, inr, List, [],
  ◌∷◌, ◌++◌, append_assoc, append-nil,
}
use guest_tests.Strings.{has_other, tokenize_from, tokenize, split}
use guest_tests.Strings.Pieces.{pieces, onto_first, pieces_cons, Free, split-pieces}

unfoldable pub non_empty : List (List ℕ) → List (List ℕ)
non_empty [] = []
non_empty ([] ∷ ps) = non_empty ps
non_empty ((c ∷ p) ∷ ps) = (c ∷ p) ∷ non_empty ps

-- A word in front of the first piece.
unfoldable onto : List ℕ → List (List ℕ) → List (List ℕ)
onto arg [] = arg ∷ []
onto arg (p ∷ ps) = (arg ++ p) ∷ ps

-- What the loop does with a word that ends.
pushed :
    (d : ℕ) (arg : List ℕ) (ret ps : List (List ℕ))
    → Free d arg
    → (if has_other d arg then ret ++ arg ∷ [] else ret) ++ non_empty ps
      ≡ ret ++ non_empty (arg ∷ ps)
unfolding has_other non_empty Free
pushed d [] ret ps f = refl
pushed d (c ∷ arg) ret ps f = rw f.0 (append_assoc ret ((c ∷ arg) ∷ []) (non_empty ps))

Free-snoc : (d c : ℕ) (arg : List ℕ) → Free d arg → (c == d) ≡ false → Free d (arg ++ c ∷ [])
unfolding Free
Free-snoc d c [] f e = (e, tt)
Free-snoc d c (x ∷ arg) f e = (f.0, Free-snoc d c arg f.1 e)

onto-onto_first :
    (c : ℕ) (arg p : List ℕ) (ps : List (List ℕ))
    → onto (arg ++ c ∷ []) (p ∷ ps) ≡ onto arg (onto_first c (p ∷ ps))
unfolding onto onto_first
onto-onto_first c arg p ps = ap (λ t. t ∷ ps) (append_assoc arg (c ∷ []) p)

onto-pieces :
    (d c : ℕ) (arg input : List ℕ)
    → onto (arg ++ c ∷ []) (pieces d input) ≡ onto arg (onto_first c (pieces d input))
onto-pieces d c arg input =
    let (p, ps, e) = pieces_cons d input in
    subst (λ l. onto (arg ++ c ∷ []) l ≡ onto arg (onto_first c l)) (sym e)
      (onto-onto_first c arg p ps)

onto_nothing : (d : ℕ) (input : List ℕ) → onto [] (pieces d input) ≡ pieces d input
unfolding onto
onto_nothing d input =
    let (p, ps, e) = pieces_cons d input in subst (λ l. onto [] l ≡ l) (sym e) refl

tokenize_from-words :
    (d : ℕ) (arg : List ℕ) (ret : List (List ℕ)) (input : List ℕ)
    → Free d arg
    → tokenize_from d arg ret input ≡ ret ++ non_empty (onto arg (pieces d input))
unfolding tokenize_from onto pieces Free non_empty
tokenize_from-words d arg ret [] f =
    sym (append-nil (if has_other d arg then ret ++ arg ∷ [] else ret))
    ∙ pushed d arg ret [] f
    ∙ ap (λ t. ret ++ non_empty (t ∷ [])) (sym (append-nil arg))
tokenize_from-words d arg ret (c ∷ input) f = elim (Bool-cases (c == d)) [
  | inl ends ↦ rw ends (
      tokenize_from-words d [] (if has_other d arg then ret ++ arg ∷ [] else ret) input tt
      ∙ ap (λ l. (if has_other d arg then ret ++ arg ∷ [] else ret) ++ non_empty l)
          (onto_nothing d input)
      ∙ pushed d arg ret (pieces d input) f
      ∙ ap (λ t. ret ++ non_empty (t ∷ pieces d input)) (sym (append-nil arg)))
  | inr other ↦
      rw (tokenize_from, other)
        (tokenize_from-words d (arg ++ c ∷ []) ret input (Free-snoc d c arg f other)
          ∙ ap (λ t. ret ++ non_empty t) (onto-pieces d c arg input))
]

-- For a string that is not empty, tokenize answers the pieces of split that are not empty.
pub tokenize-split : (d c : ℕ) (s : List ℕ) → tokenize (c ∷ s) d ≡ non_empty (split (c ∷ s) d)
unfolding tokenize Free
tokenize-split d c s =
    tokenize_from-words d [] [] (c ∷ s) tt
    ∙ ap non_empty (onto_nothing d (c ∷ s) ∙ sym (split-pieces d c s))
