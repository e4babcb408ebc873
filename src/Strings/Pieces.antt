-- ===== src/Strings/Pieces.antt =====
-- `split` of string_util.cpp against the pieces of a string, and back.
use guest_tests.Base.{
  ℕ, zero, suc, ◌<◌, ◌≡◌, refl, sym, ap, subst, ◌∙◌, arith, true, false, ◌==◌, ==_self,
  if◌then◌else◌, Bool-cases, Option-cases, inl, inr, List, [], ◌∷◌, ◌++◌, length, All, append-nil,
}
use native.Mathlib.Numerals.{add-one}
use guest_tests.Strings.{find, split_from, split}

-- A character in front of the first piece.
unfoldable pub onto_first : ℕ → List (List ℕ) → List (List ℕ)
onto_first c [] = []
onto_first c (p ∷ ps) = (c ∷ p) ∷ ps

-- The pieces between the delimiters, one more than there are delimiters.
unfoldable pub pieces : ℕ → List ℕ → List (List ℕ)
pieces delimiter [] = [] ∷ []
pieces delimiter (c ∷ s) =
    let rest = pieces delimiter s in if c == delimiter then [] ∷ rest else onto_first c rest

first_piece :
    (d fuel c : ℕ) (s : List ℕ)
    → (c == d) ≡ false
    → split_from d (suc fuel) (c ∷ s) ≡ onto_first c (split_from d (suc fuel) s)
unfolding split_from find onto_first
first_piece d fuel c s other = elim (Option-cases (find d s)) [
  | inl nowhere ↦ rw (split_from, other, nowhere) refl
  | inr (pos, there) ↦ rw (split_from, other, there, add-one (suc pos), add-one pos) refl
]

pub split_from-pieces :
    (d fuel : ℕ) (s : List ℕ) → length s < fuel → split_from d fuel s ≡ pieces d s
unfolding split_from find pieces
split_from-pieces d zero s h = absurd (omega arith)
split_from-pieces d (suc fuel) [] h = refl
split_from-pieces d (suc fuel) (c ∷ s) h = elim (Bool-cases (c == d)) [
  | inl delimiter ↦
      rw (split_from, delimiter) (ap (◌∷◌ []) (split_from-pieces d fuel s (omega arith)))
  | inr other ↦
      first_piece d fuel c s other
      ∙ rw other (ap (onto_first c) (split_from-pieces d (suc fuel) s (omega arith)))
]

-- The pieces with the delimiter between them.
unfoldable pub join : ℕ → List (List ℕ) → List ℕ
join delimiter [] = []
join delimiter (p ∷ []) = p
join delimiter (p ∷ (q ∷ ps)) = p ++ delimiter ∷ join delimiter (q ∷ ps)

-- No character is the delimiter.
unfoldable pub Free : ℕ → List ℕ → Type 0
Free delimiter [] = Unit
Free delimiter (c ∷ s) = ((c == delimiter) ≡ false) × Free delimiter s

pub pieces_cons : (d : ℕ) (s : List ℕ) → (p : List ℕ) × (ps : List (List ℕ)) × (pieces d s ≡ p ∷ ps)
unfolding pieces onto_first
pieces_cons d [] = ([], [], refl)
pieces_cons d (c ∷ s) = elim (Bool-cases (c == d)) [
  | inl delimiter ↦ ([], pieces d s, rw delimiter refl)
  | inr other ↦ let (p, ps, e) = pieces_cons d s in (c ∷ p, ps, rw (other, e) refl)
]

join-onto_first :
    (d c : ℕ) (p : List ℕ) (ps : List (List ℕ))
    → join d (onto_first c (p ∷ ps)) ≡ c ∷ join d (p ∷ ps)
unfolding join onto_first
join-onto_first d c p [] = refl
join-onto_first d c p (q ∷ ps) = refl

join-pieces : (d : ℕ) (s : List ℕ) → join d (pieces d s) ≡ s
unfolding join pieces
join-pieces d [] = refl
join-pieces d (c ∷ s) =
    let (p, ps, e) = pieces_cons d s in
    elim (Bool-cases (c == d)) [
      | inl delimiter ↦
          rw (delimiter, e)
            (ap (λ t. t ∷ join d (p ∷ ps)) (sym (same delimiter))
              ∙ ap (◌∷◌ c) (ap (join d) (sym e) ∙ join-pieces d s))
      | inr other ↦
          rw (other, e)
            (join-onto_first d c p ps ∙ ap (◌∷◌ c) (ap (join d) (sym e) ∙ join-pieces d s))
    ]
  where
    same : (c == d) ≡ true → c ≡ d
    same h = ground (arith, h)

pieces-free_front :
    (d : ℕ) (p s q : List ℕ) (ps : List (List ℕ))
    → Free d p
    → pieces d s ≡ q ∷ ps
    → pieces d (p ++ s) ≡ (p ++ q) ∷ ps
unfolding Free pieces onto_first
pieces-free_front d [] s q ps f e = e
pieces-free_front d (c ∷ p) s q ps f e = rw (f.0, pieces-free_front d p s q ps f.1 e) refl

pieces-join :
    (d : ℕ) (p : List ℕ) (ps : List (List ℕ))
    → All (Free d) (p ∷ ps)
    → pieces d (join d (p ∷ ps)) ≡ p ∷ ps
unfolding join pieces
pieces-join d p [] f =
    ap (pieces d) (sym (append-nil p))
    ∙ pieces-free_front d p [] [] [] f.0 refl
    ∙ ap (λ t. t ∷ []) (append-nil p)
pieces-join d p (q ∷ ps) f =
    pieces-free_front d p (d ∷ join d (q ∷ ps)) [] (q ∷ ps) f.0
      (rw (==_self d) (ap (◌∷◌ []) (pieces-join d q ps f.1)))
    ∙ ap (λ t. t ∷ q ∷ ps) (append-nil p)

pub split-pieces : (d c : ℕ) (s : List ℕ) → split (c ∷ s) d ≡ pieces d (c ∷ s)
unfolding split
split-pieces d c s = split_from-pieces d (suc (suc (length s))) (c ∷ s) (omega arith)

pieces-Free : (d : ℕ) (s : List ℕ) → All (Free d) (pieces d s)
unfolding pieces Free onto_first
pieces-Free d [] = (tt, tt)
pieces-Free d (c ∷ s) = elim (Bool-cases (c == d)) [
  | inl delimiter ↦ rw delimiter (tt, pieces-Free d s)
  | inr other ↦
      let (p, ps, e) = pieces_cons d s in
      rw (other, e) (longer p ps (subst (All (Free d)) e (pieces-Free d s)) other)
]
  where
    longer :
        (p : List ℕ) (ps : List (List ℕ))
        → All (Free d) (p ∷ ps)
        → (c == d) ≡ false
        → All (Free d) ((c ∷ p) ∷ ps)
    longer p ps f other = ((other, f.0), f.1)

-- What it means to take a string apart at a delimiter.
pub record IsSplit (d : ℕ) (s : List ℕ) (l : List (List ℕ)) : Type 0 where
  pub joined : join d l ≡ s
  pub free : All (Free d) l

-- For a string that is not empty, the pieces that split answers have no delimiter in them, and give the
-- string back with a delimiter between each two.
pub split-IsSplit : (d c : ℕ) (s : List ℕ) → IsSplit d (c ∷ s) (split (c ∷ s) d)
split-IsSplit d c s = record {
  joined = ap (join d) (split-pieces d c s) ∙ join-pieces d (c ∷ s);
  free = subst (All (Free d)) (sym (split-pieces d c s)) (pieces-Free d (c ∷ s));
}

-- For pieces without the delimiter, at least one, that are not the empty string when they are joined: split
-- takes the joined string apart into just these pieces.
pub split-join :
    (d c : ℕ) (s p : List ℕ) (ps : List (List ℕ))
    → IsSplit d (c ∷ s) (p ∷ ps)
    → split (c ∷ s) d ≡ p ∷ ps
split-join d c s p ps w =
    split-pieces d c s ∙ ap (pieces d) (sym w.joined) ∙ pieces-join d p ps w.free
