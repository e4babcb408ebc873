-- ===== src/OrderedSet.antt =====
-- `std::set<uintptr_t>` as the ascending list of its elements. An iterator to an element is the
-- element; `begin()` is the head of the list.
use mathlib.Core.Bool.{false≢true}
use guest_tests.Base.{
  ℕ, ◌+◌, ◌≤◌, List, [], ◌∷◌, Bool, true, false, ◌||◌, ◌==◌, ltb, if◌then◌else◌, ◌≡◌, refl, arith,
  All, subst, Bool-cases, ==_iff, inl, inr,
}

unfoldable pub member : ℕ → List ℕ → Bool
member a [] = false
member a (x ∷ xs) = x == a || member a xs

unfoldable pub insert : ℕ → List ℕ → List ℕ
insert a [] = a ∷ []
insert a (x ∷ xs) = if ltb a x then a ∷ x ∷ xs else x ∷ insert a xs

unfoldable pub erase : ℕ → List ℕ → List ℕ
erase a [] = []
erase a (x ∷ xs) = if x == a then xs else x ∷ erase a xs

-- `f` summed over the elements.
unfoldable pub total : (ℕ → ℕ) → List ℕ → ℕ
total f [] = 0
total f (x ∷ xs) = f x + total f xs

pub total-insert : (f : ℕ → ℕ) (a : ℕ) (s : List ℕ) → total f (insert a s) ≡ f a + total f s
unfolding total insert
total-insert f a [] = refl
total-insert f a (x ∷ xs) = ground (arith, total-insert f a xs)

pub total-erase :
    (f : ℕ → ℕ) (a : ℕ) (s : List ℕ) → member a s ≡ true → total f (erase a s) + f a ≡ total f s
unfolding total erase member
total-erase f a [] h = ground arith
total-erase f a (x ∷ xs) h = ground (arith, total-erase f a xs)

pub le-total : (f : ℕ → ℕ) (a : ℕ) (s : List ℕ) → member a s ≡ true → f a ≤ total f s
unfolding total member
le-total f a [] h = ground arith
le-total f a (x ∷ xs) h = ground (arith, le-total f a xs)

pub member-erase_ne :
    (a b : ℕ) (s : List ℕ) → member b s ≡ true → (a == b) ≡ false → member b (erase a s) ≡ true
unfolding member erase
member-erase_ne a b [] h ne = h
member-erase_ne a b (x ∷ xs) h ne = ground (arith, member-erase_ne a b xs)

pub member-insert : (a b : ℕ) (s : List ℕ) → member b (insert a s) ≡ (a == b || member b s)
unfolding member insert
member-insert a b [] = refl
member-insert a b (x ∷ xs) = ground (arith, member-insert a b xs)

module _ {ℓ} (P : ℕ → Type ℓ) where
  pub All-insert : (a : ℕ) (s : List ℕ) → P a → All P s → All P (insert a s)
  unfolding insert
  All-insert a [] h all = (h, tt)
  All-insert a (x ∷ xs) h all = ground (arith, All-insert a xs h all.1)

  pub All-erase : (a : ℕ) (s : List ℕ) → All P s → All P (erase a s)
  unfolding erase
  All-erase a [] all = all
  All-erase a (x ∷ xs) all = ground (arith, All-erase a xs all.1)

  pub All-member : (a : ℕ) (s : List ℕ) → All P s → member a s ≡ true → P a
  unfolding member
  All-member a [] all h = absurd (false≢true h)
  All-member a (x ∷ xs) all h = elim (Bool-cases (x == a)) [
    | inl e ↦ subst P ((==_iff x a).0 e) all.0
    | inr ne ↦ All-member a xs all.1 (ground arith)
  ]
