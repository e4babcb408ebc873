-- ===== src/Base/Positions.antt =====
-- A list taken apart at the length of its front.
use Prim.Native.Nat.{ℕ, zero, suc, ◌+◌, ◌-◌, ◌≤◌, ◌<◌}
use mathlib.Core.Path.{◌≡◌, refl, ap, ◌∙◌}
use mathlib.Core.Logic.{◌⊎◌, inl, inr}
use mathlib.Core.List.{List, [], ◌∷◌, ◌++◌}
use mathlib.Core.Option.{none, some}
use native.Mathlib.Omega.{arith}
use guest_tests.Base.Lists.{length, get_elem?, set, take, drop}

pub less_one : (n : ℕ) → suc n - 1 ≡ n
less_one n = omega arith

module _ {ℓ} {A : Type ℓ} where
  pub take-append : (xs ys : List A) → take (length xs) (xs ++ ys) ≡ xs
  take-append [] ys = refl
  take-append (x ∷ xs) ys = ap (◌∷◌ x) (take-append xs ys)

  pub take_all : (n : ℕ) (xs : List A) → length xs ≤ n → take n xs ≡ xs
  take_all zero [] h = refl
  take_all zero (x ∷ xs) h = absurd (omega arith)
  take_all (suc n) [] h = refl
  take_all (suc n) (x ∷ xs) h = ap (◌∷◌ x) (take_all n xs (omega arith))

  pub get_elem?_inside : (xs : List A) (i : ℕ) (x : A) → get_elem? xs i ≡ some x → i < length xs
  get_elem?_inside [] i x e = cc
  get_elem?_inside (y ∷ xs) zero x e = omega arith
  get_elem?_inside (y ∷ xs) (suc i) x e = omega (arith, get_elem?_inside xs i x e)

  pub get_elem?_outside : (xs : List A) (i : ℕ) → length xs ≤ i → get_elem? xs i ≡ none
  get_elem?_outside [] i h = refl
  get_elem?_outside (y ∷ xs) zero h = absurd (omega arith)
  get_elem?_outside (y ∷ xs) (suc i) h = get_elem?_outside xs i (omega arith)

  pub drop-append : (xs ys : List A) → drop (length xs) (xs ++ ys) ≡ ys
  drop-append [] ys = refl
  drop-append (x ∷ xs) ys = drop-append xs ys

  pub get_elem?-append_right :
      (xs ys : List A) (i : ℕ) → get_elem? (xs ++ ys) (length xs + i) ≡ get_elem? ys i
  get_elem?-append_right [] ys i = ap (get_elem? ys) (omega arith)
  get_elem?-append_right (x ∷ xs) ys i =
      ap (get_elem? (x ∷ xs ++ ys)) {y = suc (length xs + i)} (omega arith)
      ∙ get_elem?-append_right xs ys i

  pub get_elem?-append_head : (xs ys : List A) → get_elem? (xs ++ ys) (length xs) ≡ get_elem? ys 0
  get_elem?-append_head [] ys = refl
  get_elem?-append_head (x ∷ xs) ys = get_elem?-append_head xs ys

  pub drop-suc-append : (xs ys : List A) (y : A) → drop (suc (length xs)) (xs ++ y ∷ ys) ≡ ys
  drop-suc-append [] ys y = refl
  drop-suc-append (x ∷ xs) ys y = drop-suc-append xs ys y

  pub get_elem?-suc-append :
      (xs ys : List A) (y : A) → get_elem? (xs ++ y ∷ ys) (suc (length xs)) ≡ get_elem? ys 0
  get_elem?-suc-append [] ys y = refl
  get_elem?-suc-append (x ∷ xs) ys y = get_elem?-suc-append xs ys y

  pub set-append : (xs ys : List A) (y z : A) → set (xs ++ y ∷ ys) (length xs) z ≡ xs ++ z ∷ ys
  set-append [] ys y z = refl
  set-append (x ∷ xs) ys y z = ap (◌∷◌ x) (set-append xs ys y z)

  pub set-suc-append :
      (xs ys : List A) (x y z : A) → set (xs ++ x ∷ y ∷ ys) (suc (length xs)) z ≡ xs ++ x ∷ z ∷ ys
  set-suc-append [] ys x y z = refl
  set-suc-append (w ∷ xs) ys x y z = ap (◌∷◌ w) (set-suc-append xs ys x y z)

  pub get_elem?-middle :
      (xs ys zs : List A) (z : A)
      → get_elem? (xs ++ (ys ++ z ∷ zs)) (length xs + length ys) ≡ some z
  get_elem?-middle xs ys zs z =
      get_elem?-append_right xs (ys ++ z ∷ zs) (length ys) ∙ get_elem?-append_head ys (z ∷ zs)

  pub drop-middle : (xs ys zs : List A) → drop (length xs + length ys) (xs ++ (ys ++ zs)) ≡ zs
  drop-middle [] ys zs =
      ap (λ n. drop n (ys ++ zs)) {y = length ys} (omega arith) ∙ drop-append ys zs
  drop-middle (x ∷ xs) ys zs =
      ap (λ n. drop n (x ∷ xs ++ (ys ++ zs))) {y = suc (length xs + length ys)} (omega arith)
      ∙ drop-middle xs ys zs

  pub set-middle :
      (xs ys zs : List A) (y z : A)
      → set (xs ++ (ys ++ y ∷ zs)) (length xs + length ys) z ≡ xs ++ (ys ++ z ∷ zs)
  set-middle [] ys zs y z =
      ap (λ n. set (ys ++ y ∷ zs) n z) {y = length ys} (omega arith) ∙ set-append ys zs y z
  set-middle (x ∷ xs) ys zs y z =
      ap (λ n. set (x ∷ xs ++ (ys ++ y ∷ zs)) n z) {y = suc (length xs + length ys)} (omega arith)
      ∙ ap (◌∷◌ x) (set-middle xs ys zs y z)

  pub get_elem?-suc-middle :
      (xs ys zs : List A) (y : A)
      → get_elem? (xs ++ (ys ++ y ∷ zs)) (suc (length xs + length ys)) ≡ get_elem? zs 0
  get_elem?-suc-middle [] ys zs y =
      ap (λ n. get_elem? (ys ++ y ∷ zs) (suc n)) {y = length ys} (omega arith)
      ∙ get_elem?-suc-append ys zs y
  get_elem?-suc-middle (x ∷ xs) ys zs y =
      ap (λ n. get_elem? (xs ++ (ys ++ y ∷ zs)) n) {y = suc (length xs + length ys)} (omega arith)
      ∙ get_elem?-suc-middle xs ys zs y

  pub drop-suc-middle :
      (xs ys zs : List A) (y : A) → drop (suc (length xs + length ys)) (xs ++ (ys ++ y ∷ zs)) ≡ zs
  drop-suc-middle [] ys zs y =
      ap (λ n. drop (suc n) (ys ++ y ∷ zs)) {y = length ys} (omega arith) ∙ drop-suc-append ys zs y
  drop-suc-middle (x ∷ xs) ys zs y =
      ap (λ n. drop n (xs ++ (ys ++ y ∷ zs))) {y = suc (length xs + length ys)} (omega arith)
      ∙ drop-suc-middle xs ys zs y

  -- A list is empty, or has a last element.
  pub snoc_cases :
      (xs : List A) → (xs ≡ []) ⊎ ((front : List A) × (last : A) × (xs ≡ front ++ last ∷ []))
  snoc_cases [] = inl refl
  snoc_cases (x ∷ xs) = elim (snoc_cases xs) [
    | inl e ↦ inr ([], x, ap (◌∷◌ x) e)
    | inr (front, last, e) ↦ inr (x ∷ front, last, ap (◌∷◌ x) e)
  ]
