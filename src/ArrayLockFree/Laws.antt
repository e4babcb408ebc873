-- ===== src/ArrayLockFree/Laws.antt =====
-- What insert and remove of util/array_lock_free.hpp do to the places of the array.
use guest_tests.Base.{
  ℕ, ◌+◌, ◌≡◌, ◌≢◌, refl, sym, ap, ◌∙◌, arith, true, false, ◌==◌, ==_iff, ==_self, some_inj, subst,
  Bool-cases, inl, inr, Option, none, some, List, [], ◌∷◌, ◌++◌, length, All,
}
use guest_tests.ArrayLockFree.{exchange_from, insert, remove}

-- A compare-and-exchange at the first place that has the expected value, or nowhere.
pub data Exchanged (expected desired : ℕ) (array : List ℕ) (i : ℕ) (r : Option ℕ × List ℕ)
    : Type 0 where
  at_first :
      (before behind : List ℕ)
      → All (λ x. x ≢ expected) before
      → array ≡ before ++ expected ∷ behind
      → r ≡ (some (i + length before), before ++ desired ∷ behind)
      → Exchanged expected desired array i r
  nowhere : All (λ x. x ≢ expected) array → r ≡ (none, array) → Exchanged expected desired array i r

exchange_from-Exchanged :
    (expected desired : ℕ) (array : List ℕ) (i : ℕ)
    → Exchanged expected desired array i (exchange_from expected desired array i)
unfolding exchange_from
exchange_from-Exchanged expected desired [] i = nowhere tt refl
exchange_from-Exchanged expected desired (x ∷ array) i = elim (Bool-cases (x == expected)) [
  | inl here ↦
      at_first [] array tt (ap (λ y. y ∷ array) ((==_iff x expected).0 here))
        (rw here (ap (λ k. (some k, desired ∷ array)) (omega arith)))
  | inr other ↦ later (exchange_from-Exchanged expected desired array (i + 1)) other
]
  where
    later :
        Exchanged expected desired array (i + 1) (exchange_from expected desired array (i + 1))
        → (x == expected) ≡ false
        → Exchanged expected desired (x ∷ array) i (exchange_from expected desired (x ∷ array) i)
    later (at_first before behind differ e r) other =
        at_first (x ∷ before) behind (ground (arith, other), differ) (ap (λ rest. x ∷ rest) e)
          (rw (other, r) (ap (λ k. (some k, x ∷ before ++ desired ∷ behind)) (omega arith)))
    later (nowhere differ r) other = nowhere (ground (arith, other), differ) (rw (other, r) refl)

-- For a value that does not mark free places insert fails no assertion: it puts the value into the first
-- free place, answers its index and keeps all else, or answers nothing and changes nothing if no
-- place is free.
pub insert-Exchanged :
    (invalid value : ℕ) (array : List ℕ)
    → value ≢ invalid
    → (r : Option ℕ × List ℕ) × (insert invalid value array ≡ some r)
      × Exchanged invalid value array 0 r
unfolding insert
insert-Exchanged invalid value array real = (
  exchange_from invalid value array 0,
  rw allowed refl,
  exchange_from-Exchanged invalid value array 0,
)
  where
    allowed : (value == invalid) ≡ false
    allowed = ground (arith, real)

exchange_from-middle :
    (expected desired : ℕ) (before behind : List ℕ) (i : ℕ)
    → All (λ x. x ≢ expected) before
    → exchange_from expected desired (before ++ expected ∷ behind) i
      ≡ (some (i + length before), before ++ desired ∷ behind)
unfolding exchange_from
exchange_from-middle expected desired [] behind i h =
    rw (==_self expected) (ap (λ k. (some k, desired ∷ behind)) (omega arith))
exchange_from-middle expected desired (x ∷ before) behind i (hx, h) =
    rw (differs, exchange_from-middle expected desired before behind (i + 1) h)
      (ap (λ k. (some k, x ∷ before ++ desired ∷ behind)) (omega arith))
  where
    differs : (x == expected) ≡ false
    differs = ground (arith, hx)

All-front : (P : ℕ → Type 0) (xs ys : List ℕ) → All P (xs ++ ys) → All P xs
All-front P [] ys h = tt
All-front P (x ∷ xs) ys (hx, h) = (hx, All-front P xs ys h)

-- For a value that does not mark free places and that is not in the array: if insert found a place for
-- it, remove takes it out again, and the array is as it was before.
pub remove-insert :
    (invalid value i : ℕ) (array array2 : List ℕ)
    → value ≢ invalid
    → All (λ x. x ≢ value) array
    → insert invalid value array ≡ some (some i, array2)
    → remove invalid value array2 ≡ (true, array)
unfolding remove
remove-insert invalid value i array array2 real absent e =
    let (r, run, done) = insert-Exchanged invalid value array real in
    inserted r (some_inj (sym run ∙ e)) done
  where
    allowed : (value == invalid) ≡ false
    allowed = ground (arith, real)

    inserted :
        (r : Option ℕ × List ℕ)
        → r ≡ (some i, array2)
        → Exchanged invalid value array 0 r
        → remove invalid value array2 ≡ (true, array)
    inserted r same (nowhere differ none_free) = cc
    inserted r same (at_first before behind differ whole at_it) =
        rw (ap (λ t. t.1) (sym same ∙ at_it)) (
          rw
            (
              allowed,
              exchange_from-middle value invalid before behind 0 (
                  All-front (λ x. x ≢ value) before (invalid ∷ behind)
                    (subst (All (λ x. x ≢ value)) whole absent)),
            )
            (ap (λ t. (true, t)) (sym whole)))
