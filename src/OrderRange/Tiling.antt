-- ===== src/OrderRange/Tiling.antt =====
-- The whole iteration of order_range.hpp: it ends, and its pieces tile the range.
use guest_tests.Base.{
  ℕ, zero, suc, ◌+◌, ◌-◌, ◌%◌, ◌^◌, ◌≤◌, ◌<◌, List, [], ◌∷◌, ◌≡◌, ◌≢◌, arith, All, refl, ap, ap₂,
  sym, ◌∙◌, some, true, false, map, two-pow-pos,
}
use native.Mathlib.Nat.{mod-eq_of_lt}
use native.Mathlib.Decide.{ℕ_discrete}
use guest_tests.Math.{word}
use guest_tests.Interval.{Interval}
use guest_tests.OrderRange.{
  Range, Iterator, begin, end, iterator, increment, update_step, advance, deref, same, same_bases,
  next_step, visit, pieces,
}
use guest_tests.OrderRange.Steps.{IsStep, next_step-IsStep}

abbrev pub shift : ℕ → List ℕ → List ℕ
shift n = map (λ b. b + n)

-- The intervals of size `n` at the bases.
abbrev pub cells : ℕ → List ℕ → List Interval
cells n = map (λ b. record { a = b; b = b + n })

-- The pieces follow one another from the bases on and use up `rest`; each is a greedy step.
abbrev pub Tiles : ℕ → List (List Interval) → List ℕ → ℕ → Type 0
Tiles mo [] bases rest = rest ≡ 0
Tiles mo (p ∷ ps) bases rest =
    (k : ℕ) × IsStep bases rest mo k
    × (p ≡ cells (2 ^ k) bases)
    × Tiles mo ps (shift (2 ^ k) bases) (rest - 2 ^ k)

-- No base runs out of the address space.
abbrev pub Fits : ℕ → List ℕ → Type 0
Fits n bases = All (λ b. b + n < word) bases

advance-eq-shift :
    (n m : ℕ) (bases : List ℕ) → n ≤ m → Fits m bases → advance n bases ≡ shift n bases
advance-eq-shift n m [] h f = refl
advance-eq-shift n m (b ∷ bs) h f =
    ap₂ ◌∷◌ (mod-eq_of_lt (omega arith)) (advance-eq-shift n m bs h f.1)

deref-eq-cells :
    (n m : ℕ) (bases : List ℕ)
    → n ≤ m
    → Fits m bases
    → map (λ b. record { a = b; b = (b + n) % word }) bases ≡ cells n bases
deref-eq-cells n m [] h f = refl
deref-eq-cells n m (b ∷ bs) h f =
    ap₂ ◌∷◌ (ap (λ t. record { a = b; b = t }) (mod-eq_of_lt (omega arith)))
      (deref-eq-cells n m bs h f.1)

Fits-shift : (n m : ℕ) (bases : List ℕ) → n ≤ m → Fits m bases → Fits (m - n) (shift n bases)
Fits-shift n m [] h f = tt
Fits-shift n m (b ∷ bs) h f = (omega arith, Fits-shift n m bs h f.1)

shift-shift : (n m : ℕ) (bases : List ℕ) → n ≤ m → shift (m - n) (shift n bases) ≡ shift m bases
shift-shift n m [] h = refl
shift-shift n m (b ∷ bs) h = ap₂ ◌∷◌ (omega arith) (shift-shift n m bs h)

shift-zero : (bases : List ℕ) → shift 0 bases ≡ bases
shift-zero [] = refl
shift-zero (b ∷ bs) = ap₂ ◌∷◌ (omega arith) (shift-zero bs)

same_bases_self : (bases : List ℕ) → same_bases bases bases ≡ true
unfolding same_bases
same_bases_self [] = refl
same_bases_self (b ∷ bs) = ground (arith, same_bases_self bs)

-- A state of the loop with `rest` bytes left.
record IsAt (it : Iterator) (bases : List ℕ) (rest mo : ℕ) : Type 0 where
  at_bases : it.base ≡ bases
  at_rest : it.rest_size ≡ rest
  at_limit : it.max_order_choice ≡ mo
  at_step : rest ≢ 0 → it.current_step ≡ next_step bases rest mo

update_step-IsAt :
    (it : Iterator) (bases : List ℕ) (rest mo : ℕ)
    → it.base ≡ bases
    → it.rest_size ≡ rest
    → it.max_order_choice ≡ mo
    → IsAt (update_step it) bases rest mo
unfolding update_step
update_step-IsAt it bases rest mo p q r = record {
  at_bases = ground arith;
  at_rest = ground arith;
  at_limit = ground arith;
  at_step = λ ne. ground arith;
}

module _ {it : Iterator} (bases : List ℕ) (rest mo k : ℕ) (h : IsAt it bases rest mo)
    (f : Fits rest bases) (lt : rest < word) (fits : 2 ^ k ≤ rest)
    (e : it.current_step ≡ 2 ^ k) where
  increment-IsAt : IsAt (increment it) (shift (2 ^ k) bases) (rest - 2 ^ k) mo
  unfolding increment
  increment-IsAt =
      update_step-IsAt _ (shift (2 ^ k) bases) (rest - 2 ^ k) mo
        (ap₂ advance e h.at_bases ∙ advance-eq-shift (2 ^ k) rest bases fits f)
        (omega (arith, h.at_rest, e)) h.at_limit

  deref-cells : deref it ≡ cells (2 ^ k) bases
  unfolding deref
  deref-cells =
      ap₂ (λ n bs. map (λ b. record { a = b; b = (b + n) % word }) bs) e h.at_bases
      ∙ deref-eq-cells (2 ^ k) rest bases fits f

module _ {it : Iterator} (stop : Iterator) {bases : List ℕ} {rest mo : ℕ}
    (h : IsAt it bases rest mo) where
  same_at_end : stop.base ≡ shift rest bases → stop.rest_size ≡ 0 → rest ≡ 0 → same it stop ≡ true
  unfolding same
  same_at_end e z done =
      ground (arith, h.at_bases, h.at_rest, shift-zero bases, same_bases_self bases)

  same_before : stop.rest_size ≡ 0 → rest ≢ 0 → same it stop ≡ false
  unfolding same
  same_before z more = ground (arith, h.at_rest)

visit-Tiles :
    (fuel : ℕ) (it stop : Iterator) (bases : List ℕ) (rest mo : ℕ)
    → rest < fuel
    → rest < word
    → IsAt it bases rest mo
    → Fits rest bases
    → stop.base ≡ shift rest bases
    → stop.rest_size ≡ 0
    → (ps : List (List Interval)) × (visit fuel it stop ≡ some ps) × Tiles mo ps bases rest
unfolding visit
visit-Tiles zero it stop bases rest mo f lt h fits e z = absurd (omega arith)
visit-Tiles (suc fuel) it stop bases rest mo f lt h fits e z = elim (ℕ_discrete rest 0) [
  | yes done ↦ ([], rw (same_at_end stop h e z done), done)
  | no more ↦
      let (k, step, greedy) = next_step-IsStep bases rest mo more lt in
      let here : it.current_step ≡ 2 ^ k = h.at_step more ∙ step in
      let (ps, run, tiles) =
        visit-Tiles fuel (increment it) stop (shift (2 ^ k) bases) (rest - 2 ^ k) mo
          (omega (arith, two-pow-pos k)) (omega arith)
          (increment-IsAt bases rest mo k h fits lt greedy.fits here)
          (Fits-shift (2 ^ k) rest bases greedy.fits fits)
          (e ∙ sym (shift-shift (2 ^ k) rest bases greedy.fits)) z in
      (
        deref it ∷ ps,
        rw (same_before stop h z more, run),
        (k, greedy, deref-cells bases rest mo k h fits lt greedy.fits here, tiles),
      )
]

-- For a total size below 2^64 that fits behind every base, fuel above that size is enough for the
-- loop over an order_range to end, and what it visits tiles the range from each base (`Tiles`).
pub pieces-Tiles :
    (fuel : ℕ) (r : Range)
    → r.total < fuel
    → r.total < word
    → Fits r.total r.base
    → (ps : List (List Interval)) × (pieces fuel r ≡ some ps) × Tiles r.max_order ps r.base r.total
unfolding pieces begin end iterator
pieces-Tiles fuel r f lt fits =
    visit-Tiles fuel _ _ r.base r.total r.max_order f lt
      (record { at_bases = refl; at_rest = refl; at_limit = refl; at_step = λ ne. refl }) fits
      (advance-eq-shift r.total r.total r.base (omega arith) fits) refl
