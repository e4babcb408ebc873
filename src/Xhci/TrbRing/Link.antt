-- ===== src/Xhci/TrbRing/Link.antt =====
-- The ring of xhci/ring.hpp with a link at its end: a transfer ring.
use guest_tests.Base.{
  ℕ, suc, ◌+◌, ◌<◌, ◌≡◌, refl, sym, ap, ◌∙◌, subst, arith, Bool, true, false, not, ◌==◌, some, List,
  length, get_elem?, get_or, set, length-set, get_or-set_self, get_or-set_ne, get_elem?-eq-get_or,
}
use native.Mathlib.Decide.{ℕ_discrete}
use guest_tests.Xhci.Trb.{Trb, get_type, set_cycle, get_toggle, trb_link}
use guest_tests.Xhci.TrbRing.{TrbRing, zero_trb, check_enqueue_increment, increment}
use guest_tests.Xhci.TrbRing.Fields.{
  IsWord32, set_cycle-IsWord32, get_type-set_cycle, get_toggle-set_cycle,
}

abbrev pub block : List Trb → ℕ → Trb
block ring i = get_or ring i zero_trb

-- `n` blocks for transfers, and the link behind them.
pub record IsLinked (n : ℕ) (ring : List Trb) : Type 0 where
  pub sized : length ring ≡ suc n
  pub positive : 0 < n
  pub words : (i : ℕ) → i < suc n → IsWord32 (block ring i)
  pub links : (get_type (block ring n) == trb_link) ≡ true
  pub toggles : get_toggle (block ring n) ≡ true
  pub others : (i : ℕ) → i < n → (get_type (block ring i) == trb_link) ≡ false

-- Writing the cycle bit of a block keeps all else.
module _ (n : ℕ) (ring : List Trb) (w : IsLinked n ring) (i : ℕ) (h : i < suc n) (b : Bool) where
  abbrev pub marked : List Trb
  marked = set ring i (set_cycle b (block ring i))

  pub block-marked : block marked i ≡ set_cycle b (block ring i)
  block-marked =
      get_or-set_self ring i (set_cycle b (block ring i)) zero_trb (omega (arith, w.sized))

  marked-cases :
      (P : Trb → Trb → Type 0)
      → ((j : ℕ) → P (block ring j) (block ring j))
      → P (block ring i) (set_cycle b (block ring i))
      → (j : ℕ) → P (block ring j) (block marked j)
  marked-cases P same changed j = elim (ℕ_discrete i j) [
    | yes e ↦ subst (λ k. P (block ring k) (block marked k)) e (rw block-marked changed)
    | no ne ↦ rw (get_or-set_ne ring i j (set_cycle b (block ring i)) zero_trb ne) (same j)
  ]

  type_kept : (j : ℕ) → get_type (block marked j) ≡ get_type (block ring j)
  type_kept =
      marked-cases (λ s t. get_type t ≡ get_type s) (λ j. refl)
        (get_type-set_cycle b (block ring i) (w.words i h))

  toggle_kept : (j : ℕ) → get_toggle (block marked j) ≡ get_toggle (block ring j)
  toggle_kept =
      marked-cases (λ s t. get_toggle t ≡ get_toggle s) (λ j. refl)
        (get_toggle-set_cycle b (block ring i) (w.words i h))

  pub marked-IsLinked : IsLinked n marked
  marked-IsLinked = record {
    sized = length-set ring i _ ∙ w.sized;
    positive = w.positive;
    words = λ j lt.
        marked-cases (λ s t. IsWord32 s → IsWord32 t) (λ k x. x)
          (set_cycle-IsWord32 b (block ring i)) j (w.words j lt);
    links = ap (λ t. t == trb_link) (type_kept n) ∙ w.links;
    toggles = toggle_kept n ∙ w.toggles;
    others = λ j lt. ap (λ t. t == trb_link) (type_kept j) ∙ w.others j lt;
  }

module _ (n : ℕ) (r : TrbRing) (w : IsLinked n r.ring) where
  pub found : (i : ℕ) → i < suc n → get_elem? r.ring i ≡ some (block r.ring i)
  found i h = get_elem?-eq-get_or r.ring i zero_trb (omega (arith, w.sized))

  pub check-link : (p : ℕ) → p ≡ n → check_enqueue_increment (suc n) true r p ≡ some 0
  unfolding check_enqueue_increment
  check-link p e = subst (λ k. check_enqueue_increment (suc n) true r k ≡ some 0) (sym e) here
    where
      here : check_enqueue_increment (suc n) true r n ≡ some 0
      here = rw (found n (omega arith), w.links) refl

  pub check-inner : (p : ℕ) → p < n → check_enqueue_increment (suc n) true r p ≡ some (p + 1)
  unfolding check_enqueue_increment
  check-inner p h = rw (found p (omega arith), w.others p h, not_last) refl
    where
      not_last : (p + 1 == suc n) ≡ false
      not_last = ground arith

  pub increment-link :
      (p : ℕ) (c : Bool) → p ≡ n → increment (suc n) true r p c ≡ some (0, 1, not c)
  unfolding increment
  increment-link p c e = subst (λ k. increment (suc n) true r k c ≡ some (0, 1, not c)) (sym e) here
    where
      not_last : (0 + 1 == suc n) ≡ false
      not_last = ground (arith, w.positive)

      here : increment (suc n) true r n c ≡ some (0, 1, not c)
      here = rw (found n (omega arith), w.links, w.toggles, not_last) refl

  pub increment-inner :
      (p : ℕ) (c : Bool) → p < n → increment (suc n) true r p c ≡ some (p, p + 1, c)
  unfolding increment
  increment-inner p c h = rw (found p (omega arith), w.others p h, not_last) refl
    where
      not_last : (p + 1 == suc n) ≡ false
      not_last = ground arith
