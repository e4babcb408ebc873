-- ===== src/Xhci/TrbRing/Consumer.antt =====
-- The ring of xhci/ring.hpp without a link, as the side that dequeues uses it: an event ring.
use guest_tests.Base.{
  ℕ, zero, suc, ◌+◌, ◌≤◌, ◌<◌, ◌≡◌, refl, ap, ◌∙◌, subst, arith, Bool, true, false, not, ◌==◌, ltb,
  if◌then◌else◌, Bool-cases, inl, inr, ◌⊎◌, some, length, get_elem?, get_elem?-eq-get_or,
  same_bool_self, not-same_bool, not-not,
}
use native.Mathlib.Decide.{ℕ_discrete}
use guest_tests.Xhci.Trb.{get_type, get_cycle, trb_link}
use guest_tests.Xhci.TrbRing.{
  TrbRing, zero_trb, increment, update_enqueue_from, empty, dequeue, update_enqueue_ptr,
}
use guest_tests.Xhci.TrbRing.Link.{block}

-- `m` blocks, none of which is a link.
pub record IsEventRing (m : ℕ) (r : TrbRing) : Type 0 where
  pub sized : length r.ring ≡ m
  pub no_links : (i : ℕ) → i < m → (get_type (block r.ring i) == trb_link) ≡ false

-- Blocks up to `w` have the cycle bit `x`, those from there on have the other one.
unfoldable pub WrittenTo : ℕ → TrbRing → ℕ → Bool → Type 0
WrittenTo m r w x = (i : ℕ) → i < m → get_cycle (block r.ring i) ≡ (if ltb i w then x else not x)

module _ (m : ℕ) (r : TrbRing) (s : IsEventRing m r) where
  pub found : (i : ℕ) → i < m → get_elem? r.ring i ≡ some (block r.ring i)
  found i h = get_elem?-eq-get_or r.ring i zero_trb (omega (arith, s.sized))

  pub increment-event :
      (p : ℕ) (c : Bool)
      → p < m
      → increment m false r p c ≡ (if p + 1 == m then some (p, 0, not c) else some (p, p + 1, c))
  unfolding increment
  increment-event p c h = rw (found p h, s.no_links p h) refl

  stops :
      (fuel p : ℕ) (c : Bool)
      → p < m
      → get_cycle (block r.ring p) ≡ not c
      → update_enqueue_from m false (suc fuel) r p c ≡ some p
  unfolding update_enqueue_from
  stops fuel p c h e = elim (Bool-cases (p + 1 == m)) [
    | inl last ↦ rw (found p h, increment-event p c h, last, e, not-same_bool c) refl
    | inr inner ↦ rw (found p h, increment-event p c h, inner, e, not-same_bool c) refl
  ]

  passes :
      (fuel p : ℕ) (c : Bool)
      → p + 1 < m
      → get_cycle (block r.ring p) ≡ c
      → update_enqueue_from m false (suc fuel) r p c ≡ update_enqueue_from m false fuel r (p + 1) c
  unfolding update_enqueue_from
  passes fuel p c h e =
      rw
        (
          found p (omega (arith, h)),
          increment-event p c (omega (arith, h)),
          inner,
          e,
          same_bool_self c,
        )
        refl
    where
      inner : (p + 1 == m) ≡ false
      inner = ground (arith, h)

  wraps :
      (fuel p : ℕ) (c : Bool)
      → p + 1 ≡ m
      → get_cycle (block r.ring p) ≡ c
      → update_enqueue_from m false (suc fuel) r p c ≡ update_enqueue_from m false fuel r 0 (not c)
  unfolding update_enqueue_from
  wraps fuel p c h e =
      rw
        (
          found p (omega (arith, h)),
          increment-event p c (omega (arith, h)),
          last,
          e,
          same_bool_self c,
        )
        refl
    where
      last : (p + 1 == m) ≡ true
      last = ground (arith, h)

  module _ (w : ℕ) (x : Bool) (below : w < m) (bits : WrittenTo m r w x) where
    bit_below : (p : ℕ) → p < w → get_cycle (block r.ring p) ≡ x
    unfolding WrittenTo
    bit_below p h = bits p (omega (arith, h, below)) ∙ ap (λ t. if t then x else not x) yes
      where
        yes : ltb p w ≡ true
        yes = ground (arith, h)

    bit_from : (p : ℕ) → w ≤ p → p < m → get_cycle (block r.ring p) ≡ not x
    unfolding WrittenTo
    bit_from p h lt = bits p lt ∙ ap (λ t. if t then x else not x) no_
      where
        no_ : ltb p w ≡ false
        no_ = ground (arith, h)

    -- From a pointer behind which all written blocks have the cycle state.
    same_lap : (fuel p : ℕ) → p ≤ w → w < p + fuel → update_enqueue_from m false fuel r p x ≡ some w
    same_lap zero p h enough = absurd (omega arith)
    same_lap (suc fuel) p h enough = elim (ℕ_discrete p w) [
      | yes e ↦
          subst (λ k. update_enqueue_from m false (suc fuel) r p x ≡ some k) e
            (stops fuel p x (omega (arith, e)) (bit_from p (omega (arith, e)) (omega (arith, e))))
      | no ne ↦
          let lt : p < w = omega (arith, h, ne) in
          passes fuel p x (omega (arith, lt)) (bit_below p lt)
          ∙ same_lap fuel (p + 1) (omega (arith, lt)) (omega arith)
    ]

    -- From a pointer that has the end of the ring before it.
    next_lap :
        (fuel p : ℕ)
        → w ≤ p
        → p < m
        → m + w < p + fuel
        → update_enqueue_from m false fuel r p (not x) ≡ some w
    next_lap zero p h lt enough = absurd (omega arith)
    next_lap (suc fuel) p h lt enough = elim (ℕ_discrete (p + 1) m) [
      | yes e ↦
          wraps fuel p (not x) e (bit_from p h lt)
          ∙ ap (update_enqueue_from m false fuel r 0) (not-not x)
          ∙ same_lap fuel 0 (omega arith) (omega (arith, e))
      | no ne ↦
          let lt2 : p + 1 < m = omega (arith, lt, ne) in
          passes fuel p (not x) lt2 (bit_from p h lt)
          ∙ next_lap fuel (p + 1) (omega (arith, h)) lt2 (omega arith)
    ]

    -- For an event ring whose blocks below `w` have one cycle bit and whose others have the other one:
    -- if the ring's cycle state is the first and its enqueue pointer is at `w` or below, or its state is
    -- the second and its pointer is at `w` or above, update_enqueue_ptr ends within one lap and leaves
    -- the enqueue pointer at `w`, and everything else as it was.
    pub update_enqueue_ptr-lem :
        (fuel : ℕ)
        → ((r.cycle ≡ x) × (r.enqueue_ptr ≤ w))
          ⊎ ((r.cycle ≡ not x) × (w ≤ r.enqueue_ptr) × (r.enqueue_ptr < m))
        → m < fuel
        → update_enqueue_ptr m false fuel r ≡ some (record r { enqueue_ptr = w })
    unfolding update_enqueue_ptr
    update_enqueue_ptr-lem fuel (inl near) enough = rw caught refl
      where
        caught : update_enqueue_from m false fuel r r.enqueue_ptr r.cycle ≡ some w
        caught =
            ap (update_enqueue_from m false fuel r r.enqueue_ptr) near.0
            ∙ same_lap fuel r.enqueue_ptr near.1 (omega arith)
    update_enqueue_ptr-lem fuel (inr far) enough = rw caught refl
      where
        caught : update_enqueue_from m false fuel r r.enqueue_ptr r.cycle ≡ some w
        caught =
            ap (update_enqueue_from m false fuel r r.enqueue_ptr) far.0
            ∙ next_lap fuel r.enqueue_ptr far.1 far.2 (omega (arith, far.1))

  -- The block at the dequeue pointer, which the pointer passes.
  pub dequeue-event :
      (r.enqueue_ptr == r.dequeue_ptr) ≡ false
      → r.dequeue_ptr < m
      → dequeue m false r
        ≡ some (
          r.dequeue_ptr,
          record r {
            dequeue_ptr = if r.dequeue_ptr + 1 == m then 0 else r.dequeue_ptr + 1;
            cycle = if r.dequeue_ptr + 1 == m then not r.cycle else r.cycle;
          },
        )
  unfolding dequeue empty
  dequeue-event more h = elim (Bool-cases (r.dequeue_ptr + 1 == m)) [
    | inl last ↦ rw (more, increment-event r.dequeue_ptr r.cycle h, last) refl
    | inr inner ↦ rw (more, increment-event r.dequeue_ptr r.cycle h, inner) refl
  ]
