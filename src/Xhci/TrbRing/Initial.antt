-- ===== src/Xhci/TrbRing/Initial.antt =====
-- The rings of xhci/ring.hpp after `initialize`.
use guest_tests.Base.{
  ℕ, zero, suc, ◌<◌, ◌≡◌, refl, sym, ap, ◌∙◌, subst, arith, true, false, ◌==◌, ltb, if◌then◌else◌,
  List, set, replicate, length-set, length-replicate, get_or-set_self, get_or-set_ne, less_one,
}
use native.Mathlib.Decide.{ℕ_discrete}
use guest_tests.Math.{mask}
use guest_tests.Xhci.Trb.{Trb, get_type, set_type, get_cycle, get_toggle, set_toggle, trb_link}
use guest_tests.Xhci.TrbRing.{zero_trb, initialize}
use guest_tests.Xhci.TrbRing.Fields.{IsWord32}
use guest_tests.Xhci.TrbRing.Link.{IsLinked, block}
use guest_tests.Xhci.TrbRing.Producer.{IsTransferRing}
use guest_tests.Xhci.TrbRing.Consumer.{IsEventRing, WrittenTo}

block-replicate : (n i : ℕ) → block (replicate n zero_trb) i ≡ zero_trb
block-replicate zero i = refl
block-replicate (suc n) zero = refl
block-replicate (suc n) (suc i) = block-replicate n i

abbrev link_to : ℕ → Trb
link_to dma = record (set_type trb_link (set_toggle true zero_trb)) { buffer = dma }

zero_type : (get_type zero_trb == trb_link) ≡ false
unfolding get_type mask
zero_type = refl

link_type : (dma : ℕ) → (get_type (link_to dma) == trb_link) ≡ true
unfolding get_type set_type set_toggle mask
link_type dma = refl

link_toggles : (dma : ℕ) → get_toggle (link_to dma) ≡ true
unfolding get_toggle set_type set_toggle mask
link_toggles dma = refl

link_word : (dma : ℕ) → IsWord32 (link_to dma)
unfolding IsWord32 set_type set_toggle mask
link_word dma = omega arith

zero_word : IsWord32 zero_trb
unfolding IsWord32
zero_word = omega arith

module _ (n dma : ℕ) (pos : 0 < n) where
  abbrev linked_ring : List Trb
  linked_ring = set (replicate (suc n) zero_trb) n (link_to dma)

  at_end : block linked_ring n ≡ link_to dma
  at_end =
      get_or-set_self (replicate (suc n) zero_trb) n (link_to dma) zero_trb
        (omega (arith, length-replicate (suc n) zero_trb))

  elsewhere : (i : ℕ) → i < n → block linked_ring i ≡ zero_trb
  elsewhere i h =
      get_or-set_ne (replicate (suc n) zero_trb) n i (link_to dma) zero_trb
        (λ e. omega (arith, e, h))
      ∙ block-replicate (suc n) i

  linked_ring-IsLinked : IsLinked n linked_ring
  linked_ring-IsLinked = record {
    sized =
        length-set (replicate (suc n) zero_trb) n (link_to dma) ∙ length-replicate (suc n) zero_trb;
    positive = pos;
    words = λ i h. elim (ℕ_discrete i n) [
      | yes e ↦
          subst (λ k. IsWord32 (block linked_ring k)) (sym e)
            (subst IsWord32 (sym at_end) (link_word dma))
      | no ne ↦ subst IsWord32 (sym (elsewhere i (omega (arith, h, ne)))) zero_word
    ];
    links = ap (λ t. get_type t == trb_link) at_end ∙ link_type dma;
    toggles = ap get_toggle at_end ∙ link_toggles dma;
    others = λ i h. ap (λ t. get_type t == trb_link) (elsewhere i h) ∙ zero_type;
  }

  -- A ring of one block or more and a link is a transfer ring once it is initialized.
  pub initialize-IsTransferRing : IsTransferRing n (initialize (suc n) true dma)
  unfolding initialize
  initialize-IsTransferRing =
      rw (less_one n) (record {
        linked = linked_ring-IsLinked;
        enqueue_in = omega arith;
        dequeue_in = omega arith;
      })

not_below : (i : ℕ) → ltb i 0 ≡ false
not_below i = ground arith

-- A ring without a link is an event ring once it is initialized, in which nothing is written.
pub initialize-IsEventRing :
    (m dma : ℕ)
    → IsEventRing m (initialize m false dma) × WrittenTo m (initialize m false dma) 0 true
unfolding initialize WrittenTo get_cycle
initialize-IsEventRing m dma = (
  record {
    sized = length-replicate m zero_trb;
    no_links = λ i h. ap (λ t. get_type t == trb_link) (block-replicate m i) ∙ zero_type;
  },
  λ i h.
      ap get_cycle (block-replicate m i) ∙ ap (λ b. if b then true else false) (sym (not_below i)),
)
