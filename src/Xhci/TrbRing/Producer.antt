-- ===== src/Xhci/TrbRing/Producer.antt =====
-- `enqueue` of xhci/ring.hpp on a ring with a link at its end.
use guest_tests.Base.{
  ℕ, suc, ◌+◌, ◌≤◌, ◌<◌, ◌≡◌, ◌≢◌, refl, sym, ap, ◌∙◌, subst, arith, Bool, true, false, not, ◌==◌,
  if◌then◌else◌, Bool-cases, inl, inr, Option, none, some, List, less_one, same_bool_self,
  same_bool-not, get_or-set_ne,
}
use guest_tests.Xhci.Trb.{Trb, get_cycle, commit}
use guest_tests.Xhci.TrbRing.{TrbRing, zero_trb, full, update, enqueue}
use guest_tests.Xhci.TrbRing.Fields.{get_cycle-set_cycle}
use guest_tests.Xhci.TrbRing.Link.{
  IsLinked, block, marked, block-marked, marked-IsLinked, found, check-link, check-inner,
  increment-link, increment-inner,
}

-- A ring that its producer uses, with the pointers in it.
pub record IsTransferRing (n : ℕ) (r : TrbRing) : Type 0 where
  pub linked : IsLinked n r.ring
  pub enqueue_in : r.enqueue_ptr ≤ n
  pub dequeue_in : r.dequeue_ptr ≤ n

abbrev pub at_link : ℕ → TrbRing → Bool
at_link n r = r.enqueue_ptr == n

-- What `enqueue` leaves when it hands out block `i`: the block does not belong to the consumer, the
-- pointer goes on behind it, and passing the link turns the cycle state and commits the link.
pub record Enqueued (n : ℕ) (r : TrbRing) (i : ℕ) (r2 : TrbRing) : Type 0 where
  pub slot : i ≡ (if at_link n r then 0 else r.enqueue_ptr)
  pub next : r2.enqueue_ptr ≡ i + 1
  pub unread : r2.dequeue_ptr ≡ r.dequeue_ptr
  pub cycle : r2.cycle ≡ (if at_link n r then not r.cycle else r.cycle)
  pub inactive : get_cycle (block r2.ring i) ≡ not r2.cycle
  pub link_cycle :
      get_cycle (block r2.ring n)
      ≡ (if at_link n r then not (get_cycle (block r.ring n)) else get_cycle (block r.ring n))
  pub kept : (j : ℕ) → j < n → i ≢ j → block r2.ring j ≡ block r.ring j
  pub valid : IsTransferRing n r2

module _ (n : ℕ) (r : TrbRing) (w : IsTransferRing n r) where
  at_n : at_link n r ≡ true → r.enqueue_ptr ≡ n
  at_n e = ground (arith, e)

  pub full-eq :
      full (suc n) true r ≡ some ((if at_link n r then 0 else r.enqueue_ptr + 1) == r.dequeue_ptr)
  unfolding full
  full-eq = elim (Bool-cases (at_link n r)) [
    | inl last ↦ rw (last, check-link n r w.linked r.enqueue_ptr (at_n last)) refl
    | inr inner ↦
        rw (inner, check-inner n r w.linked r.enqueue_ptr (ground (arith, inner, w.enqueue_in)))
          refl
  ]

  enqueue-inner :
      at_link n r ≡ false
      → full (suc n) true r ≡ some false
      → enqueue (suc n) true r
        ≡ some (
          r.enqueue_ptr,
          record r {
            ring =
                marked n r.ring w.linked r.enqueue_ptr (omega (arith, w.enqueue_in)) (not r.cycle);
            enqueue_ptr = r.enqueue_ptr + 1;
          },
        )
  unfolding enqueue update
  enqueue-inner inner room =
      rw
        (
          room,
          increment-inner n r w.linked r.enqueue_ptr r.cycle lt,
          found n r w.linked r.enqueue_ptr (omega (arith, lt)),
          same_bool_self r.cycle,
        )
        refl
    where
      lt : r.enqueue_ptr < n
      lt = ground (arith, inner, w.enqueue_in)

  -- Past the link: the ring with block 0 taken, and that ring with the link committed.
  abbrev taken : List Trb
  taken = marked n r.ring w.linked 0 (omega arith) (not (not r.cycle))

  abbrev pub committed : List Trb
  committed =
      marked n taken (marked-IsLinked n r.ring w.linked 0 (omega arith) (not (not r.cycle))) n
        (omega arith) (not (get_cycle (block taken n)))

  taken-IsLinked : IsLinked n taken
  taken-IsLinked = marked-IsLinked n r.ring w.linked 0 (omega arith) (not (not r.cycle))

  pub enqueue-link :
      at_link n r ≡ true
      → full (suc n) true r ≡ some false
      → enqueue (suc n) true r
        ≡ some (0, record r { ring = committed; enqueue_ptr = 1; cycle = not r.cycle })
  unfolding enqueue update commit
  enqueue-link last room =
      rw
        (
          room,
          increment-link n r w.linked r.enqueue_ptr r.cycle (at_n last),
          found n r w.linked 0 (omega arith),
          same_bool-not r.cycle,
          less_one n,
          found n (record r { ring = taken }) taken-IsLinked n (omega arith),
        )
        refl

  inner-Enqueued :
      (e : at_link n r ≡ false)
      → Enqueued n r r.enqueue_ptr (record r {
        ring = marked n r.ring w.linked r.enqueue_ptr (omega (arith, w.enqueue_in)) (not r.cycle);
        enqueue_ptr = r.enqueue_ptr + 1;
      })
  inner-Enqueued e =
      let lt : r.enqueue_ptr < n = ground (arith, e, w.enqueue_in) in
      let h : r.enqueue_ptr < suc n = omega (arith, w.enqueue_in) in
      record {
        slot = rw e refl;
        next = refl;
        unread = refl;
        cycle = rw e refl;
        inactive =
            ap get_cycle (block-marked n r.ring w.linked r.enqueue_ptr h (not r.cycle))
            ∙ get_cycle-set_cycle (not r.cycle) (block r.ring r.enqueue_ptr)
                (w.linked.words r.enqueue_ptr h);
        link_cycle = rw e (
            ap get_cycle
              (get_or-set_ne r.ring r.enqueue_ptr n _ zero_trb (λ q. omega (arith, lt, q))));
        kept = λ j lt2 ne. get_or-set_ne r.ring r.enqueue_ptr j _ zero_trb ne;
        valid = record {
          linked = marked-IsLinked n r.ring w.linked r.enqueue_ptr h (not r.cycle);
          enqueue_in = omega (arith, lt);
          dequeue_in = w.dequeue_in;
        };
      }

  pub link-Enqueued :
      (e : at_link n r ≡ true)
      → Enqueued n r 0 (record r { ring = committed; enqueue_ptr = 1; cycle = not r.cycle })
  link-Enqueued e =
      let pos : 0 < n = w.linked.positive in
      let apart : (0 ≢ n) = λ q. omega (arith, pos, q) in
      record {
        slot = rw e refl;
        next = refl;
        unread = refl;
        cycle = rw e refl;
        inactive =
            ap get_cycle (
              get_or-set_ne taken n 0 _ zero_trb (λ q. omega (arith, pos, q))
              ∙ block-marked n r.ring w.linked 0 (omega arith) (not (not r.cycle)))
            ∙ get_cycle-set_cycle (not (not r.cycle)) (block r.ring 0)
                (w.linked.words 0 (omega arith));
        link_cycle = rw e (
            ap get_cycle (block-marked n taken taken-IsLinked n (omega arith) _)
            ∙ get_cycle-set_cycle (not (get_cycle (block taken n))) (block taken n)
                (taken-IsLinked.words n (omega arith))
            ∙ ap (λ t. not (get_cycle t)) (get_or-set_ne r.ring 0 n _ zero_trb apart));
        kept = λ j lt2 ne.
            get_or-set_ne taken n j _ zero_trb (λ q. omega (arith, lt2, q))
            ∙ get_or-set_ne r.ring 0 j _ zero_trb ne;
        valid = record {
          linked =
              marked-IsLinked n taken taken-IsLinked n (omega arith)
                (not (get_cycle (block taken n)));
          enqueue_in = omega (arith, pos);
          dequeue_in = w.dequeue_in;
        };
      }

-- What `enqueue` does: it stops if the ring is full, else it hands out a block.
pub data Outcome (n : ℕ) (r : TrbRing) : Bool → Option (ℕ × TrbRing) → Type 0 where
  refused : Outcome n r true none
  granted : (i : ℕ) (r2 : TrbRing) → Enqueued n r i r2 → Outcome n r false (some (i, r2))

module _ (n : ℕ) (r : TrbRing) (w : IsTransferRing n r) where
  granted_lem : full (suc n) true r ≡ some false → Outcome n r false (enqueue (suc n) true r)
  granted_lem room = elim (Bool-cases (at_link n r)) [
    | inl last ↦
        subst (Outcome n r false) (sym (enqueue-link n r w last room))
          (Outcome.granted _ _ (link-Enqueued n r w last))
    | inr inner ↦
        subst (Outcome n r false) (sym (enqueue-inner n r w inner room))
          (Outcome.granted _ _ (inner-Enqueued n r w inner))
  ]

  refused_lem : full (suc n) true r ≡ some true → enqueue (suc n) true r ≡ none
  unfolding enqueue
  refused_lem is_full = rw is_full refl

  -- For a transfer ring: full answers, and enqueue stops exactly when the answer is yes. Else it hands out
  -- the block at the enqueue pointer, or the first one when that points at the link; the block has the
  -- cycle bit that keeps the consumer away, the pointer goes on behind it, passing the link turns the
  -- cycle state and the cycle bit of the link, and no other block changes.
  pub enqueue-Outcome :
      (is_full : Bool) × (full (suc n) true r ≡ some is_full)
      × Outcome n r is_full (enqueue (suc n) true r)
  enqueue-Outcome =
      elim (Bool-cases ((if at_link n r then 0 else r.enqueue_ptr + 1) == r.dequeue_ptr)) [
        | inl yes_full ↦
            let e = full-eq n r w ∙ ap some yes_full in
            (true, e, subst (Outcome n r true) (sym (refused_lem e)) Outcome.refused)
        | inr room ↦ let e = full-eq n r w ∙ ap some room in (false, e, granted_lem e)
      ]
