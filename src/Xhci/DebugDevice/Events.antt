-- ===== src/Xhci/DebugDevice/Events.antt =====
-- The event loop of the xHCI debug device handles the written events, each once and in their order.
use guest_tests.Base.{
  ℕ, zero, suc, ◌+◌, ◌<◌, ◌≡◌, refl, ap, ◌∙◌, subst, arith, Bool, false, not, ◌==◌, ==_self, ltb,
  if◌then◌else◌, Option-cases, inl, inr, ◌⊎◌, Option, some, ◌>>=◌, List, [], ◌∷◌,
}
use guest_tests.Xhci.Trb.{Trb}
use guest_tests.Xhci.TrbRing.{TrbRing, empty}
use guest_tests.Xhci.TrbRing.Link.{block}
use guest_tests.Xhci.TrbRing.Consumer.{IsEventRing, found, dequeue-event}
use guest_tests.Xhci.DebugDevice.{TransferRings, handle_event, event_loop}

-- `k` blocks of a ring of `m` from block `d` on.
unfoldable pub window : ℕ → List Trb → ℕ → ℕ → List Trb
window m ring zero d = []
window m ring (suc k) d = block ring d ∷ window m ring k (if d + 1 == m then 0 else d + 1)

module _ (m in_size out_size out_buf_size : ℕ) where
  unfoldable pub handle_all : List Trb → TransferRings → Option TransferRings
  handle_all [] r = some r
  handle_all (t ∷ ts) r = handle_event m in_size out_size out_buf_size t r >>= handle_all ts

  -- `w` is `k` blocks behind block `d`.
  unfoldable pub Ahead : ℕ → ℕ → ℕ → Type 0
  Ahead k w d = (d + k ≡ w) ⊎ ((d + k ≡ w + m) × (w < d))

  -- The pointer behind block `d`.
  abbrev behind : ℕ → ℕ
  behind d = if d + 1 == m then 0 else d + 1

  Ahead-behind : (k w d : ℕ) → d < m → w < m → Ahead (suc k) w d → Ahead k w (behind d)
  unfolding Ahead
  Ahead-behind k w d h lt (inl e) = ground (arith, e)
  Ahead-behind k w d h lt (inr e) = ground (arith, e.0, e.1)

  not_there : (k w d : ℕ) → d < m → w < m → Ahead (suc k) w d → (w == d) ≡ false
  unfolding Ahead
  not_there k w d h lt (inl e) = ground (arith, e)
  not_there k w d h lt (inr e) = ground (arith, e.1)

  behind_in : (d : ℕ) → d < m → behind d < m
  behind_in d h = ground arith

  -- A ring in which only the dequeue pointer and the cycle state move.
  module _ (b : List Trb) (dma q : ℕ) (in_ring : q < m) where
    abbrev reading : ℕ → Bool → TrbRing
    reading d c = record { ring = b; dma_addr = dma; enqueue_ptr = q; dequeue_ptr = d; cycle = c }

    abbrev turned : ℕ → Bool → Bool
    turned d c = if ltb q d then not c else c

    turned-behind :
        (k d : ℕ) (c : Bool)
        → d < m
        → Ahead (suc k) q d
        → turned (behind d) (if d + 1 == m then not c else c) ≡ turned d c
    unfolding Ahead
    turned-behind k d c h (inl e) = ground (arith, e, in_ring)
    turned-behind k d c h (inr e) = ground (arith, e.0, e.1, in_ring)

    loop :
        (k fuel d : ℕ) (c : Bool) (r : TransferRings)
        → IsEventRing m (reading d c)
        → d < m
        → Ahead k q d
        → k < fuel
        → event_loop m in_size out_size out_buf_size fuel (reading d c) r
          ≡ (handle_all (window m b k d) r >>= (λ r2. some (reading q (turned d c), r2)))
    unfolding event_loop handle_all window empty Ahead
    loop k zero d c r s h a enough = absurd (omega arith)
    loop zero (suc fuel) d c r s h (inl a) enough =
        subst
          (λ k.
            event_loop m in_size out_size out_buf_size (suc fuel) (reading k c) r
            ≡ some (reading q (turned k c), r))
          {x = q} (omega (arith, a)) here
      where
        not_below : ltb q q ≡ false
        not_below = ground arith

        here :
            event_loop m in_size out_size out_buf_size (suc fuel) (reading q c) r
            ≡ some (reading q (turned q c), r)
        here = rw (==_self q, not_below) refl
    loop zero (suc fuel) d c r s h (inr a) enough = absurd (omega (arith, a.0, a.1))
    loop (suc k) (suc fuel) d c r s h a enough =
        elim (Option-cases (handle_event m in_size out_size out_buf_size (block b d) r)) [
          | inl stopped ↦
              rw
                (more, dequeue-event m (reading d c) s more h, found m (reading d c) s d h, stopped)
                refl
          | inr (r2, handled) ↦
              rw
                (more, dequeue-event m (reading d c) s more h, found m (reading d c) s d h, handled)
                (loop k fuel (behind d) (if d + 1 == m then not c else c) r2
                    (record { sized = s.sized; no_links = s.no_links }) (behind_in d h)
                    (Ahead-behind k q d h in_ring a) (omega arith)
                  ∙ ap
                      (λ t.
                        handle_all (window m b k (behind d)) r2 >>= (λ r3. some (reading q t, r3)))
                      (turned-behind k d c h a))
        ]
      where
        more : (q == d) ≡ false
        more = not_there k q d h in_ring a

  -- For an event ring whose pointers are in it, with the enqueue pointer `k` blocks behind the dequeue
  -- pointer, and more than `k` rounds: the event loop handles just those blocks, from the oldest on, and
  -- stops if one cannot be handled; else it leaves the ring empty, with the cycle state turned if it has
  -- passed the end of the ring.
  pub event_loop_lem :
      (k fuel : ℕ) (e : TrbRing) (r : TransferRings)
      → IsEventRing m e
      → e.dequeue_ptr < m
      → e.enqueue_ptr < m
      → Ahead k e.enqueue_ptr e.dequeue_ptr
      → k < fuel
      → event_loop m in_size out_size out_buf_size fuel e r ≡ (
          handle_all (window m e.ring k e.dequeue_ptr) r >>= (λ r2. some (
            record e {
              dequeue_ptr = e.enqueue_ptr;
              cycle = if ltb e.enqueue_ptr e.dequeue_ptr then not e.cycle else e.cycle;
            },
            r2,
          )))
  event_loop_lem k fuel e r s d q a enough =
      loop e.ring e.dma_addr e.enqueue_ptr q k fuel e.dequeue_ptr e.cycle r s d a enough
