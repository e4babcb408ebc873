-- ===== src/Xhci/TrbRing/Queued.antt =====
-- How many blocks of a transfer ring of xhci/ring.hpp the consumer has not reported yet, by the
-- pointers: block `n` is the link, and means the same place as block 0.
use guest_tests.Base.{
  ℕ, suc, ◌+◌, ◌-◌, ◌<◌, ◌≡◌, sym, ◌∙◌, arith, true, false, ◌==◌, leb, if◌then◌else◌, inl, inr,
  some, some_inj, ◌⊎◌,
}
use guest_tests.Xhci.TrbRing.{TrbRing, full, empty, enqueue}
use guest_tests.Xhci.TrbRing.Producer.{IsTransferRing, at_link, full-eq, enqueue-link, Enqueued}

-- Before the first report the dequeue pointer is 0, after it 1 or more.
unfoldable pub queued : ℕ → TrbRing → ℕ
queued n r =
    if r.dequeue_ptr == 0
    then r.enqueue_ptr
    else if leb r.dequeue_ptr r.enqueue_ptr
    then r.enqueue_ptr - r.dequeue_ptr
    else n + r.enqueue_ptr - r.dequeue_ptr

-- One block stays free, once the consumer has reported one.
unfoldable pub capacity : ℕ → TrbRing → ℕ
capacity n r = if r.dequeue_ptr == 0 then n else n - 1

module _ (n : ℕ) (r : TrbRing) (w : IsTransferRing n r) where
  -- For a transfer ring whose enqueue pointer is not at the link, or whose dequeue pointer is not at
  -- block 1, full answers whether as many blocks are queued as the ring keeps.
  pub full-queued :
      (r.enqueue_ptr < n) ⊎ ((r.dequeue_ptr ≡ 0) ⊎ (1 < r.dequeue_ptr))
      → full (suc n) true r ≡ some (queued n r == capacity n r)
  unfolding queued capacity
  full-queued (inl inner) = full-eq n r w ∙ ground (arith, inner, w.dequeue_in, w.linked.positive)
  full-queued (inr (inl fresh)) =
      full-eq n r w ∙ ground (arith, fresh, w.enqueue_in, w.linked.positive)
  full-queued (inr (inr beyond)) =
      full-eq n r w ∙ ground (arith, beyond, w.enqueue_in, w.dequeue_in, w.linked.positive)

  next_differs :
      full (suc n) true r ≡ some false
      → ((if at_link n r then 0 else r.enqueue_ptr + 1) == r.dequeue_ptr) ≡ false
  next_differs room = some_inj (sym (full-eq n r w) ∙ room)

  -- For a transfer ring that is not full and under the same condition, what enqueue leaves has one more
  -- block queued.
  pub queued-Enqueued :
      (i : ℕ) (r2 : TrbRing)
      → (r.enqueue_ptr < n) ⊎ ((r.dequeue_ptr ≡ 0) ⊎ (1 < r.dequeue_ptr))
      → full (suc n) true r ≡ some false
      → Enqueued n r i r2
      → queued n r2 ≡ suc (queued n r)
  unfolding queued
  queued-Enqueued i r2 (inl inner) room s =
      ground (arith, inner, w.dequeue_in, next_differs room, s.slot, s.next, s.unread)
  queued-Enqueued i r2 (inr (inl fresh)) room s =
      ground (arith, fresh, w.enqueue_in, next_differs room, s.slot, s.next, s.unread)
  queued-Enqueued i r2 (inr (inr beyond)) room s =
      ground
        (arith, beyond, w.enqueue_in, w.dequeue_in, next_differs room, s.slot, s.next, s.unread)

  -- For a transfer ring whose enqueue pointer is at the link and whose dequeue pointer is at block 1, so
  -- that all blocks but the first are queued, enqueue hands out block 0, and the ring answers then that it
  -- is empty.
  pub enqueue-loses_all :
      r.enqueue_ptr ≡ n
      → r.dequeue_ptr ≡ 1
      → (queued n r ≡ n - 1)
        × ((r2 : TrbRing) × (enqueue (suc n) true r ≡ some (0, r2))
            × (empty (suc n) true r2 ≡ true))
  unfolding queued empty
  enqueue-loses_all last first = (
    ground (arith, last, first, w.linked.positive),
    (_, enqueue-link n r w (ground (arith, last)) room, ground (arith, first)),
  )
    where
      room : full (suc n) true r ≡ some false
      room = full-eq n r w ∙ ground (arith, last, first)
