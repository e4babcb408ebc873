-- ===== src/Xhci/TrbRing.antt =====
-- src/lib/toyos/include/toyos/xhci/ring.hpp: a ring of transfer request blocks. A pointer into the ring
-- is the index of its block; `none` is a PANIC_ON or an access outside the array.
pub mod Fields
pub mod Link
pub mod Producer
pub mod Queued
pub mod Initial
pub mod Consumer
use guest_tests.Base.{
  ℕ, zero, suc, ◌+◌, ◌-◌, ◌/◌, ◌%◌, Bool, true, false, not, ◌&&◌, ◌==◌, same_bool, if◌then◌else◌,
  Option, none, some, ◌>>=◌, ◌>>◌, assert, List, get_elem?, set, replicate,
}
use guest_tests.Math.{word}
use guest_tests.Xhci.Trb.{
  Trb, get_type, set_type, get_cycle, set_cycle, get_toggle, set_toggle, commit, trb_link,
}

pub record TrbRing : Type 0 where
  pub ring : List Trb
  pub dma_addr : ℕ
  pub enqueue_ptr : ℕ
  pub dequeue_ptr : ℕ
  pub cycle : Bool

abbrev pub zero_trb : Trb
zero_trb = record { buffer = 0; status = 0; control = 0 }

-- `sizeof(trb)`
abbrev pub trb_size : ℕ
trb_size = 16

-- The template's parameters.
module _ (size : ℕ) (has_link : Bool) where
  -- The constructor and `initialize`, which start anew whatever the ring held.
  unfoldable pub initialize : ℕ → TrbRing
  initialize dma_addr =
      let cleared = replicate size zero_trb in
      let link = record (set_type trb_link (set_toggle true zero_trb)) { buffer = dma_addr } in
      record {
        ring = if has_link then set cleared (size - 1) link else cleared;
        dma_addr = dma_addr;
        enqueue_ptr = 0;
        dequeue_ptr = 0;
        cycle = true;
      }

  unfoldable pub check_enqueue_increment : TrbRing → ℕ → Option ℕ
  check_enqueue_increment r ptr = get_elem? r.ring ptr >>= (λ cur.
      if get_type cur == trb_link
      then some 0
      else if ptr + 1 == size
      then some 0
      else some (ptr + 1))

  unfoldable pub full : TrbRing → Option Bool
  full r = check_enqueue_increment r r.enqueue_ptr >>= (λ next. some (next == r.dequeue_ptr))

  unfoldable pub empty : TrbRing → Bool
  empty r = r.enqueue_ptr == r.dequeue_ptr

  -- The block that the pointer passes, the pointer and the cycle state then.
  unfoldable pub increment : TrbRing → ℕ → Bool → Option (ℕ × ℕ × Bool)
  increment r ptr cycle = get_elem? r.ring ptr >>= (λ cur.
      let is_link = get_type cur == trb_link in
      let old = if is_link then 0 else ptr in
      let cycle2 = if is_link && get_toggle cur then not cycle else cycle in
      if old + 1 == size then some (old, 0, not cycle2) else some (old, old + 1, cycle2))

  -- `ring_[i]`, written.
  unfoldable pub update : (Trb → Trb) → ℕ → List Trb → Option (List Trb)
  update f i ring = get_elem? ring i >>= (λ t. some (set ring i (f t)))

  -- The index of the block to fill, and the ring.
  unfoldable pub enqueue : TrbRing → Option (ℕ × TrbRing)
  enqueue r = full r >>= (λ is_full.
      assert (not is_full) >> increment r r.enqueue_ptr r.cycle >>= (λ (old, ptr, cycle).
        update (set_cycle (not cycle)) old r.ring >>= (λ cleared.
          (if not (same_bool r.cycle cycle) && has_link
            then update commit (size - 1) cleared
            else some cleared)
          >>= (λ linked.
              some (old, record r { ring = linked; enqueue_ptr = ptr; cycle = cycle })))))

  -- The index of the block to process, and the ring.
  unfoldable pub dequeue : TrbRing → Option (ℕ × TrbRing)
  dequeue r =
      assert (not (empty r))
      >> increment r r.dequeue_ptr r.cycle
      >>= (λ (old, ptr, cycle). some (old, record r { dequeue_ptr = ptr; cycle = cycle }))

  -- The loop of `update_enqueue_ptr`: the pointer that it ends with.
  unfoldable pub update_enqueue_from : ℕ → TrbRing → ℕ → Bool → Option ℕ
  update_enqueue_from zero r ptr cycle = none
  update_enqueue_from (suc fuel) r ptr cycle = get_elem? r.ring ptr >>= (λ cur.
      increment r ptr cycle >>= (λ (old, ptr2, cycle2).
        let rest = update_enqueue_from fuel r ptr2 cycle2 in
        if same_bool (get_cycle cur) cycle then rest else some ptr))

  unfoldable pub update_enqueue_ptr : ℕ → TrbRing → Option TrbRing
  update_enqueue_ptr fuel r =
      update_enqueue_from fuel r r.enqueue_ptr r.cycle
      >>= (λ ptr. some (record r { enqueue_ptr = ptr }))

  unfoldable pub update_dequeue_ptr : ℕ → TrbRing → Option TrbRing
  update_dequeue_ptr new_ptr_dma r =
      increment r ((new_ptr_dma + word - r.dma_addr) % word / trb_size) r.cycle
      >>= (λ (old, ptr, cycle). some (record r { dequeue_ptr = ptr }))
