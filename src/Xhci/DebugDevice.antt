-- ===== src/Xhci/DebugDevice.antt =====
-- The event loop and the output of the xHCI debug device: src/lib/toyos/src/xhci/debug_device.cpp and
-- debug_device_transfers.cpp. Whether the capability is running, and its doorbell, are the hardware's.
pub mod Events
use guest_tests.Base.{
  ℕ, zero, suc, ◌+◌, ◌*◌, ◌%◌, ◌^◌, ◌==◌, true, false, if◌then◌else◌, Option, none, some, ◌>>=◌,
  List, get_elem?,
}
use guest_tests.Math.{word}
use guest_tests.Xhci.Trb.{
  Trb, get_type, set_type, endpoint_id, set_length, set_ioc, set_isp, commit, trb_normal,
  trb_transfer_event, trb_port_status_change_event,
}
use guest_tests.Xhci.TrbRing.{TrbRing, empty, dequeue, enqueue, update, update_dequeue_ptr}

pub record TransferRings : Type 0 where
  pub in_ring : TrbRing
  pub out_ring : TrbRing

-- `ENDPOINT_ID_IN`
abbrev pub endpoint_id_in : ℕ
endpoint_id_in = 3

-- The sizes of the rings, and of one output buffer.
module _ (event_size in_size out_size out_buf_size : ℕ) where
  unfoldable pub handle_event : Trb → TransferRings → Option TransferRings
  handle_event t r =
      let seen_in =
        update_dequeue_ptr in_size true t.buffer r.in_ring
        >>= (λ q. some (record r { in_ring = q })) in
      let seen_out =
        update_dequeue_ptr out_size true t.buffer r.out_ring
        >>= (λ q. some (record r { out_ring = q })) in
      if get_type t == trb_port_status_change_event
      then some r
      else if get_type t == trb_transfer_event
      then if endpoint_id t == endpoint_id_in then seen_in else seen_out
      else some r

  -- `while (not event_ring_.empty())`
  unfoldable pub event_loop : ℕ → TrbRing → TransferRings → Option (TrbRing × TransferRings)
  event_loop zero events r = none
  event_loop (suc fuel) events r =
      let more = dequeue event_size false events >>= (λ (i, events2).
        get_elem? events2.ring i
        >>= (λ t. handle_event t r >>= (λ r2. event_loop fuel events2 r2))) in
      if empty event_size false events then some (events, r) else more

  -- The block that `queue_write_transfer` fills: a buffer of its own for each block, and the length.
  unfoldable pub fill : ℕ → ℕ → ℕ → Trb → Trb
  fill dma_addr index length t =
      let placed = record (set_type trb_normal t) {
        buffer = (dma_addr + index * out_buf_size) % word;
      } in
      commit (set_isp (set_ioc (set_length (length % 2 ^ 16) placed)))

  unfoldable pub queue_write_transfer : ℕ → ℕ → TrbRing → Option TrbRing
  queue_write_transfer dma_addr length r = enqueue out_size true r >>= (λ (index, r2).
      update out_size true (fill dma_addr index length) index r2.ring
      >>= (λ ring. some (record r2 { ring = ring })))
