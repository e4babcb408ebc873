-- ===== src/Tests/Xhci.antt =====
-- Tests and instances for the xHCI rings.
use guest_tests.Base.{
  ℕ, zero, suc, ◌+◌, ◌≤◌, ◌<◌, ◌==◌, ◌>>=◌, ◌≡◌, refl, arith, Bool, true, false, some, [], ◌∷◌, inl,
  set,
}
use guest_tests.Math.{mask}
use guest_tests.Xhci.Trb.{
  Trb, get_type, set_type, endpoint_id, get_cycle, set_cycle, get_length, set_length, set_ioc,
  set_isp, commit, get_toggle, set_toggle, trb_link,
}
use guest_tests.Xhci.TrbRing.{
  TrbRing, initialize, check_enqueue_increment, full, empty, increment, update, enqueue, dequeue,
  update_enqueue_ptr, update_dequeue_ptr,
}
use guest_tests.Xhci.TrbRing.Link.{block}
use guest_tests.Xhci.TrbRing.Producer.{IsTransferRing, Outcome, enqueue-Outcome}
use guest_tests.Xhci.TrbRing.Queued.{queued, enqueue-loses_all}
use guest_tests.Xhci.TrbRing.Initial.{initialize-IsTransferRing}
use guest_tests.Xhci.TrbRing.Consumer.{IsEventRing, WrittenTo, update_enqueue_ptr-lem}
use guest_tests.Xhci.DebugDevice.{
  TransferRings, handle_event, event_loop, fill, queue_write_transfer,
}
use guest_tests.Xhci.DebugDevice.Events.{window, handle_all, Ahead, event_loop_lem}

-- Four blocks and the link.
abbrev fresh : TrbRing
fresh = initialize 5 true 0x1000

fresh_link : (get_type (block fresh.ring 4) ≡ trb_link) × (get_toggle (block fresh.ring 4) ≡ true)
unfolding initialize get_type set_type get_toggle set_toggle mask
fresh_link = (refl, refl)

fields_run :
    (get_type (set_type 32 (set_cycle true (record { buffer = 0; status = 0; control = 0x30000 })))
      ≡ 32)
    × (endpoint_id (set_type 32 (record { buffer = 0; status = 0; control = 0x30000 })) ≡ 3)
    × (get_length (set_length 7 (record { buffer = 0; status = 0; control = 0 })) ≡ 7)
unfolding get_type set_type set_cycle endpoint_id get_length set_length mask
fields_run = (refl, refl, refl)

-- With the pointer at block `p` and the other one at block `d`.
abbrev at_blocks : ℕ → ℕ → TrbRing
at_blocks p d = record fresh { enqueue_ptr = p; dequeue_ptr = d }

at_blocks-IsTransferRing : (p d : ℕ) → p ≤ 4 → d ≤ 4 → IsTransferRing 4 (at_blocks p d)
at_blocks-IsTransferRing p d h k = record {
  linked = (initialize-IsTransferRing 4 0x1000 (omega arith)).linked;
  enqueue_in = h;
  dequeue_in = k;
}

enqueue-Outcome_example :
    (is_full : Bool) × (full 5 true (at_blocks 2 1) ≡ some is_full)
    × Outcome 4 (at_blocks 2 1) is_full (enqueue 5 true (at_blocks 2 1))
enqueue-Outcome_example =
    enqueue-Outcome 4 (at_blocks 2 1) (at_blocks-IsTransferRing 2 1 (omega arith) (omega arith))

enqueue-loses_all_example :
    (queued 4 (at_blocks 4 1) ≡ 3)
    × ((r2 : TrbRing) × (enqueue 5 true (at_blocks 4 1) ≡ some (0, r2)) × (empty 5 true r2 ≡ true))
enqueue-loses_all_example =
    enqueue-loses_all 4 (at_blocks 4 1) (at_blocks-IsTransferRing 4 1 (omega arith) (omega arith))
      refl refl

-- Two blocks that the controller has written in the first lap, and two that it has not.
abbrev event : ℕ → Trb
event cycle = record { buffer = 0x1000; status = 0; control = 0x28000 + cycle }

abbrev two_written : TrbRing
two_written = record {
  ring = event 1 ∷ event 1 ∷ event 0 ∷ event 0 ∷ [];
  dma_addr = 0x2000;
  enqueue_ptr = 0;
  dequeue_ptr = 0;
  cycle = true;
}

two_written-IsEventRing : (d : ℕ) → IsEventRing 4 (record two_written { enqueue_ptr = d })
unfolding get_type mask
two_written-IsEventRing d = record { sized = refl; no_links = types }
  where
    types : (i : ℕ) → i < 4 → (get_type (block two_written.ring i) == trb_link) ≡ false
    types zero h = refl
    types (suc zero) h = refl
    types (suc (suc zero)) h = refl
    types (suc (suc (suc zero))) h = refl
    types (suc (suc (suc (suc i)))) h = absurd (omega arith)

two_written-WrittenTo : WrittenTo 4 two_written 2 true
unfolding WrittenTo get_cycle
two_written-WrittenTo zero h = refl
two_written-WrittenTo (suc zero) h = refl
two_written-WrittenTo (suc (suc zero)) h = refl
two_written-WrittenTo (suc (suc (suc zero))) h = refl
two_written-WrittenTo (suc (suc (suc (suc i)))) h = absurd (omega arith)

update_enqueue_ptr-lem_example :
    update_enqueue_ptr 4 false 5 two_written ≡ some (record two_written { enqueue_ptr = 2 })
update_enqueue_ptr-lem_example =
    update_enqueue_ptr-lem 4 two_written (two_written-IsEventRing 0) 2 true (omega arith)
      two_written-WrittenTo 5 (inl (refl, omega arith)) (omega arith)

abbrev transfers : TransferRings
transfers = record { in_ring = at_blocks 4 0; out_ring = at_blocks 2 1 }

-- Both events report block 0 of the output ring.
event_loop_run :
    event_loop 4 5 5 64 3 (record two_written { enqueue_ptr = 2 }) transfers
    ≡ some (
      record two_written { enqueue_ptr = 2; dequeue_ptr = 2 },
      record transfers { out_ring = at_blocks 2 1 },
    )
unfolding event_loop handle_event dequeue update_dequeue_ptr increment empty initialize get_type
    get_toggle set_type set_toggle endpoint_id mask
event_loop_run = refl

two-Ahead : Ahead 4 5 5 64 2 2 0
unfolding Ahead
two-Ahead = inl refl

event_loop_lem_example :
    event_loop 4 5 5 64 3 (record two_written { enqueue_ptr = 2 }) transfers ≡ (
      handle_all 4 5 5 64 (window 4 two_written.ring 2 0) transfers
      >>= (λ r2. some (record two_written { enqueue_ptr = 2; dequeue_ptr = 2 }, r2)))
event_loop_lem_example =
    event_loop_lem 4 5 5 64 2 3 (record two_written { enqueue_ptr = 2 }) transfers
      (two_written-IsEventRing 2) (omega arith) (omega arith) two-Ahead (omega arith)

-- The third block of the output ring, filled: its own buffer, the length, and the cycle bit turned.
queue_write_transfer_run :
    queue_write_transfer 4 5 5 64 0x9000 7 (at_blocks 2 1)
    ≡ some (record (at_blocks 3 1) {
      ring = set (at_blocks 3 1).ring 2 (record { buffer = 0x9080; status = 7; control = 0x425 });
    })
unfolding queue_write_transfer enqueue full check_enqueue_increment increment update fill initialize
    get_type get_toggle set_type set_toggle set_cycle get_cycle commit set_ioc set_isp set_length
    mask
queue_write_transfer_run = refl
