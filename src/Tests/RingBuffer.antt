-- ===== src/Tests/RingBuffer.antt =====
-- Tests and instances for the ring buffer.
use guest_tests.Base.{ℕ, zero, suc, ◌+◌, ◌%◌, ◌<◌, ◌≡◌, refl, arith, List, [], ◌∷◌, some, get_elem?}
use guest_tests.RingBuffer.{SimpleRingBuffer, simple_ring_buffer, write_at, add}
use guest_tests.RingBuffer.History.{Keeps, Added, kept, add-Added}

-- 5, 6 and 7 in a full buffer that has gone round.
abbrev around : SimpleRingBuffer ℕ
around = record { max_entries = 3; queue = 7 ∷ 5 ∷ 6 ∷ []; num_elems = 3; start = 1 }

abbrev five_on : List ℕ
five_on = 5 ∷ 6 ∷ 7 ∷ []

around_item : (i : ℕ) → i < 3 → get_elem? around.queue ((1 + i) % 3) ≡ get_elem? five_on i
around_item zero h = refl
around_item (suc zero) h = refl
around_item (suc (suc zero)) h = refl
around_item (suc (suc (suc i))) h = absurd (omega (arith, h))

around-Keeps : Keeps around five_on
around-Keeps = record {
  array_size = refl;
  array_bound = omega arith;
  start_bound = omega arith;
  count = refl;
  not_over = omega arith;
  item_at = around_item;
}

add_run : add 8 around ≡ some (record around { queue = 7 ∷ 8 ∷ 6 ∷ []; start = 2 })
unfolding add write_at
add_run = refl

create_run :
    simple_ring_buffer {A = ℕ} 0 2
    ≡ some (record { max_entries = 2; queue = 0 ∷ 0 ∷ []; num_elems = 0; start = 0 })
unfolding simple_ring_buffer
create_run = refl

add-Added_example : Added around (kept around.max_entries five_on 8) (add 8 around)
add-Added_example = add-Added around five_on around-Keeps 8
