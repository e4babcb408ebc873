-- ===== src/Tests/Queue.antt =====
-- Tests and instances for the lock free queue.
use guest_tests.Base.{
  List, ℕ, zero, suc, ◌+◌, ◌%◌, ◌<◌, ◌≡◌, refl, arith, true, false, [], ◌∷◌, some, get_elem?,
}
use guest_tests.LockFreeQueue.{
  Storage, MetaData, api_version, next_slot, empty, full, push, front, pop, get_and_pop,
}
use guest_tests.LockFreeQueue.Fifo.{Holds}
use guest_tests.LockFreeQueue.Bounded.{Enqueued, Dequeued, push-Enqueued, get_and_pop-Dequeued}
use guest_tests.LockFreeQueue.Spsc.{State, Producer, Consumer, Step, Run, push-Run}
use guest_tests.LockFreeQueue.Interleaving.{Delivered, start, Run-Delivered}

abbrev meta : MetaData
meta = record { version = api_version; entry_num = 2; entry_size = 8 }

-- 7 and 8 in a queue of two entries, the second one behind the end of the array.
abbrev wrapped : Storage ℕ
wrapped = record {
  meta_data = meta;
  read_position = 2;
  write_position = 1;
  elements = 8 ∷ 0 ∷ 7 ∷ [];
}

abbrev blank : Storage ℕ
blank = record {
  meta_data = meta;
  read_position = 0;
  write_position = 0;
  elements = 0 ∷ 0 ∷ 0 ∷ [];
}

abbrev two_held : List ℕ
two_held = 7 ∷ 8 ∷ []

wrapped_item : (i : ℕ) → i < 2 → get_elem? wrapped.elements ((2 + i) % 3) ≡ get_elem? two_held i
wrapped_item zero h = refl
wrapped_item (suc zero) h = refl
wrapped_item (suc (suc i)) h = absurd (omega (arith, h))

wrapped-Holds : Holds wrapped (7 ∷ 8 ∷ [])
wrapped-Holds = record {
  array_size = omega arith;
  array_bound = omega arith;
  read_bound = omega arith;
  not_over = omega arith;
  write_at = refl;
  item_at = wrapped_item;
}

blank-Holds : Holds blank []
blank-Holds = record {
  array_size = omega arith;
  array_bound = omega arith;
  read_bound = omega arith;
  not_over = omega arith;
  write_at = refl;
  item_at = λ i h. absurd (omega (arith, h));
}

push_full : push 9 wrapped ≡ (false, wrapped)
unfolding push full next_slot
push_full = refl

get_and_pop_run : get_and_pop wrapped ≡ some (some 7, record wrapped { read_position = 0 })
unfolding get_and_pop empty front pop next_slot
get_and_pop_run = refl

push_run : push 9 blank ≡ (true, record blank { write_position = 1; elements = 9 ∷ 0 ∷ 0 ∷ [] })
unfolding push full next_slot
push_run = refl

push-Enqueued_example : Enqueued 9 wrapped (7 ∷ 8 ∷ []) (push 9 wrapped)
push-Enqueued_example = push-Enqueued 9 wrapped (7 ∷ 8 ∷ []) wrapped-Holds

get_and_pop-Dequeued_example : Dequeued wrapped (7 ∷ 8 ∷ []) (get_and_pop wrapped)
get_and_pop-Dequeued_example = get_and_pop-Dequeued wrapped (7 ∷ 8 ∷ []) wrapped-Holds

-- A producer that has pushed 9, and a consumer that has tested the queue since.
abbrev after_push : State ℕ
after_push = record {
  storage = record blank { write_position = 1; elements = 9 ∷ 0 ∷ 0 ∷ [] };
  producer = Producer.idle;
  consumer = Consumer.tested;
  pushed = 9 ∷ [];
  popped = [];
}

steps_to_test : Run (start blank) after_push
unfolding push full next_slot empty
steps_to_test =
    Run.then (push-Run 9 blank Consumer.idle [] [] (λ e. absurd (omega (arith, e))))
      (Step.test refl)

Run-Delivered_example : Delivered after_push
Run-Delivered_example = Run-Delivered blank blank-Holds steps_to_test
