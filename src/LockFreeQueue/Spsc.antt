-- ===== src/LockFreeQueue/Spsc.antt =====
-- One producer in `push` and one consumer in `get_and_pop` of util/lock_free_queue.hpp, interleaved
-- at their accesses to the shared storage. Each side stores only its own position, so a load of the
-- side's own position is part of the step that uses it.
use guest_tests.Base.{
  ℕ, ◌≡◌, ◌≢◌, false, List, [], ◌∷◌, ◌==◌, ==_iff, Bool-cases, inl, inr, ◌++◌, some,
}
use guest_tests.LockFreeQueue.{Storage, write_slot, next_slot, empty, full, push, front, pop}

-- Where the producer stands in `push`.
pub data Producer {ℓ} (A : Type ℓ) : Type ℓ where
  idle : Producer A
  -- `full` has loaded the read position.
  loaded : A → ℕ → Producer A
  -- The queue was not full, and `old_slot` is loaded.
  filling : A → ℕ → Producer A
  -- The element is in the slot.
  filled : A → ℕ → Producer A

-- Where the consumer stands in `get_and_pop`.
pub data Consumer {ℓ} (A : Type ℓ) : Type ℓ where
  idle : Consumer A
  -- The queue was not empty.
  tested : Consumer A
  -- The front element is copied.
  holding : A → Consumer A

-- The shared storage, both sides, and what they have pushed and popped so far.
pub record State {ℓ} (A : Type ℓ) : Type ℓ where
  pub storage : Storage A
  pub producer : Producer A
  pub consumer : Consumer A
  pub pushed : List A
  pub popped : List A

module _ {ℓ} {A : Type ℓ} where
  pub data Step : State A → State A → Type ℓ where
    -- `full` loads the read position.
    load_read :
        (v : A) {s : Storage A} {c : Consumer A} {ps qs : List A}
        → Step
            (record { storage = s; producer = idle; consumer = c; pushed = ps; popped = qs })
            (record {
              storage = s;
              producer = loaded v s.read_position;
              consumer = c;
              pushed = ps;
              popped = qs;
            })
    -- The read position is the slot behind the write position: `push` returns false.
    give_up :
        {v : A} {r : ℕ} {s : Storage A} {c : Consumer A} {ps qs : List A}
        → r ≡ next_slot s s.write_position
        → Step
            (record { storage = s; producer = loaded v r; consumer = c; pushed = ps; popped = qs })
            (record { storage = s; producer = idle; consumer = c; pushed = ps; popped = qs })
    -- It is not.
    go_on :
        {v : A} {r : ℕ} {s : Storage A} {c : Consumer A} {ps qs : List A}
        → r ≢ next_slot s s.write_position
        → Step
            (record { storage = s; producer = loaded v r; consumer = c; pushed = ps; popped = qs })
            (record {
              storage = s;
              producer = filling v s.write_position;
              consumer = c;
              pushed = ps;
              popped = qs;
            })
    -- `q.elements[old_slot] = elem`
    fill :
        {v : A} {slot : ℕ} {s : Storage A} {c : Consumer A} {ps qs : List A}
        → Step
            (record {
              storage = s;
              producer = filling v slot;
              consumer = c;
              pushed = ps;
              popped = qs;
            })
            (record {
              storage = write_slot s slot v;
              producer = filled v slot;
              consumer = c;
              pushed = ps;
              popped = qs;
            })
    -- The write position is stored.
    store_write :
        {v : A} {slot : ℕ} {s : Storage A} {c : Consumer A} {ps qs : List A}
        → Step
            (record {
              storage = s;
              producer = filled v slot;
              consumer = c;
              pushed = ps;
              popped = qs;
            })
            (record {
              storage = record s { write_position = next_slot s slot };
              producer = idle;
              consumer = c;
              pushed = ps ++ v ∷ [];
              popped = qs;
            })
    -- `queue.empty()`, which loads the write position; the answer is nothing when it is true.
    test :
        {s : Storage A} {p : Producer A} {ps qs : List A}
        → empty s ≡ false
        → Step
            (record { storage = s; producer = p; consumer = idle; pushed = ps; popped = qs })
            (record { storage = s; producer = p; consumer = tested; pushed = ps; popped = qs })
    -- `queue.front()`, copied.
    copy :
        {v : A} {s : Storage A} {p : Producer A} {ps qs : List A}
        → front s ≡ some v
        → Step
            (record { storage = s; producer = p; consumer = tested; pushed = ps; popped = qs })
            (record { storage = s; producer = p; consumer = holding v; pushed = ps; popped = qs })
    -- `queue.pop()`
    drop_front :
        {v : A} {s : Storage A} {p : Producer A} {ps qs : List A}
        → Step
            (record { storage = s; producer = p; consumer = holding v; pushed = ps; popped = qs })
            (record {
              storage = (pop s).1;
              producer = p;
              consumer = idle;
              pushed = ps;
              popped = qs ++ v ∷ [];
            })

  -- Any number of steps of either side, in any order.
  pub data Run : State A → State A → Type ℓ where
    done : {st : State A} → Run st st
    then : {a b c : State A} → Run a b → Step b c → Run a c

  -- Without the consumer between its steps, a producer that finds room ends where `push` does.
  pub push-Run :
      (v : A) (s : Storage A) (c : Consumer A) (ps qs : List A)
      → s.read_position ≢ next_slot s s.write_position
      → Run
          (record { storage = s; producer = Producer.idle; consumer = c; pushed = ps; popped = qs })
          (record {
            storage = (push v s).1;
            producer = Producer.idle;
            consumer = c;
            pushed = ps ++ v ∷ [];
            popped = qs;
          })
  unfolding push full
  push-Run v s c ps qs ne = elim (Bool-cases (s.read_position == next_slot s s.write_position)) [
    | inl same ↦ absurd (ne ((==_iff _ _).0 same))
    | inr room ↦ rw room (
        Run.then
          (Run.then (Run.then (Run.then Run.done (Step.load_read v)) (Step.go_on ne)) Step.fill)
          Step.store_write)
  ]
