-- ===== src/LockFreeQueue/Bounded.antt =====
-- The operations of util/lock_free_queue.hpp as those of a bounded queue.
use guest_tests.Base.{
  ℕ, ◌+◌, ◌≤◌, ◌<◌, ◌≡◌, refl, inl, inr, arith, Bool, true, false, List, [], ◌∷◌, ◌++◌, Option,
  none, some, length, ◌==◌, Bool-cases, ltb, if◌then◌else◌, ==_self, ==_iff, get_elem?-set_self,
  ltb→lt, sym, ◌∙◌,
}
use native.Mathlib.Nat.{mod-eq_of_lt}
use guest_tests.Math.{word}
use guest_tests.LockFreeQueue.{
  Storage, write_slot, empty, push, front, pop, get_and_pop, initialize, verify, producer_create,
  create_from_existing_storage, consumer_create,
}
use guest_tests.LockFreeQueue.Fifo.{
  Holds, full-eq, empty-eq, front_at, write_slot-Holds, publish, release, write_bound,
}

module _ {ℓ} {A : Type ℓ} where
  -- The outcomes of a push: refused for want of room, or appended.
  pub data Enqueued (v : A) (s : Storage A) (xs : List A) : Bool × Storage A → Type ℓ where
    refused : length xs ≡ s.meta_data.entry_num → Enqueued v s xs (false, s)
    appended :
        (s2 : Storage A)
        → length xs < s.meta_data.entry_num
        → s2.meta_data ≡ s.meta_data
        → Holds s2 (xs ++ v ∷ [])
        → Enqueued v s xs (true, s2)

  -- The outcomes of `get_and_pop`, which never stops at an assertion.
  pub data Dequeued (s : Storage A) : List A → Option (Option A × Storage A) → Type ℓ where
    nothing : Dequeued s [] (some (none, s))
    oldest :
        (x : A) (rest : List A) (s2 : Storage A)
        → s2.meta_data ≡ s.meta_data
        → Holds s2 rest
        → Dequeued s (x ∷ rest) (some (some x, s2))

  -- A push on a queue that holds some elements is refused, and changes nothing, exactly when as
  -- many elements are held as the queue has entries; else it answers true, the queue holds the same
  -- elements followed by the new one, and its meta data stay.
  pub push-Enqueued :
      (v : A) (s : Storage A) (xs : List A) → Holds s xs → Enqueued v s xs (push v s)
  unfolding push
  push-Enqueued v s xs h = elim (Bool-cases (length xs == s.meta_data.entry_num)) [
    | inl at_end ↦ rw (full-eq s xs h, at_end) (refused ((==_iff _ _).0 at_end))
    | inr free ↦
        rw (full-eq s xs h, free)
          (let room : length xs < s.meta_data.entry_num = ground (arith, h.not_over, free) in
            appended _ room refl (
              publish (write_slot s s.write_position v) xs (write_slot-Holds s xs h v room) v room (
                get_elem?-set_self s.elements s.write_position v
                  (omega (arith, write_bound s xs h, h.array_size)))))
  ]

  -- get_and_pop on a queue that holds no element answers nothing and changes nothing; else it
  -- answers the oldest element, the queue holds the others, and its meta data stay.
  pub get_and_pop-Dequeued :
      (s : Storage A) (xs : List A) → Holds s xs → Dequeued s xs (get_and_pop s)
  unfolding get_and_pop front pop
  get_and_pop-Dequeued s [] h = rw (empty-eq s [] h) nothing
  get_and_pop-Dequeued s (x ∷ rest) h =
      rw (not_empty, front_at s (x ∷ rest) h x rest refl)
        (oldest x rest _ refl (release s (x ∷ rest) h x rest refl))
    where
      not_empty : empty s ≡ false
      not_empty = empty-eq s (x ∷ rest) h ∙ ground arith

  -- What a producer's `create` leaves behind.
  pub data Opened (max_size size_of num_elems : ℕ) (s : Storage A) : Bool × Storage A → Type ℓ where
    too_large : max_size < num_elems → Opened max_size size_of num_elems s (false, s)
    opened :
        (s2 : Storage A)
        → num_elems ≤ max_size
        → s2.meta_data.entry_num ≡ num_elems
        → Holds s2 []
        → consumer_create size_of s2 ≡ true
        → Opened max_size size_of num_elems s (true, s2)

  -- On storage for `max_size + 1` elements, fewer than 2^64, the producer's create refuses a number
  -- of entries above `max_size` and leaves the storage as it is; for any other it leaves an empty
  -- queue with that many entries, which a consumer of the same element size accepts.
  pub producer_create-Opened :
      (max_size size_of num_elems : ℕ) (s : Storage A)
      → length s.elements ≡ max_size + 1
      → max_size + 1 < word
      → Opened max_size size_of num_elems s (producer_create max_size size_of num_elems s)
  unfolding producer_create create_from_existing_storage consumer_create verify initialize
  producer_create-Opened max_size size_of num_elems s h lt =
      elim (Bool-cases (ltb max_size num_elems)) [
        | inl above ↦ rw above (too_large (ltb→lt max_size num_elems above))
        | inr fits ↦
            rw (fits, ==_self size_of)
              (let upto : num_elems ≤ max_size = ground (arith, fits) in
                let entries : (if ltb num_elems max_size then num_elems else max_size) ≡ num_elems =
                  ground (arith, upto) in
                opened _ upto entries
                  (record {
                    array_size = omega (arith, entries, upto, h);
                    array_bound = omega (arith, h, lt);
                    read_bound = omega arith;
                    not_over = omega arith;
                    write_at = sym (mod-eq_of_lt (omega arith));
                    item_at = λ i hi. absurd (omega (arith, hi));
                  })
                  (rw (==_self size_of) refl))
      ]
