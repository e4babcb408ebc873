-- ===== src/LockFreeQueue/Interleaving.antt =====
-- Whatever the interleaving, the elements of util/lock_free_queue.hpp come out in the order in which
-- they went in, and no check of the consumer fails.
use guest_tests.Base.{
  ℕ, ◌+◌, ◌%◌, ◌≤◌, ◌<◌, ◌≡◌, refl, sym, ap, ◌∙◌, ◌≢◌, arith, true, false, List, [], ◌∷◌, ◌++◌,
  some, length, get_elem?, get_elem?-set_self, set, append_assoc, some_inj, subst, mod_unique,
  ring_next, ◌==◌,
}
use guest_tests.LockFreeQueue.{Storage, next_slot, empty, front, pop}
use guest_tests.LockFreeQueue.Fifo.{
  Holds, write_slot-Holds, publish, release, write_bound, empty-eq, front_at, next_slot-eq,
}
use native.Mathlib.Decide.{ℕ_discrete}
use guest_tests.LockFreeQueue.Spsc.{State, Producer, Consumer, Step, Run}

all_round : (a r n : ℕ) → r < n → a ≡ r + n → a % n ≡ r
all_round a r n h e = omega (arith, mod_unique a 1 n r (omega (arith, e)) h)

module _ {ℓ} {A : Type ℓ} where
  -- The read position that a load took when `held` elements were in the queue.
  record WasAt (s : Storage A) (xs : List A) (r : ℕ) : Type 0 where
    held : ℕ
    at_least : length xs ≤ held
    at_most : held ≤ s.meta_data.entry_num
    bound : r ≤ s.meta_data.entry_num
    ends_at : s.write_position ≡ (r + held) % (s.meta_data.entry_num + 1)

  -- What each position of the producer knows of the elements `xs` in the queue.
  ProducerKnows : Storage A → List A → Producer A → Type ℓ
  ProducerKnows s xs Producer.idle = Unit
  ProducerKnows s xs (Producer.loaded v r) = WasAt s xs r × Unit {ℓ}
  ProducerKnows s xs (Producer.filling v slot) =
      (slot ≡ s.write_position) × (length xs < s.meta_data.entry_num) × Unit {ℓ}
  ProducerKnows s xs (Producer.filled v slot) =
      (slot ≡ s.write_position)
      × (length xs < s.meta_data.entry_num)
      × (get_elem? s.elements s.write_position ≡ some v)

  ConsumerKnows : List A → Consumer A → Type ℓ
  ConsumerKnows xs Consumer.idle = Unit
  ConsumerKnows xs Consumer.tested = (v : A) × (rest : List A) × (xs ≡ v ∷ rest)
  ConsumerKnows xs (Consumer.holding v) = (rest : List A) × (xs ≡ v ∷ rest)

  pub record Sound (st : State A) : Type ℓ where
    -- The elements in the queue.
    pub content : List A
    pub holds : Holds st.storage content
    pub in_order : st.pushed ≡ st.popped ++ content
    producer_knows : ProducerKnows st.storage content st.producer
    consumer_knows : ConsumerKnows content st.consumer

  still_knows :
      (c : Consumer A) (v : A) (xs : List A) → ConsumerKnows xs c → ConsumerKnows (xs ++ v ∷ []) c
  unfolding ConsumerKnows
  still_knows Consumer.idle v xs k = tt
  still_knows Consumer.tested v xs (x, rest, e) = (x, rest ++ v ∷ [], ap (λ l. l ++ v ∷ []) e)
  still_knows (Consumer.holding x) v xs (rest, e) = (rest ++ v ∷ [], ap (λ l. l ++ v ∷ []) e)

  has_front : (xs : List A) → (length xs == 0) ≡ false → (v : A) × (rest : List A) × (xs ≡ v ∷ rest)
  has_front [] h = ground (arith, h)
  has_front (x ∷ xs) h = (x, xs, refl)

  loaded-WasAt : (s : Storage A) (xs : List A) → Holds s xs → WasAt s xs s.read_position
  loaded-WasAt s xs h = record {
    held = length xs;
    at_least = omega arith;
    at_most = h.not_over;
    bound = h.read_bound;
    ends_at = h.write_at;
  }

  -- With the queue full at the load, the slot behind the write position would be the one loaded.
  room_left :
      (s : Storage A) (xs : List A) (r : ℕ)
      → Holds s xs
      → WasAt s xs r
      → r ≢ next_slot s s.write_position
      → length xs < s.meta_data.entry_num
  room_left s xs r h was ne = elim (ℕ_discrete was.held s.meta_data.entry_num) [
    | no fewer ↦ omega (arith, was.at_least, was.at_most, fewer)
    | yes at_end ↦ absurd (
        ne (
          sym (
            next_slot-eq s s.write_position (omega (arith, h.array_size, h.array_bound))
              (write_bound s xs h)
            ∙ ap (λ t. (t + 1) % (s.meta_data.entry_num + 1)) was.ends_at
            ∙ ring_next (s.meta_data.entry_num + 1) r (omega (arith, was.bound)) was.held
                (omega (arith, was.at_most))
            ∙ all_round (r + (was.held + 1)) r (s.meta_data.entry_num + 1)
                (omega (arith, was.bound)) (omega (arith, at_end)))))
  ]

  -- What `pop` does behind a successful copy.
  pop-eq :
      (s : Storage A)
      → empty s ≡ false
      → pop s ≡ (true, record s { read_position = next_slot s s.read_position })
  unfolding pop
  pop-eq s e = rw e refl

  cons-not_empty :
      (s : Storage A) (v : A) (rest xs : List A) → Holds s xs → xs ≡ v ∷ rest → empty s ≡ false
  cons-not_empty s v rest xs h e = empty-eq s xs h ∙ ground (arith, ap length e)

  front-eq :
      (s : Storage A) (v : A) (rest xs : List A) → Holds s xs → xs ≡ v ∷ rest → front s ≡ some v
  unfolding front
  front-eq s v rest xs h e = rw (cons-not_empty s v rest xs h e) (front_at s xs h v rest e)

  popped_state :
      (s : Storage A) (v : A) (rest xs : List A)
      → Holds s xs
      → xs ≡ v ∷ rest
      → (pop s).1 ≡ record s { read_position = next_slot s s.read_position }
  popped_state s v rest xs h e = ap (λ r. r.1) (pop-eq s (cons-not_empty s v rest xs h e))

  shrunk_knows :
      (s : Storage A) (r : ℕ) (p : Producer A) (v : A) (rest xs : List A)
      → xs ≡ v ∷ rest
      → ProducerKnows s xs p
      → ProducerKnows (record s { read_position = r }) rest p
  unfolding ProducerKnows
  shrunk_knows s r Producer.idle v rest xs e k = tt
  shrunk_knows s r (Producer.loaded x q) v rest xs e k = (
    record {
      held = k.0.held;
      at_least = omega (arith, k.0.at_least, ap length e);
      at_most = k.0.at_most;
      bound = k.0.bound;
      ends_at = k.0.ends_at;
    },
    tt,
  )
  shrunk_knows s r (Producer.filling x slot) v rest xs e k =
      (k.0, omega (arith, k.1, ap length e), tt)
  shrunk_knows s r (Producer.filled x slot) v rest xs e k =
      (k.0, omega (arith, k.1, ap length e), k.2)

  Step-Sound : {a b : State A} → Step a b → Sound a → Sound b
  unfolding ProducerKnows ConsumerKnows
  Step-Sound (Step.load_read v {s = s}) ok = record {
    content = ok.content;
    holds = ok.holds;
    in_order = ok.in_order;
    producer_knows = (loaded-WasAt s ok.content ok.holds, tt);
    consumer_knows = ok.consumer_knows;
  }
  Step-Sound (Step.give_up e) ok = record {
    content = ok.content;
    holds = ok.holds;
    in_order = ok.in_order;
    producer_knows = tt;
    consumer_knows = ok.consumer_knows;
  }
  Step-Sound (Step.go_on {r = r} {s = s} ne) ok = record {
    content = ok.content;
    holds = ok.holds;
    in_order = ok.in_order;
    producer_knows = (refl, room_left s ok.content r ok.holds ok.producer_knows.0 ne, tt);
    consumer_knows = ok.consumer_knows;
  }
  Step-Sound (Step.fill {v = v} {slot = slot} {s = s}) ok = record {
    content = ok.content;
    holds = rw ok.producer_knows.0 (write_slot-Holds s ok.content ok.holds v ok.producer_knows.1);
    in_order = ok.in_order;
    producer_knows = (
      ok.producer_knows.0,
      ok.producer_knows.1,
      ap (get_elem? (set s.elements slot v)) (sym ok.producer_knows.0)
          ∙ get_elem?-set_self s.elements slot v (
              omega (
                arith,
                ok.producer_knows.0,
                write_bound s ok.content ok.holds,
                ok.holds.array_size,
              )),
    );
    consumer_knows = ok.consumer_knows;
  }
  Step-Sound (Step.store_write {v = v} {s = s} {c = c}) ok = record {
    content = ok.content ++ v ∷ [];
    holds =
        rw ok.producer_knows.0
          (publish s ok.content ok.holds v ok.producer_knows.1 ok.producer_knows.2);
    in_order = ap (λ l. l ++ v ∷ []) ok.in_order ∙ append_assoc _ ok.content (v ∷ []);
    producer_knows = tt;
    consumer_knows = still_knows c v ok.content ok.consumer_knows;
  }
  Step-Sound (Step.test {s = s} e) ok = record {
    content = ok.content;
    holds = ok.holds;
    in_order = ok.in_order;
    producer_knows = ok.producer_knows;
    consumer_knows = has_front ok.content (sym (empty-eq s ok.content ok.holds) ∙ e);
  }
  Step-Sound (Step.copy {v = v} {s = s} e) ok = record {
    content = ok.content;
    holds = ok.holds;
    in_order = ok.in_order;
    producer_knows = ok.producer_knows;
    consumer_knows =
        let (x, rest, at_front) = ok.consumer_knows in
        (
          rest,
          at_front
              ∙ ap (λ y. y ∷ rest)
                  (some_inj (sym (front-eq s x rest ok.content ok.holds at_front) ∙ e)),
        );
  }
  Step-Sound (Step.drop_front {v = v} {s = s} {p = p} {qs = qs}) ok = record {
    content = ok.consumer_knows.0;
    holds =
        rw (popped_state s v ok.consumer_knows.0 ok.content ok.holds ok.consumer_knows.1)
          (release s ok.content ok.holds v ok.consumer_knows.0 ok.consumer_knows.1);
    in_order =
        ok.in_order
        ∙ ap (λ l. qs ++ l) ok.consumer_knows.1
        ∙ sym (append_assoc qs (v ∷ []) ok.consumer_knows.0);
    producer_knows =
        rw (popped_state s v ok.consumer_knows.0 ok.content ok.holds ok.consumer_knows.1) (
          shrunk_knows s _ p v ok.consumer_knows.0 ok.content ok.consumer_knows.1
            ok.producer_knows);
    consumer_knows = tt;
  }

  -- Both sides at rest on the storage of an empty queue.
  abbrev pub start : Storage A → State A
  start s = record {
    storage = s;
    producer = Producer.idle;
    consumer = Consumer.idle;
    pushed = [];
    popped = [];
  }

  Run-Sound : (s : Storage A) → Holds s [] → {st : State A} → Run (start s) st → Sound st
  unfolding ProducerKnows ConsumerKnows
  Run-Sound s h Run.done = record {
    content = [];
    holds = h;
    in_order = refl;
    producer_knows = tt;
    consumer_knows = tt;
  }
  Run-Sound s h (Run.then run step) = Step-Sound step (Run-Sound s h run)

  -- What went in and is not out yet is what the queue holds, in that order, and the checks of
  -- `get_and_pop` pass.
  pub record Delivered (st : State A) : Type ℓ where
    pub content : List A
    pub holds : Holds st.storage content
    pub in_order : st.pushed ≡ st.popped ++ content
    pub front_there : st.consumer ≡ Consumer.tested → (v : A) × (front st.storage ≡ some v)
    pub pop_succeeds : (v : A) → st.consumer ≡ Consumer.holding v → (pop st.storage).0 ≡ true

  Sound-Delivered : (st : State A) → Sound st → Delivered st
  unfolding ConsumerKnows
  Sound-Delivered st ok = record {
    content = ok.content;
    holds = ok.holds;
    in_order = ok.in_order;
    front_there = λ at.
        let (x, rest, e) = subst (ConsumerKnows ok.content) at ok.consumer_knows in
        (x, front-eq st.storage x rest ok.content ok.holds e);
    pop_succeeds = λ v at.
        let (rest, e) = subst (ConsumerKnows ok.content) at ok.consumer_knows in
        ap (λ r. r.0) (pop-eq st.storage (cons-not_empty st.storage v rest ok.content ok.holds e));
  }

  -- From an empty queue, after any interleaving of the steps of a producer in push and a consumer in
  -- get_and_pop: the storage holds a list of elements such that the elements pushed are the elements
  -- popped followed by that list, in order; once the consumer has seen the queue not empty, front
  -- passes its assertion and refers to an element; and its pop then succeeds.
  pub Run-Delivered :
      (s : Storage A) → Holds s [] → {st : State A} → Run (start s) st → Delivered st
  Run-Delivered s h run = Sound-Delivered _ (Run-Sound s h run)
