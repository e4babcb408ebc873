-- ===== src/RingBuffer/History.antt =====
-- The elements that util/simple_ring_buffer.hpp keeps: the newest of those added, oldest first.
use guest_tests.Base.{
  ℕ, suc, ◌+◌, ◌%◌, ◌≤◌, ◌<◌, ◌≡◌, refl, sym, ap, ◌∙◌, arith, true, false, Option, some, List, [],
  ◌∷◌, ◌++◌, length, get_elem?, set, length-set, length-append, length-replicate,
  get_elem?-set_self, get_elem?-set_ne, get_elem?-append_left, get_elem?-append_end, ring_inj,
  ring_shift, Bool-cases, inl, inr, ◌==◌, ==_iff, ltb, if◌then◌else◌, ltb→lt, mod_unique,
}
use native.Mathlib.Nat.{mod-eq_of_lt, mod-lt}
use native.Mathlib.Decide.{ℕ_discrete}
use guest_tests.Math.{word}
use guest_tests.RingBuffer.{SimpleRingBuffer, write_at, add, at, flush}

module _ {ℓ} {A : Type ℓ} where
  -- The buffer is well-formed and keeps `xs`.
  pub record Keeps (b : SimpleRingBuffer A) (xs : List A) : Type ℓ where
    pub array_size : length b.queue ≡ b.max_entries
    pub array_bound : b.max_entries + b.max_entries ≤ word
    pub start_bound : b.start < b.max_entries
    pub count : b.num_elems ≡ length xs
    pub not_over : length xs ≤ b.max_entries
    pub item_at :
        (i : ℕ) → i < length xs → get_elem? b.queue ((b.start + i) % b.max_entries) ≡ get_elem? xs i

  -- Adding to a history of which `max` elements are kept.
  pub kept : ℕ → List A → A → List A
  kept max [] msg = msg ∷ []
  kept max (x ∷ xs) msg = if suc (length xs) == max then xs ++ msg ∷ [] else x ∷ xs ++ msg ∷ []

  -- A store that the buffer accepts, and what it then keeps.
  pub data Added (b : SimpleRingBuffer A) (xs : List A) : Option (SimpleRingBuffer A) → Type ℓ where
    added :
        (b2 : SimpleRingBuffer A)
        → b2.max_entries ≡ b.max_entries
        → Keeps b2 xs
        → Added b xs (some b2)

  module _ (b : SimpleRingBuffer A) (xs : List A) (h : Keeps b xs) (msg : A) where
    -- Room is left.
    append_lem : length xs < b.max_entries → Added b (xs ++ msg ∷ []) (add msg b)
    unfolding add write_at
    append_lem room =
        rw (not_full, wrap, in_array)
          (added _ refl (record {
            array_size = length-set b.queue pos msg ∙ h.array_size;
            array_bound = h.array_bound;
            start_bound = h.start_bound;
            count =
                mod-eq_of_lt (omega (arith, h.array_bound, h.count, room))
                ∙ omega (arith, h.count, length-append xs (msg ∷ []));
            not_over = omega (arith, room, length-append xs (msg ∷ []));
            item_at = λ i hi. elim (ℕ_discrete i (length xs)) [
              | yes at_end ↦ rw at_end (
                  ap (λ n. get_elem? (set b.queue pos msg) ((b.start + n) % b.max_entries))
                    (sym h.count)
                  ∙ get_elem?-set_self b.queue pos msg (ltb→lt pos (length b.queue) in_array)
                  ∙ sym (get_elem?-append_end xs msg))
              | no inside ↦
                  let early : i < length xs = omega (arith, inside, length-append xs (msg ∷ [])) in
                  get_elem?-set_ne b.queue pos ((b.start + i) % b.max_entries) msg (λ clash.
                    let i_end =
                      ring_inj b.max_entries b.start h.start_bound b.num_elems i
                        (omega (arith, h.count, room)) (omega (arith, early, room)) clash in
                    absurd (omega (arith, i_end, h.count, early)))
                  ∙ h.item_at i early
                  ∙ sym (get_elem?-append_left xs (msg ∷ []) i early)
            ];
          }))
      where
        pos : ℕ
        pos = (b.start + b.num_elems) % b.max_entries

        not_full : (b.num_elems == b.max_entries) ≡ false
        not_full = ground (arith, room, h.count)

        wrap : (b.start + b.num_elems) % word ≡ b.start + b.num_elems
        wrap = mod-eq_of_lt (omega (arith, h.start_bound, h.array_bound, h.count, room))

        in_array : ltb pos (length b.queue) ≡ true
        in_array = ground (
          arith,
          h.array_size,
          mod-lt (b.start + b.num_elems) {m = b.max_entries} (omega (arith, room)),
        )

  -- The buffer is full: the oldest element makes room.
  replace_lem :
      (b : SimpleRingBuffer A) (x : A) (rest : List A)
      → Keeps b (x ∷ rest)
      → (msg : A) → suc (length rest) ≡ b.max_entries
      → Added b (rest ++ msg ∷ []) (add msg b)
  unfolding add write_at
  replace_lem b x rest h msg all =
      rw (is_full, in_array, wrap)
        (added _ refl (record {
          array_size = length-set b.queue b.start msg ∙ h.array_size;
          array_bound = h.array_bound;
          start_bound = mod-lt (b.start + 1) {m = b.max_entries} (omega (arith, all));
          count = omega (arith, h.count, length-append rest (msg ∷ []));
          not_over = omega (arith, all, length-append rest (msg ∷ []));
          item_at = λ i hi. elim (ℕ_discrete i (length rest)) [
            | yes at_end ↦ rw at_end (
                ap (get_elem? (set b.queue b.start msg)) around
                ∙ get_elem?-set_self b.queue b.start msg (ltb→lt b.start (length b.queue) in_array)
                ∙ sym (get_elem?-append_end rest msg))
            | no inside ↦
                let early : i < length rest =
                  omega (arith, inside, length-append rest (msg ∷ []), hi) in
                ap (get_elem? (set b.queue b.start msg))
                  (ring_shift b.max_entries b.start h.start_bound i (omega (arith, early, all)))
                ∙ get_elem?-set_ne b.queue b.start ((b.start + suc i) % b.max_entries) msg (λ clash.
                  let clash0 =
                    ring_inj b.max_entries b.start h.start_bound 0 (suc i) (omega (arith, all))
                      (omega (arith, early, all)) (at_start ∙ clash) in
                  absurd (omega (arith, clash0)))
                ∙ h.item_at (suc i) (omega (arith, early))
                ∙ sym (get_elem?-append_left rest (msg ∷ []) i early)
          ];
        }))
    where
      is_full : (b.num_elems == b.max_entries) ≡ true
      is_full = ground (arith, h.count, all)

      in_array : ltb b.start (length b.queue) ≡ true
      in_array = ground (arith, h.array_size, h.start_bound)

      wrap : (b.start + 1) % word ≡ b.start + 1
      wrap = mod-eq_of_lt (omega (arith, h.start_bound, h.array_bound))

      at_start : (b.start + 0) % b.max_entries ≡ b.start
      at_start =
          omega (
            arith,
            mod-eq_of_lt {n = b.start + 0} {m = b.max_entries} (omega (arith, h.start_bound)),
          )

      around : ((b.start + 1) % b.max_entries + length rest) % b.max_entries ≡ b.start
      around =
          ring_shift b.max_entries b.start h.start_bound (length rest) (omega (arith, all))
          ∙ omega (
            arith,
            all,
            mod_unique (b.start + suc (length rest)) 1 b.max_entries b.start (omega (arith, all))
                h.start_bound,
          )

  -- Adding an element to a buffer that keeps some succeeds, with the same capacity; the buffer then
  -- keeps the same elements followed by the new one, without the oldest if it was full.
  pub add-Added :
      (b : SimpleRingBuffer A) (xs : List A)
      → Keeps b xs
      → (msg : A) → Added b (kept b.max_entries xs msg) (add msg b)
  unfolding kept
  add-Added b [] h msg = append_lem b [] h msg (omega (arith, h.start_bound))
  add-Added b (x ∷ xs) h msg = elim (Bool-cases (suc (length xs) == b.max_entries)) [
    | inl all ↦ rw all (replace_lem b x xs h msg ((==_iff _ _).0 all))
    | inr room ↦ rw room (append_lem b (x ∷ xs) h msg (ground (arith, h.not_over, room)))
  ]

  -- Below the number of elements kept, at refers to the kept element of that index, the oldest being
  -- index 0.
  pub at_lem :
      (b : SimpleRingBuffer A) (xs : List A)
      → Keeps b xs
      → (i : ℕ) → i < length xs
      → at b i ≡ get_elem? xs i
  unfolding at
  at_lem b xs h i hi =
      ap (λ n. get_elem? b.queue (n % b.max_entries))
        (mod-eq_of_lt (omega (arith, hi, h.not_over, h.start_bound, h.array_bound)))
      ∙ h.item_at i hi

  -- flush empties every buffer that keeps some elements, with its capacity.
  pub flush-Keeps :
      (initial : A) (b : SimpleRingBuffer A) (xs : List A) → Keeps b xs → Keeps (flush initial b) []
  unfolding flush
  flush-Keeps initial b xs h = record {
    array_size = length-replicate (length b.queue) initial ∙ h.array_size;
    array_bound = h.array_bound;
    start_bound = omega (arith, h.start_bound);
    count = refl;
    not_over = omega arith;
    item_at = λ i hi. absurd (omega (arith, hi));
  }
