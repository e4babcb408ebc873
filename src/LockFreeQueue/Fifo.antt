-- ===== src/LockFreeQueue/Fifo.antt =====
-- The storage as a bounded queue: what each operation of util/lock_free_queue.hpp does to the
-- elements it holds.
use guest_tests.Base.{
  ℕ, suc, ◌+◌, ◌%◌, ◌≤◌, ◌<◌, ◌≡◌, refl, sym, ap, ◌∙◌, inl, inr, arith, List, [], ◌∷◌, ◌++◌, some,
  length, get_elem?, length-append, length-set, get_elem?-set_ne, get_elem?-append_left,
  get_elem?-append_end, mod_cases, ring_inj, ring_next, ring_shift, ◌==◌,
}
use native.Mathlib.Nat.{mod-eq_of_lt, mod-lt}
use native.Mathlib.Decide.{ℕ_discrete}
use guest_tests.Math.{word}
use guest_tests.LockFreeQueue.{Storage, write_slot, next_slot, empty, full}

module _ {ℓ} {A : Type ℓ} where
  -- The storage is well-formed and holds `xs`, the oldest element first.
  pub record Holds (s : Storage A) (xs : List A) : Type ℓ where
    pub array_size : s.meta_data.entry_num < length s.elements
    pub array_bound : length s.elements < word
    pub read_bound : s.read_position ≤ s.meta_data.entry_num
    pub not_over : length xs ≤ s.meta_data.entry_num
    pub write_at : s.write_position ≡ (s.read_position + length xs) % (s.meta_data.entry_num + 1)
    pub item_at :
        (i : ℕ)
        → i < length xs
        → get_elem? s.elements ((s.read_position + i) % (s.meta_data.entry_num + 1))
          ≡ get_elem? xs i

  pub next_slot-eq :
      (s : Storage A) (old : ℕ)
      → s.meta_data.entry_num + 1 < word
      → old ≤ s.meta_data.entry_num
      → next_slot s old ≡ (old + 1) % (s.meta_data.entry_num + 1)
  unfolding next_slot
  next_slot-eq s old cap h =
      rw (mod-eq_of_lt {n = old + 1} {m = word} (omega arith))
        (rw (mod-eq_of_lt {n = s.meta_data.entry_num + 1} {m = word} cap) refl)

  module _ (s : Storage A) (xs : List A) (h : Holds s xs) where
    pub write_bound : s.write_position ≤ s.meta_data.entry_num
    write_bound = omega (
      arith,
      h.write_at,
      mod-lt (s.read_position + length xs) {m = s.meta_data.entry_num + 1} (omega arith),
    )

    pub empty-eq : empty s ≡ (length xs == 0)
    unfolding empty
    empty-eq = ground (
      arith,
      h.write_at,
      h.read_bound,
      h.not_over,
      ring_inj (s.meta_data.entry_num + 1) s.read_position (omega (arith, h.read_bound)) 0
          (length xs),
      mod-eq_of_lt {n = s.read_position + 0} {m = s.meta_data.entry_num + 1}
          (omega (arith, h.read_bound)),
    )

    next_write :
        next_slot s s.write_position
        ≡ (s.read_position + (length xs + 1)) % (s.meta_data.entry_num + 1)
    next_write =
        next_slot-eq s s.write_position (omega (arith, h.array_size, h.array_bound)) write_bound
        ∙ ap (λ t. (t + 1) % (s.meta_data.entry_num + 1)) h.write_at
        ∙ ring_next (s.meta_data.entry_num + 1) s.read_position (omega (arith, h.read_bound))
            (length xs) (omega (arith, h.not_over))

    pub full-eq : full s ≡ (length xs == s.meta_data.entry_num)
    unfolding full
    full-eq =
        rw next_write
          (elim (mod_cases (s.meta_data.entry_num + 1) (s.read_position + (length xs + 1))
            (omega (arith, h.read_bound, h.not_over))) [
              | inl a ↦ ground (arith, a.0, a.1)
              | inr a ↦ ground (arith, a.1, h.not_over)
            ])

    pub front_at :
        (x : A) (rest : List A) → xs ≡ x ∷ rest → get_elem? s.elements s.read_position ≡ some x
    front_at x rest e =
        ap (get_elem? s.elements) {y = (s.read_position + 0) % (s.meta_data.entry_num + 1)} (
          omega (
            arith,
            h.read_bound,
            mod-eq_of_lt {n = s.read_position + 0} {m = s.meta_data.entry_num + 1}
                (omega (arith, h.read_bound)),
          ))
        ∙ h.item_at 0 (omega (arith, ap length e))
        ∙ ap (λ t. get_elem? t 0) e

    -- Writing the slot at the write position changes no element that is held.
    pub write_slot-Holds :
        (v : A) → length xs < s.meta_data.entry_num → Holds (write_slot s s.write_position v) xs
    write_slot-Holds v room = record {
      array_size = omega (arith, h.array_size, length-set s.elements s.write_position v);
      array_bound = omega (arith, h.array_bound, length-set s.elements s.write_position v);
      read_bound = h.read_bound;
      not_over = h.not_over;
      write_at = h.write_at;
      item_at = λ i hi.
          get_elem?-set_ne s.elements s.write_position
            ((s.read_position + i) % (s.meta_data.entry_num + 1)) v
            (λ same.
              let i_end =
                ring_inj (s.meta_data.entry_num + 1) s.read_position (omega (arith, h.read_bound))
                  (length xs) i (omega (arith, h.not_over)) (omega (arith, h.not_over))
                  (sym h.write_at ∙ same) in
              absurd (omega (arith, i_end)))
          ∙ h.item_at i hi;
    }

    -- Storing the next write position appends what stands in the slot.
    pub publish :
        (v : A)
        → length xs < s.meta_data.entry_num
        → get_elem? s.elements s.write_position ≡ some v
        → Holds (record s { write_position = next_slot s s.write_position }) (xs ++ v ∷ [])
    publish v room there = record {
      array_size = h.array_size;
      array_bound = h.array_bound;
      read_bound = h.read_bound;
      not_over = omega (arith, length-append xs (v ∷ []));
      write_at =
          next_write
          ∙ ap (λ t. (s.read_position + t) % (s.meta_data.entry_num + 1))
              (sym (length-append xs (v ∷ [])));
      item_at = λ i hi. elim (ℕ_discrete i (length xs)) [
        | yes at_end ↦
            rw at_end
              (ap (get_elem? s.elements) (sym h.write_at) ∙ there ∙ sym (get_elem?-append_end xs v))
        | no inside ↦
            let before : i < length xs = omega (arith, inside, length-append xs (v ∷ [])) in
            h.item_at i before ∙ sym (get_elem?-append_left xs (v ∷ []) i before)
      ];
    }

    -- Storing the next read position drops the oldest element.
    pub release :
        (x : A) (rest : List A)
        → xs ≡ x ∷ rest
        → Holds (record s { read_position = next_slot s s.read_position }) rest
    release x rest e = record {
      array_size = h.array_size;
      array_bound = h.array_bound;
      read_bound = omega (
        arith,
        next_read,
        mod-lt (s.read_position + 1) {m = s.meta_data.entry_num + 1} (omega arith),
      );
      not_over = omega (arith, h.not_over, ap length e);
      write_at =
          h.write_at
          ∙ ap (λ t. (s.read_position + t) % (s.meta_data.entry_num + 1)) (ap length e)
          ∙ shifted (length rest) (omega (arith, h.not_over, ap length e));
      item_at = λ i hi.
          ap (get_elem? s.elements) (sym (shifted i (omega (arith, h.not_over, ap length e, hi))))
          ∙ h.item_at (suc i) (omega (arith, ap length e, hi))
          ∙ ap (λ t. get_elem? t (suc i)) e;
    }
      where
        next_read :
            next_slot s s.read_position ≡ (s.read_position + 1) % (s.meta_data.entry_num + 1)
        next_read =
            next_slot-eq s s.read_position (omega (arith, h.array_size, h.array_bound)) h.read_bound

        shifted :
            (i : ℕ)
            → i < s.meta_data.entry_num + 1
            → (s.read_position + suc i) % (s.meta_data.entry_num + 1)
              ≡ (next_slot s s.read_position + i) % (s.meta_data.entry_num + 1)
        shifted i hi = sym (
            ap (λ t. (t + i) % (s.meta_data.entry_num + 1)) next_read
            ∙ ring_shift (s.meta_data.entry_num + 1) s.read_position (omega (arith, h.read_bound)) i
                hi)
