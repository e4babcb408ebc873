-- ===== src/Multiboot2/Search.antt =====
-- The search of find_tag through tags that lie one behind the other.
use guest_tests.Base.{
  ℕ, zero, suc, ◌+◌, ◌^◌, ◌≤◌, ◌<◌, ◌≡◌, ◌≢◌, refl, sym, ap, ◌∙◌, arith, true, false, ◌==◌, none,
  some, List, [], ◌∷◌, ◌++◌, length, length-append, All, append_assoc, append-nil,
}
use native.Mathlib.Nat.{mod-eq_of_lt}
use guest_tests.Multiboot2.{mbi2, Reader, next, find_from}
use guest_tests.Multiboot2.Bytes.{aligned, aligned_up}
use guest_tests.Multiboot2.Tags.{Item, item_tag, padded, laid, Fits, length-padded, tag_at-padded}

abbrev pub over : ℕ → List ℕ → Reader
over size raw = record { format = mbi2; raw = raw; size = size }

module _ (tag_type size : ℕ) (small : size < 2 ^ 32) where
  find_onward :
      (fuel : ℕ) (before : List ℕ) (i : Item) (rest : List ℕ)
      → Fits i
      → length before + length (padded i) ≤ size
      → length before < size
      → i.type ≢ tag_type
      → find_from (suc fuel) (over size (before ++ (padded i ++ rest))) tag_type (length before)
        ≡ find_from fuel
            (over size ((before ++ padded i) ++ rest))
            tag_type
            (length (before ++ padded i))
  unfolding find_from next
  find_onward fuel before i rest h room below other =
      rw (tag_at-padded before i rest h, not_last, not_it, mod-eq_of_lt no_wrap)
        (ap (λ addr. find_from fuel (over size (before ++ (padded i ++ rest))) tag_type addr)
            (sym behind)
          ∙ ap (λ raw. find_from fuel (over size raw) tag_type (length (before ++ padded i)))
              (sym (append_assoc before (padded i) rest)))
    where
      not_last : (length before == size) ≡ false
      not_last = ground (arith, below)

      not_it : (i.type == tag_type) ≡ false
      not_it = ground (arith, other)

      no_wrap : aligned (item_tag i).size < 2 ^ 32
      no_wrap = omega (arith, small, room, length-padded i h)

      behind : length (before ++ padded i) ≡ length before + aligned (item_tag i).size
      behind = omega (arith, length-append before (padded i), length-padded i h)

  find_here :
      (fuel : ℕ) (before : List ℕ) (i : Item) (rest : List ℕ)
      → Fits i
      → length before < size
      → i.type ≡ tag_type
      → find_from (suc fuel) (over size (before ++ (padded i ++ rest))) tag_type (length before)
        ≡ some (some (length before, item_tag i))
  unfolding find_from
  find_here fuel before i rest h below same = rw (tag_at-padded before i rest h, not_last, it) refl
    where
      not_last : (length before == size) ≡ false
      not_last = ground (arith, below)

      it : (i.type == tag_type) ≡ true
      it = ground (arith, same)

  pub find-present :
      (fuel : ℕ) (before : List ℕ) (front : List Item) (i : Item) (rest : List ℕ)
      → length front < fuel
      → All Fits front
      → Fits i
      → All (λ j. j.type ≢ tag_type) front
      → i.type ≡ tag_type
      → length before + length (laid front) < size
      → find_from fuel
          (over size (before ++ (laid front ++ (padded i ++ rest))))
          tag_type
          (length before)
        ≡ some (some (length (before ++ laid front), item_tag i))
  find-present zero before front i rest hf fs fi others same below = absurd (omega arith)
  find-present (suc fuel) before [] i rest hf fs fi others same below =
      find_here fuel before i rest fi (omega arith) same
      ∙ ap (λ front. some (some (length front, item_tag i))) (sym (append-nil before))
  find-present (suc fuel) before (j ∷ front) i rest hf (fj, fs) fi (other, others) same below =
      ap (λ bytes. find_from (suc fuel) (over size (before ++ bytes)) tag_type (length before))
        (append_assoc (padded j) (laid front) (padded i ++ rest))
      ∙ find_onward fuel before j (laid front ++ (padded i ++ rest)) fj
          (omega (arith, length-append (padded j) (laid front))) (omega arith) other
      ∙ find-present fuel (before ++ padded j) front i rest (omega arith) fs fi others same
          (omega (arith, length-append before (padded j), length-append (padded j) (laid front)))
      ∙ ap (λ bytes. some (some (length bytes, item_tag i)))
          (append_assoc before (padded j) (laid front))

  pub find-absent :
      (fuel : ℕ) (before : List ℕ) (items : List Item)
      → length items < fuel
      → All Fits items
      → All (λ j. j.type ≢ tag_type) items
      → length before + length (laid items) ≡ size
      → find_from fuel (over size (before ++ laid items)) tag_type (length before) ≡ some none
  unfolding find_from
  find-absent zero before items hf fs others whole = absurd (omega arith)
  find-absent (suc fuel) before [] hf fs others whole = rw at_end refl
    where
      at_end : (length before == size) ≡ true
      at_end = ground (arith, whole)
  find-absent (suc fuel) before (j ∷ items) hf (fj, fs) (other, others) whole =
      find_onward fuel before j (laid items) fj
        (omega (arith, length-append (padded j) (laid items)))
        (omega (
          arith,
          length-append (padded j) (laid items),
          length-padded j fj,
          (aligned_up (item_tag j).size fj.1).at_least,
        ))
        other
      ∙ find-absent fuel (before ++ padded j) items (omega arith) fs others
          (omega (arith, length-append before (padded j), length-append (padded j) (laid items)))
