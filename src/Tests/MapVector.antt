-- ===== src/Tests/MapVector.antt =====
-- Tests and the instance for the map on a vector.
use guest_tests.Base.{ℕ, ◌≡◌, refl, arith, none, some, List, [], ◌∷◌}
use guest_tests.IntervalMap.{lower_bound, before, insert_at, erase_range}
use guest_tests.MapVector.{emplace, insert, insert_behind, insert_hint, erase, size}
use guest_tests.MapVector.Insert.{Inserted, insert_hint-Inserted}

abbrev three : List (ℕ × ℕ)
three = (2, 20) ∷ (5, 50) ∷ (9, 90) ∷ []

hint_used : insert_hint three 2 7 70 ≡ ((2, 20) ∷ (5, 50) ∷ (7, 70) ∷ (9, 90) ∷ [], some 2)
unfolding insert_hint insert_behind before emplace insert_at
hint_used = refl

-- The key belongs in front of the hint.
hint_too_far : insert_hint three 3 7 70 ≡ ((2, 20) ∷ (5, 50) ∷ (7, 70) ∷ (9, 90) ∷ [], some 2)
unfolding insert_hint insert_behind insert before emplace insert_at lower_bound
hint_too_far = refl

key_there : insert_hint three 1 5 51 ≡ (three, none)
unfolding insert_hint insert_behind insert before emplace insert_at lower_bound
key_there = refl

erase_two : size (erase three 0 2) ≡ 1
unfolding erase size erase_range
erase_two = refl

insert_hint-Inserted_example :
    (insert_hint three 3 7 70 ≡ insert three 7 70) × Inserted three 7 70 (insert three 7 70)
insert_hint-Inserted_example =
    insert_hint-Inserted three 3 7 70
      (omega arith, omega arith, (omega arith, omega arith, (omega arith, omega arith, tt)))
      (omega arith) (omega arith)
