-- ===== src/Tests/IntervalMap.antt =====
-- Tests and instances for the interval map.
use guest_tests.Base.{ℕ, true, ◌≡◌, refl, arith, none, some, List, [], ◌∷◌, ◌==◌}
use guest_tests.Interval.{Interval, empty, size}
use guest_tests.IntervalMap.{
  ival_last, lower_bound, upper_bound, before, insert_at, erase_range, interval_of, find,
  iterate_range, merge_before, merge_behind, merge, insert_inside, insert_end, insert_over, insert,
  remove, fit, fit_from, find_last_fit,
}
use guest_tests.IntervalMap.Insert.{Inserts}
use guest_tests.IntervalMap.Merge.{first_start}
use guest_tests.IntervalMap.Overwrite.{insert-Inserts}
use guest_tests.IntervalMap.Find.{Found, find-Found}

-- 7 up to 10, 8 up to 20, 9 behind that.
abbrev three : List (ℕ × ℕ)
three = (0, 7) ∷ (10, 8) ∷ (20, 9) ∷ []

insert_inside_run :
    insert ◌==◌ three (record { a = 12; b = 15 }) 5
    ≡ some ((0, 7) ∷ (10, 8) ∷ (12, 5) ∷ (15, 8) ∷ (20, 9) ∷ [])
unfolding insert insert_inside insert_end insert_over lower_bound before insert_at erase_range merge
    merge_before merge_behind empty
insert_inside_run = refl

-- Up to the next start, with its value: both intervals become one.
insert_merge_run :
    insert ◌==◌ three (record { a = 12; b = 20 }) 9 ≡ some ((0, 7) ∷ (10, 8) ∷ (12, 9) ∷ [])
unfolding insert insert_inside insert_end insert_over lower_bound before insert_at erase_range merge
    merge_before merge_behind empty
insert_merge_run = refl

insert_over_run :
    insert ◌==◌ three (record { a = 5; b = 15 }) 3 ≡ some ((0, 7) ∷ (5, 3) ∷ (15, 8) ∷ (20, 9) ∷ [])
unfolding insert insert_inside insert_end insert_over lower_bound before insert_at erase_range merge
    merge_before merge_behind empty
insert_over_run = refl

insert_end_run : insert ◌==◌ three (record { a = 5; b = ival_last }) 3 ≡ some ((0, 7) ∷ (5, 3) ∷ [])
unfolding insert insert_inside insert_end insert_over lower_bound before insert_at erase_range merge
    merge_before merge_behind empty
insert_end_run = refl

remove_run : remove ◌==◌ 0 three 12 ≡ some ((0, 7) ∷ (20, 9) ∷ [])
unfolding remove upper_bound before erase_range
remove_run = refl

find_last_fit_run : find_last_fit ◌==◌ three 4 8 ival_last ≡ some (record { a = 16; b = 20 })
unfolding find_last_fit fit_from fit find before upper_bound interval_of size empty
find_last_fit_run = refl

-- A range that begins inside the last interval reads the element behind the end.
iterate_range_last : iterate_range three 25 30 ≡ none
unfolding iterate_range lower_bound
iterate_range_last = refl

abbrev first_of_three : ℕ × ℕ
first_of_three = (0, 7)

abbrev rest_of_three : List (ℕ × ℕ)
rest_of_three = (10, 8) ∷ (20, 9) ∷ []

find-Found_example : Found first_of_three rest_of_three 12
find-Found_example = find-Found first_of_three rest_of_three 12 (omega arith) (omega arith)

-- `==` on the native numbers says the truth.
equal_numbers : (x y : ℕ) → (x == y) ≡ true → x ≡ y
equal_numbers x y e = ground (arith, e)

abbrev five_to_fifteen : Interval
five_to_fifteen = record { a = 5; b = 15 }

insert-Inserts_example : Inserts ◌==◌ equal_numbers five_to_fifteen 3 three
unfolding first_start
insert-Inserts_example =
    insert-Inserts ◌==◌ equal_numbers five_to_fifteen 3 (omega arith) (omega arith) three
      (omega arith, omega arith, (omega arith, omega arith, (omega arith, omega arith, tt))) refl
