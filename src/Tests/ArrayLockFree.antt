-- ===== src/Tests/ArrayLockFree.antt =====
-- Tests and instances for the array of atomic elements.
use guest_tests.Base.{ℕ, ◌≡◌, refl, arith, true, some, List, [], ◌∷◌}
use guest_tests.ArrayLockFree.{find, find_if, find_from, insert, exchange_from, remove, clear}
use guest_tests.ArrayLockFree.Laws.{remove-insert}
use guest_tests.ArrayLockFree.Threads.{
  idle, scanning, stored, update, System, call, exchange, step, Run, start, mine, other,
}
use guest_tests.ArrayLockFree.Claims.{Claimed, Run-Claimed}
use guest_tests.ArrayLockFree.Progress.{Progress, Run-Progress}

abbrev places : List ℕ
places = 5 ∷ 0 ∷ 0 ∷ []

insert_run : insert 0 7 places ≡ some (some 1, 5 ∷ 7 ∷ 0 ∷ [])
unfolding insert exchange_from
insert_run = refl

find_run : find 7 (5 ∷ 7 ∷ 7 ∷ []) ≡ some 1
unfolding find find_if find_from
find_run = refl

clear_run : clear 0 places ≡ 0 ∷ 0 ∷ 0 ∷ []
unfolding clear
clear_run = refl

remove-insert_example : remove 0 7 (5 ∷ 7 ∷ 0 ∷ []) ≡ (true, places)
remove-insert_example =
    remove-insert 0 7 1 places (5 ∷ 7 ∷ 0 ∷ []) (omega arith)
      (omega arith, (omega arith, (omega arith, tt))) insert_run

abbrev free_places : List ℕ
free_places = 0 ∷ 0 ∷ []

abbrev one_calls : System
one_calls = record { array = free_places; pcs = update (λ u. idle) 1 (scanning 7 0) }

abbrev two_calls : System
two_calls = record { array = free_places; pcs = update one_calls.pcs 2 (scanning 9 0) }

abbrev two_stores : System
two_stores = record { array = 9 ∷ 0 ∷ []; pcs = update two_calls.pcs 2 (stored 9 0) }

run_of_two : Run 0 free_places 1 1 two_stores
run_of_two =
    other (other (mine start (step (call (omega arith)))) (omega arith) (step (call (omega arith))))
      (omega arith) (step (exchange refl))

Run-Claimed_example : Claimed 0 two_stores
Run-Claimed_example = Run-Claimed 0 run_of_two

Run-Progress_example : Progress 0 1 1 2 two_stores
Run-Progress_example = Run-Progress 0 1 run_of_two
