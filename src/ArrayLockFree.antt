-- ===== src/ArrayLockFree.antt =====
-- src/lib/toyos/include/toyos/util/array_lock_free.hpp: an array of atomic elements, of which one value
-- marks the free places. Here its operations run one by one; Threads takes insertions apart at their
-- compare-and-exchange. `none` is the failed assertion, or an index that `at` refuses.
pub mod Laws
pub mod Threads
pub mod Claims
pub mod Progress
use guest_tests.Base.{
  ℕ, zero, suc, ◌+◌, Bool, true, false, not, ◌==◌, if◌then◌else◌, Option, none, some, ◌>>◌, assert,
  List, [], ◌∷◌, length, get_elem?, replicate,
}

unfoldable pub at : List ℕ → ℕ → Option ℕ
at array pos = get_elem? array pos

-- `std::find_if` from the index `i` on, and `std::distance` of what it finds.
unfoldable pub find_from : (ℕ → Bool) → List ℕ → ℕ → Option ℕ
find_from cond [] i = none
find_from cond (x ∷ array) i =
    let rest = find_from cond array (i + 1) in if cond x then some i else rest

unfoldable pub find_if : (ℕ → Bool) → List ℕ → Option ℕ
unfolding find_from
find_if cond array = find_from cond array 0

unfoldable pub find : ℕ → List ℕ → Option ℕ
unfolding find_if
find value array = find_if (λ elem. elem == value) array

-- `find_if` with a compare-and-exchange of `expected` for `desired` at each place: the index where it
-- succeeds, and the array behind it.
unfoldable pub exchange_from : ℕ → ℕ → List ℕ → ℕ → Option ℕ × List ℕ
exchange_from expected desired [] i = (none, [])
exchange_from expected desired (x ∷ array) i =
    let rest = exchange_from expected desired array (i + 1) in
    if x == expected then (some i, desired ∷ array) else (rest.0, x ∷ rest.1)

unfoldable pub insert : ℕ → ℕ → List ℕ → Option (Option ℕ × List ℕ)
unfolding exchange_from
insert invalid value array =
    assert (not (value == invalid)) >> some (exchange_from invalid value array 0)

abbrev is_some : Option ℕ → Bool
is_some none = false
is_some (some i) = true

-- `remove` of `array_lock_free_with_remove`.
unfoldable pub remove : ℕ → ℕ → List ℕ → Bool × List ℕ
unfolding exchange_from
remove invalid value array =
    let r = exchange_from value invalid array 0 in
    if value == invalid then (false, array) else (is_some r.0, r.1)

unfoldable pub clear : ℕ → List ℕ → List ℕ
clear invalid array = replicate (length array) invalid
