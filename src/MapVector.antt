-- ===== src/MapVector.antt =====
-- src/lib/toyos/include/toyos/util/map.hpp: `map_vector`, a map as the vector of its pairs in the
-- ascending order of their keys. An iterator is its index in the vector, at most its size, which is
-- the end. `find` is left out: its body passes a comparison to `std::find` and takes the answer for a
-- pair, which no instance of the template survives.
pub mod Order
pub mod Insert
use guest_tests.Base.{ℕ, ◌==◌, ltb, if◌then◌else◌, Option, none, some, List, length, get_elem?}
use guest_tests.IntervalMap.{lower_bound, before, insert_at, erase_range}

module _ {ℓ} {V : Type ℓ} where
  -- `vec.emplace`, and the iterator to the new pair.
  unfoldable pub emplace : List (ℕ × V) → ℕ → ℕ → V → List (ℕ × V) × Option ℕ
  emplace vec pos key val = (insert_at vec pos (key, val), some pos)

  unfoldable pub insert : List (ℕ × V) → ℕ → V → List (ℕ × V) × Option ℕ
  insert vec key val = elim (get_elem? vec (lower_bound vec key)) [
    | none ↦ emplace vec (lower_bound vec key) key val
    | some pos ↦ if pos.0 == key then (vec, none) else emplace vec (lower_bound vec key) key val
  ]

  -- The second test of `insert` with a hint, and what follows it.
  unfoldable pub insert_behind : List (ℕ × V) → ℕ → ℕ → V → List (ℕ × V) × Option ℕ
  insert_behind vec it key val = elim (before vec it) [
    | none ↦ emplace vec it key val
    | some prev ↦ if ltb prev.0 key then emplace vec it key val else insert vec key val
  ]

  unfoldable pub insert_hint : List (ℕ × V) → ℕ → ℕ → V → List (ℕ × V) × Option ℕ
  insert_hint vec it key val = elim (get_elem? vec it) [
    | none ↦ insert_behind vec it key val
    | some next ↦ if ltb key next.0 then insert_behind vec it key val else insert vec key val
  ]

  unfoldable pub erase : List (ℕ × V) → ℕ → ℕ → List (ℕ × V)
  erase vec a b = erase_range vec a b

  unfoldable pub size : List (ℕ × V) → ℕ
  size vec = length vec
