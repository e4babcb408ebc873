-- ===== src/Tests/Interval.antt =====
-- Tests and instances for util/interval.hpp and util/order_range.hpp.
use guest_tests.Base.{◌≡◌, refl, arith, List, [], ◌∷◌, true, false, some, none}
use guest_tests.Math.{order_min, order_max, order_min_from, order_max_from}
use guest_tests.Interval.{
  Interval, from_size, empty, size, intersects, intersection, contains, contains_interval, equals,
  before, Strided, strided, strided_from, strided_points,
}
use guest_tests.OrderRange.{
  Range, pieces, visit, begin, end, iterator, next_step, order_step, mix, same, same_bases,
  increment, update_step, deref, of_interval, of_bases,
}
use guest_tests.OrderRange.Tiling.{Tiles, pieces-Tiles}

abbrev low : Interval
low = record { a = 2; b = 10 }

abbrev high : Interval
high = record { a = 8; b = 20 }

abbrev by_four : Strided
by_four = record { ival = low; stride = 4 }

intervals_run :
    (size low ≡ 8)
    × (intersects low high ≡ true)
    × (intersection low high ≡ record { a = 8; b = 10 })
    × (contains low 10 ≡ false)
    × (contains_interval low high ≡ false)
    × (equals low high ≡ false)
    × (before low high ≡ false)
    × (empty (from_size 3 0) ≡ true)
unfolding size empty intersects intersection contains contains_interval equals before
intervals_run = (refl, refl, refl, refl, refl, refl, refl, refl)

strided_run :
    (strided low 4 ≡ some by_four)
    × (strided low 3 ≡ none)
    × (strided_points 9 by_four ≡ some (2 ∷ 6 ∷ []))
unfolding strided strided_points strided_from size empty
strided_run = (refl, refl, refl)

abbrev odd_range : Range
odd_range = record { base = 3 ∷ []; total = 7; max_order = 2 }

order_range_run :
    pieces 8 odd_range
    ≡ some (
        (record { a = 3; b = 4 } ∷ [])
        ∷ (record { a = 4; b = 8 } ∷ [])
        ∷ (record { a = 8; b = 10 } ∷ [])
        ∷ [])
unfolding pieces visit begin end iterator next_step order_step mix same same_bases increment
    update_step deref order_min order_max order_min_from order_max_from
order_range_run = refl

order_range_constructors :
    (of_interval low 5 ≡ record { base = 2 ∷ []; total = 8; max_order = 5 })
    × (of_bases 1 2 3 4 ≡ record { base = 1 ∷ 2 ∷ []; total = 3; max_order = 4 })
unfolding of_interval of_bases size empty
order_range_constructors = (refl, refl)

pieces-Tiles_example :
    (ps : List (List Interval)) × (pieces 8 odd_range ≡ some ps) × Tiles 2 ps (3 ∷ []) 7
pieces-Tiles_example = pieces-Tiles 8 odd_range (omega arith) (omega arith) (omega arith, tt)
