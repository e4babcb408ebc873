-- ===== src/Interval/Laws.antt =====
-- What the tests of interval.hpp say of the points of an interval.
use guest_tests.Base.{ℕ, ◌+◌, ◌-◌, ◌<◌, max, true, false, ◌&&◌, ◌≡◌, ◌↔◌, arith}
use guest_tests.Math.{word}
use guest_tests.Interval.{
  Interval, from_size, empty, size, intersects, intersection, contains, contains_interval,
}

-- The intersection holds the points of both.
pub contains-intersection :
    (i o : Interval) (v : ℕ) → contains (intersection i o) v ≡ (contains i v && contains o v)
unfolding contains intersection empty
contains-intersection i o v = ground arith

-- Two intervals intersect exactly when they have a point in common.
pub intersects_iff :
    (i o : Interval)
    → (intersects i o ≡ true) ↔ ((v : ℕ) × (contains i v ≡ true) × (contains o v ≡ true))
unfolding intersects contains empty
intersects_iff i o = (λ h. (max i.a o.a, ground arith, ground arith), λ e. ground arith)

-- An interval that has points contains another exactly when it contains its points.
pub contains_interval_iff :
    (i o : Interval)
    → empty o ≡ false
    → (contains_interval i o ≡ true) ↔ ((v : ℕ) → contains o v ≡ true → contains i v ≡ true)
unfolding contains_interval contains empty
contains_interval_iff i o ne =
    (λ h v k. ground arith, λ all. ground (arith, all o.a, all (o.b - 1)))

-- Without overflow the size is the one that the interval was made with.
pub size-from_size : (base n : ℕ) → base + n < word → size (from_size base n) ≡ n
unfolding size empty
size-from_size base n h = ground arith
