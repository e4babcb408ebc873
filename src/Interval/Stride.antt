-- ===== src/Interval/Stride.antt =====
-- The iteration of `strided_interval_impl`.
use guest_tests.Base.{ℕ, zero, suc, ◌+◌, ◌-◌, ◌*◌, ◌/◌, ◌≤◌, ◌<◌, List, [], ◌∷◌, some, ◌≡◌, arith}
use native.Mathlib.Nat.{div-add-mod', mod-eq_of_lt}
use guest_tests.Math.{word}
use guest_tests.Interval.{Interval, Strided, size, empty, strided, strided_from, strided_points}

-- `n` points from `a`, `stride` apart.
abbrev pub progression : ℕ → ℕ → ℕ → List ℕ
progression zero a stride = []
progression (suc n) a stride = a ∷ progression n (a + stride) stride

strided_from-progression :
    (n fuel a last stride : ℕ)
    → n < fuel
    → 0 < stride
    → a + n * stride ≡ last
    → last < word
    → strided_from fuel a last stride ≡ some (progression n a stride)
unfolding strided_from
strided_from-progression n zero a last stride f p e lt = absurd (omega arith)
strided_from-progression zero (suc fuel) a last stride f p e lt = ground arith
strided_from-progression (suc n) (suc fuel) a last stride f p e lt = ground (
  arith,
  mod-eq_of_lt {n = a + stride} {m = word},
  strided_from-progression n fuel (a + stride) last stride,
)

size_valid : (i : Interval) → i.a ≤ i.b → size i ≡ i.b - i.a
unfolding size empty
size_valid i h = ground arith

-- The constructor accepts a positive stride that divides the size, and nothing else; on a valid
-- interval the iteration then ends, at the points from `a` on that lie below `b`.
pub strided_points-progression :
    (i : Interval) (stride fuel : ℕ) {s : Strided}
    → strided i stride ≡ some s
    → i.a ≤ i.b
    → i.b < word
    → size i / stride < fuel
    → strided_points fuel s ≡ some (progression (size i / stride) i.a stride)
unfolding strided strided_points
strided_points-progression i stride fuel e le lt f = ground (
  arith,
  div-add-mod' (size i) stride,
  size_valid i le,
  strided_from-progression (size i / stride) fuel i.a i.b stride,
)
