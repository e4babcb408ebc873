-- ===== src/Interval.antt =====
-- src/lib/toyos/include/toyos/util/interval.hpp: half-open intervals [a, b) of 64-bit values.
pub mod Laws
pub mod Stride
use guest_tests.Base.{
  ℕ, zero, suc, ◌+◌, ◌-◌, ◌*◌, ◌%◌, ◌^◌, min, max, Bool, true, false, not, ◌&&◌, ◌==◌, leb, ltb,
  if◌then◌else◌, List, [], ◌∷◌, Option, none, some,
}
use mathlib.Core.Option
use guest_tests.Math.{word}

-- `interval_impl<size_t>`.
pub record Interval : Type 0 where
  pub a : ℕ
  pub b : ℕ

abbrev pub from_size : ℕ → ℕ → Interval
from_size base size = record { a = base; b = (base + size) % word }

abbrev pub from_point : ℕ → Interval
from_point p = from_size p 1

abbrev pub from_order : ℕ → ℕ → Interval
from_order base order = from_size base (2 ^ order % word)

unfoldable pub empty : Interval → Bool
empty i = leb i.b i.a

-- `b - a` is taken only where `a < b`.
unfoldable pub size : Interval → ℕ
size i = if empty i then 0 else i.b - i.a

unfoldable pub intersects : Interval → Interval → Bool
intersects i o = not (empty i) && not (empty o) && ltb i.a o.b && ltb o.a i.b

unfoldable pub intersection : Interval → Interval → Interval
intersection i o = record { a = max i.a o.a; b = min i.b o.b }

unfoldable pub contains : Interval → ℕ → Bool
contains i v = not (empty i) && leb i.a v && ltb v i.b

unfoldable pub contains_interval : Interval → Interval → Bool
contains_interval i o = not (empty i) && not (empty o) && leb i.a o.a && leb o.b i.b

unfoldable pub equals : Interval → Interval → Bool
equals i o = i.a == o.a && i.b == o.b

-- `operator<`: the interval ends before the other begins.
unfoldable pub before : Interval → Interval → Bool
before i o = leb i.b o.a

-- `strided_interval_impl`, whose constructor asserts; `none` is a failed assertion.
pub record Strided : Type 0 where
  pub ival : Interval
  pub stride : ℕ

unfoldable pub strided : Interval → ℕ → Option Strided
strided i stride =
    if not (stride == 0) && (size i % stride == 0)
    then some (record { ival = i; stride = stride })
    else none

-- `for (auto p : range)`: from `pos`, `pos += stride` until `pos == last`; `none` out of fuel.
unfoldable pub strided_from : ℕ → ℕ → ℕ → ℕ → Option (List ℕ)
strided_from zero pos last stride = none
strided_from (suc fuel) pos last stride =
    let rest = Option.map (◌∷◌ pos) (strided_from fuel ((pos + stride) % word) last stride) in
    if pos == last then some [] else rest

unfoldable pub strided_points : ℕ → Strided → Option (List ℕ)
strided_points fuel s = strided_from fuel s.ival.a s.ival.b s.stride
