-- ===== src/OrderRange.antt =====
-- src/lib/toyos/include/toyos/util/order_range.hpp: a range cut into naturally aligned pieces, each
-- with a power of two for its size. `order_range` has one base, `order_range2` two; the class
-- template has `N`, here the length of the list of bases.
pub mod Steps
pub mod Tiling
use mathlib.Core.List.{foldl}
use mathlib.Core.Option
use guest_tests.Base.{
  ℕ, zero, suc, ◌+◌, ◌-◌, ◌%◌, ◌^◌, min, bit_or, Bool, ◌&&◌, true, false, ◌==◌, if◌then◌else◌, List,
  [], ◌∷◌, map, Option, none, some,
}
use guest_tests.Math.{word, order_min, order_max}
use guest_tests.Interval.{Interval, size}

pub record Range : Type 0 where
  pub base : List ℕ
  pub total : ℕ
  pub max_order : ℕ

pub record Iterator : Type 0 where
  pub base : List ℕ
  pub rest_size : ℕ
  pub max_order_choice : ℕ
  pub current_step : ℕ

-- `order_t(x)`
abbrev pub order_t : ℕ → ℕ
order_t x = x % 2 ^ 8

unfoldable pub order_step : ℕ → ℕ → ℕ → ℕ
order_step base rest max_order_user =
    let min_order = order_t (order_min (bit_or base (2 ^ 63))) in
    let max_order = min (order_t (order_max rest)) max_order_user in 2 ^ min min_order max_order

unfoldable pub mix : List ℕ → ℕ
mix bases = foldl bit_or 0 bases

-- What `update_step` returns; it stores it in `current_step` unless nothing is left.
unfoldable pub next_step : List ℕ → ℕ → ℕ → ℕ
next_step base rest mo = if rest == 0 then 0 else order_step (mix base) rest mo

unfoldable pub iterator : List ℕ → ℕ → ℕ → Iterator
iterator bs total mo = record {
  base = bs;
  rest_size = total;
  max_order_choice = mo;
  current_step = next_step bs total mo;
}

unfoldable pub update_step : Iterator → Iterator
update_step it =
    if it.rest_size == 0
    then it
    else record it { current_step = next_step it.base it.rest_size it.max_order_choice }

abbrev pub advance : ℕ → List ℕ → List ℕ
advance step = map (λ b. (b + step) % word)

-- `operator++`
unfoldable pub increment : Iterator → Iterator
increment it = update_step (record it {
  base = advance it.current_step it.base;
  rest_size = (it.rest_size + word - it.current_step) % word;
})

-- `operator*`: one interval for each base.
unfoldable pub deref : Iterator → List Interval
deref it = map (λ b. record { a = b; b = (b + it.current_step) % word }) it.base

unfoldable pub same_bases : List ℕ → List ℕ → Bool
same_bases [] [] = true
same_bases (x ∷ xs) (y ∷ ys) = x == y && same_bases xs ys
same_bases _ _ = false

unfoldable pub same : Iterator → Iterator → Bool
unfolding same_bases
same it o = same_bases it.base o.base && (it.rest_size == o.rest_size)

unfoldable pub begin : Range → Iterator
begin r = iterator r.base r.total r.max_order

unfoldable pub end : Range → Iterator
end r = iterator (advance r.total r.base) 0 r.max_order

-- `for (auto range : order_range(...))`: what is visited, `none` out of fuel.
unfoldable pub visit : ℕ → Iterator → Iterator → Option (List (List Interval))
visit zero it stop = none
visit (suc fuel) it stop =
    let rest = Option.map (◌∷◌ (deref it)) (visit fuel (increment it) stop) in
    if same it stop then some [] else rest

unfoldable pub pieces : ℕ → Range → Option (List (List Interval))
pieces fuel r = visit fuel (begin r) (end r)

-- `order_range(ival, max_order)`
unfoldable pub of_interval : Interval → ℕ → Range
of_interval i mo = record { base = i.a ∷ []; total = size i; max_order = mo }

-- `order_range2(base1, base2, size, max_order)`
unfoldable pub of_bases : ℕ → ℕ → ℕ → ℕ → Range
of_bases base1 base2 total mo = record { base = base1 ∷ base2 ∷ []; total = total; max_order = mo }
