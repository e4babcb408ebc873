-- ===== src/Math.antt =====
-- src/lib/toyos/include/toyos/util/math.hpp: powers of two, orders, masks, alignment. Values are
-- 64-bit (`size_t`, `uint64_t`), and an order is an `order_t`, 8 bits.
pub mod Orders
pub mod Align
pub mod Laws
use guest_tests.Base.{
  ℕ, zero, suc, ◌+◌, ◌-◌, ◌*◌, ◌%◌, ◌^◌, bit_and, Bool, true, false, not, ◌&&◌, ◌==◌, leb, ltb,
  if◌then◌else◌, List, [], ◌∷◌,
}

abbrev pub word : ℕ
word = 2 ^ 64

-- The bitwise complement of a 64-bit value.
abbrev pub complement : ℕ → ℕ
complement x = word - 1 - x

unfoldable pub is_power_of_2 : ℕ → Bool
is_power_of_2 x = not (x == 0) && (bit_and ((x + word - 1) % word) x == 0)

-- The loop of `order_min` at `i`, with `left` rounds to go.
unfoldable pub order_min_from : ℕ → ℕ → ℕ → ℕ
order_min_from zero i num = 0
order_min_from (suc left) i num =
    let rest = order_min_from left (i + 1) num in if bit_and num (2 ^ i) == 0 then rest else i

unfoldable pub order_min : ℕ → ℕ
unfolding order_min_from
order_min num = order_min_from 64 0 num

-- The loop of `order_max` at `i`, which goes down and does not look at bit 0.
unfoldable pub order_max_from : ℕ → ℕ → ℕ
order_max_from zero num = 0
order_max_from (suc i) num =
    let rest = order_max_from i num in if bit_and num (2 ^ suc i) == 0 then rest else suc i

unfoldable pub order_max : ℕ → ℕ
unfolding order_max_from
order_max num = order_max_from 63 num

unfoldable pub order_envelope : ℕ → ℕ
order_envelope num = if leb num (2 ^ order_max num % word) then order_max num else order_max num + 1

-- `bits` is at most 64, as the shifts need.
unfoldable pub mask : ℕ → ℕ → ℕ
mask bits offset = let m = (if bits == 64 then word - 1 else 2 ^ bits - 1) in m * 2 ^ offset % word

unfoldable pub align_down : ℕ → ℕ → ℕ
align_down v o = bit_and v (complement (mask o 0))

unfoldable pub align_up : ℕ → ℕ → ℕ
align_up v o = align_down ((v + mask o 0) % word) o

unfoldable pub is_aligned : ℕ → ℕ → Bool
is_aligned v o = bit_and v (mask o 0) == 0

unfoldable pub increment_uint64_without_zero : ℕ → ℕ
increment_uint64_without_zero val = (val + (if complement val == 0 then 1 else 0) + 1) % word

-- `checksum<T>` of the values that the bytes hold, `T` being `w` bits wide.
unfoldable pub accumulate : ℕ → ℕ → List ℕ → ℕ
accumulate w acc [] = acc
accumulate w acc (x ∷ xs) = accumulate w ((acc + x) % 2 ^ w) xs

unfoldable pub checksum : ℕ → List ℕ → ℕ
unfolding accumulate
checksum w values = (2 ^ w - accumulate w 0 values) % 2 ^ w

-- `T` is `w` bits wide.
unfoldable pub will_overflow : ℕ → ℕ → ℕ → Bool
will_overflow w base limit = ltb (2 ^ w - 1 - base) limit
