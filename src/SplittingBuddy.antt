-- ===== src/SplittingBuddy.antt =====
-- src/lib/toyos/include/toyos/memory/splitting_buddy.hpp: ranges of any size on a buddy allocator.
pub mod Laws
use guest_tests.Base.{ℕ, zero, suc, ◌+◌, ◌-◌, ◌%◌, ◌^◌, Option, none, some, ◌>>=◌, ◌>>◌}
use guest_tests.Interval.{Interval, size, from_size, from_order}
use guest_tests.Math.{word, order_envelope}
use guest_tests.OrderRange.{order_t, pieces, of_interval}
use guest_tests.Buddy.{Buddy, free_pieces}
use guest_tests.Buddy

-- `free(ival)`. The class holds nothing but `internal_allocator`.
unfoldable pub free : Buddy → Interval → Option Buddy
free b i = do
  ps ← pieces (suc (size i)) (of_interval i b.max_order)
  free_pieces order_envelope b ps

-- What `alloc` does with the block at `start`: the part behind `num_bytes` is freed again.
unfoldable pub trim : Buddy → ℕ → ℕ → ℕ → Option (Option Interval × Buddy)
trim b start alloc_order num_bytes =
    let alloc_ival = from_order start alloc_order in
    let remaining = (size alloc_ival + word - num_bytes) % word in
    let remaining_ival = from_size ((alloc_ival.a + num_bytes) % word) remaining in
    (do b' ← free b remaining_ival; some (some (record { a = start; b = remaining_ival.a }), b'))

-- `alloc` behind the block allocator's answer.
unfoldable pub use_block : ℕ → Option ℕ → Buddy → Option (Option Interval × Buddy)
use_block num_bytes none b = some (none, b)
use_block num_bytes (some start) b = trim b start (order_envelope num_bytes) num_bytes

unfoldable pub alloc : Buddy → ℕ → Option (Option Interval × Buddy)
alloc b num_bytes =
    Buddy.alloc b (order_t (order_envelope num_bytes)) >>= λ r. use_block num_bytes r.0 r.1
