-- ===== src/SimpleBuddy.antt =====
-- src/lib/toyos/include/toyos/memory/simple_buddy.hpp: a buddy allocator that keeps the order of each
-- allocation, and that claims memory with a function when it runs out. The answer of that function is a
-- parameter; the map is a list of the addresses with their orders, as std::map keeps them without double
-- addresses. `none` is a failed assertion, the trap, or the exception of `at`.
pub mod Held
pub mod Client
use guest_tests.Base.{
  ℕ, ◌+◌, ◌%◌, ◌^◌, ◌==◌, min, max, if◌then◌else◌, Option, none, some, ◌>>=◌, ◌>>◌, List, [], ◌∷◌,
}
use guest_tests.Math.{word}
use guest_tests.Interval.{from_order}
use guest_tests.OrderRange.{order_t}
use guest_tests.Buddy.{Buddy, reclaim_range}
use guest_tests.Buddy as Buddy

pub record SimpleBuddy : Type 0 where
  pub base : Buddy
  pub alloc_map : List (ℕ × ℕ)

-- PAGE_BITS
abbrev pub min_claim_order : ℕ
min_claim_order = 12

abbrev pub max_claim_order : ℕ
max_claim_order = 63

-- `std::clamp(order + 1, min_claim_order + 1, max_claim_order)`
unfoldable pub claim_order : ℕ → ℕ
claim_order order = min (max (order_t (order + 1)) (min_claim_order + 1)) max_claim_order

-- `std::map::find`, as `at` and `insert` use it, and `erase`.
unfoldable pub lookup : List (ℕ × ℕ) → ℕ → Option ℕ
lookup [] addr = none
lookup (e ∷ m) addr = let rest = lookup m addr in if e.0 == addr then some e.1 else rest

unfoldable pub erase : List (ℕ × ℕ) → ℕ → List (ℕ × ℕ)
erase [] addr = []
erase (e ∷ m) addr = let rest = erase m addr in if e.0 == addr then m else e ∷ rest

-- `alloc_func` has answered `new_space`, or null.
unfoldable pub claim : Option ℕ → ℕ → Buddy → Option (Option ℕ × Buddy)
claim none order b = some (none, b)
claim (some new_space) order b =
    reclaim_range (from_order new_space (claim_order order)) b >>= (λ b2. Buddy.alloc b2 order)

unfoldable pub remember : ℕ → Option ℕ → Buddy → List (ℕ × ℕ) → Option (Option ℕ × SimpleBuddy)
remember order none b m = some (none, record { base = b; alloc_map = m })
remember order (some addr) b m = elim (lookup m addr) [
  | none ↦ some (some addr, record { base = b; alloc_map = (addr, order) ∷ m })
  | some _ ↦ none
]

unfoldable pub claim_if : Option ℕ → ℕ → Option ℕ → Buddy → Option (Option ℕ × Buddy)
claim_if new_space order (some addr) b = some (some addr, b)
claim_if new_space order none b = claim new_space order b

unfoldable pub alloc : Option ℕ → ℕ → SimpleBuddy → Option (Option ℕ × SimpleBuddy)
alloc new_space order s =
    Buddy.alloc s.base order
    >>= (λ r. claim_if new_space order r.0 r.1 >>= (λ r2. remember order r2.0 r2.1 s.alloc_map))

-- `free(addr)`
unfoldable pub free : ℕ → SimpleBuddy → Option SimpleBuddy
free addr s = lookup s.alloc_map addr >>= (λ order.
    Buddy.free s.base addr order
    >>= (λ b. some (record { base = b; alloc_map = erase s.alloc_map addr })))

-- `free(addr, order)`
unfoldable pub free_order : ℕ → ℕ → SimpleBuddy → Option SimpleBuddy
free_order addr order s = Buddy.free s.base addr order >>= (λ b. some (record s { base = b }))
