-- ===== src/Buddy.antt =====
-- src/lib/toyos/include/toyos/memory/buddy.hpp: the block manager and the buddy allocator on it. A
-- failed ASSERT, or a method of std::vector or std::set used outside its contract, is `none`.
pub mod Cover
pub mod Blocks
pub mod Split
pub mod Merge
pub mod Alloc
pub mod Free
pub mod Reclaim
pub mod Client
use guest_tests.Base.{
  ℕ, zero, suc, ◌+◌, ◌-◌, ◌%◌, ◌^◌, min, bit_xor, Bool, true, false, not, ◌&&◌, ◌==◌, leb, ltb,
  if◌then◌else◌, List, [], ◌∷◌, Option, none, some, get_or, set, replicate, length, ◌>>=◌, ◌>>◌,
  assert,
}
use guest_tests.OrderedSet.{member, insert, erase}
use guest_tests.Interval.{Interval, size}
use guest_tests.Math.{word, is_aligned, order_max}
use guest_tests.OrderRange.{order_t, pieces, of_interval}

-- `heap_block_manager`: the free blocks of each order, by address.
pub record Manager : Type 0 where
  pub free_blocks : List (List ℕ)
  pub max_ord : ℕ

-- `free_block_id`; its iterator stands for the address that it points to.
pub record BlockId : Type 0 where
  pub ord : ℕ
  pub addr : ℕ

unfoldable pub manager : ℕ → Option Manager
manager max_ord = do
  assert (leb max_ord 63)
  some (record { free_blocks = replicate (max_ord + 1) []; max_ord = max_ord })

-- `free_blocks[ord]`
abbrev pub blocks_of : Manager → ℕ → List ℕ
blocks_of m ord = get_or m.free_blocks ord []

abbrev pub with_blocks : Manager → ℕ → List ℕ → Manager
with_blocks m ord s = record m { free_blocks = set m.free_blocks ord s }

-- The search of `get_free` at `order`, with `rounds` orders left up to `max_ord`.
unfoldable pub get_free_from : ℕ → ℕ → Manager → Option BlockId
get_free_from zero order m = none
get_free_from (suc rounds) order m = elim (blocks_of m order) [
  | [] ↦ get_free_from rounds (order + 1) m
  | a ∷ _ ↦ some (record { ord = order; addr = a })
]

unfoldable pub get_free : Manager → ℕ → Option BlockId
get_free m order = get_free_from (m.max_ord + 1 - order) order m

-- `free_blocks[ord].emplace(addr)` and the assertion that it inserted.
unfoldable pub emplace : Manager → ℕ → ℕ → Option Manager
emplace m ord addr = do
  assert (not (member addr (blocks_of m ord)))
  some (with_blocks m ord (insert addr (blocks_of m ord)))

-- `free_blocks[id.ord].erase(id.it)`. The iterator is one that the caller has found in the set; of an
-- address that is not there the model keeps the set.
unfoldable pub remove : Manager → BlockId → Manager
remove m id = with_blocks m id.ord (erase id.addr (blocks_of m id.ord))

unfoldable pub split_free : Manager → BlockId → Option (BlockId × Manager)
split_free m id = do
  assert (not (id.ord == 0))
  m2 ← emplace (remove m id) (id.ord - 1) ((id.addr + 2 ^ (id.ord - 1)) % word)
  m3 ← emplace m2 (id.ord - 1) id.addr
  some (record { ord = id.ord - 1; addr = id.addr }, m3)

unfoldable pub get_buddy_addr : Manager → ℕ → ℕ → Option ℕ
get_buddy_addr m addr order = do
  assert (leb order 63)
  assert (leb order m.max_ord)
  some (bit_xor addr (2 ^ order))

-- What `merge_free` does once it knows the buddy's address.
unfoldable pub merge_with : Manager → BlockId → ℕ → Option (Option BlockId × Manager)
merge_with m id buddy =
    let addr = min id.addr buddy in
    let merged = (do
      m3 ← emplace (remove (remove m id) (record { ord = id.ord; addr = buddy })) (id.ord + 1) addr
      some (some (record { ord = id.ord + 1; addr = addr }), m3)) in
    if member buddy (blocks_of m id.ord) then merged else some (none, m)

unfoldable pub merge_free : Manager → BlockId → Option (Option BlockId × Manager)
merge_free m id =
    let merged = (do buddy ← get_buddy_addr m id.addr id.ord; merge_with m id buddy) in
    if leb m.max_ord id.ord then some (none, m) else merged

unfoldable pub mark_used : Manager → BlockId → Manager
unfolding remove
mark_used m id = remove m id

unfoldable pub add_free : Manager → ℕ → ℕ → Option (BlockId × Manager)
add_free m addr ord = do
  assert (leb ord m.max_ord)
  assert (is_aligned addr ord)
  assert (ltb ord (length m.free_blocks))
  m2 ← emplace m ord addr
  some (record { ord = ord; addr = addr }, m2)

-- `buddy_impl`. Its `max_order` is an 8-bit copy of the argument that the manager is made with.
pub record Buddy : Type 0 where
  pub max_order : ℕ
  pub blocks : Manager

unfoldable pub buddy : ℕ → Option Buddy
buddy max_ord = do
  blocks ← manager (max_ord % 2 ^ 8)
  assert (leb (max_ord % 2 ^ 8) 63)
  some (record { max_order = max_ord % 2 ^ 8; blocks = blocks })

-- The splitting loop of `alloc`, with `rounds` orders above the requested one.
unfoldable pub split_down : ℕ → Manager → BlockId → Option (BlockId × Manager)
split_down zero m id = some (id, m)
split_down (suc rounds) m id = split_free m id >>= λ r. split_down rounds r.1 r.0

unfoldable pub alloc_blocks : Manager → ℕ → Option (Option ℕ × Manager)
alloc_blocks m order = elim (get_free m order) [
  | none ↦ some (none, m)
  | some found ↦ do
    r ← split_down (found.ord - order) m found
    assert (r.0.ord == order)
    some (some r.0.addr, mark_used r.1 r.0)
]

-- The merging loop of `free`; `none` out of fuel.
unfoldable pub merge_up : ℕ → Manager → BlockId → Option Manager
merge_up zero m id = none
merge_up (suc fuel) m id =
    merge_free m id >>= λ r. elim r.0 [ none ↦ some r.1 | some next ↦ merge_up fuel r.1 next ]

-- Each merge raises the order, so `max_ord - order + 1` rounds are enough.
unfoldable pub free_blocks_at : Manager → ℕ → ℕ → Option Manager
free_blocks_at m addr order = do
  r ← add_free m addr order
  merge_up (suc (m.max_ord - order)) r.1 r.0

unfoldable pub alloc : Buddy → ℕ → Option (Option ℕ × Buddy)
alloc b order = do r ← alloc_blocks b.blocks order; some (r.0, record b { blocks = r.1 })

unfoldable pub free : Buddy → ℕ → ℕ → Option Buddy
free b addr order = do m ← free_blocks_at b.blocks addr order; some (record b { blocks = m })

-- The body of the loops over an order_range: `free` of each piece, its order read off its size by
-- `order_of`.
unfoldable pub free_pieces : (ℕ → ℕ) → Buddy → List (List Interval) → Option Buddy
free_pieces order_of b [] = some b
free_pieces order_of b ([] ∷ ps) = none
free_pieces order_of b ((i ∷ _) ∷ ps) =
    free b i.a (order_t (order_of (size i))) >>= λ b2. free_pieces order_of b2 ps

-- `buddy_reclaim_range`
unfoldable pub reclaim_range : Interval → Buddy → Option Buddy
reclaim_range i b = do
  ps ← pieces (suc (size i)) (of_interval i b.max_order)
  free_pieces order_max b ps
