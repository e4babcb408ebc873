-- ===== src/Buddy/Free.antt =====
-- `free` of buddy.hpp, and the allocator's calls as a client sees them.
use guest_tests.Base.{
  ℕ, zero, suc, ◌+◌, ◌-◌, ◌^◌, ◌≤◌, ◌<◌, bit_xor, true, false, ◌⊎◌, ◌≡◌, refl, arith, some, Option,
  leb, ltb, length,
}
use guest_tests.Math.{is_aligned}
use guest_tests.Math.Align.{is_aligned_iff}
use guest_tests.OrderedSet.{member}
use guest_tests.Buddy.{Manager, BlockId, blocks_of, add_free, merge_free, merge_up, free_blocks_at}
use guest_tests.Buddy.Cover.{within}
use guest_tests.Buddy.Blocks.{IsBlock, IsValid, Has, covered, Added, Regrouped, emplace-Added}
use guest_tests.Buddy.Split.{block, Regrouped-trans}
use guest_tests.Buddy.Merge.{Merged, kept, merged, merge_free-Merged}

-- The block of order `o` at `a` stands for itself: it is maximal, or its buddy is not free.
abbrev pub IsCoalesced : Manager → ℕ → ℕ → Type 0
IsCoalesced m o a =
    Has m (block o a) × ((o ≡ m.max_ord) ⊎ (member (bit_xor a (2 ^ o)) (blocks_of m o) ≡ false))

-- The merging loop ends in a coalesced free block that contains the one it began with.
record Coalesced (m : Manager) (o a : ℕ) (m' : Manager) : Type 0 where
  same : Regrouped m m'
  top : ℕ
  lo : ℕ
  holds : (x : ℕ) → within o x a ≤ within top x lo
  done : IsCoalesced m' top lo

merge_up_step :
    (fuel : ℕ) (m : Manager) (o a : ℕ)
    → IsValid m
    → Has m (block o a)
    → ((m2 : Manager) (lo : ℕ)
        → o < m.max_ord
        → Regrouped m m2
        → Has m2 (block (suc o) lo)
        → (m' : Manager) × (merge_up fuel m2 (block (suc o) lo) ≡ some m')
          × Coalesced m2 (suc o) lo m')
    → (r : Option BlockId) (m2 : Manager) → merge_free m (block o a) ≡ some (r, m2)
    → Merged m o a r m2
    → (m' : Manager) × (merge_up (suc fuel) m (block o a) ≡ some m') × Coalesced m o a m'
unfolding merge_up
merge_up_step fuel m o a v h more r m2 run (kept why) = (
  m,
  rw run,
  record {
    same = record { valid = v; same_max = refl; same = λ x. refl };
    top = o;
    lo = a;
    holds = λ x. omega arith;
    done = (h, why);
  },
)
merge_up_step fuel m o a v h more r m2 run (merged lo lt wider same has) =
    let (m', rest, c) = more m2 lo lt same has in
    (
      m',
      rw (run, rest),
      record {
        same = Regrouped-trans same c.same;
        top = c.top;
        lo = c.lo;
        holds = λ x. omega (arith, wider x, c.holds x);
        done = c.done;
      },
    )

merge_up-Coalesced :
    (fuel : ℕ) (m : Manager) (o a : ℕ)
    → m.max_ord < o + fuel
    → IsValid m
    → Has m (block o a)
    → (m' : Manager) × (merge_up fuel m (block o a) ≡ some m') × Coalesced m o a m'
merge_up-Coalesced zero m o a f v h = absurd (omega (arith, h.in_range))
merge_up-Coalesced (suc fuel) m o a f v h =
    let (r, m2, run, did) = merge_free-Merged m o a v h in
    merge_up_step fuel m o a v h
      (λ m2 lo lt same has.
        merge_up-Coalesced fuel m2 (suc o) lo (omega (arith, same.same_max)) same.valid has)
      r m2 run did

-- What `free` leaves behind: the block is free, nothing else changed hands, and the free block that
-- it ended up in cannot be merged further.
pub record Freed (m : Manager) (order addr : ℕ) (m' : Manager) : Type 0 where
  pub valid : IsValid m'
  pub same_max : m'.max_ord ≡ m.max_ord
  pub more : (x : ℕ) → covered m' x ≡ covered m x + within order x addr
  pub top : ℕ
  pub lo : ℕ
  pub holds : (x : ℕ) → within order x addr ≤ within top x lo
  pub coalesced : IsCoalesced m' top lo

add_free-Added :
    (m : Manager) (addr order : ℕ)
    → IsValid m
    → order ≤ m.max_ord
    → IsBlock order addr
    → ((x : ℕ) → covered m x + within order x addr ≤ 1)
    → (m' : Manager) × (add_free m addr order ≡ some (block order addr, m')) × Added m order addr m'
unfolding add_free
add_free-Added m addr order v le b room =
    let (m', run, added) = emplace-Added m order addr v le b room in
    (m', rw (fits, aligned, in_vector, run), added)
  where
    fits : leb order m.max_ord ≡ true
    fits = ground arith

    aligned : is_aligned addr order ≡ true
    aligned = (is_aligned_iff addr order (omega (arith, v.small))).1 b.0

    in_vector : ltb order (length m.free_blocks) ≡ true
    in_vector = ground (arith, v.sized)

-- On a valid manager, for an order up to its largest and an aligned block none of which is free,
-- `free` fails no assertion and its loop ends within the fuel; it does what `Freed` says.
pub free_blocks_at-Freed :
    (m : Manager) (addr order : ℕ)
    → IsValid m
    → order ≤ m.max_ord
    → IsBlock order addr
    → ((x : ℕ) → covered m x + within order x addr ≤ 1)
    → (m' : Manager) × (free_blocks_at m addr order ≡ some m') × Freed m order addr m'
unfolding free_blocks_at
free_blocks_at-Freed m addr order v le b room =
    let (m2, run2, added) = add_free-Added m addr order v le b room in
    let (m', run, c) =
      merge_up-Coalesced (suc (m.max_ord - order)) m2 order addr (omega (arith, added.same_max))
        added.valid added.has in
    (
      m',
      rw (run2, run),
      record {
        valid = c.same.valid;
        same_max = omega (arith, added.same_max, c.same.same_max);
        more = λ x. omega (arith, added.more x, c.same.same x);
        top = c.top;
        lo = c.lo;
        holds = c.holds;
        coalesced = c.done;
      },
    )
