-- ===== src/SplittingBuddy/Laws.antt =====
-- What the allocator of splitting_buddy.hpp promises.
use guest_tests.Base.{
  ℕ, ◌+◌, ◌-◌, ◌%◌, ◌^◌, ◌≤◌, ◌<◌, Option, none, some, ◌≡◌, ◌≢◌, arith, refl, ap, ◌∙◌, two-pow-pos,
}
use native.Mathlib.Decide.{ℕ_discrete}
use guest_tests.Interval.{Interval, size, empty, from_size, from_order}
use guest_tests.Math.{word, order_envelope}
use guest_tests.Math.Orders.{order_envelope-IsEnvelope, order_envelope-two-pow}
use guest_tests.OrderRange.{order_t}
use guest_tests.Buddy.{Buddy}
use guest_tests.Buddy.Blocks.{IsBlock}
use guest_tests.Buddy.Alloc.{EmptyFrom}
use guest_tests.Buddy.Reclaim.{IsPool, Grown, available, span, span-split, free_range-Grown}
use guest_tests.Buddy.Client.{Taken, Granted, refused, granted, alloc-Granted}
use guest_tests.SplittingBuddy.{free, trim, use_block, alloc}

-- Freeing an interval none of which is available fails no assertion and makes it available.
pub free-Grown :
    (b : Buddy) (i : Interval)
    → IsPool b
    → i.a + size i < word
    → ((x : ℕ) → available b x + span i.a (size i) x ≤ 1)
    → (b' : Buddy) × (free b i ≡ some b') × Grown b i.a (size i) b'
unfolding free
free-Grown b i p fits room = free_range-Grown order_envelope order_envelope-two-pow i b p fits room

-- The answers of `alloc`: it refuses if no block of the order that holds `n` bytes is free, or
-- returns an aligned interval of exactly `n` bytes.
pub data Cut (b : Buddy) (n : ℕ) : Option Interval → Buddy → Type 0 where
  no_block : EmptyFrom b.blocks (order_envelope n) (b.max_order + 1) → Cut b n none b
  cut :
      {i : Interval} {b' : Buddy}
      → i.b ≡ i.a + n
      → i.a % 2 ^ order_envelope n ≡ 0
      → Taken b i.a n b'
      → Cut b n (some i) b'

module _ (a o n : ℕ) (le : n ≤ 2 ^ o) (top : a + 2 ^ o < word) where
  abbrev overhead : Interval
  overhead = record { a = a + n; b = a + 2 ^ o }

  size-from_order : size (from_order a o) ≡ 2 ^ o
  unfolding size empty
  size-from_order = ground (arith, two-pow-pos o)

  size-overhead : size overhead ≡ 2 ^ o - n
  unfolding size empty
  size-overhead = ground arith

  overhead_lem : from_size ((a + n) % word) ((size (from_order a o) + word - n) % word) ≡ overhead
  overhead_lem = rw size-from_order (ground arith)

trim-Taken :
    (b : Buddy) (a o n : ℕ) {b2 : Buddy}
    → IsPool b
    → Taken b a (2 ^ o) b2
    → n ≤ 2 ^ o
    → a + 2 ^ o < word
    → (b' : Buddy) × (trim b2 a o n ≡ some (some (record { a = a; b = a + n }), b'))
      × Taken b a n b'
unfolding trim
trim-Taken b a o n {b2} p t le top =
    let rest : ℕ = size (overhead a o n le top) in
    let exact : size (overhead a o n le top) ≡ 2 ^ o - n = size-overhead a o n le top in
    let (b', run, g) = free-Grown b2 (overhead a o n le top) t.pool (omega (arith, exact)) (λ x.
      omega (
        arith,
        t.less x,
        p.valid.disjoint x,
        span-split a n (2 ^ o) x le,
        ap (λ k. span (a + n) k x) exact,
      )) in
    let wrap : (a + n) % word ≡ a + n = omega arith in
    (
      b',
      rw (overhead_lem a o n le top, run, wrap),
      record {
        pool = g.pool;
        same_max = g.same_max ∙ t.same_max;
        less = λ x. omega (
          arith,
          t.less x,
          g.more x,
          span-split a n (2 ^ o) x le,
          ap (λ k. span (a + n) k x) exact,
        );
      },
    )

span_last : (a n x : ℕ) → 0 < n → a + n ≡ x + 1 → span a n x ≡ 1
unfolding span
span_last a n x h e = ground arith

-- An available block does not reach the end of the address space if its last byte is not in the
-- pool.
below_top :
    (b : Buddy) (a o : ℕ) {b2 : Buddy}
    → available b (word - 1) ≡ 0
    → IsBlock o a
    → Taken b a (2 ^ o) b2
    → a + 2 ^ o < word
below_top b a o free_end block t = elim (ℕ_discrete (a + 2 ^ o) word) [
  | yes e ↦ absurd (
      omega
        (arith, t.less (word - 1), span_last a (2 ^ o) (word - 1) (two-pow-pos o) (omega arith)))
  | no ne ↦ omega arith
]

use_block-Cut :
    (b : Buddy) (n : ℕ)
    → IsPool b
    → available b (word - 1) ≡ 0
    → n ≤ 2 ^ order_envelope n
    → (r : Option ℕ) (b2 : Buddy) → Granted b (order_envelope n) r b2
    → (i : Option Interval) × (b' : Buddy) × (use_block n r b2 ≡ some (i, b')) × Cut b n i b'
unfolding use_block
use_block-Cut b n p free_end le none b2 (refused e) = (none, b2, refl, no_block e)
use_block-Cut b n p free_end le (some a) b2 (granted in_range block t) =
    let (b', run, taken) =
      trim-Taken b a (order_envelope n) n p t le
        (below_top b a (order_envelope n) free_end block t) in
    (some (record { a = a; b = a + n }), b', run, cut refl block.0 taken)

-- For a size other than 0 below 2^64, `alloc` of a valid pool in which the last byte of the address
-- space is not available fails no assertion. It refuses, or returns an aligned interval of exactly the requested size, which was available and is
-- no longer; the rest of the block that it was cut from stays available.
pub alloc-Cut :
    (b : Buddy) (n : ℕ)
    → IsPool b
    → available b (word - 1) ≡ 0
    → n ≢ 0
    → n < word
    → (r : Option Interval) × (b' : Buddy) × (alloc b n ≡ some (r, b')) × Cut b n r b'
unfolding alloc
alloc-Cut b n p free_end ne lt =
    let hull = order_envelope-IsEnvelope n ne lt in
    let byte : order_t (order_envelope n) ≡ order_envelope n =
      omega (arith, hull.least 64 (omega arith)) in
    let (r, b2, run, did) = alloc-Granted b (order_envelope n) p in
    let (i, b', last, c) = use_block-Cut b n p free_end hull.covers r b2 did in
    (i, b', rw (byte, run) last, c)
