-- ===== src/Tests/Buddy.antt =====
-- Tests and instances for the buddy allocators.
use guest_tests.Base.{
  ℕ, zero, suc, ◌+◌, ◌-◌, ◌≤◌, ◌≡◌, refl, arith, [], ◌∷◌, Option, some, none, All,
}
use guest_tests.Math.{
  word, order_min, order_max, order_min_from, order_max_from, order_envelope, is_aligned, mask,
}
use guest_tests.OrderedSet.{member, insert, erase, total}
use guest_tests.Interval.{Interval, size, empty}
use guest_tests.OrderRange.{
  pieces, visit, begin, end, iterator, next_step, order_step, mix, same, same_bases, increment,
  update_step, deref, of_interval,
}
use guest_tests.Buddy.{
  Manager, Buddy, get_free, get_free_from, emplace, remove, split_free, get_buddy_addr, merge_with,
  merge_free, mark_used, add_free, split_down, alloc_blocks, merge_up, free_blocks_at, alloc, free,
  free_pieces, reclaim_range, blocks_of,
}
use guest_tests.Buddy.Cover.{within, cover}
use guest_tests.Buddy.Blocks.{IsBlock, IsValid, covered}
use guest_tests.Buddy.Free.{Freed, free_blocks_at-Freed}
use guest_tests.Buddy.Reclaim.{IsPool, Grown, available, span, reclaim_range-Grown}
use guest_tests.Buddy.Client.{Granted, alloc-Granted, free-alloc}
use guest_tests.SplittingBuddy
use guest_tests.SplittingBuddy.{trim, use_block}
use guest_tests.SplittingBuddy.Laws.{Cut, alloc-Cut}

-- Two free blocks of order 2, at 4 and at 8, under a largest order of 3.
abbrev pub two_blocks : Manager
two_blocks = record { free_blocks = [] ∷ [] ∷ (4 ∷ 8 ∷ []) ∷ [] ∷ []; max_ord = 3 }

abbrev pub pool : Buddy
pool = record { max_order = 3; blocks = two_blocks }

-- What is left of it without the first byte of the block at 4.
abbrev pub without_four : Buddy
without_four = record {
  max_order = 3;
  blocks = record { free_blocks = (5 ∷ []) ∷ (6 ∷ []) ∷ (8 ∷ []) ∷ [] ∷ []; max_ord = 3 };
}

alloc_run : alloc pool 0 ≡ some (some 4, without_four)
unfolding alloc alloc_blocks get_free get_free_from split_down split_free remove emplace mark_used
    member insert erase
alloc_run = refl

alloc_too_large : alloc pool 3 ≡ some (none, pool)
unfolding alloc alloc_blocks get_free get_free_from
alloc_too_large = refl

free_run : free without_four 4 0 ≡ some pool
unfolding free free_blocks_at add_free merge_up merge_free merge_with get_buddy_addr remove emplace
    is_aligned mask member insert erase
free_run = refl

free_twice : free pool 4 2 ≡ none
unfolding free free_blocks_at add_free emplace is_aligned mask member
free_twice = refl

blocks-two_blocks : (o : ℕ) → All (IsBlock o) (blocks_of two_blocks o)
blocks-two_blocks zero = tt
blocks-two_blocks (suc zero) = tt
blocks-two_blocks (suc (suc zero)) = omega arith
blocks-two_blocks (suc (suc (suc zero))) = tt
blocks-two_blocks (suc (suc (suc (suc o)))) = tt

two_blocks-IsValid : IsValid two_blocks
unfolding cover total within
two_blocks-IsValid = record {
  sized = refl;
  small = omega arith;
  blocks = blocks-two_blocks;
  disjoint = λ x. ground arith;
}

pub pool-IsPool : IsPool pool
pool-IsPool = record { valid = two_blocks-IsValid; agrees = refl }

room_at_zero : (x : ℕ) → covered two_blocks x + within 2 x 0 ≤ 1
unfolding cover total within
room_at_zero x = ground arith

free_blocks_at-Freed_example :
    (m' : Manager) × (free_blocks_at two_blocks 0 2 ≡ some m') × Freed two_blocks 2 0 m'
free_blocks_at-Freed_example =
    free_blocks_at-Freed two_blocks 0 2 two_blocks-IsValid (omega arith) (omega arith) room_at_zero

alloc-Granted_example :
    (r : Option ℕ) × (b' : Buddy) × (alloc pool 0 ≡ some (r, b')) × Granted pool 0 r b'
alloc-Granted_example = alloc-Granted pool 0 pool-IsPool

free-alloc_example :
    (b'' : Buddy) × (free without_four 4 0 ≡ some b'')
    × IsPool b''
    × ((x : ℕ) → available b'' x ≡ available pool x)
free-alloc_example = free-alloc pool 0 4 pool-IsPool alloc_run

abbrev tail_range : Interval
tail_range = record { a = 13; b = 20 }

room_at_tail : (x : ℕ) → available pool x + span 13 (size tail_range) x ≤ 1
unfolding cover total within span size empty
room_at_tail x = ground arith

reclaim_range-Grown_example :
    (b' : Buddy) × (reclaim_range tail_range pool ≡ some b') × Grown pool 13 (size tail_range) b'
reclaim_range-Grown_example =
    reclaim_range-Grown tail_range pool pool-IsPool (unfold size empty in omega arith) room_at_tail

last_byte_free : available pool (word - 1) ≡ 0
unfolding cover total within
last_byte_free = refl

alloc-Cut_example :
    (r : Option Interval) × (b' : Buddy) × (SplittingBuddy.alloc pool 3 ≡ some (r, b'))
    × Cut pool 3 r b'
alloc-Cut_example = alloc-Cut pool 3 pool-IsPool last_byte_free (omega arith) (omega arith)

cut_run :
    SplittingBuddy.alloc pool 3
    ≡ some (
      some (record { a = 4; b = 7 }),
      record {
        max_order = 3;
        blocks = record { free_blocks = (7 ∷ []) ∷ [] ∷ (8 ∷ []) ∷ [] ∷ []; max_ord = 3 };
      },
    )
unfolding SplittingBuddy.alloc use_block trim SplittingBuddy.free order_envelope order_max order_min
    order_max_from order_min_from pieces visit begin end iterator next_step order_step mix same
    same_bases increment update_step deref of_interval free_pieces free free_blocks_at add_free
    merge_up merge_free merge_with get_buddy_addr remove emplace is_aligned mask member insert erase
    size empty alloc alloc_blocks get_free get_free_from split_down split_free mark_used
cut_run = refl
