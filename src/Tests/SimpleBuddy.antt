-- ===== src/Tests/SimpleBuddy.antt =====
-- Tests and instances for the simple buddy allocator.
use guest_tests.Base.{
  ℕ, ◌≡◌, refl, sym, ap, subst, some_inj, ◌∙◌, arith, Option, none, some, ◌>>=◌, [], ◌∷◌,
}
use guest_tests.Interval.{size, empty}
use guest_tests.OrderedSet.{member, insert, erase, total}
use guest_tests.Buddy.{
  alloc_blocks, get_free, get_free_from, split_down, split_free, remove, emplace, mark_used,
  free_blocks_at, add_free, merge_up, merge_free, merge_with, get_buddy_addr,
}
use guest_tests.Buddy as Buddy
use guest_tests.Math.{is_aligned, mask}
use guest_tests.Buddy.Cover.{cover, within}
use guest_tests.Buddy.Reclaim.{span}
use guest_tests.Tests.Buddy.{pool, without_four, pool-IsPool}
use guest_tests.SimpleBuddy.{
  SimpleBuddy, claim_order, lookup, claim, claim_if, remember, alloc, free, free_order,
}
use guest_tests.SimpleBuddy as Simple
use guest_tests.SimpleBuddy.Held.{held, IsSimple}
use guest_tests.SimpleBuddy.Held as Held
use guest_tests.SimpleBuddy.Client.{Fresh, Outcome, alloc-Outcome, free-Kept}

abbrev nothing_held : SimpleBuddy
nothing_held = record { base = pool; alloc_map = [] }

abbrev four_held : SimpleBuddy
four_held = record { base = without_four; alloc_map = (4, 0) ∷ [] }

nothing_held-IsSimple : IsSimple nothing_held
unfolding held cover total within
nothing_held-IsSimple = record { pool = pool-IsPool; blocks = tt; once = λ x. ground arith }

claim_order_run : (claim_order 3 ≡ 13) × (claim_order 20 ≡ 21) × (claim_order 63 ≡ 63)
unfolding claim_order
claim_order_run = (refl, refl, refl)

alloc_held_run : alloc none 0 nothing_held ≡ some (some 4, four_held)
unfolding alloc claim_if remember lookup Buddy.alloc alloc_blocks get_free get_free_from split_down
    split_free remove emplace mark_used member insert erase
alloc_held_run = refl

-- `free(addr, order)` leaves the address in the map: the next allocation of that block meets the trap.
free_order_run : (free_order 4 0 four_held >>= (λ s. alloc none 0 s)) ≡ none
unfolding free_order alloc claim_if remember lookup Buddy.alloc alloc_blocks get_free get_free_from
    split_down split_free remove emplace mark_used member insert erase Buddy.free free_blocks_at
    add_free merge_up merge_free merge_with get_buddy_addr is_aligned mask
free_order_run = refl

-- No block of order 3 is free: two pages are claimed at 0x10000.
Fresh-pages : (p : ℕ) → some 0x10000 ≡ some p → Fresh 3 nothing_held p
unfolding Fresh claim_order size empty span held cover total within
Fresh-pages p e = subst (λ t. Fresh 3 nothing_held t) (some_inj e) (omega arith, λ x. ground arith)

alloc-Outcome_example :
    (r : Option ℕ) × (s2 : SimpleBuddy) × (alloc (some 0x10000) 3 nothing_held ≡ some (r, s2))
    × Outcome 3 nothing_held (some 0x10000) r s2
alloc-Outcome_example =
    alloc-Outcome 3 nothing_held nothing_held-IsSimple (some 0x10000) Fresh-pages

Outcome-IsSimple :
    {r : Option ℕ} {s2 : SimpleBuddy} → Outcome 0 nothing_held none r s2 → IsSimple s2
Outcome-IsSimple (Outcome.served k) = k.valid
Outcome-IsSimple (Outcome.no_claim no_blocks e) = nothing_held-IsSimple
Outcome-IsSimple (Outcome.with_claim p no_blocks e k none_left) = k.valid

four_held-IsSimple : IsSimple four_held
four_held-IsSimple =
    let (r, s2, run, o) =
      alloc-Outcome 0 nothing_held nothing_held-IsSimple none (λ p e. absurd (ground (arith, e))) in
    subst IsSimple (ap (λ t. t.1) (some_inj (sym run ∙ alloc_held_run))) (Outcome-IsSimple o)

free-Kept_example :
    (s2 : SimpleBuddy) × (free 4 four_held ≡ some s2)
    × IsSimple s2
    × (s2.alloc_map ≡ Simple.erase four_held.alloc_map 4)
    × ((x : ℕ) → Held.total s2 x ≡ Held.total four_held x)
free-Kept_example = free-Kept 0 four_held four_held-IsSimple 4 (unfold lookup in refl)
