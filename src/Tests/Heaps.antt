-- ===== src/Tests/Heaps.antt =====
-- Tests and instances for the operators new and delete.
use guest_tests.Base.{
  ℕ, ◌+◌, ◌^◌, ◌≤◌, ◌≡◌, ◌↔◌, ◌⊎◌, refl, sym, subst, ◌∙◌, some_inj, arith, some, ◌>>=◌, [], ◌∷◌,
  replicate,
}
use guest_tests.Math.{
  order_max, order_max_from, order_min, order_min_from, order_envelope, is_aligned, mask,
}
use guest_tests.Interval.{size, empty}
use guest_tests.OrderedSet.{member, insert, erase}
use guest_tests.OrderRange.{
  pieces, visit, begin, end, iterator, next_step, order_step, mix, same, same_bases, increment,
  update_step, deref, of_interval,
}
use guest_tests.Buddy.{
  Buddy, alloc_blocks, get_free, get_free_from, split_down, split_free, remove, emplace, mark_used,
  reclaim_range, free_pieces, free_blocks_at, add_free, merge_up, merge_free, merge_with,
  get_buddy_addr, buddy, manager,
}
use guest_tests.Buddy as Buddy
use guest_tests.Buddy.Cover.{cover-replicate}
use guest_tests.Buddy.Reclaim.{IsPool, span}
use guest_tests.Buddy.Client.{buddy-IsPool}
use guest_tests.SimpleBuddy.{SimpleBuddy, claim, claim_if, claim_order, remember, lookup}
use guest_tests.SimpleBuddy as Simple
use guest_tests.SimpleBuddy.Held.{total, held, IsSimple}
use guest_tests.SimpleBuddy.Client.{Fresh}
use guest_tests.Heaps.{
  FirstFit, Heaps, aligned_order, new_from, claim_space, new_block, new_aligned, delete_aligned,
}
use guest_tests.Heaps.Size.{aligned_order-covers_iff}
use guest_tests.Heaps.Pairing.{delete_aligned-new_aligned}

-- A first fit heap that hands out one piece behind the other, at 8 bytes, and 64 bytes at a time for the
-- nodes of the aligned heap.
abbrev bump : FirstFit
bump = record {
  State = ℕ;
  alignment = 8;
  alloc = λ c size. (some c, c + size);
  free = λ c p. c;
  nodes = λ s s2 c. some (c + 64);
}

-- The aligned heap has no memory yet.
abbrev bare : SimpleBuddy
bare = record {
  base = record { max_order = 13; blocks = record { free_blocks = replicate 14 []; max_ord = 13 } };
  alloc_map = [];
}

-- Two pages were claimed at 0x10000, and their first 16 bytes handed out.
abbrev claimed_two : SimpleBuddy
claimed_two = record {
  base = record {
    max_order = 13;
    blocks = record {
      free_blocks =
          []
          ∷ []
          ∷ []
          ∷ []
          ∷ (0x10010 ∷ [])
          ∷ (0x10020 ∷ [])
          ∷ (0x10040 ∷ [])
          ∷ (0x10080 ∷ [])
          ∷ (0x10100 ∷ [])
          ∷ (0x10200 ∷ [])
          ∷ (0x10400 ∷ [])
          ∷ (0x10800 ∷ [])
          ∷ (0x11000 ∷ [])
          ∷ []
          ∷ [];
      max_ord = 13;
    };
  };
  alloc_map = (0x10000, 4) ∷ [];
}

abbrev before_new : Heaps bump
before_new = record { current = some 0xFFC0; aligned = some bare }

abbrev after_new : Heaps bump
after_new = record { current = some 0x12040; aligned = some claimed_two }

new_aligned_run : new_aligned bump 16 16 before_new ≡ some (some 0x10000, after_new)
unfolding new_aligned new_block claim_space new_from claim_order aligned_order Simple.alloc claim
    claim_if remember lookup Buddy.alloc reclaim_range order_envelope order_max order_min
    order_max_from order_min_from pieces visit begin end iterator next_step order_step mix same
    same_bases increment update_step deref of_interval free_pieces Buddy.free free_blocks_at
    add_free merge_up merge_free merge_with get_buddy_addr remove emplace is_aligned mask member
    insert erase size empty alloc_blocks get_free get_free_from split_down split_free mark_used
new_aligned_run = refl

bare_run : buddy 13 ≡ some bare.base
unfolding buddy manager
bare_run = refl

bare-IsPool : IsPool bare.base
bare-IsPool =
    let (b, run, p, same_max, nothing) = buddy-IsPool 13 (omega arith) in
    subst IsPool (some_inj (sym run ∙ bare_run)) p

total-bare : (x : ℕ) → total bare x ≡ 0
unfolding held
total-bare x = omega (arith, cover-replicate 0 x 14)

bare-IsSimple : IsSimple bare
bare-IsSimple = record { pool = bare-IsPool; blocks = tt; once = λ x. omega (arith, total-bare x) }

bare-Fresh :
    (b : Buddy) (c1 q : ℕ)
    → bump.nodes bare (record bare { base = b }) 0xFFC0 ≡ some c1
    → (bump.alloc c1 (2 ^ claim_order (aligned_order 16 16))).0 ≡ some q
    → Fresh (aligned_order 16 16) bare q
unfolding Fresh claim_order aligned_order order_max order_max_from size empty span held
bare-Fresh b c1 q nodes is_q =
    subst (λ t. Fresh (aligned_order 16 16) bare t) {x = 0x10000} (some_inj nodes ∙ some_inj is_q)
      (omega arith, λ x. ground (arith, total-bare x))

delete_aligned-new_aligned_example :
    (c2 : ℕ) × (s2 : SimpleBuddy) × (s3 : SimpleBuddy) × (after_new
      ≡ record { current = some c2; aligned = some s2 })
    × (delete_aligned bump 0x10000 16 after_new
        ≡ (bump.nodes s2 s3 c2 >>= (λ c3. some (record { current = some c3; aligned = some s3 }))))
    × IsSimple s3
    × (s3.alloc_map ≡ bare.alloc_map)
    × ((x : ℕ) → total s3 x ≡ total s2 x)
delete_aligned-new_aligned_example =
    delete_aligned-new_aligned bump 16 16 0x10000 0xFFC0 bare after_new bare-IsSimple (omega arith)
      bare-Fresh new_aligned_run

-- Three pages at page alignment get a block of two.
three_pages : 2 ^ aligned_order 12288 4096 ≡ 8192
unfolding aligned_order order_max order_max_from
three_pages = refl

aligned_order-covers_iff_example :
    (12288 ≤ 2 ^ aligned_order 12288 (2 ^ 12)) ↔ ((12288 ≤ 2 ^ 12) ⊎ ((k : ℕ) × (12288 ≡ 2 ^ k)))
aligned_order-covers_iff_example =
    aligned_order-covers_iff 12288 12 (omega arith) (omega arith) (omega arith)
