-- ===== src/SimpleBuddy/Client.antt =====
-- What `alloc` and `free` of simple_buddy.hpp do to the memory as a whole.
use guest_tests.Base.{
  ℕ, ◌+◌, ◌≤◌, ◌<◌, ◌≡◌, refl, ap, subst, some_inj, arith, Option, none, some, ◌>>=◌, List,
}
use guest_tests.Math.{word}
use guest_tests.Interval.{Interval, size, from_order}
use guest_tests.Buddy.{Buddy}
use guest_tests.Buddy.Alloc.{EmptyFrom}
use guest_tests.Buddy.Blocks.{IsBlock}
use guest_tests.Buddy.Reclaim.{span, free-Grown, reclaim_range-Grown}
use guest_tests.Buddy.Client.{Granted, alloc-Granted}
use guest_tests.SimpleBuddy.{
  SimpleBuddy, claim_order, lookup, erase, claim, claim_if, remember, alloc, free,
}
use guest_tests.SimpleBuddy.Held.{
  total, IsSimple, Kept, remember-Kept, held-erase, All-erase, All-lookup,
}

-- What is claimed when the function answers `p`.
abbrev pub claimed : ℕ → ℕ → Interval
claimed order p = from_order p (claim_order order)

-- The claimed memory ends below 2^64, and none of it is available or allocated.
unfoldable pub Fresh : ℕ → SimpleBuddy → ℕ → Type 0
Fresh order s p =
    ((claimed order p).a + size (claimed order p) < word)
    × ((x : ℕ) → total s x + span (claimed order p).a (size (claimed order p)) x ≤ 1)

-- No block of the order or above is free.
abbrev pub Exhausted : ℕ → Buddy → Type 0
Exhausted order b = EmptyFrom b.blocks order (b.max_order + 1)

-- The outcomes of `alloc`: the pool serves the block; or it is exhausted and either the function answers
-- null, and nothing changes, or its memory is taken in, and a refusal then means that the pool is
-- exhausted with that memory too.
pub data Outcome (order : ℕ) (s : SimpleBuddy) (new_space : Option ℕ)
    : Option ℕ → SimpleBuddy → Type 0 where
  served :
      {a : ℕ} {s2 : SimpleBuddy}
      → Kept order s (λ x. 0) (some a) s2
      → Outcome order s new_space (some a) s2
  no_claim : Exhausted order s.base → new_space ≡ none → Outcome order s new_space none s
  with_claim :
      {r : Option ℕ} {s2 : SimpleBuddy} (p : ℕ)
      → Exhausted order s.base
      → new_space ≡ some p
      → Kept order s (span (claimed order p).a (size (claimed order p))) r s2
      → (r ≡ none → Exhausted order s2.base)
      → Outcome order s new_space r s2

-- What a refusal of the pool says of the allocator behind it.
refusal :
    {b b2 : Buddy} {order : ℕ} {r : Option ℕ} {s2 : SimpleBuddy}
    → (m : List (ℕ × ℕ)) → Granted b order r b2
    → remember order r b2 m ≡ some (r, s2)
    → r ≡ none
    → Exhausted order s2.base
unfolding remember
refusal {b} {b2} {order} m (Granted.refused no_blocks) run e =
    subst (λ (t : SimpleBuddy). Exhausted order t.base) (ap (λ t. t.1) (some_inj run)) no_blocks
refusal m (Granted.granted le block t) run e = cc

module _ (order : ℕ) (s : SimpleBuddy) (w : IsSimple s) where
  -- With memory claimed, in an allocator that holds no block of the order.
  claims :
      (p : ℕ)
      → Fresh order s p
      → (r : Option ℕ) × (s2 : SimpleBuddy) × ((claim (some p) order s.base
            >>= (λ r2. remember order r2.0 r2.1 s.alloc_map))
          ≡ some (r, s2))
        × Kept order s (span (claimed order p).a (size (claimed order p))) r s2
        × (r ≡ none → Exhausted order s2.base)
  unfolding claim Fresh
  claims p (fits, room) =
      let (b, run, g) =
        reclaim_range-Grown (claimed order p) s.base w.pool fits (λ x. omega (arith, room x)) in
      let s1 : SimpleBuddy = record { base = b; alloc_map = s.alloc_map } in
      let w1 : IsSimple s1 = record {
        pool = g.pool;
        blocks = rw g.same_max w.blocks;
        once = λ x. omega (arith, room x, g.more x);
      } in
      let (r, b2, run2, did) = alloc-Granted b order g.pool in
      let (s2, run3, k) = remember-Kept order r s1 b2 w1 did in
      (
        r,
        s2,
        rw (run, run2) run3,
        record {
          valid = k.valid;
          conserved = λ x. omega (arith, k.conserved x, g.more x);
          mapped = k.mapped;
        },
        refusal s.alloc_map did run3,
      )

  -- What follows the first answer of the pool.
  follows :
      (new_space : Option ℕ) (r : Option ℕ) (b : Buddy)
      → ((p : ℕ) → new_space ≡ some p → Fresh order s p)
      → Granted s.base order r b
      → (r2 : Option ℕ) × (s2 : SimpleBuddy) × ((claim_if new_space order r b
            >>= (λ q. remember order q.0 q.1 s.alloc_map))
          ≡ some (r2, s2))
        × Outcome order s new_space r2 s2
  unfolding claim_if claim remember
  follows new_space (some a) b fresh did =
      let (s2, run, k) = remember-Kept order (some a) s b w did in (some a, s2, run, served k)
  follows none none b fresh (Granted.refused no_blocks) = (none, s, refl, no_claim no_blocks refl)
  follows (some p) none b fresh (Granted.refused no_blocks) =
      let (r, s2, run, k, none_left) = claims p (fresh p refl) in
      (r, s2, run, with_claim p no_blocks refl k none_left)

  -- For an allocator in a valid state, and memory that is fresh if the function claims some: alloc fails no
  -- assertion and never meets its trap. Either it answers a block of the order that it had and puts it
  -- into the map; or no block of the order or above was free. Then, if the function answers null, alloc
  -- answers nothing and changes nothing; else the claimed memory is added, and alloc answers a block of
  -- the order and puts it into the map, or answers nothing where no such block is free even then. The
  -- state stays valid, and no other memory comes or goes.
  pub alloc-Outcome :
      (new_space : Option ℕ)
      → ((p : ℕ) → new_space ≡ some p → Fresh order s p)
      → (r : Option ℕ) × (s2 : SimpleBuddy) × (alloc new_space order s ≡ some (r, s2))
        × Outcome order s new_space r s2
  unfolding alloc
  alloc-Outcome new_space fresh =
      let (r, b, run, did) = alloc-Granted s.base order w.pool in
      let (r2, s2, run2, o) = follows new_space r b fresh did in (r2, s2, rw run run2, o)

  -- For an allocator in a valid state and an address that its map has: free gives the block back at the order
  -- that the map has, fails no assertion, takes the address out of the map, and leaves a valid state with
  -- the same memory.
  pub free-Kept :
      (a : ℕ)
      → lookup s.alloc_map a ≡ some order
      → (s2 : SimpleBuddy) × (free a s ≡ some s2)
        × IsSimple s2
        × (s2.alloc_map ≡ erase s.alloc_map a)
        × ((x : ℕ) → total s2 x ≡ total s x)
  unfolding free
  free-Kept a e =
      let (block, le) =
        All-lookup (λ (t : ℕ × ℕ). IsBlock t.1 t.0 × (t.1 ≤ s.base.max_order)) s.alloc_map a order
          w.blocks e in
      let (b, run, g) =
        free-Grown s.base a order w.pool le block
          (λ x. omega (arith, w.once x, held-erase s.alloc_map a order x e)) in
      (
        record { base = b; alloc_map = erase s.alloc_map a },
        rw (e, run) refl,
        record {
          pool = g.pool;
          blocks = rw g.same_max (
              All-erase (λ (t : ℕ × ℕ). IsBlock t.1 t.0 × (t.1 ≤ s.base.max_order)) s.alloc_map a
                w.blocks);
          once = λ x. omega (arith, w.once x, g.more x, held-erase s.alloc_map a order x e);
        },
        refl,
        λ x. omega (arith, g.more x, held-erase s.alloc_map a order x e),
      )
