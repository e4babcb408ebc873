-- ===== src/Buddy/Reclaim.antt =====
-- `buddy_reclaim_range` of buddy.hpp: an interval is freed piece by piece.
use guest_tests.Base.{
  ℕ, suc, ◌+◌, ◌-◌, ◌^◌, ◌≤◌, ◌<◌, ◌&&◌, List, [], ◌∷◌, ◌≡◌, refl, arith, ap, ◌∙◌, some, ◌>>=◌, leb,
  ltb, if◌then◌else◌, two-pow-pos,
}
use guest_tests.Math.{word, order_max}
use guest_tests.Math.Orders.{order_max-two-pow}
use guest_tests.Interval.{Interval, size, empty}
use guest_tests.OrderRange.{order_t, pieces, of_interval}
use guest_tests.OrderRange.Tiling.{Tiles, pieces-Tiles}
use guest_tests.Buddy.{Buddy, free, free_pieces, reclaim_range}
use guest_tests.Buddy.Cover.{within}
use guest_tests.Buddy.Blocks.{IsBlock, IsValid, covered}
use guest_tests.Buddy.Free.{free_blocks_at-Freed}

-- A buddy allocator whose manager is valid, and that agrees with it on the largest order.
pub record IsPool (b : Buddy) : Type 0 where
  pub valid : IsValid b.blocks
  pub agrees : b.max_order ≡ b.blocks.max_ord

abbrev pub available : Buddy → ℕ → ℕ
available b x = covered b.blocks x

-- 1 if `x` lies in the `n` bytes from `a` on, else 0.
unfoldable pub span : ℕ → ℕ → ℕ → ℕ
span a n x = if leb a x && ltb x (a + n) then 1 else 0

-- `b'` is `b` with `n` more bytes available from `a` on.
pub record Grown (b : Buddy) (a n : ℕ) (b' : Buddy) : Type 0 where
  pub pool : IsPool b'
  pub same_max : b'.max_order ≡ b.max_order
  pub more : (x : ℕ) → available b' x ≡ available b x + span a n x

pub within-eq-span : (o x a : ℕ) → within o x a ≡ span a (2 ^ o) x
unfolding within span
within-eq-span o x a = refl

pub span-split : (a k n x : ℕ) → k ≤ n → span a n x ≡ span a k x + span (a + k) (n - k) x
unfolding span
span-split a k n x h = ground arith

pub span-zero : (a x : ℕ) → span a 0 x ≡ 0
unfolding span
span-zero a x = ground arith

pub free-Grown :
    (b : Buddy) (a o : ℕ)
    → IsPool b
    → o ≤ b.max_order
    → IsBlock o a
    → ((x : ℕ) → available b x + span a (2 ^ o) x ≤ 1)
    → (b' : Buddy) × (free b a o ≡ some b') × Grown b a (2 ^ o) b'
unfolding free
free-Grown b a o p le block room =
    let (m, run, f) =
      free_blocks_at-Freed b.blocks a o p.valid (omega (arith, p.agrees)) block
        (λ x. omega (arith, room x, within-eq-span o x a)) in
    (
      record b { blocks = m },
      rw run,
      record {
        pool = record { valid = f.valid; agrees = omega (arith, p.agrees, f.same_max) };
        same_max = refl;
        more = λ x. omega (arith, f.more x, within-eq-span o x a);
      },
    )

size-cell : (a k : ℕ) → size (record { a = a; b = a + 2 ^ k }) ≡ 2 ^ k
unfolding size empty
size-cell a k = ground (arith, two-pow-pos k)

-- A function that reads the order off the size of a piece.
abbrev pub ReadsOrder : (ℕ → ℕ) → Type 0
ReadsOrder order_of = (k : ℕ) → k < 64 → order_of (2 ^ k) ≡ k

order_of_cell :
    (order_of : ℕ → ℕ)
    → ReadsOrder order_of
    → (a k : ℕ) → k < 64
    → order_t (order_of (size (record { a = a; b = a + 2 ^ k }))) ≡ k
order_of_cell order_of exact a k h = rw (size-cell a k, exact k h) (omega arith)

-- Freeing the pieces of a tiled range makes the range available.
pub free_pieces-Grown :
    (order_of : ℕ → ℕ)
    → ReadsOrder order_of
    → (ps : List (List Interval)) (b : Buddy) (a n mo : ℕ) → IsPool b
    → b.max_order ≡ mo
    → Tiles mo ps (a ∷ []) n
    → a + n ≤ word
    → ((x : ℕ) → available b x + span a n x ≤ 1)
    → (b' : Buddy) × (free_pieces order_of b ps ≡ some b') × Grown b a n b'
unfolding free_pieces
free_pieces-Grown order_of exact [] b a n mo p top tiles fits room = (
  b,
  refl,
  record {
    pool = p;
    same_max = refl;
    more = λ x. omega (arith, span-zero a x, ap (λ t. span a t x) tiles);
  },
)
free_pieces-Grown order_of exact (q ∷ ps) b a n mo p top (k, step, here, tiles) fits room =
    let (b2, run2, g2) =
      free-Grown b a k p (omega (arith, step.within)) (step.aligned.0, omega (arith, step.fits))
        (λ x. omega (arith, room x, span-split a (2 ^ k) n x step.fits)) in
    let (b3, run3, g3) =
      free_pieces-Grown order_of exact ps b2 (a + 2 ^ k) (n - 2 ^ k) mo g2.pool (g2.same_max ∙ top)
        tiles (omega (arith, step.fits))
        (λ x. omega (arith, g2.more x, room x, span-split a (2 ^ k) n x step.fits)) in
    let exact_order =
      order_of_cell order_of exact a k (omega (arith, step.within, p.agrees, p.valid.small)) in
    (
      b3,
      rw (here, free_pieces) (rw (exact_order, run2, run3)),
      record {
        pool = g3.pool;
        same_max = g3.same_max ∙ g2.same_max;
        more = λ x. omega (arith, g2.more x, g3.more x, span-split a (2 ^ k) n x step.fits);
      },
    )

-- The loop over an order_range, with either way to read off the order.
pub free_range-Grown :
    (order_of : ℕ → ℕ)
    → ReadsOrder order_of
    → (i : Interval) (b : Buddy) → IsPool b
    → i.a + size i < word
    → ((x : ℕ) → available b x + span i.a (size i) x ≤ 1)
    → (b' : Buddy) × ((pieces (suc (size i)) (of_interval i b.max_order) >>= free_pieces order_of b)
        ≡ some b')
      × Grown b i.a (size i) b'
unfolding of_interval
free_range-Grown order_of exact i b p fits room =
    let (ps, run, tiles) =
      pieces-Tiles (suc (size i)) (of_interval i b.max_order) (omega arith) (omega arith)
        (fits, tt) in
    let (b', freed, grown) =
      free_pieces-Grown order_of exact ps b i.a (size i) b.max_order p refl tiles (omega arith)
        room in
    (b', rw run freed, grown)

-- On a valid pool, reclaiming an interval that ends below 2^64 and none of which is available
-- fails no assertion, ends, and makes exactly the interval available in a valid pool.
pub reclaim_range-Grown :
    (i : Interval) (b : Buddy)
    → IsPool b
    → i.a + size i < word
    → ((x : ℕ) → available b x + span i.a (size i) x ≤ 1)
    → (b' : Buddy) × (reclaim_range i b ≡ some b') × Grown b i.a (size i) b'
unfolding reclaim_range
reclaim_range-Grown i b p fits room = free_range-Grown order_max order_max-two-pow i b p fits room
