-- ===== src/Buddy/Client.antt =====
-- The buddy allocator of buddy.hpp as a client sees it: which addresses are available.
use guest_tests.Base.{
  ℕ, zero, suc, ◌+◌, ◌%◌, ◌^◌, ◌≤◌, true, List, [], ◌≡◌, refl, arith, ◌∙◌, sym, subst, some, none,
  Option, leb, get_or, replicate, length-replicate, some_inj,
}
use guest_tests.Buddy.{Buddy, Manager, buddy, manager, alloc, free}
use guest_tests.Buddy.Cover.{cover-replicate}
use guest_tests.Buddy.Blocks.{IsBlock, IsValid}
use guest_tests.Buddy.Alloc.{EmptyFrom, Allocated, out_of_memory, allocated, alloc_blocks-Allocated}
use guest_tests.Buddy.Reclaim.{IsPool, available, span, free-Grown, within-eq-span}

-- `b'` is `b` without the `n` bytes from `a` on, which were available.
pub record Taken (b : Buddy) (a n : ℕ) (b' : Buddy) : Type 0 where
  pub pool : IsPool b'
  pub same_max : b'.max_order ≡ b.max_order
  pub less : (x : ℕ) → available b' x + span a n x ≡ available b x

-- The answers of `alloc`.
pub data Granted (b : Buddy) (order : ℕ) : Option ℕ → Buddy → Type 0 where
  refused : EmptyFrom b.blocks order (b.max_order + 1) → Granted b order none b
  granted :
      {a : ℕ} {b' : Buddy}
      → order ≤ b.max_order
      → IsBlock order a
      → Taken b a (2 ^ order) b'
      → Granted b order (some a) b'

Allocated-Granted :
    (b : Buddy) (order : ℕ)
    → IsPool b
    → (r : Option ℕ) (m : Manager) → Allocated b.blocks order r m
    → Granted b order r (record b { blocks = m })
Allocated-Granted b order p none m (out_of_memory e) =
    refused (λ j le lt. e j le (omega (arith, p.agrees)))
Allocated-Granted b order p (some a) m (allocated le block v same less) =
    granted (omega (arith, p.agrees)) block (record {
      pool = record { valid = v; agrees = omega (arith, p.agrees, same) };
      same_max = refl;
      less = λ x. omega (arith, less x, within-eq-span order x a);
    })

-- On a valid pool `alloc` fails no assertion. It refuses only if no block of the order or above is
-- free; otherwise it returns an aligned block of the order, all of which was available and is no longer,
-- and no other address changes.
pub alloc-Granted :
    (b : Buddy) (order : ℕ)
    → IsPool b
    → (r : Option ℕ) × (b' : Buddy) × (alloc b order ≡ some (r, b')) × Granted b order r b'
unfolding alloc
alloc-Granted b order p =
    let (r, m, run, did) = alloc_blocks-Allocated b.blocks order p.valid in
    (r, record b { blocks = m }, rw run, Allocated-Granted b order p r m did)

Granted-inv :
    {b : Buddy} {order a : ℕ} {b' : Buddy}
    → Granted b order (some a) b'
    → (order ≤ b.max_order) × IsBlock order a × Taken b a (2 ^ order) b'
Granted-inv (granted le block t) = (le, block, t)

-- What a successful `alloc` did.
pub alloc-Taken :
    (b : Buddy) (order a : ℕ) {b' : Buddy}
    → IsPool b
    → alloc b order ≡ some (some a, b')
    → (order ≤ b.max_order) × IsBlock order a × Taken b a (2 ^ order) b'
alloc-Taken b order a p e =
    let (r, b2, run, did) = alloc-Granted b order p in
    Granted-inv (subst (λ t. Granted b order t.0 t.1) (some_inj (sym run ∙ e)) did)

-- On a valid pool, freeing at the same order the block that `alloc` returned fails no assertion,
-- leaves a valid pool, and makes available again exactly what was available before.
pub free-alloc :
    (b : Buddy) (order a : ℕ) {b' : Buddy}
    → IsPool b
    → alloc b order ≡ some (some a, b')
    → (b'' : Buddy) × (free b' a order ≡ some b'')
      × IsPool b''
      × ((x : ℕ) → available b'' x ≡ available b x)
free-alloc b order a {b'} p e =
    let (le, block, t) = alloc-Taken b order a p e in
    let (b'', run, g) =
      free-Grown b' a order t.pool (omega (arith, t.same_max)) block
        (λ x. omega (arith, t.less x, p.valid.disjoint x)) in
    (b'', run, g.pool, λ x. omega (arith, g.more x, t.less x))

get_or-replicate : (n o : ℕ) → get_or (replicate {A = List ℕ} n []) o [] ≡ []
get_or-replicate zero o = refl
get_or-replicate (suc n) zero = refl
get_or-replicate (suc n) (suc o) = get_or-replicate n o

-- The constructor accepts a largest order up to 63, taken as 8 bits; nothing is available yet.
pub buddy-IsPool :
    (max_ord : ℕ)
    → max_ord ≤ 63
    → (b : Buddy) × (buddy max_ord ≡ some b)
      × IsPool b
      × (b.max_order ≡ max_ord)
      × ((x : ℕ) → available b x ≡ 0)
unfolding buddy manager
buddy-IsPool max_ord le = (
  pool,
  rw (byte, fits),
  record { valid = valid; agrees = refl },
  refl,
  λ x. cover-replicate 0 x (max_ord + 1),
)
  where
    byte : max_ord % 2 ^ 8 ≡ max_ord
    byte = omega arith

    fits : leb max_ord 63 ≡ true
    fits = ground arith

    empty_manager : Manager
    empty_manager = record { free_blocks = replicate (max_ord + 1) []; max_ord = max_ord }

    pool : Buddy
    pool = record { max_order = max_ord; blocks = empty_manager }

    valid : IsValid empty_manager
    valid = record {
      sized = length-replicate (max_ord + 1) [];
      small = le;
      blocks = λ o. rw (get_or-replicate (max_ord + 1) o) tt;
      disjoint = λ x. omega (arith, cover-replicate 0 x (max_ord + 1));
    }
