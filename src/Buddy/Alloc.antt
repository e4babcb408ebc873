-- ===== src/Buddy/Alloc.antt =====
-- `alloc` of buddy.hpp.
use guest_tests.Base.{
  ℕ, zero, suc, ◌+◌, ◌-◌, ◌≤◌, ◌<◌, true, ◌⊎◌, inl, inr, List, [], ◌∷◌, ◌≡◌, refl, arith, ◌∙◌, some,
  none, Option, ==_self, subst,
}
use native.Mathlib.Nat.{add-zero}
use native.Mathlib.Decide.{ℕ_discrete}
use guest_tests.OrderedSet.{member}
use guest_tests.Buddy.{
  Manager, BlockId, blocks_of, get_free_from, get_free, mark_used, alloc_blocks,
}
use guest_tests.Buddy.Cover.{within}
use guest_tests.Buddy.Blocks.{IsBlock, IsValid, Has, covered, remove-Removed, Has-IsBlock}
use guest_tests.Buddy.Split.{block, split_down_lem}

List-cases : (l : List ℕ) → (l ≡ []) ⊎ ((a : ℕ) × (rest : List ℕ) × (l ≡ a ∷ rest))
List-cases [] = inl refl
List-cases (a ∷ rest) = inr (a, rest, refl)

-- No free block has an order from `o` up to, and without, `top`.
abbrev pub EmptyFrom : Manager → ℕ → ℕ → Type 0
EmptyFrom m o top = (j : ℕ) → o ≤ j → j < top → blocks_of m j ≡ []

-- What the search from `o` on found: nothing, or a block of the least order that has one, the
-- lowest of them.
abbrev Searched : Manager → ℕ → ℕ → Option BlockId → Type 0
Searched m o top r =
    (EmptyFrom m o top × (r ≡ none))
    ⊎ ((k a : ℕ) × (rest : List ℕ) × (o + k < top)
        × (blocks_of m (o + k) ≡ a ∷ rest)
        × EmptyFrom m o (o + k)
        × (r ≡ some (block (o + k) a)))

EmptyFrom-step :
    (m : Manager) (o top : ℕ) → blocks_of m o ≡ [] → EmptyFrom m (o + 1) top → EmptyFrom m o top
EmptyFrom-step m o top e h j le lt = elim (ℕ_discrete o j) [
  | yes same ↦ subst (λ t. blocks_of m t ≡ []) same e
  | no ne ↦ h j (omega arith) lt
]

Searched-step :
    (m : Manager) (o top : ℕ) (r : Option BlockId)
    → blocks_of m o ≡ []
    → Searched m (o + 1) top r
    → Searched m o top r
Searched-step m o top r e (inl (none_left, q)) = inl (EmptyFrom-step m o top e none_left, q)
Searched-step m o top r e (inr (k, a, rest, lt, here, below, q)) = inr (
  suc k,
  a,
  rest,
  rw shift lt,
  rw shift here,
  rw shift (EmptyFrom-step m o (o + 1 + k) e below),
  rw shift q,
)
  where
    shift : o + suc k ≡ o + 1 + k
    shift = omega arith

get_free_from-Searched :
    (m : Manager) (left o top : ℕ) → o + left ≡ top → Searched m o top (get_free_from left o m)
unfolding get_free_from
get_free_from-Searched m zero o top e = inl (λ j le lt. absurd (omega arith), refl)
get_free_from-Searched m (suc left) o top e = elim (List-cases (blocks_of m o)) [
  | inl bare ↦
      rw (bare, get_free_from)
        (Searched-step m o top (get_free_from left (o + 1) m) bare
          (get_free_from-Searched m left (o + 1) top (omega arith)))
  | inr (a, rest, here) ↦
      rw (here, get_free_from)
        (inr (
          0,
          a,
          rest,
          omega arith,
          rw (add-zero o) here,
          λ j le lt. absurd (omega arith),
          rw (add-zero o),
        ))
]

-- What an allocation returns and leaves behind: nothing, since no sufficient block is free and
-- the manager is as it was; or a block of the requested order that was free and is no longer.
pub data Allocated (m : Manager) (order : ℕ) : Option ℕ → Manager → Type 0 where
  out_of_memory : EmptyFrom m order (m.max_ord + 1) → Allocated m order none m
  allocated :
      {a : ℕ} {m' : Manager}
      → order ≤ m.max_ord
      → IsBlock order a
      → IsValid m'
      → m'.max_ord ≡ m.max_ord
      → ((x : ℕ) → covered m' x + within order x a ≡ covered m x)
      → Allocated m order (some a) m'

member_head : (a : ℕ) (rest : List ℕ) → member a (a ∷ rest) ≡ true
unfolding member
member_head a rest = rw (==_self a)

abbrev Served : Manager → ℕ → Option BlockId → Type 0
Served m order found =
    (r : Option ℕ) × (m' : Manager) × (get_free m order ≡ found
      → alloc_blocks m order ≡ some (r, m'))
    × Allocated m order r m'

alloc_found :
    (m : Manager) (order k a : ℕ) (rest : List ℕ)
    → IsValid m
    → order + k ≤ m.max_ord
    → blocks_of m (order + k) ≡ a ∷ rest
    → Served m order (some (block (order + k) a))
unfolding alloc_blocks mark_used
alloc_found m order k a rest v le here =
    let h : Has m (block (order + k) a) = record {
      in_range = le;
      is_free = rw here (member_head a rest);
    } in
    let (m2, run, same, h2) = split_down_lem k order a m v h in
    let gone = remove-Removed m2 (block order a) same.valid h2 in
    let left : order + k - order ≡ k = omega arith in
    (
      some a,
      mark_used m2 (block order a),
      λ e. rw (e, alloc_blocks) (rw (left, run, ==_self order)),
      allocated (omega arith) (Has-IsBlock m2 (block order a) same.valid h2) gone.valid
          (gone.same_max ∙ same.same_max) (λ x. gone.less x ∙ same.same x),
    )

alloc_missed : (m : Manager) (order : ℕ) → EmptyFrom m order (m.max_ord + 1) → Served m order none
unfolding alloc_blocks
alloc_missed m order e = (none, m, λ q. rw (q, alloc_blocks), out_of_memory e)

-- `alloc` fails no assertion on a valid manager, and does what `Allocated` says.
pub alloc_blocks-Allocated :
    (m : Manager) (order : ℕ)
    → IsValid m
    → (r : Option ℕ) × (m' : Manager) × (alloc_blocks m order ≡ some (r, m'))
      × Allocated m order r m'
unfolding get_free
alloc_blocks-Allocated m order v =
    elim (get_free_from-Searched m (m.max_ord + 1 - order) order (order + (m.max_ord + 1 - order))
      refl) [
        | inl (bare, e) ↦
            let (r, m', run, did) = alloc_missed m order (λ j le lt. bare j le (omega arith)) in
            (r, m', run e, did)
        | inr (k, a, rest, lt, here, below, e) ↦
            let (r, m', run, did) = alloc_found m order k a rest v (omega arith) here in
            (r, m', run e, did)
      ]
