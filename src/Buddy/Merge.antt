-- ===== src/Buddy/Merge.antt =====
-- `merge_free` of buddy.hpp: a block and its buddy.
use guest_tests.Base.{
  ℕ, suc, ◌+◌, ◌*◌, ◌/◌, ◌%◌, ◌^◌, ◌≤◌, ◌<◌, min, bit_xor, true, false, ◌==◌, ◌⊎◌, inl, inr, [],
  ◌≡◌, refl, arith, ap₂, ◌∙◌, some, none, Option, sym, leb, leb→le, get_or-set_self, Bool-cases,
  digit, bit_xor_pow_clear, bit_xor_pow_set, mod-two-pow-digit, mod_unique, two-pow-suc,
  two-pow-pos,
}
use native.Mathlib.Nat.{div-add-mod'}
use native.Mathlib.Numerals.{add-one}
use native.Mathlib.Decide.{ℕ_discrete}
use guest_tests.OrderedSet.{member, erase, member-erase_ne}
use guest_tests.Buddy.{
  Manager, BlockId, blocks_of, emplace, remove, get_buddy_addr, merge_with, merge_free,
}
use guest_tests.Buddy.Cover.{within, within-halves}
use guest_tests.Buddy.Blocks.{
  IsBlock, IsValid, Has, Removed, Added, Regrouped, remove-Removed, emplace-Added, Has-IsBlock,
}
use guest_tests.Buddy.Split.{block}

-- `a` and `b` are the two halves of the block of order `o + 1` at `lo`.
pub record AreHalves (o a b lo : ℕ) : Type 0 where
  pub aligned : lo % 2 ^ suc o ≡ 0
  pub order : ((a ≡ lo) × (b ≡ lo + 2 ^ o)) ⊎ ((b ≡ lo) × (a ≡ lo + 2 ^ o))

-- The buddy's address, and the lower of the two, are those of the halves of a larger block.
pub buddy-AreHalves :
    (o a : ℕ) → a % 2 ^ o ≡ 0 → AreHalves o a (bit_xor a (2 ^ o)) (min a (bit_xor a (2 ^ o)))
buddy-AreHalves o a e = elim (ℕ_discrete (digit a o) 0) [
  | yes clear ↦
      let at_right : bit_xor a (2 ^ o) ≡ a + 2 ^ o = bit_xor_pow_clear o a clear in
      let lower : min a (bit_xor a (2 ^ o)) ≡ a = omega arith in
      record { aligned = rw lower (lower_clear clear); order = rw lower (inl (refl, at_right)) }
  | no ne ↦
      let at_left : bit_xor a (2 ^ o) + 2 ^ o ≡ a = bit_xor_pow_set o a (omega arith) in
      let lower : min a (bit_xor a (2 ^ o)) ≡ bit_xor a (2 ^ o) = omega arith in
      record {
        aligned = rw lower (lower_set (bit_xor a (2 ^ o)) (omega arith) at_left);
        order = rw lower (inr (refl, sym at_left));
      }
]
  where
    lower_clear : digit a o ≡ 0 → a % 2 ^ suc o ≡ 0
    lower_clear clear = omega (arith, mod-two-pow-digit a o ∙ ap₂ (λ s t. s + t * 2 ^ o) e clear)

    lower_set : (b : ℕ) → digit a o ≡ 1 → b + 2 ^ o ≡ a → b % 2 ^ suc o ≡ 0
    lower_set b is_set q =
        mod_unique b (a / 2 ^ suc o) (2 ^ suc o) 0
          (omega (
            arith,
            q,
            div-add-mod' a (2 ^ suc o),
            mod-two-pow-digit a o ∙ ap₂ (λ s t. s + t * 2 ^ o) e is_set,
          ))
          (two-pow-pos (suc o))

within-AreHalves :
    {o a b lo : ℕ}
    → AreHalves o a b lo
    → (x : ℕ) → within (suc o) x lo ≡ within o x a + within o x b
within-AreHalves {o} {lo} h x = ground (arith, h.order, within-halves o x lo)

-- Taking one block out leaves another of its order in.
Has-remove :
    (m : Manager) (o a b : ℕ)
    → IsValid m
    → o ≤ m.max_ord
    → (a == b) ≡ false
    → member b (blocks_of m o) ≡ true
    → Has (remove m (block o a)) (block o b)
unfolding remove
Has-remove m o a b v le ne h = record {
  in_range = le;
  is_free =
      rw (get_or-set_self m.free_blocks o (erase a (blocks_of m o)) [] (omega (arith, v.sized)))
        (member-erase_ne a b (blocks_of m o) h ne);
}

-- What `merge_free` returns and leaves behind: nothing is merged, since the block has the maximal
-- order or its buddy is not free; or the block and its buddy are one free block.
pub data Merged (m : Manager) (o a : ℕ) : Option BlockId → Manager → Type 0 where
  kept :
      (o ≡ m.max_ord) ⊎ (member (bit_xor a (2 ^ o)) (blocks_of m o) ≡ false) → Merged m o a none m
  merged :
      {m' : Manager} (lo : ℕ)
      → o < m.max_ord
      → ((x : ℕ) → within o x a ≤ within (suc o) x lo)
      → Regrouped m m'
      → Has m' (block (suc o) lo)
      → Merged m o a (some (block (suc o) lo)) m'

module _ (m : Manager) (o a : ℕ) (v : IsValid m) (h : Has m (block o a)) (lt : o < m.max_ord) where
  abbrev buddy_addr : ℕ
  buddy_addr = bit_xor a (2 ^ o)

  abbrev low : ℕ
  low = min a buddy_addr

  both : AreHalves o a buddy_addr low
  both = buddy-AreHalves o a (Has-IsBlock m (block o a) v h).0

  module _ (free_buddy : member buddy_addr (blocks_of m o) ≡ true) where
    abbrev first_gone : Manager
    first_gone = remove m (block o a)

    gone : Removed m o a first_gone
    gone = remove-Removed m (block o a) v h

    buddy_left : Has first_gone (block o buddy_addr)
    buddy_left =
        Has-remove m o a buddy_addr v (omega arith) (ground (arith, both.order, two-pow-pos o))
          free_buddy

    both_gone : Removed first_gone o buddy_addr (remove first_gone (block o buddy_addr))
    both_gone = remove-Removed first_gone (block o buddy_addr) gone.valid buddy_left

    low-IsBlock : IsBlock (suc o) low
    low-IsBlock = (
      both.aligned,
      ground (
        arith,
        both.order,
        two-pow-suc o,
        Has-IsBlock m (block o a) v h,
        Has-IsBlock first_gone (block o buddy_addr) gone.valid buddy_left,
      ),
    )

    joined :
        (m3 : Manager) × (emplace (remove first_gone (block o buddy_addr)) (suc o) low ≡ some m3)
        × Added (remove first_gone (block o buddy_addr)) (suc o) low m3
    joined =
        emplace-Added (remove first_gone (block o buddy_addr)) (suc o) low both_gone.valid
          (omega (arith, gone.same_max, both_gone.same_max)) low-IsBlock
          (λ x. omega (arith, gone.less x, both_gone.less x, v.disjoint x, within-AreHalves both x))

    merge_with_free :
        (m' : Manager) × (merge_with m (block o a) buddy_addr ≡ some (some (block (suc o) low), m'))
        × Merged m o a (some (block (suc o) low)) m'
    unfolding merge_with
    merge_with_free = (
      joined.0,
      rw (free_buddy, add-one, joined.1),
      merged low lt (λ x. omega (arith, within-AreHalves both x))
          (record {
            valid = joined.2.valid;
            same_max = omega (arith, gone.same_max, both_gone.same_max, joined.2.same_max);
            same = λ x.
                omega
                  (arith, gone.less x, both_gone.less x, joined.2.more x, within-AreHalves both x);
          })
          joined.2.has,
    )

merge_free_below :
    (m : Manager) (o a : ℕ)
    → IsValid m
    → o < m.max_ord
    → merge_free m (block o a) ≡ merge_with m (block o a) (bit_xor a (2 ^ o))
unfolding merge_free get_buddy_addr
merge_free_below m o a v lt = rw (above, small, fits)
  where
    above : leb m.max_ord o ≡ false
    above = ground arith

    small : leb o 63 ≡ true
    small = ground (arith, v.small)

    fits : leb o m.max_ord ≡ true
    fits = ground arith

-- For a free block of a valid manager `merge_free` fails no assertion, and does what `Merged` says.
pub merge_free-Merged :
    (m : Manager) (o a : ℕ)
    → IsValid m
    → Has m (block o a)
    → (r : Option BlockId) × (m' : Manager) × (merge_free m (block o a) ≡ some (r, m'))
      × Merged m o a r m'
merge_free-Merged m o a v h = elim (Bool-cases (leb m.max_ord o)) [
  | inl top ↦ (
    none,
    m,
    unfold merge_free in rw top,
    kept (inl (omega (arith, h.in_range, leb→le m.max_ord o top))),
  )
  | inr under ↦
      let lt : o < m.max_ord = ground arith in
      elim (Bool-cases (member (bit_xor a (2 ^ o)) (blocks_of m o))) [
        | inl there ↦
            let (m', run, did) = merge_with_free m o a v h lt there in
            (some (block (suc o) (low m o a v h lt)), m', merge_free_below m o a v lt ∙ run, did)
        | inr missing ↦ (
          none,
          m,
          merge_free_below m o a v lt ∙ unfold merge_with in rw missing,
          kept (inr missing),
        )
      ]
]
