-- ===== src/Buddy/Blocks.antt =====
-- The invariant of the block manager, and what adding, removing and splitting a block do to it.
use guest_tests.Base.{
  ℕ, ◌+◌, ◌%◌, ◌^◌, ◌≤◌, ◌<◌, true, false, List, [], ◌≡◌, refl, arith, length, ap, ◌∙◌, All, some,
  get_or-set_self, get_or-set_ne, length-set, Bool-cases, ==_self, inl, inr, subst,
}
use native.Mathlib.Nat.{zero-add}
use native.Mathlib.Decide.{ℕ_discrete}
use guest_tests.Math.{word}
use guest_tests.OrderedSet.{
  member, insert, erase, total-insert, total-erase, le-total, All-insert, All-erase, All-member,
  member-insert,
}
use guest_tests.Buddy.{Manager, BlockId, blocks_of, with_blocks, emplace, remove}
use guest_tests.Buddy.Cover.{within, cover_set, cover, within_self, cover-set, le-cover}

-- A block of order `o` may stand at `a`: naturally aligned, and inside the address space.
abbrev pub IsBlock : ℕ → ℕ → Type 0
IsBlock o a = (a % 2 ^ o ≡ 0) × (a + 2 ^ o ≤ word)

-- The free blocks that contain `x`.
abbrev pub covered : Manager → ℕ → ℕ
covered m x = cover 0 x m.free_blocks

pub record IsValid (m : Manager) : Type 0 where
  pub sized : length m.free_blocks ≡ m.max_ord + 1
  pub small : m.max_ord ≤ 63
  pub blocks : (o : ℕ) → All (IsBlock o) (blocks_of m o)
  pub disjoint : (x : ℕ) → covered m x ≤ 1

-- The block is free.
pub record Has (m : Manager) (id : BlockId) : Type 0 where
  pub in_range : id.ord ≤ m.max_ord
  pub is_free : member id.addr (blocks_of m id.ord) ≡ true

covered-with_blocks :
    (m : Manager) (o : ℕ) (s : List ℕ) (x : ℕ)
    → o < length m.free_blocks
    → covered (with_blocks m o s) x + cover_set o x (blocks_of m o) ≡ covered m x + cover_set o x s
covered-with_blocks m o s x h =
    subst
      (λ t.
        covered (with_blocks m o s) x + cover_set t x (blocks_of m o)
        ≡ covered m x + cover_set t x s)
      (zero-add o) (cover-set 0 x m.free_blocks o s h)

with_blocks-blocks :
    (m : Manager) (ord : ℕ) (s : List ℕ)
    → ord < length m.free_blocks
    → All (IsBlock ord) s
    → ((o : ℕ) → All (IsBlock o) (blocks_of m o))
    → (o : ℕ) → All (IsBlock o) (blocks_of (with_blocks m ord s) o)
with_blocks-blocks m ord s h all old o = elim (ℕ_discrete ord o) [
  | yes e ↦
      subst (λ t. All (IsBlock t) (blocks_of (with_blocks m ord s) t)) e
        (rw (get_or-set_self m.free_blocks ord s [] h) all)
  | no ne ↦ rw (get_or-set_ne m.free_blocks ord o s [] ne) (old o)
]

-- `m'` is `m` with the block taken out.
pub record Removed (m : Manager) (o a : ℕ) (m' : Manager) : Type 0 where
  pub valid : IsValid m'
  pub same_max : m'.max_ord ≡ m.max_ord
  pub less : (x : ℕ) → covered m' x + within o x a ≡ covered m x

-- `m'` is `m` with the block put in.
pub record Added (m : Manager) (o a : ℕ) (m' : Manager) : Type 0 where
  pub valid : IsValid m'
  pub same_max : m'.max_ord ≡ m.max_ord
  pub has : Has m' (record { ord = o; addr = a })
  pub more : (x : ℕ) → covered m' x ≡ covered m x + within o x a

-- Two managers cover the same addresses.
pub record Regrouped (m m' : Manager) : Type 0 where
  pub valid : IsValid m'
  pub same_max : m'.max_ord ≡ m.max_ord
  pub same : (x : ℕ) → covered m' x ≡ covered m x

pub remove-Removed :
    (m : Manager) (id : BlockId) → IsValid m → Has m id → Removed m id.ord id.addr (remove m id)
unfolding remove
remove-Removed m id v h = record {
  valid = record {
    sized = length-set m.free_blocks id.ord left ∙ v.sized;
    small = v.small;
    blocks =
        with_blocks-blocks m id.ord left in_vector
          (All-erase (IsBlock id.ord) id.addr (blocks_of m id.ord) (v.blocks id.ord)) v.blocks;
    disjoint = λ x. omega (arith, less x, v.disjoint x);
  };
  same_max = refl;
  less = less;
}
  where
    left : List ℕ
    left = erase id.addr (blocks_of m id.ord)

    in_vector : id.ord < length m.free_blocks
    in_vector = omega (arith, h.in_range, v.sized)

    less : (x : ℕ) → covered (with_blocks m id.ord left) x + within id.ord x id.addr ≡ covered m x
    less x = omega (
      arith,
      covered-with_blocks m id.ord left x in_vector,
      total-erase (within id.ord x) id.addr (blocks_of m id.ord) h.is_free,
    )

pub emplace-Added :
    (m : Manager) (o a : ℕ)
    → IsValid m
    → o ≤ m.max_ord
    → IsBlock o a
    → ((x : ℕ) → covered m x + within o x a ≤ 1)
    → (m' : Manager) × (emplace m o a ≡ some m') × Added m o a m'
unfolding emplace
emplace-Added m o a v le b room = (
  with_blocks m o grown,
  rw fresh,
  record {
    valid = record {
      sized = length-set m.free_blocks o grown ∙ v.sized;
      small = v.small;
      blocks =
          with_blocks-blocks m o grown in_vector
            (All-insert (IsBlock o) a (blocks_of m o) b (v.blocks o)) v.blocks;
      disjoint = λ x. omega (arith, more x, room x);
    };
    same_max = refl;
    has = record {
      in_range = le;
      is_free = rw (
        get_or-set_self m.free_blocks o grown [] in_vector,
        member-insert a a (blocks_of m o),
        ==_self a,
      );
    };
    more = more;
  },
)
  where
    grown : List ℕ
    grown = insert a (blocks_of m o)

    in_vector : o < length m.free_blocks
    in_vector = omega (arith, v.sized)

    fresh : member a (blocks_of m o) ≡ false
    fresh = elim (Bool-cases (member a (blocks_of m o))) [
      | inl old ↦ absurd (
          omega (
            arith,
            room a,
            within_self o a,
            le-total (within o a) a (blocks_of m o) old,
            le-cover 0 a m.free_blocks o,
            ap (λ t. cover_set t a (blocks_of m o)) (zero-add o),
          ))
      | inr new ↦ new
    ]

    more : (x : ℕ) → covered (with_blocks m o grown) x ≡ covered m x + within o x a
    more x = omega (
      arith,
      covered-with_blocks m o grown x in_vector,
      total-insert (within o x) a (blocks_of m o),
    )

-- What is free is a block.
pub Has-IsBlock : (m : Manager) (id : BlockId) → IsValid m → Has m id → IsBlock id.ord id.addr
Has-IsBlock m id v h =
    All-member (IsBlock id.ord) id.addr (blocks_of m id.ord) (v.blocks id.ord) h.is_free
