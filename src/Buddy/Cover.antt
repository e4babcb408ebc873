-- ===== src/Buddy/Cover.antt =====
-- How often an address is covered by free blocks. Splitting and merging keep this number, and
-- allocation and deallocation change it by the block that changes hands.
use guest_tests.Base.{
  ℕ, zero, suc, ◌+◌, ◌^◌, ◌≤◌, ◌<◌, ◌&&◌, leb, ltb, if◌then◌else◌, List, [], ◌∷◌, ◌≡◌, refl, arith,
  get_or, set, length, replicate, two-pow-suc, two-pow-pos, ap,
}
use native.Mathlib.Nat.{add-zero}
use guest_tests.OrderedSet.{total}

-- 1 if `x` lies in the block of order `o` at `a`, else 0.
unfoldable pub within : ℕ → ℕ → ℕ → ℕ
within o x a = if leb a x && ltb x (a + 2 ^ o) then 1 else 0

abbrev pub cover_set : ℕ → ℕ → List ℕ → ℕ
cover_set o x s = total (within o x) s

-- The free blocks from order `o` on that contain `x`.
unfoldable pub cover : ℕ → ℕ → List (List ℕ) → ℕ
cover o x [] = 0
cover o x (s ∷ ss) = cover_set o x s + cover (o + 1) x ss

pub within_self : (o a : ℕ) → within o a a ≡ 1
unfolding within
within_self o a = ground (arith, two-pow-pos o)

-- A block is its two halves.
pub within-halves : (o x a : ℕ) → within (suc o) x a ≡ within o x a + within o x (a + 2 ^ o)
unfolding within
within-halves o x a = ground (arith, two-pow-suc o)

add_suc_shift : (n k : ℕ) → n + suc k ≡ n + 1 + k
add_suc_shift n k = omega arith

pub cover-set :
    (o x : ℕ) (bs : List (List ℕ)) (i : ℕ) (s : List ℕ)
    → i < length bs
    → cover o x (set bs i s) + cover_set (o + i) x (get_or bs i [])
      ≡ cover o x bs + cover_set (o + i) x s
unfolding cover
cover-set o x [] i s h = absurd (omega arith)
cover-set o x (b ∷ bs) zero s h =
    ground (arith, ap (λ t. cover_set t x s) (add-zero o), ap (λ t. cover_set t x b) (add-zero o))
cover-set o x (b ∷ bs) (suc i) s h = ground (
  arith,
  ap (λ t. cover_set t x s) (add_suc_shift o i),
  ap (λ t. cover_set t x (get_or bs i [])) (add_suc_shift o i),
  cover-set (o + 1) x bs i s,
)

pub le-cover :
    (o x : ℕ) (bs : List (List ℕ)) (i : ℕ) → cover_set (o + i) x (get_or bs i []) ≤ cover o x bs
unfolding cover
le-cover o x [] i = unfold total in omega arith
le-cover o x (b ∷ bs) zero = omega (arith, ap (λ t. cover_set t x b) (add-zero o))
le-cover o x (b ∷ bs) (suc i) =
    omega
      (arith, ap (λ t. cover_set t x (get_or bs i [])) (add_suc_shift o i), le-cover (o + 1) x bs i)

pub cover-replicate : (o x n : ℕ) → cover o x (replicate n []) ≡ 0
unfolding cover total
cover-replicate o x zero = refl
cover-replicate o x (suc n) = omega (arith, cover-replicate (o + 1) x n)
