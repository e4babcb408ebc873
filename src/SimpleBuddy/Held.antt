-- ===== src/SimpleBuddy/Held.antt =====
-- The memory that the allocator of simple_buddy.hpp has handed out, and that it is never handed out again
-- before it is freed.
use guest_tests.Base.{
  ℕ, ◌+◌, ◌^◌, ◌≤◌, ◌≡◌, refl, sym, ap, ap₂, some_inj, ◌∙◌, subst, arith, ◌==◌, if◌then◌else◌,
  Bool-cases, inl, inr, Option, none, some, List, [], ◌∷◌, All, two-pow-pos,
}
use guest_tests.Buddy.{Buddy}
use guest_tests.Buddy.Blocks.{IsBlock}
use guest_tests.Buddy.Reclaim.{IsPool, available, span}
use guest_tests.Buddy.Client.{Granted}
use guest_tests.SimpleBuddy.{SimpleBuddy, lookup, erase, remember}

-- How many allocations cover `x`.
unfoldable pub held : List (ℕ × ℕ) → ℕ → ℕ
held [] x = 0
held (e ∷ m) x = span e.0 (2 ^ e.1) x + held m x

abbrev pub total : SimpleBuddy → ℕ → ℕ
total s x = available s.base x + held s.alloc_map x

-- The pool is valid, each allocation is a block, and no address is available or allocated twice.
pub record IsSimple (s : SimpleBuddy) : Type 0 where
  pub pool : IsPool s.base
  pub blocks : All (λ (e : ℕ × ℕ). IsBlock e.1 e.0 × (e.1 ≤ s.base.max_order)) s.alloc_map
  pub once : (x : ℕ) → total s x ≤ 1

span-start : (a o : ℕ) → span a (2 ^ o) a ≡ 1
unfolding span
span-start a o = ground (arith, two-pow-pos o)

lookup_held : (m : List (ℕ × ℕ)) (a : ℕ) → held m a ≡ 0 → lookup m a ≡ none
unfolding lookup held
lookup_held [] a h = refl
lookup_held (e ∷ m) a h = elim (Bool-cases (e.0 == a)) [
  | inl same ↦ absurd (ground (arith, h, same, span-start e.0 e.1))
  | inr other ↦ rw other (lookup_held m a (omega (arith, h)))
]

pub held-erase :
    (m : List (ℕ × ℕ)) (a o x : ℕ)
    → lookup m a ≡ some o
    → held m x ≡ span a (2 ^ o) x + held (erase m a) x
unfolding lookup erase held
held-erase [] a o x e = ground (arith, e)
held-erase (f ∷ m) a o x e = elim (Bool-cases (f.0 == a)) [
  | inl same ↦
      let order : f.1 ≡ o =
        some_inj (sym (ap (λ t. if t then some f.1 else lookup m a) same) ∙ e) in
      rw same (ap₂ (λ p q. span p (2 ^ q) x + held m x) {y = a} (ground (arith, same)) order)
  | inr other ↦
      let rest : lookup m a ≡ some o =
        sym (ap (λ t. if t then some f.1 else lookup m a) other) ∙ e in
      rw other (omega (arith, held-erase m a o x rest))
]

module _ {κ} (P : (ℕ × ℕ) → Type κ) where
  pub All-erase : (m : List (ℕ × ℕ)) (a : ℕ) → All P m → All P (erase m a)
  unfolding erase
  All-erase [] a h = tt
  All-erase (e ∷ m) a h = elim (Bool-cases (e.0 == a)) [
    | inl same ↦ rw same h.1
    | inr other ↦ rw other (h.0, All-erase m a h.1)
  ]

  pub All-lookup : (m : List (ℕ × ℕ)) (a o : ℕ) → All P m → lookup m a ≡ some o → P (a, o)
  unfolding lookup
  All-lookup [] a o h e = absurd (ground (arith, e))
  All-lookup (f ∷ m) a o h e = elim (Bool-cases (f.0 == a)) [
    | inl same ↦
        let order : f.1 ≡ o =
          some_inj (sym (ap (λ t. if t then some f.1 else lookup m a) same) ∙ e) in
        subst P (ap₂ (λ p q. (p, q)) {y = a} (ground (arith, same)) order) h.0
    | inr other ↦
        All-lookup m a o h.1 (sym (ap (λ t. if t then some f.1 else lookup m a) other) ∙ e)
  ]

-- What an answer says of the map.
pub data Answer (order : ℕ) (m : List (ℕ × ℕ)) : Option ℕ → List (ℕ × ℕ) → Type 0 where
  refused : Answer order m none m
  given : {a : ℕ} → IsBlock order a → Answer order m (some a) ((a, order) ∷ m)

-- An answer `r` and the state behind it, with `extra` more memory than `s` has.
pub record Kept (order : ℕ) (s : SimpleBuddy) (extra : ℕ → ℕ) (r : Option ℕ) (s2 : SimpleBuddy)
    : Type 0 where
  pub valid : IsSimple s2
  pub conserved : (x : ℕ) → total s2 x ≡ total s x + extra x
  pub mapped : Answer order s.alloc_map r s2.alloc_map

pub remember-Kept :
    (order : ℕ) (r : Option ℕ) (s : SimpleBuddy) (b : Buddy)
    → IsSimple s
    → Granted s.base order r b
    → (s2 : SimpleBuddy) × (remember order r b s.alloc_map ≡ some (r, s2))
      × Kept order s (λ x. 0) r s2
unfolding remember held
remember-Kept order none s b w (Granted.refused no_blocks) =
    (s, refl, record { valid = w; conserved = λ x. omega arith; mapped = Answer.refused })
remember-Kept order (some a) s b w (Granted.granted le block t) = (
  record { base = b; alloc_map = (a, order) ∷ s.alloc_map },
  rw (remember, absent) refl,
  record {
    valid = record {
      pool = t.pool;
      blocks =
          subst
            (λ (n : ℕ). All (λ (e : ℕ × ℕ). IsBlock e.1 e.0 × (e.1 ≤ n)) ((a, order) ∷ s.alloc_map))
            (sym t.same_max) ((block, le), w.blocks);
      once = λ x. omega (arith, same x, w.once x);
    };
    conserved = λ x. omega (arith, same x);
    mapped = Answer.given block;
  },
)
  where
    held_next :
        (x : ℕ) → held ((a, order) ∷ s.alloc_map) x ≡ span a (2 ^ order) x + held s.alloc_map x
    held_next x = refl

    same : (x : ℕ) → available b x + held ((a, order) ∷ s.alloc_map) x ≡ total s x
    same x = omega (arith, t.less x, held_next x)

    absent : lookup s.alloc_map a ≡ none
    absent = lookup_held s.alloc_map a (omega (arith, w.once a, t.less a, span-start a order))
