-- ===== src/ArrayLockFree/Claims.antt =====
-- Under every interleaving of insertions into the array of util/array_lock_free.hpp.
use guest_tests.Base.{
  ℕ, suc, ◌≤◌, ◌<◌, ◌≡◌, ◌≢◌, refl, sym, ap, ◌∙◌, subst, arith, ◌==◌, ==_iff, ==_self, Bool-cases,
  inl, inr, Option, none, some, some_inj, List, length, length-set, get_elem?, set,
  get_elem?-set_self, get_elem?-set_ne, get_elem?_inside, get_elem?_outside, ltb, ltb→lt,
}
use guest_tests.ArrayLockFree.Threads.{
  Pc, idle, scanning, stored, refused, update, System, Move, call, exchange, go_on, give_up, Step,
  step, Run, start, mine, other,
}

module _ (invalid : ℕ) where
  -- No free place is at the index.
  abbrev pub Taken : List ℕ → ℕ → Type 0
  Taken array j = get_elem? array j ≢ some invalid

  -- What holds where a thread stands.
  abbrev pub Good : List ℕ → Pc → Type 0
  Good array idle = Unit
  Good array (scanning v i) = (v ≢ invalid) × (i ≤ length array) × ((j : ℕ) → j < i → Taken array j)
  Good array (stored v i) = (get_elem? array i ≡ some v) × (v ≢ invalid)
  Good array (refused v) = (j : ℕ) → Taken array j

  -- A place that is taken never changes.
  pub record Grows (array array2 : List ℕ) : Type 0 where
    pub same_length : length array2 ≡ length array
    pub same_taken : (j : ℕ) → Taken array j → get_elem? array2 j ≡ get_elem? array j

  Grows-Good : (array array2 : List ℕ) (p : Pc) → Grows array array2 → Good array p → Good array2 p
  Grows-Good array array2 idle g h = tt
  Grows-Good array array2 (scanning v i) g (real, le, taken) = (
    real,
    omega (arith, g.same_length),
    λ j lt e. taken j lt (sym (g.same_taken j (taken j lt)) ∙ e),
  )
  Grows-Good array array2 (stored v i) g (here, real) =
      (g.same_taken i (λ e. real (some_inj (sym here ∙ e))) ∙ here, real)
  Grows-Good array array2 (refused v) g taken = λ j e. taken j (sym (g.same_taken j (taken j)) ∙ e)

  unchanged : (array : List ℕ) → Grows array array
  unchanged array = record { same_length = refl; same_taken = λ j taken. refl }

  set-Grows :
      (array : List ℕ) (i v : ℕ) → get_elem? array i ≡ some invalid → Grows array (set array i v)
  set-Grows array i v free = record {
    same_length = length-set array i v;
    same_taken =
        λ j taken. get_elem?-set_ne array i j v (λ e. taken (ap (get_elem? array) (sym e) ∙ free));
  }

  pub Move-Grows :
      {array array2 : List ℕ} {p p2 : Pc} → Move invalid array p array2 p2 → Grows array array2
  Move-Grows {array} (call real) = unchanged array
  Move-Grows {array} (exchange {v} {i} free) = set-Grows array i v free
  Move-Grows {array} (go_on e differ) = unchanged array
  Move-Grows {array} (give_up e) = unchanged array

  -- All places up to an index, and all places of the array.
  up_to :
      (array : List ℕ) (i : ℕ)
      → ((j : ℕ) → j < i → Taken array j)
      → Taken array i
      → (j : ℕ) → j < suc i
      → Taken array j
  up_to array i taken here j lt = elim (Bool-cases (j == i)) [
    | inl same ↦ subst (Taken array) (sym ((==_iff j i).0 same)) here
    | inr differ ↦ taken j (ground (arith, differ))
  ]

  all_of : (array : List ℕ) → ((j : ℕ) → j < length array → Taken array j) → (j : ℕ) → Taken array j
  all_of array taken j = elim (Bool-cases (ltb j (length array))) [
    | inl below ↦ taken j (ltb→lt j (length array) below)
    | inr behind ↦ λ e. cc (e, get_elem?_outside array j (ground (arith, behind)))
  ]

  Move-Good :
      {array array2 : List ℕ} {p p2 : Pc}
      → Move invalid array p array2 p2
      → Good array p
      → Good array2 p2
  Move-Good (call real) h = (real, omega arith, λ j lt. absurd (omega arith))
  Move-Good {array} (exchange {v} {i} free) (real, le, taken) =
      (get_elem?-set_self array i v (get_elem?_inside array i invalid free), real)
  Move-Good {array} (go_on {v} {i} {x} e differ) (real, le, taken) = (
    real,
    omega (arith, get_elem?_inside array i x e),
    up_to array i taken (λ free. differ (some_inj (sym e ∙ free))),
  )
  Move-Good {array} (give_up {v} {i} e) (real, le, taken) =
      all_of array (λ j lt. taken j (omega (arith, e)))

  -- The index that a thread has answered.
  abbrev pub index_of : Pc → Option ℕ
  index_of (stored v i) = some i
  index_of _ = none

  Good-Taken :
      (array : List ℕ) (p : Pc) (i : ℕ) → Good array p → index_of p ≡ some i → Taken array i
  Good-Taken array idle i h e = cc
  Good-Taken array (scanning v j) i h e = cc
  Good-Taken array (refused v) i h e = cc
  Good-Taken array (stored v j) i (here, real) e =
      λ free. real (some_inj (sym here ∙ ap (get_elem? array) (some_inj e) ∙ free))

  Move-index :
      {array array2 : List ℕ} {p p2 : Pc} (i : ℕ)
      → Move invalid array p array2 p2
      → index_of p2 ≡ some i
      → get_elem? array i ≡ some invalid
  Move-index i (call real) e = cc
  Move-index {array} i (exchange free) e = ap (get_elem? array) (sym (some_inj e)) ∙ free
  Move-index i (go_on at differ) e = cc
  Move-index i (give_up end) e = cc

  -- Every thread is good, and no two have answered the same index.
  pub record IsSound (s : System) : Type 0 where
    pub good : (u : ℕ) → Good s.array (s.pcs u)
    pub apart : (u w i : ℕ) → u ≢ w → index_of (s.pcs u) ≡ some i → index_of (s.pcs w) ≡ some i → ⊥

  update_same : (pcs : ℕ → Pc) (t : ℕ) (p : Pc) → update pcs t p t ≡ p
  update_same pcs t p = rw (==_self t) refl

  update_other : (pcs : ℕ → Pc) (t u : ℕ) (p : Pc) → u ≢ t → update pcs t p u ≡ pcs u
  update_other pcs t u p differ = ground (arith, differ)

  Step-IsSound : {t : ℕ} {s s2 : System} → Step invalid t s s2 → IsSound s → IsSound s2
  Step-IsSound {t} {s} (step {array} {p} move) sound = record {
    good = λ u. elim (Bool-cases (u == t)) [
      | inl same ↦
          subst (Good array)
            (sym (ap (update s.pcs t p) ((==_iff u t).0 same) ∙ update_same s.pcs t p))
            (Move-Good move (sound.good t))
      | inr differ ↦
          subst (Good array) (sym (update_other s.pcs t u p (ground (arith, differ))))
            (Grows-Good s.array array (s.pcs u) (Move-Grows move) (sound.good u))
    ];
    apart = λ u w i ne eu ew. elim (Bool-cases (u == t)) [
      | inl same ↦
          clash w i (λ e. ne ((==_iff u t).0 same ∙ sym e))
            (ap index_of (sym (ap (update s.pcs t p) ((==_iff u t).0 same) ∙ update_same s.pcs t p))
              ∙ eu)
            ew
      | inr differ ↦ elim (Bool-cases (w == t)) [
        | inl same ↦
            clash u i (ground (arith, differ))
              (ap index_of
                  (sym (ap (update s.pcs t p) ((==_iff w t).0 same) ∙ update_same s.pcs t p))
                ∙ ew)
              eu
        | inr differ2 ↦
            sound.apart u w i ne
              (ap index_of (sym (update_other s.pcs t u p (ground (arith, differ)))) ∙ eu)
              (ap index_of (sym (update_other s.pcs t w p (ground (arith, differ2)))) ∙ ew)
      ]
    ];
  }
    where
      clash : (w i : ℕ) → w ≢ t → index_of p ≡ some i → index_of (update s.pcs t p w) ≡ some i → ⊥
      clash w i ne moved ew =
          Good-Taken s.array (s.pcs w) i (sound.good w)
            (ap index_of (sym (update_other s.pcs t w p ne)) ∙ ew) (Move-index i move moved)

  pub Run-IsSound : {array : List ℕ} {t n : ℕ} {s : System} → Run invalid array t n s → IsSound s
  Run-IsSound start = record { good = λ u. tt; apart = λ u w i ne eu ew. cc }
  Run-IsSound (mine r st) = Step-IsSound st (Run-IsSound r)
  Run-IsSound (other r ne st) = Step-IsSound st (Run-IsSound r)

-- What the answers of the threads mean for the array.
pub record Claimed (invalid : ℕ) (s : System) : Type 0 where
  pub holds : (u v i : ℕ) → s.pcs u ≡ stored v i → get_elem? s.array i ≡ some v
  pub differ : (u w v x i j : ℕ) → u ≢ w → s.pcs u ≡ stored v i → s.pcs w ≡ stored x j → i ≢ j
  pub full : (u v : ℕ) → s.pcs u ≡ refused v → (j : ℕ) → get_elem? s.array j ≢ some invalid

-- In every state that any number of threads reach by inserting, in any order of their steps: what a
-- thread was told to have stored stands at the index that it was told, no two threads were told the same
-- index, and if a thread was refused no place is free.
pub Run-Claimed :
    (invalid : ℕ) {array : List ℕ} {t n : ℕ} {s : System}
    → Run invalid array t n s
    → Claimed invalid s
Run-Claimed invalid {array} {t} {n} {s} r =
    let sound = Run-IsSound invalid r in
    record {
      holds = λ u v i e. (subst (Good invalid s.array) e (sound.good u)).0;
      differ = λ u w v x i j ne eu ew same.
          sound.apart u w i ne (ap (index_of invalid) eu)
            (ap (index_of invalid) ew ∙ ap some (sym same));
      full = λ u v e. subst (Good invalid s.array) e (sound.good u);
    }
