-- ===== src/MapVector/Insert.antt =====
-- The two insertions of `map_vector` in util/map.hpp.
use guest_tests.Base.{
  ℕ, suc, ◌≤◌, ◌<◌, ◌≡◌, refl, sym, ◌∙◌, subst, arith, false, ◌==◌, ltb, if◌then◌else◌, Option,
  none, some, List, [], ◌∷◌, ◌++◌, length, get_elem?, length-append, get_elem?-append_head,
  Bool-cases, some_inj, Option-cases, ltb→lt, inl, inr,
}
use guest_tests.Math.{word}
use guest_tests.IntervalMap.{lower_bound, before}
use guest_tests.IntervalMap.Ascent.{Within, Within-append, Split-at}
use guest_tests.IntervalMap.Places.{insert_at-eq}
use guest_tests.MapVector.{emplace, insert, insert_behind, insert_hint}
use guest_tests.MapVector.Order.{value, value-front, value-rest, value-added, lower_bound-between}

module _ {V : Type 0} where
  -- The keys are numbers of 64 bits and ascend.
  abbrev pub Ascending : List (ℕ × V) → Type 0
  Ascending vec = Within 0 word vec

  -- The outcomes of inserting `val` under `key`: it has a value already and nothing changes, or it
  -- stands at the iterator, and all other keys keep their values.
  pub data Inserted (vec : List (ℕ × V)) (key : ℕ) (val : V)
      : List (ℕ × V) × Option ℕ → Type 0 where
    kept : (old : V) → value vec key ≡ some old → Inserted vec key val (vec, none)
    added :
        (vec2 : List (ℕ × V)) (i : ℕ)
        → value vec key ≡ none
        → Ascending vec2
        → get_elem? vec2 i ≡ some (key, val)
        → length vec2 ≡ suc (length vec)
        → ((p : ℕ) → value vec2 p ≡ (if key == p then some val else value vec p))
        → Inserted vec key val (vec2, some i)

  -- The pair stored between what is below the key and what is above it.
  emplace-Inserted :
      (key : ℕ) (val : V) (front rest : List (ℕ × V))
      → key < word
      → Within 0 key front
      → Within (suc key) word rest
      → Inserted (front ++ rest) key val (emplace (front ++ rest) (length front) key val)
  unfolding emplace
  emplace-Inserted key val front rest fits low high =
      subst (λ t. Inserted (front ++ rest) key val (t, some (length front)))
        (sym (insert_at-eq front rest (key, val)))
        (added (front ++ (key, val) ∷ rest) (length front)
          (value-front 0 key key front rest low (omega arith)
            ∙ value-rest (suc key) word key rest high (omega arith))
          (Within-append 0 key word front ((key, val) ∷ rest) (omega arith) (omega (arith, fits))
            low (omega arith, fits, high))
          (get_elem?-append_head front ((key, val) ∷ rest))
          (omega (arith, length-append front ((key, val) ∷ rest), length-append front rest))
          (λ p. value-added 0 key p val front rest low))

  -- A key that the lower bound does not have is stored there.
  insert-new :
      (vec : List (ℕ × V)) (key : ℕ) (val : V) (pos : ℕ)
      → lower_bound vec key ≡ pos
      → ((e : ℕ × V) → get_elem? vec pos ≡ some e → (e.0 == key) ≡ false)
      → insert vec key val ≡ emplace vec pos key val
  unfolding insert
  insert-new vec key val pos at other = elim (Option-cases (get_elem? vec pos)) [
    | inl e ↦ rw (insert, at, e, at) refl
    | inr (p, e) ↦ rw (insert, at, e, other p e, at) refl
  ]

  insert-parts :
      (key : ℕ) (val : V) (front rest : List (ℕ × V))
      → key < word
      → Within 0 key front
      → Within key word rest
      → lower_bound (front ++ rest) key ≡ length front
      → Inserted (front ++ rest) key val (insert (front ++ rest) key val)
  unfolding insert value
  insert-parts key val front [] fits low high at =
      rw (insert-new (front ++ []) key val (length front) at (λ e q. none_there e q))
        (emplace-Inserted key val front [] fits low tt)
    where
      none_there :
          (e : ℕ × V) → get_elem? (front ++ []) (length front) ≡ some e → (e.0 == key) ≡ false
      none_there e q = absurd (cc (q, get_elem?-append_head front []))
  insert-parts key val front (e ∷ rest) fits low high at = elim (Bool-cases (e.0 == key)) [
    | inl same ↦
        rw (insert, at, get_elem?-append_head front (e ∷ rest), same)
          (kept e.1
            (value-front 0 key key front (e ∷ rest) low (omega arith) ∙ rw (value, same) refl))
    | inr other ↦
        rw
          (insert-new (front ++ e ∷ rest) key val (length front) at (λ q h.
            subst (λ q. (q.0 == key) ≡ false)
              (some_inj (sym (get_elem?-append_head front (e ∷ rest)) ∙ h)) other))
          (emplace-Inserted key val front (e ∷ rest) fits low (ground (arith, high, other)))
  ]

  -- Inserting into an ascending vector has one of these outcomes.
  pub insert-Inserted :
      (vec : List (ℕ × V)) (key : ℕ) (val : V)
      → Ascending vec
      → key < word
      → Inserted vec key val (insert vec key val)
  insert-Inserted vec key val w fits =
      let s = Split-at 0 word key vec (omega arith) w in
      subst (λ m. lower_bound m key ≡ length s.front → Inserted m key val (insert m key val))
        (sym s.whole) (insert-parts key val s.front s.rest fits s.front_Within s.rest_Within)
        s.at_bound

  module _ (vec : List (ℕ × V)) (it key : ℕ) (val : V) (w : Ascending vec)
      (h : it ≤ length vec) where
    -- A hint between a lesser key and a greater one is where the pair belongs.
    module _ (next : (e : ℕ × V) → get_elem? vec it ≡ some e → key < e.0) where
      emplace-insert :
          ((e : ℕ × V) → before vec it ≡ some e → e.0 < key)
          → emplace vec it key val ≡ insert vec key val
      emplace-insert prev = sym (
          insert-new vec key val it (lower_bound-between key 0 word it vec w h next prev)
            (λ e q. let lt : key < e.0 = next e q in ground arith))

      insert_behind-insert : insert_behind vec it key val ≡ insert vec key val
      unfolding insert_behind
      insert_behind-insert = elim (Option-cases (before vec it)) [
        | inl first ↦ rw (insert_behind, first) (emplace-insert (λ e q. cc))
        | inr (prev, at) ↦ elim (Bool-cases (ltb prev.0 key)) [
          | inl lt ↦
              rw (insert_behind, at, lt)
                (emplace-insert
                  (λ e q. subst (λ t. t.0 < key) (some_inj (sym at ∙ q)) (ltb→lt prev.0 key lt)))
          | inr ge ↦ rw (insert_behind, at, ge) refl
        ]
      ]

    hint-insert : insert_hint vec it key val ≡ insert vec key val
    unfolding insert_hint
    hint-insert = elim (Option-cases (get_elem? vec it)) [
      | inl end ↦ rw (insert_hint, end) (insert_behind-insert (λ e q. cc))
      | inr (next, at) ↦ elim (Bool-cases (ltb key next.0)) [
        | inl lt ↦
            rw (insert_hint, at, lt)
              (insert_behind-insert
                (λ e q. subst (λ t. key < t.0) (some_inj (sym at ∙ q)) (ltb→lt key next.0 lt)))
        | inr ge ↦ rw (insert_hint, at, ge) refl
      ]
    ]

  -- Whatever the hint, inserting a key of 64 bits into an ascending vector does the same as without
  -- one: a key that has a value is refused and nothing changes; else the vector still ascends, has
  -- the pair at the iterator, is one longer, and maps the key to the value and all others as before.
  pub insert_hint-Inserted :
      (vec : List (ℕ × V)) (it key : ℕ) (val : V)
      → Ascending vec
      → it ≤ length vec
      → key < word
      → (insert_hint vec it key val ≡ insert vec key val)
        × Inserted vec key val (insert vec key val)
  insert_hint-Inserted vec it key val w h fits =
      (hint-insert vec it key val w h, insert-Inserted vec key val w fits)
