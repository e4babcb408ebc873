-- ===== src/Multiboot2/Header/First.antt =====
-- What the search of `locate_header` in multiboot2.hpp answers.
use guest_tests.Base.{
  ℕ, zero, suc, ◌+◌, ◌-◌, ◌%◌, ◌≤◌, ◌<◌, ◌≡◌, ◌≢◌, refl, ap, subst, some_inj, arith, true, false,
  ◌==◌, leb, ltb, Bool-cases, ==_iff, ltb→lt, inl, inr, Option, none, some, Option-cases, List,
  length,
}
use guest_tests.Multiboot2.Header.{
  mb2_hdr_max, magic_at, search_magic, locate_from, search_end_of, locate,
}

-- A place where a header may start.
abbrev pub IsHeader : List ℕ → ℕ → ℕ → Type 0
IsHeader binary search_end p = (p % 8 ≡ 0) × (p + 4 ≤ search_end) × (magic_at binary p ≡ true)

-- The first such place from `begin` on, or that there is none.
pub data Located (binary : List ℕ) (search_end begin : ℕ) : Option ℕ → Type 0 where
  found :
      {p : ℕ}
      → begin ≤ p
      → IsHeader binary search_end p
      → ((q : ℕ) → begin ≤ q → q < p → IsHeader binary search_end q → ⊥)
      → Located binary search_end begin (some p)
  absent :
      ((q : ℕ) → begin ≤ q → IsHeader binary search_end q → ⊥)
      → Located binary search_end begin none

-- What the search answers.
data Searched (binary : List ℕ) (search_end begin : ℕ) : Option ℕ → Type 0 where
  hit :
      {p : ℕ}
      → begin ≤ p
      → p + 4 ≤ search_end
      → magic_at binary p ≡ true
      → ((q : ℕ) → begin ≤ q → q < p → magic_at binary q ≡ true → ⊥)
      → Searched binary search_end begin (some p)
  miss :
      ((q : ℕ) → begin ≤ q → q + 4 ≤ search_end → magic_at binary q ≡ true → ⊥)
      → Searched binary search_end begin none

search_magic-Searched :
    (left : ℕ) (binary : List ℕ) (search_end p : ℕ)
    → search_end ≤ p + left
    → Searched binary search_end p (search_magic left binary search_end p)
unfolding search_magic
search_magic-Searched zero binary search_end p h = miss (λ q a b c. omega arith)
search_magic-Searched (suc left) binary search_end p h =
    elim (Bool-cases (leb (p + 4) search_end)) [
      | inr out ↦ rw out (miss (λ q a b c. ground (arith, out)))
      | inl fits ↦ elim (Bool-cases (magic_at binary p)) [
        | inl here ↦
            rw (fits, here) (hit (omega arith) (ground (arith, fits)) here (λ q a b c. omega arith))
        | inr other ↦
            rw (fits, other)
              (later (search_magic-Searched left binary search_end (p + 1) (omega arith)) other)
      ]
    ]
  where
    differs : (q : ℕ) → p ≤ q → magic_at binary p ≡ false → magic_at binary q ≡ true → p + 1 ≤ q
    differs q a e m = elim (Bool-cases (p == q)) [
      | inl same ↦ cc (e, m, ap (magic_at binary) ((==_iff p q).0 same))
      | inr other ↦ ground (arith, other)
    ]

    later :
        {r : Option ℕ}
        → Searched binary search_end (p + 1) r
        → magic_at binary p ≡ false
        → Searched binary search_end p r
    later (hit b e m before) other =
        hit (omega arith) e m (λ q a lt c. before q (differs q a other c) lt c)
    later (miss nowhere) other = miss (λ q a e c. nowhere q (differs q a other c) e c)

hit_of :
    {binary : List ℕ} {search_end begin p : ℕ} {r : Option ℕ}
    → Searched binary search_end begin r
    → r ≡ some p
    → (begin ≤ p)
      × (p + 4 ≤ search_end)
      × (magic_at binary p ≡ true)
      × ((q : ℕ) → begin ≤ q → q < p → magic_at binary q ≡ true → ⊥)
hit_of {binary} {search_end} {begin} (hit {p = p'} b e m before) same =
    subst
      (λ k.
        (begin ≤ k)
        × (k + 4 ≤ search_end)
        × (magic_at binary k ≡ true)
        × ((q : ℕ) → begin ≤ q → q < k → magic_at binary q ≡ true → ⊥))
      (some_inj same) (b, e, m, before)
hit_of (miss nowhere) same = cc

miss_of :
    {binary : List ℕ} {search_end begin : ℕ} {r : Option ℕ}
    → Searched binary search_end begin r
    → r ≡ none
    → (q : ℕ) → begin ≤ q
    → q + 4 ≤ search_end
    → magic_at binary q ≡ true
    → ⊥
miss_of (hit b e m before) same = cc
miss_of (miss nowhere) same = nowhere

-- A header is no place where the magic is not found, nor one that is not aligned.
behind :
    (binary : List ℕ) (search_end begin p : ℕ)
    → ((q : ℕ) → begin ≤ q → q < p → magic_at binary q ≡ true → ⊥)
    → p % 8 ≢ 0
    → (q : ℕ) → begin ≤ q
    → IsHeader binary search_end q
    → p + 1 ≤ q
behind binary search_end begin p before odd q a header = elim (Bool-cases (ltb q p)) [
  | inl lt ↦ absurd (before q a (ltb→lt q p lt) header.2)
  | inr ge ↦ ground (arith, ge, odd, header.0)
]

skip :
    {binary : List ℕ} {search_end begin p : ℕ} {r : Option ℕ}
    → begin ≤ p
    → ((q : ℕ) → begin ≤ q → q < p → magic_at binary q ≡ true → ⊥)
    → p % 8 ≢ 0
    → Located binary search_end (p + 1) r
    → Located binary search_end begin r
skip {binary} {search_end} {begin} {p} le before odd (found b header first) =
    found (omega arith) header
      (λ q a lt c. first q (behind binary search_end begin p before odd q a c) lt c)
skip {binary} {search_end} {begin} {p} le before odd (absent nowhere) =
    absent (λ q a c. nowhere q (behind binary search_end begin p before odd q a c) c)

-- From an offset on the loop answers, with more fuel than there are bytes left to search.
locate_from-Located :
    (fuel : ℕ) (binary : List ℕ) (search_end begin : ℕ)
    → begin ≤ search_end
    → search_end < begin + fuel
    → (r : Option ℕ) × (locate_from fuel binary search_end begin ≡ some r)
      × Located binary search_end begin r
unfolding locate_from
locate_from-Located zero binary search_end begin le h = absurd (omega arith)
locate_from-Located (suc fuel) binary search_end begin le h =
    elim (Bool-cases (ltb begin search_end)) [
      | inr done ↦ (none, rw done refl, absent (λ q a header. ground (arith, done, header.1)))
      | inl more ↦ elim (Option-cases (search_magic (search_end - begin) binary search_end begin)) [
        | inl nowhere ↦ (
          none,
          rw (more, nowhere) refl,
          absent (λ q a header. miss_of searched nowhere q a header.1 header.2),
        )
        | inr (p, at_p) ↦
            let (b, e, m, before) = hit_of searched at_p in
            elim (Bool-cases (p % 8 == 0)) [
              | inl good ↦ (
                some p,
                rw (more, at_p, good) refl,
                found b ((==_iff (p % 8) 0).0 good, e, m) (λ q a lt header. before q a lt header.2),
              )
              | inr bad ↦
                  let (r, answer, located) =
                    locate_from-Located fuel binary search_end (p + 1) (omega arith)
                      (omega arith) in
                  (r, rw (more, at_p, bad) answer, skip b before (ground (arith, bad)) located)
            ]
      ]
    ]
  where
    searched :
        Searched binary search_end begin (search_magic (search_end - begin) binary search_end begin)
    searched = search_magic-Searched (search_end - begin) binary search_end begin (omega arith)

-- For an image of 16 bytes or more and fuel above the 32 KiB that are searched, the search answers the
-- first multiple of 8 that holds the magic before its end, and none exactly if there is no such place.
pub locate-Located :
    (fuel : ℕ) (binary : List ℕ)
    → 16 ≤ length binary
    → mb2_hdr_max < fuel
    → (r : Option ℕ) × (locate fuel binary ≡ some r) × Located binary (search_end_of binary) 0 r
unfolding locate
locate-Located fuel binary big enough =
    let (r, answer, located) =
      locate_from-Located fuel binary (search_end_of binary) 0 (omega arith) (ground arith) in
    (r, rw long answer, located)
  where
    long : ltb (length binary) 16 ≡ false
    long = ground (arith, big)
