-- ===== src/Boot/Tables.antt =====
-- What find_rsdp and find_mcfg of include/toyos/acpi.hpp find in memory.
use guest_tests.Base.{
  ℕ, zero, suc, ◌+◌, ◌-◌, ◌*◌, ◌/◌, ◌≤◌, ◌<◌, ◌≡◌, ◌≢◌, refl, sym, ap, ◌∙◌, arith, Bool, true,
  false, ◌==◌, ==_iff, ltb, if◌then◌else◌, Bool-cases, inl, inr, Option, none, some,
}
use mathlib.Core.Option
use guest_tests.Interval.{Interval}
use guest_tests.Boot.{
  same_bytes, load32, rsdp_signature, mcfg_signature, find_rsdp_from, find_rsdp, number_of_entries,
  entry, find_entry, find_mcfg_at, find_mcfg,
}

-- The first number from `k` on that passes a test, of `left` of them.
first : (ℕ → Bool) → ℕ → ℕ → Option ℕ
first test zero k = none
first test (suc left) k = let rest = first test left (k + 1) in if test k then some k else rest

pub data First (test : ℕ → Bool) (k n : ℕ) : Option ℕ → Type 0 where
  found :
      {i : ℕ}
      → k ≤ i
      → i < n
      → test i ≡ true
      → ((j : ℕ) → k ≤ j → j < i → test j ≡ false)
      → First test k n (some i)
  absent : ((j : ℕ) → k ≤ j → j < n → test j ≡ false) → First test k n none

first-First : (test : ℕ → Bool) (left k n : ℕ) → n ≡ k + left → First test k n (first test left k)
unfolding first
first-First test zero k n e = absent (λ j a b. absurd (omega arith))
first-First test (suc left) k n e = elim (Bool-cases (test k)) [
  | inl here ↦ rw here (found (omega arith) (omega arith) here (λ j a b. absurd (omega arith)))
  | inr other ↦ rw other (later (first-First test left (k + 1) n (omega arith)) other)
]
  where
    passed : (j : ℕ) → k ≤ j → test k ≡ false → (k + 1 ≤ j → test j ≡ false) → test j ≡ false
    passed j a other more = elim (Bool-cases (k == j)) [
      | inl same ↦ ap test (sym ((==_iff k j).0 same)) ∙ other
      | inr differ ↦ more (ground (arith, differ))
    ]

    later : {r : Option ℕ} → First test (k + 1) n r → test k ≡ false → First test k n r
    later (found a lt it before) other =
        found (omega arith) lt it (λ j b c. passed j b other (λ b2. before j b2 c))
    later (absent nowhere) other = absent (λ j b c. passed j b other (λ b2. nowhere j b2 c))

find_rsdp_from-first :
    (mem : ℕ → ℕ) (a b left k : ℕ)
    → (b - a + 15) / 16 ≡ k + left
    → find_rsdp_from left mem b (a + 16 * k)
      ≡ Option.map
          (λ i. a + 16 * i)
          (first (λ i. same_bytes mem (a + 16 * i) rsdp_signature) left k)
unfolding find_rsdp_from first
find_rsdp_from-first mem a b zero k e = refl
find_rsdp_from-first mem a b (suc left) k e =
    elim (Bool-cases (same_bytes mem (a + 16 * k) rsdp_signature)) [
      | inl here ↦ rw (below, here) refl
      | inr other ↦
          rw (below, other)
            (ap (find_rsdp_from left mem b) (omega arith)
              ∙ find_rsdp_from-first mem a b left (k + 1) (omega arith))
    ]
  where
    below : ltb (a + 16 * k) b ≡ true
    below = ground (arith, e)

-- In an interval find_rsdp answers the first address, in steps of 16 from its start, that has the
-- signature, and nothing if there is none.
pub find_rsdp-First :
    (mem : ℕ → ℕ) (ival : Interval)
    → (r : Option ℕ) × (find_rsdp mem ival ≡ Option.map (λ i. ival.a + 16 * i) r)
      × First
          (λ i. same_bytes mem (ival.a + 16 * i) rsdp_signature)
          0
          ((ival.b - ival.a + 15) / 16)
          r
unfolding find_rsdp
find_rsdp-First mem ival =
    let n : ℕ = (ival.b - ival.a + 15) / 16 in
    let test = λ (i : ℕ). same_bytes mem (ival.a + 16 * i) rsdp_signature in
    (
      first test n 0,
      ap (find_rsdp_from n mem ival.b) (omega arith)
          ∙ find_rsdp_from-first mem ival.a ival.b n 0 (omega arith),
      first-First test n 0 n (omega arith),
    )

find_entry-first :
    (mem : ℕ → ℕ) (rsdt left k : ℕ)
    → find_entry left mem rsdt k
      ≡ Option.map
          (entry mem rsdt)
          (first (λ i. same_bytes mem (entry mem rsdt i) mcfg_signature) left k)
unfolding find_entry first
find_entry-first mem rsdt zero k = refl
find_entry-first mem rsdt (suc left) k =
    elim (Bool-cases (same_bytes mem (entry mem rsdt k) mcfg_signature)) [
      | inl here ↦ rw here refl
      | inr other ↦ rw other (find_entry-first mem rsdt left (k + 1))
    ]

-- The tables behind an RSDP, and the answer to the search for the MCFG.
pub data McfgOf (mem : ℕ → ℕ) (rsdp : ℕ) (answer : Option ℕ) : Type 0 where
  no_rsdp : same_bytes mem rsdp rsdp_signature ≡ false → answer ≡ none → McfgOf mem rsdp answer
  no_rsdt :
      same_bytes mem rsdp rsdp_signature ≡ true
      → load32 mem (rsdp + 16) ≡ 0
      → answer ≡ none
      → McfgOf mem rsdp answer
  searched :
      (rsdt : ℕ) (r : Option ℕ)
      → same_bytes mem rsdp rsdp_signature ≡ true
      → load32 mem (rsdp + 16) ≡ rsdt
      → rsdt ≢ 0
      → First
          (λ i. same_bytes mem (entry mem rsdt i) mcfg_signature)
          0
          (number_of_entries mem rsdt)
          r
      → answer ≡ Option.map (entry mem rsdt) r
      → McfgOf mem rsdp answer

-- Given an RSDP, find_mcfg answers nothing if the signature is not there or the pointer to the RSDT is
-- null; else the first entry of the RSDT whose table has the signature of the MCFG, or nothing if none has.
pub find_mcfg-McfgOf : (mem : ℕ → ℕ) (rsdp : ℕ) → McfgOf mem rsdp (find_mcfg mem (some rsdp))
unfolding find_mcfg find_mcfg_at
find_mcfg-McfgOf mem rsdp = elim (Bool-cases (same_bytes mem rsdp rsdp_signature)) [
  | inr unsigned ↦ no_rsdp unsigned (rw unsigned refl)
  | inl signed ↦ elim (Bool-cases (load32 mem (rsdp + 16) == 0)) [
    | inl null ↦
        no_rsdt signed ((==_iff (load32 mem (rsdp + 16)) 0).0 null) (rw (signed, null) refl)
    | inr real ↦
        let rsdt : ℕ = load32 mem (rsdp + 16) in
        let n : ℕ = number_of_entries mem rsdt in
        searched rsdt (first (λ i. same_bytes mem (entry mem rsdt i) mcfg_signature) n 0) signed
          refl (ground (arith, real))
          (first-First (λ i. same_bytes mem (entry mem rsdt i) mcfg_signature) n 0 n (omega arith))
          (rw (signed, real) (find_entry-first mem rsdt n 0))
  ]
]
