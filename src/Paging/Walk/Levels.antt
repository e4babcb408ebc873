-- ===== src/Paging/Walk/Levels.antt =====
-- The four levels of x86 paging: the entries that an address selects, and how the walk ends.
use guest_tests.Base.{
  ℕ, ◌+◌, ◌*◌, ◌/◌, ◌^◌, ◌%◌, ◌≡◌, refl, ◌⊎◌, inl, inr, arith, true, false, ◌==◌, Option, none,
  some, digit, bit_test, Bool-cases,
}
use guest_tests.Math.{mask, word}
use guest_tests.Paging.Entry.{is_present, is_large}

-- The `b` bits from `s` on of an entry, as the address of a frame.
abbrev pub frame : (s b e : ℕ) → ℕ
frame s b e = e / 2 ^ s % 2 ^ b * 2 ^ s

module _ (mem : ℕ → ℕ) (cr3 lin : ℕ) where
  -- The entries that an address selects: nine bits of the address for each level.
  abbrev pub selected : (table s : ℕ) → ℕ
  selected table s = mem ((table + 8 * (lin / 2 ^ s % 2 ^ 9)) % word)

  abbrev pub first : ℕ
  first = selected (frame 12 40 cr3) 39

  abbrev pub second : ℕ
  second = selected (frame 12 40 first) 30

  abbrev pub third : ℕ
  third = selected (frame 12 40 second) 21

  abbrev pub fourth : ℕ
  fourth = selected (frame 12 40 third) 12

  -- How the walk ends: at an entry that is not present (bit 0), or at a page (bit 7 above the lowest
  -- level).
  pub data Walked : Option ℕ → Type 0 where
    no_first : digit first 0 ≡ 0 → Walked none
    no_second : digit first 0 ≡ 1 → digit second 0 ≡ 0 → Walked none
    huge_page :
        digit first 0 ≡ 1
        → digit second 0 ≡ 1
        → digit second 7 ≡ 1
        → Walked (some (frame 30 22 second + lin % 2 ^ 30))
    no_third :
        digit first 0 ≡ 1
        → digit second 0 ≡ 1
        → digit second 7 ≡ 0
        → digit third 0 ≡ 0
        → Walked none
    large_page :
        digit first 0 ≡ 1
        → digit second 0 ≡ 1
        → digit second 7 ≡ 0
        → digit third 0 ≡ 1
        → digit third 7 ≡ 1
        → Walked (some (frame 21 31 third + lin % 2 ^ 21))
    no_fourth :
        digit first 0 ≡ 1
        → digit second 0 ≡ 1
        → digit second 7 ≡ 0
        → digit third 0 ≡ 1
        → digit third 7 ≡ 0
        → digit fourth 0 ≡ 0
        → Walked none
    small_page :
        digit first 0 ≡ 1
        → digit second 0 ≡ 1
        → digit second 7 ≡ 0
        → digit third 0 ≡ 1
        → digit third 7 ≡ 0
        → digit fourth 0 ≡ 1
        → Walked (some (frame 12 40 fourth + lin % 2 ^ 12))

pub present_cases :
    (e : ℕ) → ((digit e 0 ≡ 1) × (is_present e ≡ true)) ⊎ ((digit e 0 ≡ 0) × (is_present e ≡ false))
unfolding is_present mask
present_cases e = elim (Bool-cases (digit e 0 == 0)) [
  | inl clear ↦ inr (ground (arith, clear), rw (bit_test e 0, clear) refl)
  | inr is_set ↦ inl (ground (arith, is_set), rw (bit_test e 0, is_set) refl)
]

pub large_cases :
    (e : ℕ)
    → is_present e ≡ true
    → ((digit e 7 ≡ 1) × (is_large e ≡ true)) ⊎ ((digit e 7 ≡ 0) × (is_large e ≡ false))
unfolding is_large mask
large_cases e p = elim (Bool-cases (digit e 7 == 0)) [
  | inl clear ↦ inr (ground (arith, clear), rw (p, bit_test e 7, clear) refl)
  | inr is_set ↦ inl (ground (arith, is_set), rw (p, bit_test e 7, is_set) refl)
]

pub small_of_absent : (e : ℕ) → is_present e ≡ false → is_large e ≡ false
unfolding is_large
small_of_absent e p = rw p refl
