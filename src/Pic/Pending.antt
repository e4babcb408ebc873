-- ===== src/Pic/Pending.antt =====
-- The highest bit of a register, and the end of an interrupt, of testhelper/pic.hpp.
use guest_tests.Base.{
  ℕ, zero, suc, ◌+◌, ◌%◌, ◌^◌, ◌≤◌, ◌<◌, ◌≡◌, ◌≢◌, refl, arith, true, false, ◌==◌, if◌then◌else◌,
  Bool-cases, inl, inr, some, digit, two-pow-suc, div_unique, lt_of_two-pow-lt, leb, leb→le, ◌-◌,
  [], ◌∷◌,
}
use native.Mathlib.Nat.{div-eq_of_lt}
use guest_tests.Pic.Masks.{slave_vector}
use guest_tests.Pic.{Pic, eoi, highest_pending_isr_vec, highest_below, position_of_highest_bit}

-- The position of the highest bit, of a value that is not 0.
highest_below-IsHighest :
    (k val : ℕ)
    → val ≢ 0
    → val < 2 ^ k
    → (pos : ℕ) × (highest_below k val ≡ some pos) × (2 ^ pos ≤ val) × (val < 2 ^ suc pos)
unfolding highest_below
highest_below-IsHighest zero val ne lt = absurd (omega (arith, ne, lt))
highest_below-IsHighest (suc k) val ne lt = elim (Bool-cases (leb (2 ^ k) val)) [
  | inl large ↦ (k, rw (set (leb→le (2 ^ k) val large)) refl, leb→le (2 ^ k) val large, lt)
  | inr small ↦
      let below : val < 2 ^ k = ground (arith, small) in
      let (pos, at, lo, hi) = highest_below-IsHighest k val ne below in
      (pos, rw (clear below) at, lo, hi)
]
  where
    set : 2 ^ k ≤ val → (digit val k == 1) ≡ true
    set large =
        ground (
          arith,
          div_unique val 1 (2 ^ k) (val - 2 ^ k) (omega arith) (omega (arith, two-pow-suc k)),
        )

    clear : val < 2 ^ k → (digit val k == 1) ≡ false
    clear below = ground (arith, div-eq_of_lt {n = val} {m = 2 ^ k} below)

-- For a base of which the vectors end below 256, and an in-service register of 16 bits that is not 0: eoi
-- answers true, and it signals the slave, and then the master, exactly if the highest bit set is one of
-- the slave's eight.
pub eoi_lem :
    (p : Pic) (isr : ℕ)
    → p.vector_base + 16 ≤ 256
    → isr ≢ 0
    → isr < 2 ^ 16
    → (pin : ℕ) × (2 ^ pin ≤ isr)
      × (isr < 2 ^ suc pin)
      × (eoi p isr ≡ (true, if leb 8 pin then 0xa0 ∷ 0x20 ∷ [] else 0x20 ∷ []))
unfolding eoi highest_pending_isr_vec position_of_highest_bit
eoi_lem p isr h ne lt =
    let (pin, at, lo, hi) = highest_below-IsHighest 16 isr ne lt in
    let fits : pin < 16 = lt_of_two-pow-lt pin 16 (omega arith) in
    (pin, lo, hi, rw (real, at, vector pin fits, slave_vector p pin h fits) refl)
  where
    real : (isr == 0) ≡ false
    real = ground (arith, ne)

    vector : (pin : ℕ) → pin < 16 → (pin + p.vector_base) % 2 ^ 8 ≡ p.vector_base + pin
    vector pin fits = omega (arith, h)
