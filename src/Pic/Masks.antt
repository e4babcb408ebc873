-- ===== src/Pic/Masks.antt =====
-- What mask and unmask of testhelper/pic.hpp do to the masks of both controllers.
use guest_tests.Base.{
  ℕ, suc, ◌+◌, ◌-◌, ◌*◌, ◌%◌, ◌^◌, ◌≤◌, ◌<◌, min, max, bit_and, bit_or, ◌≡◌, refl, sym, ap, ◌∙◌,
  subst, arith, true, false, ◌==◌, leb, ltb, ltb→lt, if◌then◌else◌, Bool-cases, inl, inr, some,
  digit, digit-bit_and, digit-bit_or, bit_and_mask, digit-low_mask, low_mask, digit-complement,
  digit-shifted, digit-shifted_below, digit_out, two-pow-lt,
}
use guest_tests.Interval.{contains, empty}
use guest_tests.Pic.{
  Pic, is_master_vector, is_slave_vector, mask_master, mask_slave, mask, unmask_master,
  unmask_slave, unmask, cascade_irq,
}

digit_low : (w n i : ℕ) → i < w → digit (n % 2 ^ w) i ≡ digit n i
digit_low w n i h =
    ap (λ t. digit t i) (sym (bit_and_mask w n))
    ∙ digit-bit_and n (low_mask w) i
    ∙ omega (arith, digit-low_mask w i h)

digit_pow : (k i : ℕ) → digit (2 ^ k) i ≡ (if i == k then 1 else 0)
digit_pow k i = elim (Bool-cases (i == k)) [
  | inl same ↦ rw same (
      one
      ∙ digit-shifted k 1 i (ground (arith, same))
      ∙ ap (digit 1) {y = 0} (ground (arith, same)))
  | inr differ ↦ rw differ (
      one ∙ elim (Bool-cases (ltb i k)) [
        | inl below ↦ digit-shifted_below k 1 i (ground (arith, below))
        | inr above ↦
            digit-shifted k 1 i (ground (arith, above))
            ∙ digit_out 1 1 (i - k) (omega arith) (ground (arith, above, differ))
      ])
]
  where
    one : digit (2 ^ k) i ≡ digit (1 * 2 ^ k) i
    one = ap (λ t. digit t i) (omega arith)

set_digit :
    (m k i : ℕ) → i < 8 → digit (bit_or m (2 ^ k) % 2 ^ 8) i ≡ (if i == k then 1 else digit m i)
set_digit m k i h =
    digit_low 8 (bit_or m (2 ^ k)) i h
    ∙ digit-bit_or m (2 ^ k) i
    ∙ ap (max (digit m i)) (digit_pow k i)
    ∙ either
  where
    either : max (digit m i) (if i == k then 1 else 0) ≡ (if i == k then 1 else digit m i)
    either = ground arith

clear_digit :
    (m k i : ℕ)
    → i < 8
    → k < 8
    → digit (bit_and m (2 ^ 32 - 1 - 2 ^ k) % 2 ^ 8) i ≡ (if i == k then 0 else digit m i)
clear_digit m k i h hk =
    digit_low 8 (bit_and m (2 ^ 32 - 1 - 2 ^ k)) i h
    ∙ digit-bit_and m (2 ^ 32 - 1 - 2 ^ k) i
    ∙ ap (min (digit m i)) (
        digit-complement 32 (2 ^ k) i (two-pow-lt k 32 (omega arith)) (omega arith)
        ∙ ap (λ t. 1 - t) (digit_pow k i))
    ∙ either
  where
    either : min (digit m i) (1 - (if i == k then 1 else 0)) ≡ (if i == k then 0 else digit m i)
    either = ground arith

-- The mask of a pin is `value`, and all other pins of both controllers are as before.
pub record PinSet (pin value : ℕ) (p p2 : Pic) : Type 0 where
  pub same_base : p2.vector_base ≡ p.vector_base
  pub master_pins :
      (i : ℕ) → i < 8 → digit p2.master i ≡ (if i == pin then value else digit p.master i)
  pub slave_pins :
      (i : ℕ) → i < 8 → digit p2.slave i ≡ (if i + 8 == pin then value else digit p.slave i)

-- The vectors of the first pins are the master's, the others the slave's.
master_vector :
    (p : Pic) (pin : ℕ)
    → p.vector_base + 16 ≤ 256
    → is_master_vector p (p.vector_base + pin) ≡ ltb pin 8
unfolding is_master_vector contains empty
master_vector p pin h = ground arith

pub slave_vector :
    (p : Pic) (pin : ℕ)
    → p.vector_base + 16 ≤ 256
    → pin < 16
    → is_slave_vector p (p.vector_base + pin) ≡ leb 8 pin
unfolding is_slave_vector contains empty
slave_vector p pin h lt = ground arith

module _ (p : Pic) (pin : ℕ) (h : p.vector_base + 16 ≤ 256) (lt : pin < 16) where
  abbrev masked_low : Pic
  masked_low = record p { master = bit_or p.master (2 ^ pin) % 2 ^ 8 }

  abbrev masked_high : Pic
  masked_high = record p { slave = bit_or p.slave (2 ^ (pin - 8)) % 2 ^ 8 }

  no_base : p.vector_base + pin - p.vector_base ≡ pin
  no_base = omega arith

  mask_low : pin < 8 → mask (p.vector_base + pin) p ≡ masked_low
  unfolding mask mask_master mask_slave
  mask_low below =
      rw (master_vector p pin h, low, no_base, slave_vector masked_low pin h lt, not_high) refl
    where
      low : ltb pin 8 ≡ true
      low = ground (arith, below)

      not_high : leb 8 pin ≡ false
      not_high = ground (arith, below)

  mask_high : 8 ≤ pin → mask (p.vector_base + pin) p ≡ masked_high
  unfolding mask mask_master mask_slave
  mask_high above = rw (master_vector p pin h, not_low, slave_vector p pin h lt, high, no_base) refl
    where
      not_low : ltb pin 8 ≡ false
      not_low = ground (arith, above)

      high : leb 8 pin ≡ true
      high = ground (arith, above)

-- For a base of which the vectors end below 256, mask of the vector of a pin masks this pin and no other.
pub mask-PinSet :
    (p : Pic) (pin : ℕ)
    → p.vector_base + 16 ≤ 256
    → pin < 16
    → PinSet pin 1 p (mask (p.vector_base + pin) p)
mask-PinSet p pin h lt = elim (Bool-cases (ltb pin 8)) [
  | inl low ↦ subst (PinSet pin 1 p) (sym (mask_low p pin h lt (ltb→lt pin 8 low))) (record {
    same_base = refl;
    master_pins = λ i hi. set_digit p.master pin i hi;
    slave_pins = λ i hi. ground (arith, low);
  })
  | inr high ↦ subst (PinSet pin 1 p) (sym (mask_high p pin h lt (ground (arith, high)))) (record {
    same_base = refl;
    master_pins = λ i hi. ground (arith, high);
    slave_pins = λ i hi. set_digit p.slave (pin - 8) i hi ∙ ground (arith, high);
  })
]

cascade_master :
    (p : Pic) → 8 ≤ p.vector_base → p.vector_base + 16 ≤ 256 → unmask_master cascade_irq p ≡ p
unfolding unmask_master
cascade_master p base h = rw outside refl
  where
    outside : is_master_vector p cascade_irq ≡ false
    outside = unfold is_master_vector contains empty in ground (arith, base, h)

cascade_slave :
    (p : Pic) → 8 ≤ p.vector_base → p.vector_base + 16 ≤ 256 → is_slave_vector p cascade_irq ≡ false
unfolding is_slave_vector contains empty
cascade_slave p base h = ground (arith, base, h)

cascade_lem :
    (p : Pic) → 8 ≤ p.vector_base → p.vector_base + 16 ≤ 256 → unmask 1 cascade_irq p ≡ some p
unfolding unmask
cascade_lem p base h = rw (cascade_master p base h, cascade_slave p base h) refl

cascades :
    (fuel vec : ℕ) (p : Pic)
    → is_slave_vector (unmask_master vec p) vec ≡ true
    → unmask (suc fuel) vec p ≡ unmask fuel cascade_irq (unmask_slave vec (unmask_master vec p))
unfolding unmask
cascades fuel vec p e = rw e refl

module _ (p : Pic) (pin : ℕ) (base : 8 ≤ p.vector_base) (h : p.vector_base + 16 ≤ 256)
    (lt : pin < 16) where
  abbrev cleared_low : Pic
  cleared_low = record p { master = bit_and p.master (2 ^ 32 - 1 - 2 ^ pin) % 2 ^ 8 }

  abbrev cleared_high : Pic
  cleared_high = record p { slave = bit_and p.slave (2 ^ 32 - 1 - 2 ^ (pin - 8)) % 2 ^ 8 }

  master_low : ltb pin 8 ≡ true → unmask_master (p.vector_base + pin) p ≡ cleared_low
  unfolding unmask_master
  master_low low =
      rw
        (
          master_vector p pin h,
          low,
          ap (λ k. 2 ^ k) {x = p.vector_base + pin - p.vector_base} {y = pin} (omega arith),
        )
        refl

  master_high : ltb pin 8 ≡ false → unmask_master (p.vector_base + pin) p ≡ p
  unfolding unmask_master
  master_high high = rw (master_vector p pin h, high) refl

  slave_high : unmask_slave (p.vector_base + pin) p ≡ cleared_high
  unfolding unmask_slave
  slave_high =
      rw (ap (λ k. 2 ^ (k - 8)) {x = p.vector_base + pin - p.vector_base} {y = pin} (omega arith))
        refl

  unmask_low : ltb pin 8 ≡ true → unmask 2 (p.vector_base + pin) p ≡ some cleared_low
  unfolding unmask
  unmask_low low = rw (master_low low, slave_vector cleared_low pin h lt, not_high) refl
    where
      not_high : leb 8 pin ≡ false
      not_high = ground (arith, low)

  unmask_high : ltb pin 8 ≡ false → unmask 2 (p.vector_base + pin) p ≡ some cleared_high
  unmask_high high =
      cascades 1 (p.vector_base + pin) p on_slave
      ∙ ap (λ q. unmask 1 cascade_irq (unmask_slave (p.vector_base + pin) q)) (master_high high)
      ∙ ap (unmask 1 cascade_irq) slave_high
      ∙ cascade_lem cleared_high base h
    where
      on_slave :
          is_slave_vector (unmask_master (p.vector_base + pin) p) (p.vector_base + pin) ≡ true
      on_slave = rw (master_high high) (slave_vector p pin h lt ∙ ground (arith, high))

-- For a base above 0, as the constructor allows one, of which the vectors end below 256: unmask of the
-- vector of a pin ends, and unmasks this pin and no other. For a pin of the slave controller the pin
-- of the cascade is another one: it stays masked if it was.
pub unmask-PinSet :
    (p : Pic) (pin : ℕ)
    → 8 ≤ p.vector_base
    → p.vector_base + 16 ≤ 256
    → pin < 16
    → (p2 : Pic) × (unmask 2 (p.vector_base + pin) p ≡ some p2) × PinSet pin 0 p p2
unmask-PinSet p pin base h lt = elim (Bool-cases (ltb pin 8)) [
  | inl low ↦ (
    cleared_low p pin base h lt,
    unmask_low p pin base h lt low,
    record {
      same_base = refl;
      master_pins = λ i hi. clear_digit p.master pin i hi (ltb→lt pin 8 low);
      slave_pins = λ i hi. ground (arith, low);
    },
  )
  | inr high ↦ (
    cleared_high p pin base h lt,
    unmask_high p pin base h lt high,
    record {
      same_base = refl;
      master_pins = λ i hi. ground (arith, high);
      slave_pins =
          λ i hi. clear_digit p.slave (pin - 8) i hi (ground (arith, high)) ∙ ground (arith, high);
    },
  )
]
