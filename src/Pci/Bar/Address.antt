-- ===== src/Pci/Bar/Address.antt =====
-- The address in the base address register of pci/bar.hpp, and what is written when it is set.
use guest_tests.Base.{
  ℕ, ◌+◌, ◌*◌, ◌/◌, ◌%◌, ◌^◌, ◌<◌, ◌≡◌, refl, ap, ap₂, ◌∙◌, arith, bit_and, bit_or, Bool, ◌==◌,
  if◌then◌else◌, Bool-cases, inl, inr, bit_and_mask, bit_and_high, bit_or_fields, bit_or_comm,
  bit_or-zero,
}
use guest_tests.Math.{mask, complement, word}
use guest_tests.Pci.Bar.{Bar, is_64bit, address, set_address, address_mask}

-- A register as its flags in the low four bits, and an address that is a multiple of 16.
abbrev pub bar_of : (flags x hi : ℕ) → Bar
bar_of flags x hi = record { raw = flags + x * 16; raw_hi = hi }

-- The width, by the flags.
abbrev pub is_wide : ℕ → Bool
is_wide flags = flags / 2 % 4 == 2

module _ (flags : ℕ) (small : flags < 16) where
  pub is_64bit-flags : (x hi : ℕ) → is_64bit (bar_of flags x hi) ≡ is_wide flags
  unfolding is_64bit mask
  is_64bit-flags x hi =
      ap (λ t. t == 2) {y = flags / 2 % 4} (bit_and_mask 2 ((flags + x * 16) / 2) ∙ omega arith)

  masked : (x : ℕ) → flags + x * 16 < word → bit_and (flags + x * 16) address_mask ≡ x * 16
  unfolding mask
  masked x h = bit_and_high 64 4 (flags + x * 16) (omega arith) h ∙ omega (arith, small)

  pub address-eq :
      (x hi : ℕ)
      → x * 16 < 2 ^ 32
      → address (bar_of flags x hi) ≡ (if is_wide flags then hi * 2 ^ 32 + x * 16 else x * 16)
  unfolding address
  address-eq x hi h =
      rw (masked x (omega (arith, small)), is_64bit-flags x hi)
        (elim (Bool-cases (is_wide flags)) [
          | inl wide ↦ rw wide (bit_or_comm (x * 16) (hi * 2 ^ 32) ∙ bit_or_fields 32 hi (x * 16) h)
          | inr narrow ↦ rw narrow (bit_or-zero (x * 16))
        ])

  -- What is written to the low half.
  written :
      (x val : ℕ)
      → bit_or
            (bit_and (flags + x * 16) (complement address_mask) % 2 ^ 32)
            (bit_and (val % 2 ^ 32) address_mask)
          % 2 ^ 32
        ≡ flags + val % 2 ^ 32 / 16 * 16
  unfolding mask
  written x val =
      ap₂ (λ a b. bit_or (a % 2 ^ 32) b % 2 ^ 32) {y = flags}
        (bit_and_mask 4 (flags + x * 16) ∙ omega (arith, small))
        (bit_and_high 64 4 (val % 2 ^ 32) (omega arith) (omega arith))
      ∙ ap (λ a. bit_or a (val % 2 ^ 32 / 16 * 16) % 2 ^ 32) {y = flags} (omega (arith, small))
      ∙ ap (λ a. a % 2 ^ 32)
          (bit_or_comm flags (val % 2 ^ 32 / 16 * 16)
            ∙ bit_or_fields 4 (val % 2 ^ 32 / 16) flags small)
      ∙ omega (arith, small)

  module _ (write write_hi : ℕ → ℕ → ℕ) where
    pub set_address-eq :
        (x hi val y : ℕ)
        → write (flags + x * 16) (flags + val % 2 ^ 32 / 16 * 16) ≡ flags + y * 16
        → set_address write write_hi val (bar_of flags x hi)
          ≡ bar_of flags y (if is_wide flags then write_hi hi (val / 2 ^ 32 % 2 ^ 32) else hi)
    unfolding set_address
    set_address-eq x hi val y e = elim (Bool-cases (is_wide flags)) [
      | inl wide ↦ rw (written x val, e, is_64bit-flags y hi, wide) refl
      | inr narrow ↦ rw (written x val, e, is_64bit-flags y hi, narrow) refl
    ]
