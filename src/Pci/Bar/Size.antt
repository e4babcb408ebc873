-- ===== src/Pci/Bar/Size.antt =====
-- What `bar_size` of pci/bar.hpp answers when a device decodes `2 ^ k` bytes: it keeps the address bits
-- from `k` on, and its flags.
use guest_tests.Base.{
  ℕ, zero, suc, less_one, ◌+◌, ◌-◌, ◌*◌, ◌/◌, ◌%◌, ◌^◌, ◌≤◌, ◌<◌, ◌≡◌, refl, sym, ap, ap₂, ◌∙◌,
  arith, bit_and, if◌then◌else◌, Bool-cases, inl, inr, low_mask, bit_and_field, two-pow-add,
  two-pow-pos, two-pow-le, div_unique, mod_unique,
}
use guest_tests.Math.{mask, complement, word}
use guest_tests.Pci.Bar.{Bar, set_address, bar_size}
use guest_tests.Pci.Bar.Address.{bar_of, is_wide, address-eq, set_address-eq}

one_block_less : (a b : ℕ) → 0 < a → (a - 1) * b + b ≡ a * b
one_block_less zero b h = absurd (omega arith)
one_block_less (suc a) b h = ap (λ t. t * b + b) (less_one a) ∙ grind arith

-- `2 ^ k` bytes, `4 ≤ k < 32`.
module _ (k : ℕ) (low : 4 ≤ k) (high : k < 32) where
  abbrev n : ℕ
  n = 2 ^ k

  abbrev p : ℕ
  p = 2 ^ (k - 4)

  abbrev q : ℕ
  q = low_mask (32 - k)

  n_split : n ≡ p * 16
  n_split = ap (λ t. 2 ^ t) {y = k - 4 + 4} (omega (arith, low)) ∙ two-pow-add (k - 4) 4

  blocks : 2 ^ (32 - k) * n ≡ 2 ^ 32
  blocks =
      sym (two-pow-add (32 - k) k) ∙ ap (λ t. 2 ^ t) {x = 32 - k + k} {y = 32} (omega (arith, high))

  q_n : q * n + n ≡ 2 ^ 32
  q_n = one_block_less (2 ^ (32 - k)) n (two-pow-pos (32 - k)) ∙ blocks

  q_pos : 0 < q
  q_pos = omega (arith, two-pow-le 1 (32 - k) (omega (arith, high)))

  q_p : q * n ≡ q * p * 16
  q_p = ap (λ t. q * t) n_split ∙ grind arith

  -- What the device keeps of all ones.
  ones_kept : (flags : ℕ) → flags < 16 → (flags + (2 ^ 32 - 16)) / n * n ≡ q * n
  ones_kept flags h =
      ap (λ t. t * n)
        (div_unique (flags + (2 ^ 32 - 16)) q n (n - 16 + flags)
          (omega (arith, q_n, n_split, two-pow-pos (k - 4), h))
          (omega (arith, n_split, two-pow-pos (k - 4), h)))

  -- The two's complement of the address mask, in 64 bits, and the mask have one bit in common.
  size_narrow : bit_and (word - q * n) (q * n) ≡ n
  size_narrow =
      bit_and_field k (32 - k) (word - q * n)
      ∙ ap (λ t. t % 2 ^ (32 - k) * n) quotient
      ∙ ap (λ t. t * n)
          (mod_unique (2 ^ (32 - k) * (2 ^ 32 - 1) + 1) (2 ^ 32 - 1) (2 ^ (32 - k)) 1 (grind arith)
            (omega (arith, q_pos)))
      ∙ omega arith
    where
      product : (2 ^ (32 - k) * (2 ^ 32 - 1) + 1) * n ≡ 2 ^ 32 * (2 ^ 32 - 1) + n
      product = grind (arith, blocks)

      quotient : (word - q * n) / n ≡ 2 ^ (32 - k) * (2 ^ 32 - 1) + 1
      quotient =
          div_unique (word - q * n) (2 ^ (32 - k) * (2 ^ 32 - 1) + 1) n 0
            (omega (arith, q_n, product)) (two-pow-pos k)

  size_wide : bit_and n (word - n) ≡ n
  size_wide =
      ap (bit_and n) upper
      ∙ bit_and_field k (64 - k) n
      ∙ ap (λ t. t % 2 ^ (64 - k) * n) (div_unique n 1 n 0 (omega arith) (two-pow-pos k))
      ∙ ap (λ t. t * n)
          (mod_unique 1 0 (2 ^ (64 - k)) 1 (omega arith)
            (omega (arith, two-pow-le 1 (64 - k) (omega (arith, high)))))
      ∙ omega arith
    where
      all_blocks : 2 ^ (64 - k) * n ≡ word
      all_blocks =
          sym (two-pow-add (64 - k) k)
          ∙ ap (λ t. 2 ^ t) {x = 64 - k + k} {y = 64} (omega (arith, high))

      upper : word - n ≡ low_mask (64 - k) * n
      upper = omega (arith, all_blocks, one_block_less (2 ^ (64 - k)) n (two-pow-pos (64 - k)))

  -- The device: what it keeps of a value in the low half, and in the high one.
  module _ (flags m hi : ℕ) (small : flags < 16) (fits : m * p * 16 < 2 ^ 32)
      (hi_fits : hi < 2 ^ 32) (write write_hi : ℕ → ℕ → ℕ)
      (keeps : (old v : ℕ) → write old v ≡ flags + v / n * n)
      (keeps_hi : (old v : ℕ) → write_hi old v ≡ v) where
    abbrev register : Bar
    register = bar_of flags (m * p) hi

    probed :
        set_address write write_hi (mask 64 0) register
        ≡ bar_of flags (q * p) (if is_wide flags then 2 ^ 32 - 1 else hi)
    unfolding mask
    probed =
        set_address-eq flags small write write_hi (m * p) hi (word - 1) (q * p)
          (keeps _ _ ∙ ap (λ t. flags + t) (ones_kept flags small ∙ q_p))
        ∙ ap (λ t. bar_of flags (q * p) (if is_wide flags then t else hi))
            (keeps_hi hi (2 ^ 32 - 1))

    restored :
        (val hi2 : ℕ)
        → val % 2 ^ 32 ≡ m * p * 16
        → set_address write write_hi val (bar_of flags (q * p) hi2)
          ≡ bar_of flags (m * p) (if is_wide flags then val / 2 ^ 32 % 2 ^ 32 else hi2)
    restored val hi2 e =
        set_address-eq flags small write write_hi (q * p) hi2 val (m * p)
          (keeps _ _ ∙ ap (λ t. flags + t) whole)
        ∙ ap (λ t. bar_of flags (m * p) (if is_wide flags then t else hi2)) (keeps_hi hi2 _)
      where
        m_n : m * n ≡ m * p * 16
        m_n = ap (λ t. m * t) n_split ∙ grind arith

        whole : (flags + val % 2 ^ 32 / 16 * 16) / n * n ≡ m * p * 16
        whole =
            ap (λ t. t * n)
              (div_unique (flags + val % 2 ^ 32 / 16 * 16) m n flags (omega (arith, e, m_n))
                (omega (arith, n_split, two-pow-pos (k - 4), small)))
            ∙ m_n

    q_fits : q * p * 16 < 2 ^ 32
    q_fits = omega (arith, q_p, q_n, two-pow-pos k)

    -- The answer to a probe that reads `new_val`.
    abbrev answer : ℕ → ℕ
    answer new_val = bit_and ((complement new_val + 1) % word) new_val

    answer-narrow : answer (q * p * 16) ≡ n
    answer-narrow =
        ap₂ bit_and {x = (complement (q * p * 16) + 1) % word} {y = word - q * n} {u = q * p * 16}
          {v = q * n} (omega (arith, q_p, q_n, two-pow-pos k, q_large)) (sym q_p)
        ∙ size_narrow
      where
        q_large : 1 ≤ q * n
        q_large = grind (arith, q_pos, two-pow-pos k)

    answer-wide : answer ((2 ^ 32 - 1) * 2 ^ 32 + q * p * 16) ≡ n
    answer-wide =
        ap₂ bit_and {x = (complement ((2 ^ 32 - 1) * 2 ^ 32 + q * p * 16) + 1) % word} {y = n}
          {u = (2 ^ 32 - 1) * 2 ^ 32 + q * p * 16} {v = word - n}
          (omega (arith, q_p, q_n, two-pow-pos k)) (omega (arith, q_p, q_n))
        ∙ size_wide

    -- For a device that decodes `2 ^ k` bytes with 4 ≤ k < 32, keeps the flags in the low four bits and the
    -- address bits from `k` on, and a register that holds an address that it can hold: bar_size answers
    -- `2 ^ k`, for 32-bit and for 64-bit registers, and leaves the register as it was.
    pub bar_size-restores : bar_size write write_hi register ≡ (2 ^ k, register)
    unfolding bar_size
    bar_size-restores = elim (Bool-cases (is_wide flags)) [
      | inl wide ↦
          rw
            (
              probed,
              address-eq flags small (m * p) hi fits,
              wide,
              address-eq flags small (q * p) (2 ^ 32 - 1) q_fits,
              wide,
            )
            (ap₂ (λ a b. (a, b)) answer-wide
              (restored (hi * 2 ^ 32 + m * p * 16) (2 ^ 32 - 1) (omega (arith, fits))
                ∙ ap (bar_of flags (m * p)) (rw wide (omega (arith, fits, hi_fits)))))
      | inr narrow ↦
          rw
            (
              probed,
              address-eq flags small (m * p) hi fits,
              narrow,
              address-eq flags small (q * p) hi q_fits,
              narrow,
            )
            (ap₂ (λ a b. (a, b)) answer-narrow
              (restored (m * p * 16) hi (omega (arith, fits))
                ∙ ap (bar_of flags (m * p)) (rw narrow refl)))
    ]
