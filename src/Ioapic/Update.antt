-- ===== src/Ioapic/Update.antt =====
-- Writing redirection entries through `set_irt` of testhelper/ioapic.hpp.
use guest_tests.Base.{
  ℕ, ◌+◌, ◌-◌, ◌*◌, ◌/◌, ◌%◌, ◌^◌, ◌<◌, ◌≤◌, bit_and, bit_or, ◌≡◌, ◌≢◌, refl, ap, ◌∙◌, sym, arith,
  Bool, true, ◌||◌, ◌&&◌, ◌==◌, ltb, leb, digit, bit_and_mask, bit_or_lt, digit-bit_or,
  digit-shifted, digit-shifted_below, digit_out, digit-mod, digit-div,
}
use native.Mathlib.Decide.{dec_lt}
use guest_tests.Math.{mask}
use guest_tests.Ioapic.{
  Device, Entry, InTable, keeps_bit, masked, masked_bit, version_reg, reg_lo, reg_hi, max_irt,
  get_irt, mask_first, write_high, write_low, set_irt,
}
use guest_tests.Ioapic.Fields.{masked-digit, digit-masked_bit}

-- The bits of an entry that are settings: vector, modes, polarity, trigger, mask and destination.
abbrev pub is_setting : ℕ → Bool
is_setting k = ltb k 12 || (k == 13 || (k == 15 || (k == 16 || (leb 56 k && ltb k 64))))

abbrev pub SameSettings : ℕ → ℕ → Type 0
SameSettings a b = (k : ℕ) → is_setting k ≡ true → digit a k ≡ digit b k

low_keeps : (idx k : ℕ) → is_setting k ≡ true → k < 32 → keeps_bit (reg_lo idx) k ≡ true
low_keeps idx k h lt = ground arith

high_keeps : (idx k : ℕ) → is_setting k ≡ true → 32 ≤ k → keeps_bit (reg_hi idx) (k - 32) ≡ true
high_keeps idx k h ge = ground arith

module _ (d : Device) where
  open d use {State, read_reg, write_reg, reads_word, stores, leaves_others, leaves_version}

  low-digit :
      (s : State) (idx k : ℕ)
      → k < 32
      → digit (get_irt d s idx).raw k ≡ digit (read_reg s (reg_lo idx)) k
  unfolding get_irt
  low-digit s idx k h = omega (
    arith,
    digit-bit_or (read_reg s (reg_hi idx) * 2 ^ 32) (read_reg s (reg_lo idx)) k,
    digit-shifted_below 32 (read_reg s (reg_hi idx)) k h,
  )

  high-digit :
      (s : State) (idx k : ℕ)
      → 32 ≤ k
      → digit (get_irt d s idx).raw k ≡ digit (read_reg s (reg_hi idx)) (k - 32)
  unfolding get_irt
  high-digit s idx k h = omega (
    arith,
    digit-bit_or (read_reg s (reg_hi idx) * 2 ^ 32) (read_reg s (reg_lo idx)) k,
    digit-shifted 32 (read_reg s (reg_hi idx)) k h,
    digit_out (read_reg s (reg_lo idx)) 32 k (reads_word s (reg_lo idx)) h,
  )

  -- The settings of an entry follow from the bits that its two registers keep.
  same_settings :
      (s : State) (idx raw : ℕ)
      → ((k : ℕ)
          → k < 32
          → keeps_bit (reg_lo idx) k ≡ true
          → digit (read_reg s (reg_lo idx)) k ≡ digit raw k)
      → ((k : ℕ)
          → keeps_bit (reg_hi idx) k ≡ true
          → digit (read_reg s (reg_hi idx)) k ≡ digit raw (32 + k))
      → SameSettings (get_irt d s idx).raw raw
  same_settings s idx raw low high k h = elim (dec_lt k 32) [
    | yes lt ↦ low-digit s idx k lt ∙ low k lt (low_keeps idx k h lt)
    | no ge ↦
        high-digit s idx k (omega arith)
        ∙ high (k - 32) (high_keeps idx k h (omega arith))
        ∙ ap (digit raw) {x = 32 + (k - 32)} {y = k} (omega arith)
  ]

  -- An update of an entry that the device has.
  module _ (e : Entry) (s : State) (there : e.index ≤ max_irt d s) where
    abbrev first : State
    first = mask_first d e s

    abbrev second : State
    second = write_high d e first

    abbrev third : State
    third = set_irt d e s

    lo_in : InTable (read_reg s version_reg) (reg_lo e.index)
    unfolding max_irt
    lo_in = (omega arith, omega (arith, there))

    hi_in : InTable (read_reg s version_reg) (reg_hi e.index)
    unfolding max_irt
    hi_in = (omega arith, omega (arith, there))

    first_version : read_reg first version_reg ≡ read_reg s version_reg
    unfolding mask_first
    first_version =
        leaves_version s (reg_lo e.index) (bit_or (read_reg s (reg_lo e.index)) masked_bit) lo_in

    second_version : read_reg second version_reg ≡ read_reg s version_reg
    unfolding write_high
    second_version =
        leaves_version first (reg_hi e.index) (e.raw / 2 ^ 32 % 2 ^ 32) (rw first_version hi_in)
        ∙ first_version

    pub third_version : read_reg third version_reg ≡ read_reg s version_reg
    unfolding set_irt write_low
    third_version =
        leaves_version second (reg_lo e.index) (bit_and e.raw (mask 32 0)) (rw second_version lo_in)
        ∙ second_version

    first_masked : digit (read_reg first (reg_lo e.index)) 16 ≡ 1
    unfolding mask_first
    first_masked =
        stores s (reg_lo e.index) (bit_or (read_reg s (reg_lo e.index)) masked_bit) 16 lo_in
          (bit_or_lt 32 (read_reg s (reg_lo e.index)) masked_bit (reads_word s (reg_lo e.index))
            (omega arith))
          (ground arith)
        ∙ digit-masked_bit (read_reg s (reg_lo e.index))

    second_masked : digit (read_reg second (reg_lo e.index)) 16 ≡ 1
    unfolding write_high
    second_masked =
        leaves_others first (reg_hi e.index) (e.raw / 2 ^ 32 % 2 ^ 32) (reg_lo e.index) 16
          (rw first_version hi_in) (rw first_version lo_in) (omega arith) (ground arith)
        ∙ first_masked

    low_written :
        (k : ℕ)
        → k < 32
        → keeps_bit (reg_lo e.index) k ≡ true
        → digit (read_reg third (reg_lo e.index)) k ≡ digit e.raw k
    unfolding set_irt write_low mask
    low_written k lt keeps =
        stores second (reg_lo e.index) (bit_and e.raw (mask 32 0)) k (rw second_version lo_in)
          (omega (arith, bit_and_mask 32 e.raw)) keeps
        ∙ ap (λ v. digit v k) (bit_and_mask 32 e.raw)
        ∙ digit-mod 32 e.raw k lt

    high_written :
        (k : ℕ)
        → keeps_bit (reg_hi e.index) k ≡ true
        → digit (read_reg third (reg_hi e.index)) k ≡ digit e.raw (32 + k)
    unfolding set_irt write_low write_high
    high_written k keeps =
        leaves_others second (reg_lo e.index) (bit_and e.raw (mask 32 0)) (reg_hi e.index) k
          (rw second_version lo_in) (rw second_version hi_in) (omega arith) keeps
        ∙ stores first (reg_hi e.index) (e.raw / 2 ^ 32 % 2 ^ 32) k (rw first_version hi_in)
            (omega arith) keeps
        ∙ digit-mod 32 (e.raw / 2 ^ 32) k (ground (arith, keeps))
        ∙ digit-div e.raw 32 k

    left :
        (q k : ℕ)
        → InTable (read_reg s version_reg) q
        → reg_lo e.index ≢ q
        → reg_hi e.index ≢ q
        → keeps_bit q k ≡ true
        → digit (read_reg third q) k ≡ digit (read_reg s q) k
    unfolding set_irt write_low write_high mask_first
    left q k q_in not_low not_high keeps =
        leaves_others second (reg_lo e.index) (bit_and e.raw (mask 32 0)) q k
          (rw second_version lo_in) (rw second_version q_in) not_low keeps
        ∙ leaves_others first (reg_hi e.index) (e.raw / 2 ^ 32 % 2 ^ 32) q k
            (rw first_version hi_in) (rw first_version q_in) not_high keeps
        ∙ leaves_others s (reg_lo e.index) (bit_or (read_reg s (reg_lo e.index)) masked_bit) q k
            lo_in q_in not_low keeps

    others_left :
        (j : ℕ)
        → j ≢ e.index
        → j ≤ max_irt d s
        → SameSettings (get_irt d third j).raw (get_irt d s j).raw
    unfolding max_irt
    others_left j other le =
        same_settings third j (get_irt d s j).raw
          (λ k lt keeps.
            left (reg_lo j) k (omega arith, omega (arith, le)) (ground (arith, other))
              (ground arith) keeps
            ∙ sym (low-digit s j k lt))
          (λ k keeps.
            left (reg_hi j) k (omega arith, omega (arith, le)) (ground arith)
              (ground (arith, other)) keeps
            ∙ sym (
                high-digit s j (32 + k) (omega arith)
                ∙ ap (digit (read_reg s (reg_hi j))) {x = 32 + k - 32} {y = k} (omega arith)))

  pub masked_by_digit :
      (s : State) (idx : ℕ)
      → digit (get_irt d s idx).raw 16 ≡ 1
      → masked (get_irt d s idx).raw ≡ true
  masked_by_digit s idx e = masked-digit (get_irt d s idx).raw ∙ rw e refl

  -- An update writes all settings of the entry, leaves those of the other entries and the version, and
  -- keeps the entry masked until its last write.
  pub record Updated (e : Entry) (s : State) : Type 0 where
    pub reads_back : SameSettings (get_irt d (set_irt d e s) e.index).raw e.raw
    pub keeps_others :
        (j : ℕ)
        → j ≢ e.index
        → j ≤ max_irt d s
        → SameSettings (get_irt d (set_irt d e s) j).raw (get_irt d s j).raw
    pub keeps_size : max_irt d (set_irt d e s) ≡ max_irt d s
    pub masked_first : masked (get_irt d (mask_first d e s) e.index).raw ≡ true
    pub masked_second : masked (get_irt d (write_high d e (mask_first d e s)) e.index).raw ≡ true

  -- For an entry that the device has: behind set_irt get_irt answers its settings, which are all its
  -- bits but the states of delivery and the reserved ones; the settings of the other entries and the
  -- greatest index are as before; and until the last of the three writes the entry is masked.
  pub set_irt-Updated : (e : Entry) (s : State) → e.index ≤ max_irt d s → Updated e s
  unfolding max_irt
  set_irt-Updated e s there = record {
    reads_back =
        same_settings (third e s there) e.index e.raw (low_written e s there)
          (high_written e s there);
    keeps_others = others_left e s there;
    keeps_size = ap (λ v. v / 2 ^ 16 % 2 ^ 8) (third_version e s there);
    masked_first =
        masked_by_digit (first e s there) e.index
          (low-digit (first e s there) e.index 16 (omega arith) ∙ first_masked e s there);
    masked_second =
        masked_by_digit (second e s there) e.index
          (low-digit (second e s there) e.index 16 (omega arith) ∙ second_masked e s there);
  }
