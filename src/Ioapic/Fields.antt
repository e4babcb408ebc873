-- ===== src/Ioapic/Fields.antt =====
-- What the setters of a redirection entry in testhelper/ioapic.hpp store, and what its getters read.
use guest_tests.Base.{
  ℕ, ◌/◌, ◌%◌, ◌^◌, ◌<◌, bit_or, ◌≡◌, refl, ap, ◌∙◌, arith, Bool, true, not, ◌==◌, digit,
  bit_and_mask, bit_test, digit-bit_or,
}
use guest_tests.Math.{mask}
use guest_tests.Paging.Entry.{times}
use guest_tests.Paging.Fields.{Replaced, set_bits-Replaced, flag-Replaced}
use guest_tests.Ioapic.{
  DlvMode, dlv_code, fixed, nmi, extint, delivery_mode, set_vector, set_delivery_mode, set_dest,
  set_trigger_mode, set_dst_mode, set_pin_polarity, masked, mask_entry, masked_bit,
}

-- What every setter stores, all other bits being kept.
pub record SetsFields (vec dst : ℕ) (dlv : DlvMode) (flag : Bool) (raw : ℕ) : Type 0 where
  pub stores_vector : Replaced 0 8 vec raw (set_vector vec raw)
  pub stores_delivery_mode : Replaced 8 3 (dlv_code dlv) raw (set_delivery_mode dlv raw)
  pub stores_dst_mode : Replaced 11 1 (times flag 1) raw (set_dst_mode flag raw)
  pub stores_pin_polarity : Replaced 13 1 (times flag 1) raw (set_pin_polarity flag raw)
  pub stores_trigger_mode : Replaced 15 1 (times flag 1) raw (set_trigger_mode flag raw)
  pub stores_dest : Replaced 56 8 dst raw (set_dest dst raw)

stores_mode :
    (dlv : DlvMode) (raw : ℕ) → Replaced 8 3 (dlv_code dlv) raw (set_delivery_mode dlv raw)
unfolding set_delivery_mode mask
stores_mode fixed raw = set_bits-Replaced 8 3 0 raw (omega arith) (omega arith)
stores_mode nmi raw = set_bits-Replaced 8 3 4 raw (omega arith) (omega arith)
stores_mode extint raw = set_bits-Replaced 8 3 7 raw (omega arith) (omega arith)

-- Every setter of a redirection entry stores its field, of a vector and a destination of 8 bits, and
-- keeps the other bits.
pub setters-SetsFields :
    (vec dst : ℕ) (dlv : DlvMode) (flag : Bool) (raw : ℕ)
    → vec < 2 ^ 8
    → dst < 2 ^ 8
    → SetsFields vec dst dlv flag raw
unfolding set_vector set_dest set_trigger_mode set_dst_mode set_pin_polarity mask
setters-SetsFields vec dst dlv flag raw hv hd = record {
  stores_vector = set_bits-Replaced 0 8 vec raw (omega arith) hv;
  stores_delivery_mode = stores_mode dlv raw;
  stores_dst_mode = flag-Replaced 11 raw (2 ^ 11) flag (omega arith) refl;
  stores_pin_polarity = flag-Replaced 13 raw (2 ^ 13) flag (omega arith) refl;
  stores_trigger_mode = flag-Replaced 15 raw (2 ^ 15) flag (omega arith) refl;
  stores_dest = set_bits-Replaced 56 8 dst raw (omega arith) hd;
}

-- The getter of the delivery mode reads two of the three bits that the setter stores: for every entry
-- the mode NMI is read as FIXED, and EXTINT as 3, which is no mode.
pub delivery_mode-set_delivery_mode :
    (dlv : DlvMode) (raw : ℕ) → delivery_mode (set_delivery_mode dlv raw) ≡ dlv_code dlv % 4
unfolding delivery_mode dlv_code
delivery_mode-set_delivery_mode dlv raw =
    bit_and_mask 2 (set_delivery_mode dlv raw / 2 ^ 8)
    ∙ omega (
      arith,
      (stores_mode dlv raw).inside 8 (omega arith) (omega arith),
      (stores_mode dlv raw).inside 9 (omega arith) (omega arith),
    )

pub masked-digit : (raw : ℕ) → masked raw ≡ not (digit raw 16 == 0)
unfolding masked
masked-digit raw = ap not (bit_test raw 16)

pub digit-masked_bit : (raw : ℕ) → digit (bit_or raw masked_bit) 16 ≡ 1
digit-masked_bit raw = omega (arith, digit-bit_or raw masked_bit 16)

pub masked-mask_entry : (raw : ℕ) → masked (mask_entry raw) ≡ true
unfolding mask_entry
masked-mask_entry raw = masked-digit (bit_or raw masked_bit) ∙ rw (digit-masked_bit raw) refl
