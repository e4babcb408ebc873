-- ===== src/Pci/Bar.antt =====
-- src/lib/toyos/include/toyos/pci/bar.hpp: a base address register. What the device keeps of a value
-- that is written to each half is a parameter, as the functions for the accesses are in the source.
pub mod Address
pub mod Size
use guest_tests.Base.{ℕ, ◌+◌, ◌-◌, ◌*◌, ◌/◌, ◌%◌, ◌^◌, bit_and, bit_or, Bool, ◌==◌, if◌then◌else◌}
use guest_tests.Math.{mask, complement, word}

pub record Bar : Type 0 where
  pub raw : ℕ
  pub raw_hi : ℕ

abbrev pub address_mask : ℕ
address_mask = complement (mask 4 0)

-- `width::BIT64` is 2.
unfoldable pub is_64bit : Bar → Bool
is_64bit b = bit_and (b.raw / 2 ^ 1) (mask 2 0) == 2

unfoldable pub is_mem : Bar → Bool
is_mem b = bit_and b.raw 0x1 == 0

unfoldable pub is_pio : Bar → Bool
is_pio b = bit_and b.raw 0x1 == 1

unfoldable pub address : Bar → ℕ
address b = bit_or (bit_and b.raw address_mask) (if is_64bit b then b.raw_hi * 2 ^ 32 else 0)

module _ (write write_hi : ℕ → ℕ → ℕ) where
  unfoldable pub set_address : ℕ → Bar → Bar
  set_address val b =
      let kept = bit_and b.raw (complement address_mask) % 2 ^ 32 in
      let new_raw = bit_or kept (bit_and (val % 2 ^ 32) address_mask) % 2 ^ 32 in
      let low = record b { raw = write b.raw new_raw } in
      if is_64bit low
      then record low { raw_hi = write_hi b.raw_hi (val / 2 ^ 32 % 2 ^ 32) }
      else low

  -- The size, and the register then.
  unfoldable pub bar_size : Bar → ℕ × Bar
  bar_size b =
      let orig_val = address b in
      let probed = set_address (mask 64 0) b in
      let new_val = address probed in
      (bit_and ((complement new_val + 1) % word) new_val, set_address orig_val probed)
