-- ===== src/Segments.antt =====
-- `gdt_entry` of src/lib/toyos/include/toyos/x86/segmentation.hpp, a segment descriptor as its two
-- 64-bit values, and what `init_tss` of src/lib/toyos/src/boot.cpp stores in the descriptor of the
-- task state segment. Where the source takes the lowest bits of a value as they are, the shift by 0 is
-- written out. Where that descriptor is found, and loading the task register, are left out.
pub mod Pieces
pub mod Fields
pub mod Setters
pub mod Kept
pub mod Tss
use guest_tests.Base.{
  ℕ, ◌+◌, ◌-◌, ◌*◌, ◌/◌, ◌%◌, ◌^◌, bit_and, bit_or, Bool, true, false, not, ◌&&◌, if◌then◌else◌,
}
use guest_tests.Math.{mask, complement}
use guest_tests.Paging.Entry.{set_bits, has, times}

pub record GdtEntry : Type 0 where
  pub raw : ℕ
  pub raw_high : ℕ

abbrev pub ar_x : ℕ
ar_x = 2 ^ 3

abbrev pub ar_s : ℕ
ar_s = 2 ^ 4

abbrev pub ar_p : ℕ
ar_p = 2 ^ 7

abbrev pub ar_g : ℕ
ar_g = 2 ^ 11

abbrev pub tss_64bit_avail : ℕ
tss_64bit_avail = 9

-- The getters that read the first value only.
unfoldable pub ar : ℕ → ℕ
ar raw = bit_or (bit_and (raw / 2 ^ 40) (mask 8 0)) (bit_and (raw / 2 ^ 52) (mask 4 0) * 2 ^ 8)

unfoldable pub g : ℕ → Bool
unfolding ar
g raw = has (ar raw) ar_g

unfoldable pub system : ℕ → Bool
unfolding ar
system raw = not (has (ar raw) ar_s)

unfoldable pub present : ℕ → Bool
unfolding ar
present raw = has (ar raw) ar_p

unfoldable pub is_code : ℕ → Bool
unfolding ar system
is_code raw = not (system raw) && has (ar raw) ar_x

unfoldable pub type : ℕ → ℕ
unfolding ar
type raw = bit_and (ar raw) (mask 4 0)

-- `lim` of `limit`, before the unit.
unfoldable pub raw_limit : ℕ → ℕ
raw_limit raw =
    bit_or (bit_and (raw / 2 ^ 0) (mask 16 0)) (bit_and (raw / 2 ^ 48) (mask 4 0) * 2 ^ 16)

unfoldable pub limit : ℕ → ℕ
unfolding raw_limit g system
limit raw =
    if g raw && not (system raw)
    then (raw_limit raw * 2 ^ 12 + 2 ^ 12 - 1) % 2 ^ 32
    else raw_limit raw

unfoldable pub base32 : ℕ → ℕ
base32 raw =
    bit_or
      (bit_or (bit_and (raw / 2 ^ 16) (mask 16 0)) (bit_and (raw / 2 ^ 32) (mask 8 0) * 2 ^ 16))
      (bit_and (raw / 2 ^ 56) (mask 8 0) * 2 ^ 24)

unfoldable pub base : GdtEntry → ℕ
unfolding base32 g system
base e =
    if g e.raw && system e.raw
    then bit_or (base32 e.raw) (bit_and e.raw_high (mask 32 0) * 2 ^ 32)
    else base32 e.raw

-- The setters.
unfoldable pub set_ar : ℕ → ℕ → ℕ
set_ar value raw =
    bit_or
      (bit_or (bit_and (bit_and raw (complement (mask 8 40))) (complement (mask 4 52)))
        (bit_and (value / 2 ^ 0) (mask 8 0) * 2 ^ 40))
      (bit_and (value / 2 ^ 8) (mask 4 0) * 2 ^ 52)

-- The result is a `uint16_t`.
unfoldable pub set_bit : ℕ → Bool → ℕ → ℕ
set_bit value bit_state bit_nr = set_bits value (2 ^ bit_nr) (times bit_state (2 ^ bit_nr)) % 2 ^ 16

unfoldable pub set_g : Bool → ℕ → ℕ
set_g b raw = set_ar (set_bit (ar raw) b 11) raw

unfoldable pub set_system : Bool → ℕ → ℕ
set_system s raw = set_ar (set_bit (ar raw) (not s) 4) raw

unfoldable pub set_present : Bool → ℕ → ℕ
set_present p raw = set_ar (set_bit (ar raw) p 7) raw

unfoldable pub set_type : ℕ → ℕ → ℕ
set_type t raw = set_ar (set_bits (ar raw) (mask 4 0) t % 2 ^ 16) raw

unfoldable pub set_limit : ℕ → ℕ → ℕ
set_limit l raw =
    bit_or
      (bit_or (bit_and raw (complement (bit_or (mask 16 0) (mask 4 48))))
        (bit_and (l / 2 ^ 0) (mask 16 0) * 2 ^ 0))
      (bit_and (l / 2 ^ 16) (mask 4 0) * 2 ^ 48)

-- The part of the base in the first value.
unfoldable pub set_base_raw : ℕ → ℕ → ℕ
set_base_raw addr raw =
    bit_or (bit_and raw (complement (bit_or (bit_or (mask 16 16) (mask 8 32)) (mask 8 56)))) (
      bit_or
        (bit_or (bit_and (addr / 2 ^ 0) (mask 16 0) * 2 ^ 16)
          (bit_and (addr / 2 ^ 16) (mask 8 0) * 2 ^ 32))
        (bit_and (addr / 2 ^ 24) (mask 8 0) * 2 ^ 56))

unfoldable pub set_base : ℕ → GdtEntry → GdtEntry
unfolding set_base_raw g system
set_base addr e =
    let raw2 = set_base_raw addr e.raw in
    record {
      raw = raw2;
      raw_high =
          if g raw2 && system raw2
          then set_bits e.raw_high (mask 32 0) (bit_and (addr / 2 ^ 32) (mask 32 0) * 2 ^ 0)
          else e.raw_high;
    }

-- The descriptor that `init_tss` leaves: `tss` is the address of the segment, of 104 bytes.
unfoldable pub init_tss : ℕ → GdtEntry → GdtEntry
unfolding set_base
init_tss tss e =
    let e2 = set_base tss (record e { raw = set_g false (set_system true e.raw) }) in
    record e2 { raw = set_type tss_64bit_avail (set_present true (set_limit 104 e2.raw)) }
