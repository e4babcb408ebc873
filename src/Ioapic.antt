-- ===== src/Ioapic.antt =====
-- src/lib/toyos/include/toyos/testhelper/ioapic.hpp, and `init_interrupt_controllers` of
-- src/lib/toyos/src/boot.cpp. A redirection entry is its index and its 64-bit value. What the device
-- does behind its pair of registers is a parameter.
pub mod Fields
pub mod Update
pub mod Init
use guest_tests.Base.{
  ℕ, zero, suc, ◌+◌, ◌-◌, ◌*◌, ◌/◌, ◌%◌, ◌^◌, ◌<◌, ◌≤◌, bit_and, bit_or, ◌≡◌, ◌≢◌, digit, Bool,
  true, false, not, ◌&&◌, ◌||◌, ◌==◌, leb, ltb, if◌then◌else◌,
}
use guest_tests.Math.{mask, complement}
use guest_tests.Paging.Entry.{set_bits, has, times}

abbrev pub version_reg : ℕ
version_reg = 1

abbrev pub reg_lo : ℕ → ℕ
reg_lo idx = 16 + idx * 2

abbrev pub reg_hi : ℕ → ℕ
reg_hi idx = 16 + idx * 2 + 1

-- The bits of a redirection register that keep what is written: in a low one all fields but the two
-- states of delivery (bits 12 and 14), in a high one the destination. The others are reserved.
abbrev pub keeps_bit : ℕ → ℕ → Bool
keeps_bit r k =
    if r % 2 == 0 then (ltb k 12 || (k == 13 || (k == 15 || k == 16))) else (leb 24 k && ltb k 32)

-- A redirection register that a device with this value of the version register has.
abbrev pub InTable : ℕ → ℕ → Type 0
InTable version r = (16 ≤ r) × (r < 18 + 2 * (version / 2 ^ 16 % 2 ^ 8))

-- The registers by their index. A write to a redirection register stores the bits that it keeps, and
-- leaves those of the other redirection registers and the version as they are. Nothing is said of
-- the other bits, of which the state of delivery changes by itself.
pub record Device : Type 1 where
  pub State : Type 0
  pub read_reg : State → ℕ → ℕ
  pub write_reg : State → ℕ → ℕ → State
  pub reads_word : (s : State) (r : ℕ) → read_reg s r < 2 ^ 32
  pub stores :
      (s : State) (r v k : ℕ)
      → InTable (read_reg s version_reg) r
      → v < 2 ^ 32
      → keeps_bit r k ≡ true
      → digit (read_reg (write_reg s r v) r) k ≡ digit v k
  pub leaves_others :
      (s : State) (r v q k : ℕ)
      → InTable (read_reg s version_reg) r
      → InTable (read_reg s version_reg) q
      → r ≢ q
      → keeps_bit q k ≡ true
      → digit (read_reg (write_reg s r v) q) k ≡ digit (read_reg s q) k
  pub leaves_version :
      (s : State) (r v : ℕ)
      → InTable (read_reg s version_reg) r
      → read_reg (write_reg s r v) version_reg ≡ read_reg s version_reg

pub data DlvMode : Type 0 where
  fixed : DlvMode
  nmi : DlvMode
  extint : DlvMode

unfoldable pub dlv_code : DlvMode → ℕ
dlv_code fixed = 0
dlv_code nmi = 4
dlv_code extint = 7

abbrev pub dlv_mode_bits : ℕ
dlv_mode_bits = 3

abbrev pub dest_mode_shift : ℕ
dest_mode_shift = 2 ^ 11

abbrev pub pin_polarity_shift : ℕ
pin_polarity_shift = 2 ^ 13

abbrev pub remote_irr_bit : ℕ
remote_irr_bit = 2 ^ 14

abbrev pub trigger_mode : ℕ
trigger_mode = 2 ^ 15

abbrev pub masked_bit : ℕ
masked_bit = 2 ^ 16

pub record Entry : Type 0 where
  pub index : ℕ
  pub raw : ℕ

-- The getters, on the raw value.
unfoldable pub delivery_mode : ℕ → ℕ
delivery_mode raw = bit_and (raw / 2 ^ 8) dlv_mode_bits

unfoldable pub vector : ℕ → ℕ
vector raw = raw % 2 ^ 8

unfoldable pub active_low : ℕ → Bool
active_low raw = has raw pin_polarity_shift

unfoldable pub remote_irr : ℕ → Bool
remote_irr raw = has raw remote_irr_bit

unfoldable pub masked : ℕ → Bool
masked raw = has raw masked_bit

unfoldable pub dest : ℕ → ℕ
dest raw = raw / 2 ^ 56 % 2 ^ 8

-- The setters. An enumeration of two values is a Bool, true for the one that is 1.
unfoldable pub set_vector : ℕ → ℕ → ℕ
set_vector vec raw = set_bits raw (mask 8 0) (vec * 2 ^ 0)

unfoldable pub set_delivery_mode : DlvMode → ℕ → ℕ
unfolding dlv_code
set_delivery_mode dlv raw =
    set_bits raw (mask dlv_mode_bits 8) (bit_and (dlv_code dlv) (mask dlv_mode_bits 0) * 2 ^ 8)

unfoldable pub set_dest : ℕ → ℕ → ℕ
set_dest dst raw = set_bits raw (mask 8 56) (dst * 2 ^ 56)

unfoldable pub set_trigger_mode : Bool → ℕ → ℕ
set_trigger_mode level raw = set_bits raw trigger_mode (times level trigger_mode)

unfoldable pub set_dst_mode : Bool → ℕ → ℕ
set_dst_mode logical raw = set_bits raw dest_mode_shift (times logical dest_mode_shift)

unfoldable pub set_pin_polarity : Bool → ℕ → ℕ
set_pin_polarity low raw = set_bits raw pin_polarity_shift (times low pin_polarity_shift)

unfoldable pub mask_entry : ℕ → ℕ
mask_entry raw = bit_or raw masked_bit

unfoldable pub unmask : ℕ → ℕ
unmask raw = bit_and raw (complement masked_bit)

unfoldable pub set_active_low : ℕ → ℕ
set_active_low raw = bit_or raw pin_polarity_shift

unfoldable pub set_active_high : ℕ → ℕ
set_active_high raw = bit_and raw (complement pin_polarity_shift)

-- The constructor from the parts.
unfoldable pub redirection_entry : ℕ → ℕ → ℕ → DlvMode → Bool → Bool → Bool → Entry
redirection_entry pin vec dst dlv level low logical = record {
  index = pin;
  raw = unmask (
      set_pin_polarity low (
        set_dst_mode logical
          (set_trigger_mode level (set_dest dst (set_delivery_mode dlv (set_vector vec 0))))));
}

module _ (d : Device) where
  open d use {State, read_reg, write_reg}

  unfoldable pub id : State → ℕ
  id s = read_reg s 0 / 2 ^ 24 % 2 ^ 8

  unfoldable pub version : State → ℕ
  version s = read_reg s version_reg % 2 ^ 8

  unfoldable pub max_irt : State → ℕ
  max_irt s = read_reg s version_reg / 2 ^ 16 % 2 ^ 8

  unfoldable pub validate : State → Bool
  unfolding max_irt
  validate s =
      not (read_reg s version_reg == 2 ^ 32 - 1) && (leb 23 (max_irt s) && ltb (max_irt s) 120)

  unfoldable pub get_irt : State → ℕ → Entry
  get_irt s idx = record {
    index = idx;
    raw = bit_or (read_reg s (reg_hi idx) * 2 ^ 32) (read_reg s (reg_lo idx));
  }

  -- The three writes of `set_irt`, in their order.
  unfoldable pub mask_first : Entry → State → State
  mask_first e s = write_reg s (reg_lo e.index) (bit_or (read_reg s (reg_lo e.index)) masked_bit)

  unfoldable pub write_high : Entry → State → State
  write_high e s = write_reg s (reg_hi e.index) (e.raw / 2 ^ 32 % 2 ^ 32)

  unfoldable pub write_low : Entry → State → State
  write_low e s = write_reg s (reg_lo e.index) (bit_and e.raw (mask 32 0))

  unfoldable pub set_irt : Entry → State → State
  unfolding mask_first write_high write_low
  set_irt e s = write_low e (write_high e (mask_first e s))

  -- The loop over the redirection entries at `idx`, with `rounds` to go.
  unfoldable pub mask_unmasked : State → ℕ → State
  unfolding set_irt get_irt masked mask_entry
  mask_unmasked s idx =
      let irt = get_irt s idx in
      if not (masked irt.raw) then set_irt (record irt { raw = mask_entry irt.raw }) s else s

  unfoldable pub mask_from : ℕ → ℕ → State → State
  unfolding mask_unmasked max_irt
  mask_from zero idx s = s
  mask_from (suc rounds) idx s =
      let rest = mask_from rounds (idx + 1) (mask_unmasked s idx) in
      if ltb idx (max_irt s) then rest else s

  -- An index is a uint8_t.
  unfoldable pub mask_irts : State → State
  unfolding mask_from
  mask_irts s = mask_from 256 0 s
