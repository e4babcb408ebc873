-- ===== src/Tests/Ioapic.antt =====
-- Tests and instances for the I/O APIC.
use guest_tests.Base.{
  ℕ, ◌<◌, ◌%◌, ◌^◌, max, bit_and, bit_or, ◌≡◌, refl, arith, true, false, ◌==◌, ==_self,
  if◌then◌else◌, ◌∙◌, Bool-cases, inl, inr, digit, digit-mod, digit-bit_and,
}
use native.Mathlib.Decide.{dec_lt}
use guest_tests.Paging.Fields.{field, field-digit_in}
use guest_tests.Segments.Fields.{three_pieces}
use guest_tests.Math.{mask}
use guest_tests.Paging.Entry.{set_bits}
use guest_tests.Ioapic.{
  Device, keeps_bit, dlv_code, fixed, nmi, extint, Entry, delivery_mode, masked, redirection_entry,
  set_vector, set_delivery_mode, set_dest, set_trigger_mode, set_dst_mode, set_pin_polarity, unmask,
  get_irt, max_irt, mask_irts,
}
use guest_tests.Ioapic.Update.{SameSettings, Updated, set_irt-Updated}
use guest_tests.Ioapic.Init.{mask_irts-Masks}

-- Of what is written to a redirection register the state of delivery and the reserved bits read as 0.
abbrev low_mask_bits : ℕ
low_mask_bits = bit_or (bit_or (field 0 12) (field 13 1)) (field 15 2)

abbrev table_mask : ℕ → ℕ
table_mask r = if r % 2 == 0 then low_mask_bits else field 24 8

abbrev store : (ℕ → ℕ) → ℕ → ℕ → ℕ → ℕ
store s r v q = if q == r then bit_and v (table_mask r) else s q

low_bits : (k : ℕ) → keeps_bit 0 k ≡ true → digit low_mask_bits k ≡ 1
low_bits k h = elim (dec_lt k 12) [
  | yes lt ↦ omega (arith, parts, field-digit_in 0 12 k (omega arith) (omega arith))
  | no ge ↦ elim (dec_lt k 14) [
    | yes lt ↦ omega (arith, parts, field-digit_in 13 1 k (ground arith) (omega arith))
    | no more ↦ omega (arith, parts, field-digit_in 15 2 k (ground arith) (ground arith))
  ]
]
  where
    parts :
        digit low_mask_bits k
        ≡ max (max (digit (field 0 12) k) (digit (field 13 1) k)) (digit (field 15 2) k)
    parts = three_pieces (field 0 12) (field 13 1) (field 15 2) k

table_bits : (r k : ℕ) → keeps_bit r k ≡ true → digit (table_mask r) k ≡ 1
table_bits r k h = elim (Bool-cases (r % 2 == 0)) [
  | inl even ↦ rw even (low_bits k (ground (arith, h, even)))
  | inr odd ↦ rw odd (field-digit_in 24 8 k (ground (arith, h, odd)) (ground (arith, h, odd)))
]

kept_below : (r k : ℕ) → keeps_bit r k ≡ true → k < 32
kept_below r k h = ground arith

abbrev registers : Device
registers = record {
  State = ℕ → ℕ;
  read_reg = λ s r. s r % 2 ^ 32;
  write_reg = store;
  reads_word = λ s r. omega arith;
  stores = λ s r v k r_in fits keeps. rw (==_self r) (
      digit-mod 32 (bit_and v (table_mask r)) k (kept_below r k keeps)
      ∙ omega (arith, digit-bit_and v (table_mask r) k, table_bits r k keeps));
  leaves_others = λ s r v q k r_in q_in other keeps. ground arith;
  leaves_version = λ s r v r_in. ground arith;
}

-- A device with 24 entries, 0x1700 << 8 in the version register, all of them unmasked.
abbrev fresh : ℕ → ℕ
fresh r = if r == 1 then 0x170020 else 0

nmi_reads_fixed : delivery_mode (set_delivery_mode nmi 0) ≡ dlv_code fixed
unfolding delivery_mode set_delivery_mode dlv_code set_bits mask
nmi_reads_fixed = refl

abbrev timer : Entry
timer = record { index = 2; raw = 0x0100000000008730 }

redirection_entry_run : redirection_entry 2 0x30 1 extint true false false ≡ timer
unfolding redirection_entry set_vector set_delivery_mode dlv_code set_dest set_trigger_mode
    set_dst_mode set_pin_polarity unmask set_bits mask
redirection_entry_run = refl

set_irt-Updated_example : Updated registers timer fresh
set_irt-Updated_example = set_irt-Updated registers timer fresh (unfold max_irt in omega arith)

mask_irts-Masks_example :
    ((j : ℕ)
      → j < max_irt registers fresh
      → masked (get_irt registers (mask_irts registers fresh) j).raw ≡ true)
    × SameSettings
        (get_irt registers (mask_irts registers fresh) (max_irt registers fresh)).raw
        (get_irt registers fresh (max_irt registers fresh)).raw
    × (max_irt registers (mask_irts registers fresh) ≡ max_irt registers fresh)
mask_irts-Masks_example = mask_irts-Masks registers fresh

fresh_size : max_irt registers fresh ≡ 23
unfolding max_irt
fresh_size = refl
