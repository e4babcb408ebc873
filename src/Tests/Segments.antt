-- ===== src/Tests/Segments.antt =====
-- Tests and the instance for segment descriptors.
use guest_tests.Base.{◌^◌, ◌-◌, ◌≡◌, refl}
use guest_tests.Math.{mask}
use guest_tests.Paging.Entry.{set_bits}
use guest_tests.Segments.{
  GdtEntry, ar, g, system, raw_limit, limit, base, set_ar, set_bit, set_g, set_system, set_present,
  set_type, set_limit, set_base_raw, set_base, init_tss,
}
use guest_tests.Segments.Tss.{Described, init_tss-Described}

-- A code segment of 4 GiB, as it stands in a flat table.
abbrev flat_code : GdtEntry
flat_code = record { raw = 0x00CF9A000000FFFF; raw_high = 0 }

flat_code_limit : limit flat_code.raw ≡ 2 ^ 32 - 1
unfolding limit raw_limit g system ar mask
flat_code_limit = refl

flat_code_ar : ar flat_code.raw ≡ 0xC9A
unfolding ar mask
flat_code_ar = refl

init_tss_run : init_tss 0x123456 flat_code ≡ record { raw = 0x0040891234560068; raw_high = 0 }
unfolding init_tss set_base set_base_raw set_limit set_type set_present set_system set_g set_bit
    set_ar set_bits ar g system mask
init_tss_run = refl

init_tss-Described_example : Described 0x123456 0 (init_tss 0x123456 flat_code)
init_tss-Described_example = init_tss-Described 0x123456 flat_code

-- An address above 4 GiB loses its high half.
high_address : base (init_tss 0x700123456 flat_code) ≡ 0x123456
high_address = (init_tss-Described 0x700123456 flat_code).low_base
