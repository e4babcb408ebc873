-- ===== src/Segments/Tss.antt =====
-- The descriptor that `init_tss` of src/boot.cpp leaves, read by the getters of x86/segmentation.hpp.
use guest_tests.Base.{
  ℕ, ◌+◌, ◌-◌, ◌%◌, ◌^◌, ◌≤◌, ◌<◌, ◌≡◌, ◌≢◌, refl, sym, ap, ◌∙◌, subst, ◌⊎◌, inl, inr, arith, Bool,
  true, false, not, ◌==◌, digit, bit_test, digits_ext, digit-mod, bit_and_mask,
}
use native.Mathlib.Decide.{dec_lt}
use guest_tests.Math.{mask}
use guest_tests.Paging.Entry.{times, has, set_bits}
use guest_tests.Paging.Fields.{flag-Replaced, set_bits-Replaced}
use guest_tests.Segments.{
  GdtEntry, ar, g, system, present, type, raw_limit, limit, base32, base, set_ar, set_bit, set_g,
  set_system, set_present, set_type, set_limit, set_base_raw, set_base, init_tss, tss_64bit_avail,
}
use guest_tests.Segments.Kept.{
  ar-set_ar, limit-set_ar, base-set_ar, limit-set_limit, ar-set_limit, base-set_limit,
  base-set_base, ar-set_base,
}

-- One bit of the access rights is stored; the other bits, the limit and the base are kept.
pub record FlagSet (n : ℕ) (b : Bool) (raw raw2 : ℕ) : Type 0 where
  pub flag : digit (ar raw2) n ≡ times b 1
  pub others : (i : ℕ) → i < 12 → i ≢ n → digit (ar raw2) i ≡ digit (ar raw) i
  pub limit_kept : raw_limit raw2 ≡ raw_limit raw
  pub base_kept : base32 raw2 ≡ base32 raw

bit_of : (b : Bool) (n : ℕ) → digit (times b 1) (n - n) ≡ times b 1
bit_of true n = ap (digit 1) {x = n - n} {y = 0} (omega arith)
bit_of false n = ap (digit 0) {x = n - n} {y = 0} (omega arith)

apart : (i n : ℕ) → i ≢ n → (i < n) ⊎ (n + 1 ≤ i)
apart i n ne = elim (dec_lt i n) [
  | yes lt ↦ inl lt
  | no ge ↦ elim (dec_lt n i) [ yes lt ↦ inr (omega arith) | no le ↦ absurd (ne (omega arith)) ]
]

digit-set_bit : (v : ℕ) (b : Bool) (n : ℕ) → n < 12 → digit (set_bit v b n) n ≡ times b 1
unfolding set_bit
digit-set_bit v b n h =
    digit-mod 16 (set_bits v (2 ^ n) (times b (2 ^ n))) n (omega (arith, h))
    ∙ (flag-Replaced n v (2 ^ n) b (omega (arith, h)) refl).inside n (omega arith) (omega arith)
    ∙ bit_of b n

other-set_bit :
    (v : ℕ) (b : Bool) (n i : ℕ) → n < 12 → i < 12 → i ≢ n → digit (set_bit v b n) i ≡ digit v i
unfolding set_bit
other-set_bit v b n i h hi ne =
    digit-mod 16 (set_bits v (2 ^ n) (times b (2 ^ n))) i (omega (arith, hi))
    ∙ (flag-Replaced n v (2 ^ n) b (omega (arith, h)) refl).outside i (omega (arith, hi))
        (apart i n ne)

digit-ar : (v raw i : ℕ) → i < 12 → digit (ar (set_ar v raw)) i ≡ digit v i
digit-ar v raw i h = ap (λ t. digit t i) (ar-set_ar v raw) ∙ digit-mod 12 v i h

pub set_bit-FlagSet :
    (n : ℕ) (b : Bool) (raw : ℕ) → n < 12 → FlagSet n b raw (set_ar (set_bit (ar raw) b n) raw)
set_bit-FlagSet n b raw h = record {
  flag = digit-ar (set_bit (ar raw) b n) raw n h ∙ digit-set_bit (ar raw) b n h;
  others =
      λ i hi ne. digit-ar (set_bit (ar raw) b n) raw i hi ∙ other-set_bit (ar raw) b n i h hi ne;
  limit_kept = limit-set_ar (set_bit (ar raw) b n) raw;
  base_kept = base-set_ar (set_bit (ar raw) b n) raw;
}

-- The descriptor of an available 64-bit task state segment at `tss`, of 104 bytes.
pub record Described (tss high : ℕ) (e : GdtEntry) : Type 0 where
  pub is_present : present e.raw ≡ true
  pub is_system : system e.raw ≡ true
  pub is_tss : type e.raw ≡ tss_64bit_avail
  pub in_bytes : g e.raw ≡ false
  pub limit_104 : limit e.raw ≡ 104
  pub low_base : base e ≡ tss % 2 ^ 32
  pub high_kept : e.raw_high ≡ high

-- The digits of the access rights decide what the getters answer.
has-digit : (raw k : ℕ) → has (ar raw) (2 ^ k) ≡ not (digit (ar raw) k == 0)
has-digit raw k = ap not (bit_test (ar raw) k)

module _ (tss : ℕ) (e : GdtEntry) where
  abbrev cleared_g : ℕ
  cleared_g = set_g false (set_system true e.raw)

  abbrev based : ℕ
  based = set_base_raw tss cleared_g

  abbrev limited : ℕ
  limited = set_limit 104 based

  abbrev shown : ℕ
  shown = set_present true limited

  abbrev typed : ℕ
  typed = set_ar (set_bits (ar shown) (mask 4 0) tss_64bit_avail % 2 ^ 16) shown

  digit-limited : (i : ℕ) → i < 12 → digit (ar limited) i ≡ digit (ar cleared_g) i
  digit-limited i h = ap (λ t. digit t i) (ar-set_limit 104 based ∙ ar-set_base tss cleared_g)

  system_set : FlagSet 4 false e.raw (set_system true e.raw)
  unfolding set_system
  system_set = set_bit-FlagSet 4 false e.raw (omega arith)

  g_set : FlagSet 11 false (set_system true e.raw) cleared_g
  unfolding set_g
  g_set = set_bit-FlagSet 11 false (set_system true e.raw) (omega arith)

  present_set : FlagSet 7 true limited shown
  unfolding set_present
  present_set = set_bit-FlagSet 7 true limited (omega arith)

  digit-typed : (i : ℕ) → i < 12 → digit (ar typed) i ≡ digit (set_bits (ar shown) (mask 4 0) 9) i
  digit-typed i h =
      digit-ar (set_bits (ar shown) (mask 4 0) 9 % 2 ^ 16) shown i h
      ∙ digit-mod 16 (set_bits (ar shown) (mask 4 0) 9) i (omega (arith, h))

  typed_above : (i : ℕ) → 4 ≤ i → i < 12 → digit (ar typed) i ≡ digit (ar shown) i
  unfolding mask
  typed_above i lo hi =
      digit-typed i hi
      ∙ (set_bits-Replaced 0 4 9 (ar shown) (omega arith) (omega arith)).outside i
          (omega (arith, hi)) (inr lo)

  typed_low : (i : ℕ) → i < 4 → digit (ar typed) i ≡ digit 9 i
  unfolding mask
  typed_low i h =
      digit-typed i (omega (arith, h))
      ∙ (set_bits-Replaced 0 4 9 (ar shown) (omega arith) (omega arith)).inside i (omega arith) h
      ∙ ap (digit 9) {x = i - 0} {y = i} (omega arith)

  not_in_pages : (raw : ℕ) → digit (ar raw) 11 ≡ 0 → g raw ≡ false
  unfolding g
  not_in_pages raw h = has-digit raw 11 ∙ rw h refl

  type-typed : type typed ≡ 9
  unfolding type mask
  type-typed =
      bit_and_mask 4 (ar typed)
      ∙ digits_ext 4 (ar typed % 2 ^ 4) 9 (omega arith) (omega arith)
          (λ i h. digit-mod 4 (ar typed) i h ∙ typed_low i h)

  g-typed : g typed ≡ false
  g-typed = not_in_pages typed (
      typed_above 11 (omega arith) (omega arith)
      ∙ present_set.others 11 (omega arith) (omega arith)
      ∙ digit-limited 11 (omega arith)
      ∙ g_set.flag)

  system-typed : system typed ≡ true
  unfolding system
  system-typed = ap not (has-digit typed 4) ∙ rw s refl
    where
      s : digit (ar typed) 4 ≡ 0
      s =
          typed_above 4 (omega arith) (omega arith)
          ∙ present_set.others 4 (omega arith) (omega arith)
          ∙ digit-limited 4 (omega arith)
          ∙ g_set.others 4 (omega arith) (omega arith)
          ∙ system_set.flag

  present-typed : present typed ≡ true
  unfolding present
  present-typed =
      has-digit typed 7 ∙ rw (typed_above 7 (omega arith) (omega arith) ∙ present_set.flag) refl

  limit-typed : raw_limit typed ≡ 104
  limit-typed =
      limit-set_ar (set_bits (ar shown) (mask 4 0) tss_64bit_avail % 2 ^ 16) shown
      ∙ present_set.limit_kept
      ∙ limit-set_limit 104 based

  base-typed : base32 typed ≡ tss % 2 ^ 32
  base-typed =
      base-set_ar (set_bits (ar shown) (mask 4 0) tss_64bit_avail % 2 ^ 16) shown
      ∙ present_set.base_kept
      ∙ base-set_limit 104 based
      ∙ base-set_base tss cleared_g

  g-based : g based ≡ false
  g-based = not_in_pages based (ap (λ t. digit t 11) (ar-set_base tss cleared_g) ∙ g_set.flag)

  init_tss-typed : init_tss tss e ≡ record { raw = typed; raw_high = e.raw_high }
  unfolding init_tss set_base set_type
  init_tss-typed = rw (init_tss, set_base, g-based) refl

-- Whatever the descriptor held, `init_tss` leaves a present system descriptor of an available 64-bit
-- task state segment with the limit 104 in bytes; since that clears the granularity, its base is read as
-- the low 32 bits of the address, and the second value is not written.
pub init_tss-Described : (tss : ℕ) (e : GdtEntry) → Described tss e.raw_high (init_tss tss e)
unfolding limit base
init_tss-Described tss e = subst (Described tss e.raw_high) (sym (init_tss-typed tss e)) (record {
  is_present = present-typed tss e;
  is_system = system-typed tss e;
  is_tss = type-typed tss e;
  in_bytes = g-typed tss e;
  limit_104 = rw (limit, g-typed tss e) (limit-typed tss e);
  low_base = rw (base, g-typed tss e) (base-typed tss e);
  high_kept = refl;
})
