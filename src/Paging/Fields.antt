-- ===== src/Paging/Fields.antt =====
-- What `set_bits` of page_table_base.hpp does to the digits of an entry.
use guest_tests.Base.{
  ℕ, ◌+◌, ◌-◌, ◌*◌, ◌^◌, ◌≤◌, ◌<◌, min, max, bit_and, ◌≡◌, ap, ◌∙◌, subst, ◌⊎◌, inl, inr, arith,
  Bool, true, false, Option, none, some, digit, low_mask, digit-bit_and, digit-bit_or,
  digit-complement, digit-shifted, digit-shifted_below, digit-low_mask, digit_out, two-pow-pos,
  two-pow-add, two-pow-le,
}
use guest_tests.Math.{word, complement}
use guest_tests.Paging.Entry.{set_bits, times, Tlb, is_present, is_large}

-- The field of `b` bits at `s` of `raw2` is `w`, and all else is as in `raw`.
pub record Replaced (s b w raw raw2 : ℕ) : Type 0 where
  pub inside : (i : ℕ) → s ≤ i → i < s + b → digit raw2 i ≡ digit w (i - s)
  pub outside : (i : ℕ) → i < 64 → (i < s) ⊎ (s + b ≤ i) → digit raw2 i ≡ digit raw i

abbrev pub field : (s b : ℕ) → ℕ
field s b = low_mask b * 2 ^ s

pub field-digit_in : (s b i : ℕ) → s ≤ i → i < s + b → digit (field s b) i ≡ 1
field-digit_in s b i h lt =
    digit-shifted s (low_mask b) i h ∙ digit-low_mask b (i - s) (omega (arith, h, lt))

pub shifted_out : (s b w i : ℕ) → w < 2 ^ b → (i < s) ⊎ (s + b ≤ i) → digit (w * 2 ^ s) i ≡ 0
shifted_out s b w i fits (inl below) = digit-shifted_below s w i below
shifted_out s b w i fits (inr above) =
    digit-shifted s w i (omega (arith, above)) ∙ digit_out w b (i - s) fits (omega (arith, above))

field_bound : (s b : ℕ) → s + b ≤ 64 → field s b < word
field_bound s b h =
    grind (arith, two-pow-add s b, two-pow-pos s, two-pow-pos b, two-pow-le (s + b) 64 h)

set_bits-digit :
    (raw clr new i : ℕ)
    → clr < word
    → i < 64
    → digit (set_bits raw clr new) i ≡ max (min (digit raw i) (1 - digit clr i)) (digit new i)
unfolding set_bits
set_bits-digit raw clr new i lt hi =
    digit-bit_or (bit_and raw (complement clr)) new i
    ∙ ap (λ t. max t (digit new i))
        (digit-bit_and raw (complement clr) i
          ∙ ap (min (digit raw i)) (digit-complement 64 clr i lt hi))

-- Clearing a field and storing a value that fits replaces the field and nothing else.
pub set_bits-Replaced :
    (s b w raw : ℕ)
    → s + b ≤ 64
    → w < 2 ^ b
    → Replaced s b w raw (set_bits raw (field s b) (w * 2 ^ s))
set_bits-Replaced s b w raw h fits = record {
  inside = λ i lo hi. omega (
    arith,
    set_bits-digit raw (field s b) (w * 2 ^ s) i (field_bound s b h) (omega (arith, h, hi)),
    field-digit_in s b i lo hi,
    digit-shifted s w i lo,
  );
  outside = λ i hi out. omega (
    arith,
    set_bits-digit raw (field s b) (w * 2 ^ s) i (field_bound s b h) hi,
    shifted_out s b (low_mask b) i (omega (arith, two-pow-pos b)) out,
    shifted_out s b w i fits out,
  );
}

-- One bit: `set_bits(mask, value * mask)`.
pub flag-Replaced :
    (k raw m : ℕ) (value : Bool)
    → k < 64
    → m ≡ 2 ^ k
    → Replaced k 1 (times value 1) raw (set_bits raw m (times value m))
flag-Replaced k raw m true h e =
    subst (λ t. Replaced k 1 1 raw (set_bits raw t t)) {x = 1 * 2 ^ k} (omega (arith, e))
      (set_bits-Replaced k 1 1 raw (omega (arith, h)) (omega arith))
flag-Replaced k raw m false h e =
    subst (λ t. Replaced k 1 0 raw (set_bits raw t 0)) {x = 1 * 2 ^ k} (omega (arith, e))
      (subst (λ t. Replaced k 1 0 raw (set_bits raw (1 * 2 ^ k) t)) {x = 0 * 2 ^ k} (omega arith)
        (set_bits-Replaced k 1 0 raw (omega (arith, h)) (omega arith)))

-- The outcomes of a setter that may use an optional without a value when it invalidates.
pub data Stored (s b w raw : ℕ) (invl : Bool) : Option (ℕ × Tlb) → Type 0 where
  stored : (raw2 : ℕ) (t : Tlb) → Replaced s b w raw raw2 → Stored s b w raw invl (some (raw2, t))
  no_value :
      (raw2 : ℕ)
      → Replaced s b w raw raw2
      → invl ≡ true
      → is_present raw2 ≡ false
      → Stored s b w raw invl none

-- The outcomes of a setter for pages only, whose answer says whether the entry maps one.
pub data OnPage (s b w raw : ℕ) : Option (Bool × ℕ × Tlb) → Type 0 where
  no_page : is_large raw ≡ false → OnPage s b w raw (some (false, raw, Tlb.kept))
  on_page :
      (raw2 : ℕ) (t : Tlb)
      → is_large raw ≡ true
      → Replaced s b w raw raw2
      → OnPage s b w raw (some (true, raw2, t))

-- The outcomes of a setter for tables only.
pub data OnTable (s b w raw : ℕ) : Option (Bool × ℕ × Tlb) → Type 0 where
  no_table : is_large raw ≡ true → OnTable s b w raw (some (false, raw, Tlb.kept))
  on_table :
      (raw2 : ℕ) (t : Tlb)
      → is_large raw ≡ false
      → Replaced s b w raw raw2
      → OnTable s b w raw (some (true, raw2, t))
