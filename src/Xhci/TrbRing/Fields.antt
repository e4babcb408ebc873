-- ===== src/Xhci/TrbRing/Fields.antt =====
-- The cycle bit of a transfer request block beside its other fields, as xhci/trb.hpp sets it.
use guest_tests.Base.{
  ℕ, ◌+◌, ◌-◌, ◌*◌, ◌/◌, ◌%◌, ◌^◌, ◌<◌, ◌≡◌, sym, ap, ◌∙◌, arith, bit_and, bit_or, Bool, true,
  false, not, if◌then◌else◌, low_mask, bit_and_step, bit_or_fields, bit_and_mask, bit_or-zero,
  bit_and-zero, half_pow,
}
use guest_tests.Xhci.Trb.{Trb, get_type, get_cycle, set_cycle, get_toggle, commit, type_bits}
use guest_tests.Math.{mask}

unfoldable pub IsWord32 : Trb → Type 0
IsWord32 t = t.control < 2 ^ 32

abbrev bit_of : Bool → ℕ
bit_of b = if b then 1 else 0

cleared : (c : ℕ) → c < 2 ^ 32 → bit_and c (low_mask 32 - 1) ≡ 2 * (c / 2)
cleared c h = omega (arith, bit_and_step c (low_mask 32 - 1), bit_and_mask 31 (c / 2))

-- Only the lowest bit changes.
set_cycle_lem :
    (b : Bool) (t : Trb) → IsWord32 t → (set_cycle b t).control ≡ 2 * (t.control / 2) + bit_of b
unfolding set_cycle IsWord32
set_cycle_lem true t h =
    ap (λ n. bit_or n 1) {y = t.control / 2 * 2 ^ 1} (cleared t.control h ∙ omega arith)
    ∙ bit_or_fields 1 (t.control / 2) 1 (omega arith)
    ∙ omega arith
set_cycle_lem false t h =
    ap (λ n. bit_or n 0) (cleared t.control h) ∙ omega (arith, bit_or-zero (2 * (t.control / 2)))

pub set_cycle-IsWord32 : (b : Bool) (t : Trb) → IsWord32 t → IsWord32 (set_cycle b t)
unfolding IsWord32
set_cycle-IsWord32 true t h = omega (arith, set_cycle_lem true t h)
set_cycle-IsWord32 false t h = omega (arith, set_cycle_lem false t h)

halved : (b : Bool) (t : Trb) → IsWord32 t → (set_cycle b t).control / 2 ≡ t.control / 2
halved true t h = omega (arith, set_cycle_lem true t h)
halved false t h = omega (arith, set_cycle_lem false t h)

pub get_cycle-set_cycle : (b : Bool) (t : Trb) → IsWord32 t → get_cycle (set_cycle b t) ≡ b
unfolding get_cycle
get_cycle-set_cycle true t h = ground (
  arith,
  set_cycle_lem true t h,
  bit_and_step (set_cycle true t).control 1,
  bit_and-zero ((set_cycle true t).control / 2),
)
get_cycle-set_cycle false t h = ground (
  arith,
  set_cycle_lem false t h,
  bit_and_step (set_cycle false t).control 1,
  bit_and-zero ((set_cycle false t).control / 2),
)

pub get_type-set_cycle : (b : Bool) (t : Trb) → IsWord32 t → get_type (set_cycle b t) ≡ get_type t
unfolding get_type
get_type-set_cycle b t h =
    ap (λ n. bit_and n (mask type_bits 0) % 2 ^ 8)
      (half_pow (set_cycle b t).control 9
        ∙ ap (λ n. n / 2 ^ 9) (halved b t h)
        ∙ sym (half_pow t.control 9))

pub get_toggle-set_cycle :
    (b : Bool) (t : Trb) → IsWord32 t → get_toggle (set_cycle b t) ≡ get_toggle t
unfolding get_toggle
get_toggle-set_cycle b t h =
    ground (arith, halved b t h, bit_and_step (set_cycle b t).control 2, bit_and_step t.control 2)

pub get_cycle-commit : (t : Trb) → IsWord32 t → get_cycle (commit t) ≡ not (get_cycle t)
unfolding commit
get_cycle-commit t h = get_cycle-set_cycle (not (get_cycle t)) t h
