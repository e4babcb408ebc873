-- ===== src/Pic.antt =====
-- src/lib/toyos/include/toyos/testhelper/pic.hpp: two cascaded interrupt controllers. The state is what
-- the data ports answer, the masks of both; what the command ports answer is a parameter.
pub mod Masks
pub mod Pending
use guest_tests.Base.{
  ℕ, zero, suc, ◌+◌, ◌-◌, ◌*◌, ◌/◌, ◌%◌, ◌^◌, bit_and, bit_or, Bool, true, false, not, ◌&&◌, ◌||◌,
  ◌==◌, if◌then◌else◌, Option, none, some, ◌>>=◌, ◌>>◌, assert, List, [], ◌∷◌,
}
use guest_tests.Math.{is_aligned}
use guest_tests.Interval.{from_size, contains}

abbrev pub pins_per_pic : ℕ
pins_per_pic = 8

abbrev pub cascade_irq : ℕ
cascade_irq = 2

abbrev pub spurious_irq : ℕ
spurious_irq = 7

pub record Pic : Type 0 where
  pub vector_base : ℕ
  pub master : ℕ
  pub slave : ℕ

unfoldable pub mask_all : Pic → Pic
mask_all p = record p { master = 0xff; slave = 0xff }

unfoldable pub unmask_all : Pic → Pic
unmask_all p = record p { master = 0; slave = 0 }

-- The commands of the constructor between its masking, with their ports.
unfoldable pub init_commands : ℕ → List (ℕ × ℕ)
init_commands vector_base =
    (0x20, 0x11)
    ∷ (0xa0, 0x11)
    ∷ (0x21, vector_base)
    ∷ (0xa1, (vector_base + 8) % 2 ^ 8)
    ∷ (0x21, 2 ^ cascade_irq)
    ∷ (0xa1, cascade_irq)
    ∷ (0x21, 1)
    ∷ (0xa1, 1)
    ∷ []

unfoldable pub pic : ℕ → Option Pic
unfolding mask_all
pic vector_base =
    assert (is_aligned vector_base 3)
    >> some (mask_all (record { vector_base = vector_base; master = 0xff; slave = 0xff }))

unfoldable pub is_pic_vector : Pic → ℕ → Bool
is_pic_vector p vec = contains (from_size p.vector_base 16) vec

unfoldable pub is_master_vector : Pic → ℕ → Bool
is_master_vector p vec = contains (from_size p.vector_base pins_per_pic) vec

unfoldable pub is_slave_vector : Pic → ℕ → Bool
is_slave_vector p vec = contains (from_size (p.vector_base + pins_per_pic) pins_per_pic) vec

-- The two parts of `mask`.
unfoldable pub mask_master : ℕ → Pic → Pic
mask_master vec p =
    if is_master_vector p vec
    then record p { master = bit_or p.master (2 ^ (vec - p.vector_base)) % 2 ^ 8 }
    else p

unfoldable pub mask_slave : ℕ → Pic → Pic
mask_slave vec p =
    if is_slave_vector p vec
    then record p { slave = bit_or p.slave (2 ^ (vec - p.vector_base - pins_per_pic)) % 2 ^ 8 }
    else p

unfoldable pub mask : ℕ → Pic → Pic
unfolding mask_master mask_slave
mask vec p = mask_slave vec (mask_master vec p)

-- The parts of `unmask`; a shift of an int is taken from its complement in 32 bits.
unfoldable pub unmask_master : ℕ → Pic → Pic
unmask_master vec p =
    if is_master_vector p vec
    then record p { master = bit_and p.master (2 ^ 32 - 1 - 2 ^ (vec - p.vector_base)) % 2 ^ 8 }
    else p

unfoldable pub unmask_slave : ℕ → Pic → Pic
unmask_slave vec p = record p {
  slave = bit_and p.slave (2 ^ 32 - 1 - 2 ^ (vec - p.vector_base - pins_per_pic)) % 2 ^ 8;
}

-- `unmask` calls itself for the pin of the cascade; `none` is fuel that ran out.
unfoldable pub unmask : ℕ → ℕ → Pic → Option Pic
unfolding unmask_master unmask_slave
unmask zero vec p = none
unmask (suc fuel) vec p =
    let p2 = unmask_master vec p in
    let cascade = unmask fuel cascade_irq (unmask_slave vec p2) in
    if is_slave_vector p2 vec then cascade else some p2

-- The loop of `position_of_highest_bit` below `i`.
unfoldable pub highest_below : ℕ → ℕ → Option ℕ
highest_below zero val = none
highest_below (suc pos) val =
    let rest = highest_below pos val in if val / 2 ^ pos % 2 == 1 then some pos else rest

unfoldable pub position_of_highest_bit : ℕ → Option ℕ
unfolding highest_below
position_of_highest_bit val = if val == 0 then none else highest_below 16 val

-- What the command ports answer for a register, put together.
unfoldable pub get_irq_reg : ℕ → ℕ → ℕ
get_irq_reg slave_answer master_answer = bit_or (slave_answer * 2 ^ 8) master_answer

unfoldable pub vector_in_irr : Pic → ℕ → ℕ → Bool
vector_in_irr p irr vec = irr / 2 ^ ((vec + 2 ^ 16 - p.vector_base) % 2 ^ 16) % 2 == 1

unfoldable pub is_spurious : Pic → ℕ → ℕ → Bool
is_spurious p isr vec =
    let irq = (vec + 2 ^ 8 - p.vector_base) % 2 ^ 8 in
    if not (is_pic_vector p vec)
    then false
    else (if not (irq == spurious_irq) && not (irq == spurious_irq + pins_per_pic)
        then false
        else bit_and isr (2 ^ irq) == 0)

unfoldable pub highest_pending_isr_vec : Pic → ℕ → Option ℕ
unfolding position_of_highest_bit
highest_pending_isr_vec p isr = position_of_highest_bit isr >>= (λ pin. some (pin + p.vector_base))

-- The ports that `eoi` writes to, and its answer.
abbrev pub signal : Pic → Option ℕ → Bool × List ℕ
signal p none = (false, [])
signal p (some vec) =
    (true, if is_slave_vector p (vec % 2 ^ 8) then 0xa0 ∷ 0x20 ∷ [] else 0x20 ∷ [])

unfoldable pub eoi : Pic → ℕ → Bool × List ℕ
unfolding highest_pending_isr_vec
eoi p isr = signal p (highest_pending_isr_vec p isr)
