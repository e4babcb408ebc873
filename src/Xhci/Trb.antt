-- ===== src/Xhci/Trb.antt =====
-- src/lib/toyos/include/toyos/xhci/trb.hpp: a transfer request block.
use guest_tests.Base.{
  ℕ, ◌-◌, ◌*◌, ◌/◌, ◌%◌, ◌^◌, bit_and, bit_or, Bool, not, ◌==◌, if◌then◌else◌, low_mask,
}
use guest_tests.Math.{mask, complement}

pub record Trb : Type 0 where
  pub buffer : ℕ
  pub status : ℕ
  pub control : ℕ

abbrev pub cycle_bit : ℕ
cycle_bit = 2 ^ 0

abbrev pub toggle_bit : ℕ
toggle_bit = 2 ^ 1

abbrev pub type_bits : ℕ
type_bits = 6

abbrev pub type_shift : ℕ
type_shift = 10

abbrev pub ep_id_bits : ℕ
ep_id_bits = 5

abbrev pub ep_id_shift : ℕ
ep_id_shift = 16

abbrev pub isp : ℕ
isp = 2 ^ 2

abbrev pub ioc : ℕ
ioc = 2 ^ 5

unfoldable pub get_type : Trb → ℕ
get_type t = bit_and (t.control / 2 ^ type_shift) (mask type_bits 0) % 2 ^ 8

unfoldable pub set_type : ℕ → Trb → Trb
set_type val t = record t {
  control =
      bit_or (bit_and t.control (complement (mask type_bits type_shift)))
        (bit_and val (mask type_bits 0) * 2 ^ type_shift)
      % 2 ^ 32;
}

unfoldable pub endpoint_id : Trb → ℕ
endpoint_id t = bit_and (t.control / 2 ^ ep_id_shift) (mask ep_id_bits 0) % 2 ^ 8

-- `control &= ~bit; control |= set * bit;` with the 32-bit constant `bit`.
abbrev pub set_bit : ℕ → Bool → ℕ → ℕ
set_bit bit set control = bit_or (bit_and control (low_mask 32 - bit)) (if set then bit else 0)

unfoldable pub get_cycle : Trb → Bool
get_cycle t = not (bit_and t.control cycle_bit == 0)

unfoldable pub set_cycle : Bool → Trb → Trb
set_cycle set t = record t { control = set_bit cycle_bit set t.control }

unfoldable pub get_length : Trb → ℕ
get_length t = t.status % 2 ^ 16

unfoldable pub set_length : ℕ → Trb → Trb
set_length len t = record t { status = len }

unfoldable pub set_ioc : Trb → Trb
set_ioc t = record t { control = bit_or t.control ioc }

unfoldable pub set_isp : Trb → Trb
set_isp t = record t { control = bit_or t.control isp }

unfoldable pub commit : Trb → Trb
commit t = set_cycle (not (get_cycle t)) t

unfoldable pub get_toggle : Trb → Bool
get_toggle t = not (bit_and t.control toggle_bit == 0)

unfoldable pub set_toggle : Bool → Trb → Trb
set_toggle set t = record t { control = set_bit toggle_bit set t.control }

-- The types `trb_normal`, `trb_link`, `trb_transfer_event` and `trb_port_status_change_event`.
abbrev pub trb_normal : ℕ
trb_normal = 1

abbrev pub trb_link : ℕ
trb_link = 6

abbrev pub trb_transfer_event : ℕ
trb_transfer_event = 32

abbrev pub trb_port_status_change_event : ℕ
trb_port_status_change_event = 34
