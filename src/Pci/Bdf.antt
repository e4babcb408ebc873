-- ===== src/Pci/Bdf.antt =====
-- src/lib/toyos/include/toyos/pci/bdf.hpp: the bus, device and function of a PCI function.
pub mod Rid
use guest_tests.Base.{
  ℕ, ◌+◌, ◌*◌, ◌/◌, ◌%◌, ◌^◌, bit_and, bit_or, Bool, not, ◌&&◌, ◌==◌, if◌then◌else◌,
}
use guest_tests.Math.{mask}

pub record Bdf : Type 0 where
  pub bus : ℕ
  pub device : ℕ
  pub function : ℕ

abbrev pub max_devices_per_bus : ℕ
max_devices_per_bus = 32

abbrev pub max_functions_per_dev : ℕ
max_functions_per_dev = 8

abbrev pub page_bits : ℕ
page_bits = 12

abbrev pub page_size : ℕ
page_size = 2 ^ page_bits

-- `bdf_t(uint16_t rid)`
unfoldable pub from_rid : ℕ → Bdf
from_rid rid = record {
  bus = rid / 2 ^ 8 % 2 ^ 8;
  device = bit_and (rid / 2 ^ 3) (mask 5 0) % 2 ^ 8;
  function = bit_and (rid / 2 ^ 0) (mask 3 0) % 2 ^ 8;
}

-- `bdf_t(uintptr_t offset)`
unfoldable pub from_offset : ℕ → Bdf
from_offset offset = record {
  bus = bit_and (offset / 2 ^ (page_bits + 8)) (mask 8 0) % 2 ^ 8;
  device = bit_and (offset / 2 ^ (page_bits + 3)) (mask 5 0) % 2 ^ 8;
  function = bit_and (offset / 2 ^ (page_bits + 0)) (mask 3 0) % 2 ^ 8;
}

unfoldable pub rid : Bdf → ℕ
rid b =
    bit_or (bit_or (b.bus * 2 ^ 8) (bit_and b.device (mask 5 0) * 2 ^ 3))
      (bit_and b.function (mask 3 0) * 2 ^ 0)
    % 2 ^ 16

unfoldable pub equals : Bdf → Bdf → Bool
equals b o = o.bus == b.bus && o.device == b.device && o.function == b.function

unfoldable pub next : Bdf → Bdf
next b =
    let function = (b.function + 1) % max_functions_per_dev in
    let device = (b.device + (if function == 0 then 1 else 0)) % max_devices_per_bus in
    record {
      bus = (b.bus + (if device == 0 && function == 0 then 1 else 0)) % 2 ^ 8;
      device = device;
      function = function;
    }
