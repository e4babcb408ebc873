-- ===== src/Pci/Device.antt =====
-- src/lib/toyos/include/toyos/pci/device.hpp: a device in the memory-mapped configuration space, which
-- is a parameter: `config` is the 32-bit word at an address, `byte` a byte and `half` 16 bits there.
pub mod Search
use guest_tests.Base.{
  ℕ, zero, suc, ◌+◌, ◌*◌, ◌/◌, ◌%◌, ◌^◌, bit_and, Bool, true, false, not, ◌&&◌, ◌==◌, leb,
  if◌then◌else◌, Option, none, some, ◌>>=◌, List, [], ◌∷◌,
}
use guest_tests.Math.{mask, word}
use guest_tests.Interval.{Interval, from_size}
use guest_tests.Pci.Bdf.{page_size}

module _ (config : ℕ → ℕ) (cfg_base : ℕ) where
  -- `read(off)` and `read(off, shift)`
  unfoldable pub read : ℕ → ℕ
  read off = config ((cfg_base + off) % word)

  unfoldable pub read_shifted : ℕ → ℕ → ℕ
  read_shifted off shift = read off / 2 ^ shift

  unfoldable pub vendor_id : ℕ
  vendor_id = read_shifted 0x00 0 % 2 ^ 16

  unfoldable pub device_id : ℕ
  device_id = read_shifted 0x00 16 % 2 ^ 16

  unfoldable pub is_valid : Bool
  is_valid = not (vendor_id == 0) && not (vendor_id == mask 16 0)

  unfoldable pub cap_offset : ℕ
  cap_offset = read 0x34 % 2 ^ 8

  unfoldable pub class_code : ℕ
  class_code = read_shifted 0x08 24 % 2 ^ 8

  unfoldable pub subclass : ℕ
  subclass = read_shifted 0x08 16 % 2 ^ 8

  unfoldable pub prog_if : ℕ
  prog_if = read_shifted 0x08 8 % 2 ^ 8

  -- `type()`
  unfoldable pub header_type : ℕ
  header_type = bit_and (read_shifted 0x0c 16) (mask 7 0) % 2 ^ 8

  unfoldable pub bus_primary : ℕ
  bus_primary = read_shifted 0x18 0 % 2 ^ 8

  unfoldable pub bus_secondary : ℕ
  bus_secondary = read_shifted 0x18 8 % 2 ^ 8

  unfoldable pub bus_subordinate : ℕ
  bus_subordinate = read_shifted 0x18 16 % 2 ^ 8

  -- PCI_TYPE_GENERAL, PCI_NUM_BARS and PCI_NUM_BARS_BRIDGE
  unfoldable pub bar_count : ℕ
  bar_count = if header_type == 0 then 6 else 2

  unfoldable pub is_bridge : Bool
  is_bridge = header_type == 1

  unfoldable pub is_xhci : Bool
  is_xhci = class_code == 0x0c && subclass == 0x03 && prog_if == 0x30

  unfoldable pub is_pci_serial : Bool
  is_pci_serial = class_code == 0x07 && subclass == 0x00

  unfoldable pub cfg_page : Interval
  cfg_page = from_size cfg_base page_size

  -- The address of BAR `i`.
  unfoldable pub bar : ℕ → ℕ
  bar i = (cfg_base + 0x10 + i * 4) % word

abbrev pub bar_index_invalid : ℕ
bar_index_invalid = 0xff

-- `bar_iterator::operator++`, where `is_64bit` tells it of the BAR of an index.
unfoldable pub next_bar : (ℕ → Bool) → ℕ → ℕ → ℕ
next_bar is_64bit count bar_index =
    let moved = bar_index + (if is_64bit bar_index then 2 else 1) in
    if leb count moved then bar_index_invalid else moved

-- The indices that a loop over `get_bars()` visits.
unfoldable pub bars_from : (ℕ → Bool) → ℕ → ℕ → ℕ → Option (List ℕ)
bars_from is_64bit count zero bar_index = none
bars_from is_64bit count (suc fuel) bar_index =
    let rest = bars_from is_64bit count fuel (next_bar is_64bit count bar_index) in
    if bar_index == bar_index_invalid then some [] else rest >>= (λ l. some (bar_index ∷ l))

-- The loops of `find_cap` and `find_ext_cap`, from an offset on, with the end mark `stop`.
unfoldable pub find_from : (id_of next_of : ℕ → ℕ) → ℕ → ℕ → ℕ → ℕ → Option ℕ
find_from id_of next_of stop zero id off = none
find_from id_of next_of stop (suc fuel) id off =
    let rest = find_from id_of next_of stop fuel id (next_of off) in
    if not (off == 0) && not (off == stop)
    then if id_of off == id then some off else rest
    else some 0

module _ (config byte half : ℕ → ℕ) (cfg_base : ℕ) where
  -- The first two bytes of a capability, and the id and the next offset of an extended one.
  abbrev pub cap_id : ℕ → ℕ
  cap_id off = byte ((cfg_base + off) % word)

  abbrev pub cap_next : ℕ → ℕ
  cap_next off = byte ((cfg_base + off + 1) % word)

  abbrev pub ext_cap_id : ℕ → ℕ
  ext_cap_id off = half ((cfg_base + off) % word)

  abbrev pub ext_cap_next : ℕ → ℕ
  ext_cap_next off = half ((cfg_base + off + 2) % word) / 2 ^ 4

  unfoldable pub find_cap : ℕ → ℕ → Option ℕ
  find_cap fuel id = find_from cap_id cap_next 0xff fuel id (cap_offset config cfg_base)

  -- `pcie_capability::ID` is 0x10.
  unfoldable pub find_ext_cap : ℕ → ℕ → Option ℕ
  find_ext_cap fuel id = find_cap fuel 0x10 >>= (λ pcie.
      if pcie == 0 then some 0 else find_from ext_cap_id ext_cap_next 0xfff fuel id 256)
