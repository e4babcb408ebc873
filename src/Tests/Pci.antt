-- ===== src/Tests/Pci.antt =====
-- Tests and instances for PCI.
use guest_tests.Base.{
  ℕ, ◌+◌, ◌*◌, ◌/◌, ◌≡◌, refl, arith, true, false, ◌==◌, if◌then◌else◌, some, List, [], ◌∷◌, inl,
}
use guest_tests.Math.{mask}
use guest_tests.Pci.Bdf.{Bdf, from_rid, from_offset, rid, next}
use guest_tests.Pci.Bdf as Bdf
use guest_tests.Pci.Bdf.Rid.{IsBdf}
use guest_tests.Pci.Device.{
  read, read_shifted, vendor_id, device_id, is_valid, cap_offset, class_code, subclass, prog_if,
  header_type, bus_primary, bus_secondary, bus_subordinate, bar_count, is_bridge, is_xhci,
  is_pci_serial, bar, next_bar, bars_from, find_from, find_cap, find_ext_cap, cap_next,
  ext_cap_next, cap_id, ext_cap_id,
}
use guest_tests.Pci.Device.Search.{Chain, first_with, find_ext_cap-first}
use guest_tests.Pci.Bus.{PciBus, mcfg_end, io_to_mmio, begin, devices}
use guest_tests.Pci.Bus.Scan.{at, functions, devices-functions}
use guest_tests.Pci.Msi.{
  MsiCapability, is_64bit, size, is_pervector_maskable, enabled, order, enable, disable, set_order,
}
use guest_tests.Pci.Msi.RoundTrip.{Stores, msi-Stores}
use guest_tests.Pci.Msix as Msix
use guest_tests.Pci.Bar.{bar_size}
use guest_tests.Pci.Bar.Address.{bar_of}
use guest_tests.Pci.Bar.Size.{bar_size-restores}

abbrev last_function : Bdf
last_function = record { bus = 3; device = 31; function = 7 }

last_function-IsBdf : IsBdf last_function
last_function-IsBdf = record {
  bus_fits = omega arith;
  device_fits = omega arith;
  function_fits = omega arith;
}

next_run :
    (next last_function ≡ record { bus = 4; device = 0; function = 0 })
    × (rid last_function ≡ 0x3ff)
    × (Bdf.equals last_function last_function ≡ true)
unfolding next rid mask Bdf.equals
next_run = (refl, refl, refl)

-- A root with three functions: 0, 8 and 250, on one bus at 0x1000000.
abbrev config : ℕ → ℕ
config a =
    if a == 0x1000000
    then 0x12345678
    else if a == 0x1008000
    then 0x12345678
    else if a == 0x10fa000
    then 0x12345678
    else 0

abbrev one_bus : PciBus
one_bus = record { mcfg_base = 0x1000000; pci_busses = 1 }

functions_run :
    functions config 0x1000000 255 1 ≡ at config 0x1000000 8 ∷ at config 0x1000000 250 ∷ []
unfolding functions is_valid vendor_id read_shifted read mask
functions_run = refl

devices-functions_example :
    devices config (mcfg_end one_bus) 257 (begin one_bus)
    ≡ some (at config 0x1000000 0 ∷ functions config 0x1000000 255 1)
devices-functions_example =
    devices-functions config one_bus 257 255 refl (omega arith) (omega arith)

io_to_mmio_run : io_to_mmio one_bus 8 0x10 0xcfe ≡ 0x1008012
unfolding io_to_mmio
io_to_mmio_run = refl

-- An xHCI controller of one function.
abbrev xhci_config : ℕ → ℕ
xhci_config a =
    if a == 0 then 0xa1b28086 else if a == 8 then 0x0c033001 else if a == 0x18 then 0x30201 else 0

device_run :
    (device_id xhci_config 0 ≡ 0xa1b2)
    × (is_xhci xhci_config 0 ≡ true)
    × (is_pci_serial xhci_config 0 ≡ false)
    × (is_bridge xhci_config 0 ≡ false)
    × (bar_count xhci_config 0 ≡ 6)
    × (bus_primary xhci_config 0 ≡ 1)
    × (bus_secondary xhci_config 0 ≡ 2)
    × (bus_subordinate xhci_config 0 ≡ 3)
    × (bar xhci_config 0 2 ≡ 0x18)
unfolding device_id is_xhci is_pci_serial is_bridge bar_count bus_primary bus_secondary
    bus_subordinate bar read_shifted read class_code subclass prog_if header_type mask
device_run = (refl, refl, refl, refl, refl, refl, refl, refl, refl)

-- BAR 0 and BAR 4 take two slots.
bars_run : bars_from (λ i. (i == 0)) 6 8 0 ≡ some (0 ∷ 2 ∷ 3 ∷ 4 ∷ 5 ∷ [])
unfolding bars_from next_bar
bars_run = refl

-- The list 0x40, 0x50 and the extended list 256, 0x148.
abbrev cap_config : ℕ → ℕ
cap_config a = if a == 0x34 then 0x40 else 0

abbrev cap_byte : ℕ → ℕ
cap_byte a = if a == 0x40 then 5 else if a == 0x41 then 0x50 else if a == 0x50 then 0x10 else 0

abbrev cap_half : ℕ → ℕ
cap_half a = if a == 256 then 1 else if a == 258 then 0x1481 else if a == 0x148 then 0x10 else 0

abbrev caps : List ℕ
caps = 0x40 ∷ 0x50 ∷ []

abbrev ext_caps : List ℕ
ext_caps = 256 ∷ 0x148 ∷ []

caps-Chain : Chain (cap_next cap_config cap_byte cap_half 0) 0xff (cap_offset cap_config 0) caps
unfolding Chain cap_offset read
caps-Chain = (
  refl,
  (λ e. omega (arith, e)),
  (λ e. omega (arith, e)),
  (refl, (λ e. omega (arith, e)), (λ e. omega (arith, e)), inl refl),
)

ext_caps-Chain : Chain (ext_cap_next cap_config cap_byte cap_half 0) 0xfff 256 ext_caps
unfolding Chain
ext_caps-Chain = (
  refl,
  (λ e. omega (arith, e)),
  (λ e. omega (arith, e)),
  (refl, (λ e. omega (arith, e)), (λ e. omega (arith, e)), inl refl),
)

find_ext_cap-first_example :
    find_ext_cap cap_config cap_byte cap_half 0 3 0x10
    ≡ some (
        if first_with (cap_id cap_config cap_byte cap_half 0) 0x10 caps == 0
        then 0
        else first_with (ext_cap_id cap_config cap_byte cap_half 0) 0x10 ext_caps)
find_ext_cap-first_example =
    find_ext_cap-first cap_config cap_byte cap_half 0 3 0x10 caps ext_caps caps-Chain ext_caps-Chain
      (omega arith) (omega arith)

find_cap_run : find_cap cap_config cap_byte cap_half 0 3 0x10 ≡ some 0x50
unfolding find_cap find_from cap_offset read
find_cap_run = refl

abbrev msi : MsiCapability
msi = record {
  id = 5;
  next = 0x60;
  msg_ctrl = 0x181;
  msg_addr = 0;
  msg_addr_hi = 0;
  msg_data_64b = 0;
}

msi-Stores_example : Stores 0xfee00000 0x41 msi
unfolding is_64bit
msi-Stores_example = msi-Stores 0xfee00000 0x41 msi (omega arith) (omega arith)

msi_run :
    (order (set_order 3 msi) ≡ 3)
    × (size msi ≡ 14)
    × (enabled (disable msi) ≡ false)
    × (enabled (enable (disable msi)) ≡ true)
    × (is_pervector_maskable msi ≡ true)
unfolding order set_order size enabled disable enable is_64bit is_pervector_maskable
msi_run = (refl, refl, refl, refl, refl)

-- A memory register of 4 KiB with 64 bits.
bar_size-restores_example :
    bar_size (λ old v. 4 + v / 4096 * 4096) (λ old v. v) (bar_of 4 (3 * 256) 7)
    ≡ (4096, bar_of 4 (3 * 256) 7)
bar_size-restores_example =
    bar_size-restores 12 (omega arith) (omega arith) 4 3 7 (omega arith) (omega arith) (omega arith)
      (λ old v. 4 + v / 4096 * 4096) (λ old v. v) (λ old v. refl) (λ old v. refl)

msix_run :
    (Msix.table_entries
        (record { id = 0x11; next = 0; msg_ctrl = 0x8007; offset_table = 0x2003; offset_pba = 0 })
      ≡ 8)
    × (Msix.table_bar
          (record { id = 0x11; next = 0; msg_ctrl = 0; offset_table = 0x2003; offset_pba = 0 })
        ≡ 3)
    × (Msix.table_offset
          (record { id = 0x11; next = 0; msg_ctrl = 0; offset_table = 0x2003; offset_pba = 0 })
        ≡ 0x2000)
    × (Msix.msi_address (Msix.set_msi_address 0x1fee00000 Msix.msix_entry) ≡ 0x1fee00000)
    × (Msix.masked (Msix.unmask Msix.msix_entry) ≡ false)
unfolding Msix.table_entries Msix.table_bar Msix.table_offset Msix.msi_address Msix.set_msi_address
    Msix.masked Msix.unmask Msix.msix_entry mask
msix_run = (refl, refl, refl, refl, refl)
