-- ===== src/Pci/Bus.antt =====
-- src/lib/toyos/include/toyos/pci/bus.hpp: the loop over the functions of a bus, one page of the
-- configuration space each.
pub mod Scan
use guest_tests.Base.{
  ℕ, zero, suc, ◌+◌, ◌-◌, ◌*◌, ◌%◌, ◌^◌, Bool, true, false, not, ◌&&◌, ◌==◌, if◌then◌else◌, Option,
  none, some, ◌>>=◌, List, [], ◌∷◌,
}
use guest_tests.Math.{word}
use guest_tests.Pci.Bdf.{
  Bdf, next, page_bits, page_size, max_devices_per_bus, max_functions_per_dev,
}
use guest_tests.Pci.Device.{is_valid}

pub record PciBus : Type 0 where
  pub mcfg_base : ℕ
  pub pci_busses : ℕ

pub record Iterator : Type 0 where
  pub cfg_base : ℕ
  pub bdf : Bdf

unfoldable pub mcfg_end : PciBus → ℕ
mcfg_end b =
    (b.mcfg_base + b.pci_busses * max_devices_per_bus * max_functions_per_dev * page_size) % word

unfoldable pub io_to_mmio : PciBus → ℕ → ℕ → ℕ → ℕ
io_to_mmio b rid offset port =
    (b.mcfg_base + rid * 2 ^ page_bits + offset + port + word - 0xcfc) % word

unfoldable pub begin : PciBus → Iterator
begin b = record { cfg_base = b.mcfg_base; bdf = record { bus = 0; device = 0; function = 0 } }

module _ (config : ℕ → ℕ) (cfg_end : ℕ) where
  unfoldable pub step : Iterator → Iterator
  step it = record { cfg_base = (it.cfg_base + page_size) % word; bdf = next it.bdf }

  -- `operator++`
  unfoldable pub increment : ℕ → Iterator → Option Iterator
  increment zero it = none
  increment (suc fuel) it =
      let rest = increment fuel (step it) in
      if not ((step it).cfg_base == cfg_end) && not (is_valid config (step it).cfg_base)
      then rest
      else some (step it)

  -- `for (const auto& device : bus)`
  unfoldable pub devices : ℕ → Iterator → Option (List Iterator)
  devices zero it = none
  devices (suc fuel) it =
      let more =
        increment (suc fuel) it >>= (λ it2. devices fuel it2 >>= (λ rest. some (it ∷ rest))) in
      if it.cfg_base == cfg_end then some [] else more
