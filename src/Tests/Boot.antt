-- ===== src/Tests/Boot.antt =====
-- Tests and instances for start-up.
use guest_tests.Base.{ℕ, ◌≡◌, refl, arith, some, List, [], ◌∷◌, ◌++◌, replicate, get_or}
use guest_tests.Math.{align_up, align_down, order_max, order_max_from, mask}
use guest_tests.Multiboot2.{bytes32}
use guest_tests.Multiboot2.Tags.{Item}
use guest_tests.Multiboot2.RoundTrip.{built, IsBuildable}
use guest_tests.Boot.{
  mb2_cmdline, same_bytes, load32, find_mcfg, find_mcfg_at, find_entry, number_of_entries, entry,
}
use guest_tests.Boot.Cmdline.{command_item, mb2_cmdline-built}
use guest_tests.Boot.Tables.{McfgOf, find_mcfg-McfgOf}

abbrev base_item : Item
base_item = record { type = 21; fields = 0 ∷ 0 ∷ 16 ∷ 0 ∷ []; payload = [] }

with_cmdline-IsBuildable : IsBuildable (base_item ∷ command_item (97 ∷ 98 ∷ []) ∷ [])
unfolding bytes32 align_up align_down order_max order_max_from mask
with_cmdline-IsBuildable = record {
  fit = ((omega arith, omega arith), ((omega arith, omega arith), tt));
  sized = omega arith;
}

mb2_cmdline-built_example :
    mb2_cmdline 2 (built (base_item ∷ command_item (97 ∷ 98 ∷ []) ∷ [])) ≡ some (97 ∷ 98 ∷ 0 ∷ [])
mb2_cmdline-built_example =
    mb2_cmdline-built 2 (base_item ∷ []) (97 ∷ 98 ∷ []) [] (omega arith) with_cmdline-IsBuildable
      ((omega arith), tt)

-- An RSDP at 0, its RSDT of one entry at 20, and an MCFG at 64.
abbrev firmware : List ℕ
firmware =
    82
    ∷ 83
    ∷ 68
    ∷ 32
    ∷ 80
    ∷ 84
    ∷ 82
    ∷ 32
    ∷ (replicate 8 0
        ++ 20
          ∷ 0
          ∷ 0
          ∷ 0
          ∷ (82
              ∷ 83
              ∷ 68
              ∷ 84
              ∷ 40
              ∷ 0
              ∷ 0
              ∷ 0
              ∷ (replicate 28 0 ++ 64 ∷ 0 ∷ 0 ∷ 0 ∷ (replicate 4 0 ++ 77 ∷ 67 ∷ 70 ∷ 71 ∷ []))))

abbrev memory : ℕ → ℕ
memory addr = get_or firmware addr 0

find_mcfg_run : find_mcfg memory (some 0) ≡ some 64
unfolding find_mcfg find_mcfg_at find_entry number_of_entries entry same_bytes load32
find_mcfg_run = refl

find_mcfg-McfgOf_example : McfgOf memory 0 (find_mcfg memory (some 0))
find_mcfg-McfgOf_example = find_mcfg-McfgOf memory 0
