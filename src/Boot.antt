-- ===== src/Boot.antt =====
-- Parts of `entry64` in src/lib/toyos/src/boot.cpp and of include/toyos/acpi.hpp: what start-up reads of
-- the boot information, and the search for the tables of the firmware. Memory is a function from
-- addresses to bytes.
pub mod Cmdline
pub mod Tables
use guest_tests.Base.{
  ℕ, zero, suc, ◌+◌, ◌-◌, ◌*◌, ◌/◌, ◌%◌, ◌^◌, Bool, true, false, not, ◌&&◌, ◌==◌, leb, ltb,
  if◌then◌else◌, Option, none, some, ◌>>=◌, ◌>>◌, assert, List, [], ◌∷◌,
}
use guest_tests.Math.{word}
use guest_tests.Interval.{Interval, from_size}
use guest_tests.Multiboot2.{
  Tag, Reader, mbi2, reader, find_tag, get_full_tag, copy, cmdline_type, rsdp_type,
}

-- The command line of a Multiboot2 loader, empty if there is no such tag. `none` is a failed assertion.
abbrev pub cmdline_of : List ℕ → Option (ℕ × Tag) → Option (List ℕ)
cmdline_of raw none = some []
cmdline_of raw (some (addr, tag)) =
    get_full_tag 8 raw addr tag
    >>= (λ _. assert (leb 8 tag.size) >> copy (tag.size - 8) raw (addr + 8))

unfoldable pub mb2_cmdline : ℕ → List ℕ → Option (List ℕ)
mb2_cmdline fuel raw =
    reader mbi2 raw >>= (λ r. find_tag fuel r cmdline_type >>= (λ found. cmdline_of raw found))

-- `memcmp` of the memory at an address with a text.
unfoldable pub same_bytes : (ℕ → ℕ) → ℕ → List ℕ → Bool
same_bytes mem addr [] = true
same_bytes mem addr (c ∷ text) = mem addr == c && same_bytes mem (addr + 1) text

unfoldable pub load16 : (ℕ → ℕ) → ℕ → ℕ
load16 mem addr = mem addr + 256 * mem (addr + 1)

unfoldable pub load32 : (ℕ → ℕ) → ℕ → ℕ
unfolding load16
load32 mem addr = load16 mem addr + 65536 * load16 mem (addr + 2)

-- "RSD PTR " and "MCFG"
abbrev pub rsdp_signature : List ℕ
rsdp_signature = 82 ∷ 83 ∷ 68 ∷ 32 ∷ 80 ∷ 84 ∷ 82 ∷ 32 ∷ []

abbrev pub mcfg_signature : List ℕ
mcfg_signature = 77 ∷ 67 ∷ 70 ∷ 71 ∷ []

-- The loop of `find_rsdp`.
unfoldable pub find_rsdp_from : ℕ → (ℕ → ℕ) → ℕ → ℕ → Option ℕ
unfolding same_bytes
find_rsdp_from zero mem b rsdp_ptr = none
find_rsdp_from (suc rounds) mem b rsdp_ptr =
    let rest = find_rsdp_from rounds mem b (rsdp_ptr + 16) in
    if ltb rsdp_ptr b
    then (if same_bytes mem rsdp_ptr rsdp_signature then some rsdp_ptr else rest)
    else none

unfoldable pub find_rsdp : (ℕ → ℕ) → Interval → Option ℕ
unfolding find_rsdp_from
find_rsdp mem ival = find_rsdp_from ((ival.b - ival.a + 15) / 16) mem ival.b ival.a

-- The places where `find_mcfg` looks for an RSDP that it was not given.
unfoldable pub legacy_rsdp : (ℕ → ℕ) → Option ℕ
unfolding find_rsdp
legacy_rsdp mem = elim (find_rsdp mem (from_size (load16 mem 0x40E * 2 ^ 4) 1024)) [
  | some rsdp ↦ some rsdp
  | none ↦ find_rsdp mem (record { a = 0xe0000; b = 0x100000 })
]

unfoldable pub number_of_entries : (ℕ → ℕ) → ℕ → ℕ
number_of_entries mem rsdt = (load32 mem (rsdt + 4) + word - 36) % word / 4

unfoldable pub entry : (ℕ → ℕ) → ℕ → ℕ → ℕ
entry mem rsdt idx = load32 mem (rsdt + 36 + 4 * idx)

-- The loop of `find_mcfg` at `idx`, with `left` entries to go.
unfoldable pub find_entry : ℕ → (ℕ → ℕ) → ℕ → ℕ → Option ℕ
unfolding same_bytes entry
find_entry zero mem rsdt idx = none
find_entry (suc left) mem rsdt idx =
    let rest = find_entry left mem rsdt (idx + 1) in
    if same_bytes mem (entry mem rsdt idx) mcfg_signature then some (entry mem rsdt idx) else rest

unfoldable pub find_mcfg_at : (ℕ → ℕ) → Option ℕ → Option ℕ
unfolding find_entry number_of_entries
find_mcfg_at mem none = none
find_mcfg_at mem (some rsdp) =
    let rsdt = load32 mem (rsdp + 16) in
    if not (same_bytes mem rsdp rsdp_signature)
    then none
    else (if rsdt == 0 then none else find_entry (number_of_entries mem rsdt) mem rsdt 0)

unfoldable pub find_mcfg : (ℕ → ℕ) → Option ℕ → Option ℕ
unfolding find_mcfg_at legacy_rsdp
find_mcfg mem none = find_mcfg_at mem (legacy_rsdp mem)
find_mcfg mem (some rsdp) = find_mcfg_at mem (some rsdp)
