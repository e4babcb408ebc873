-- ===== src/Multiboot2.antt =====
-- src/lib/toyos/include/toyos/multiboot2: the boot information is built by multiboot2_builder.hpp and
-- read by multiboot2.hpp. Memory is a list of bytes, a pointer is an offset from the start of the
-- structure, and `none` is a failed assert, a read outside of the memory, or fuel that ran out.
pub mod Bytes
pub mod Tags
pub mod Search
pub mod RoundTrip
pub mod Header
use guest_tests.Base.{
  ℕ, zero, suc, ◌+◌, ◌-◌, ◌*◌, ◌/◌, ◌%◌, ◌^◌, min, Bool, true, false, ◌&&◌, ◌==◌, leb, ltb,
  if◌then◌else◌, Option, none, some, ◌>>=◌, ◌>>◌, assert, List, [], ◌∷◌, ◌++◌, length, take, drop,
  replicate,
}
use guest_tests.Math.{align_up, order_max}

-- `memcpy` of `n` bytes, and a uint32_t in memory.
unfoldable pub copy : ℕ → List ℕ → ℕ → Option (List ℕ)
copy n mem addr = if leb (addr + n) (length mem) then some (take n (drop addr mem)) else none

unfoldable pub bytes32 : ℕ → List ℕ
bytes32 n = n % 256 ∷ n / 256 % 256 ∷ n / 65536 % 256 ∷ n / 16777216 % 256 ∷ []

unfoldable pub word32 : List ℕ → Option ℕ
word32 (a ∷ b ∷ c ∷ d ∷ _) = some (a + 256 * b + 65536 * c + 16777216 * d)
word32 _ = none

unfoldable pub read32 : List ℕ → ℕ → Option ℕ
unfolding word32
read32 mem addr = word32 (drop addr mem)

unfoldable pub bytes64 : ℕ → List ℕ
unfolding bytes32
bytes64 n = bytes32 (n % 2 ^ 32) ++ bytes32 (n / 2 ^ 32)

-- `mbi2_tag` and, with a type of 16 bits, `mb2_header_tag`.
pub record Tag : Type 0 where
  pub type : ℕ
  pub size : ℕ

abbrev pub alignment : ℕ
alignment = 8

-- The bytes of a tag that has the fields `fields` of its own, and the null tag.
abbrev pub tag_bytes : Tag → List ℕ
tag_bytes tag = bytes32 tag.type ++ bytes32 tag.size

abbrev pub null_tag : Tag
null_tag = record { type = 0; size = 8 }

abbrev pub resize : ℕ → List ℕ → List ℕ
resize n xs = take n xs ++ replicate (n - length xs) 0

-- `add_tag`; the builder's state is `raw_data`.
unfoldable pub add_tag : ℕ → List ℕ → List ℕ → List (List ℕ) → List (List ℕ)
add_tag type fields payload raw_data =
    let size = 8 + length fields + length payload in
    let aligned_size = align_up size (order_max alignment) in
    let tag_raw = tag_bytes (record { type = type; size = size % 2 ^ 32 }) ++ (fields ++ payload) in
    raw_data ++ (resize aligned_size tag_raw ∷ [])

abbrev pub cmdline_type : ℕ
cmdline_type = 1

abbrev pub boot_module_type : ℕ
boot_module_type = 3

abbrev pub mmap_type : ℕ
mmap_type = 6

abbrev pub system_table_type : ℕ
system_table_type = 12

abbrev pub rsdp_type : ℕ
rsdp_type = 15

abbrev pub image_load_base_type : ℕ
image_load_base_type = 21

unfoldable pub add_boot_cmdline : List ℕ → List (List ℕ) → List (List ℕ)
add_boot_cmdline cmdline = add_tag cmdline_type [] (cmdline ++ 0 ∷ [])

-- `rsdp` is the memory from the pointer on.
unfoldable pub add_rsdp : List ℕ → List (List ℕ) → Option (List (List ℕ))
add_rsdp rsdp raw_data = copy 36 rsdp 0 >>= (λ table. some (add_tag rsdp_type [] table raw_data))

pub record MmapEntry : Type 0 where
  pub base : ℕ
  pub size : ℕ
  pub kind : ℕ
  pub reserved : ℕ

unfoldable pub entry_bytes : MmapEntry → List ℕ
entry_bytes e = bytes64 e.base ++ (bytes64 e.size ++ (bytes32 e.kind ++ bytes32 e.reserved))

unfoldable pub entries_raw : List MmapEntry → List ℕ
entries_raw [] = []
entries_raw (e ∷ entries) = entry_bytes e ++ entries_raw entries

unfoldable pub add_memory : List MmapEntry → List (List ℕ) → List (List ℕ)
unfolding entries_raw
add_memory entries = add_tag mmap_type (bytes32 24 ++ bytes32 0) (entries_raw entries)

unfoldable pub add_boot_module : ℕ → ℕ → List ℕ → List (List ℕ) → List (List ℕ)
add_boot_module start end cmdline =
    add_tag boot_module_type (bytes32 start ++ bytes32 end) (cmdline ++ 0 ∷ [])

unfoldable pub add_system_table : ℕ → List (List ℕ) → List (List ℕ)
add_system_table system_table = add_tag system_table_type (bytes64 system_table) []

unfoldable pub add_image_load_base : ℕ → List (List ℕ) → List (List ℕ)
add_image_load_base load_base = add_tag image_load_base_type (bytes32 load_base) []

abbrev pub concat : List (List ℕ) → List ℕ
concat [] = []
concat (item ∷ items) = item ++ concat items

abbrev pub total : List (List ℕ) → ℕ
total [] = 0
total (item ∷ items) = length item + total items

-- `build`; the sum of the sizes is an int, whose wrap is lost in the 32 bits of `total_size`.
unfoldable pub build : List (List ℕ) → List ℕ
build raw_data =
    bytes32 ((8 + total raw_data + 8) % 2 ^ 32)
    ++ (bytes32 0 ++ (concat raw_data ++ tag_bytes null_tag))

-- `mb2_reader_generic`: `fixed` is the size of the fixed part, `total_at` the offset of its
-- `total_size`, `types` the number of values of a tag's type.
pub record Format : Type 0 where
  pub fixed : ℕ
  pub total_at : ℕ
  pub types : ℕ

abbrev pub mbi2 : Format
mbi2 = record { fixed = 8; total_at = 0; types = 2 ^ 32 }

abbrev pub mb2_header : Format
mb2_header = record { fixed = 16; total_at = 8; types = 2 ^ 16 }

pub record Reader : Type 0 where
  pub format : Format
  pub raw : List ℕ
  pub size : ℕ

unfoldable pub reader : Format → List ℕ → Option Reader
unfolding copy read32
reader format raw = copy format.fixed raw 0 >>= (λ fix.
    read32 fix format.total_at
    >>= (λ size. some (record { format = format; raw = raw; size = size })))

-- `operator*` of the iterator at an address.
unfoldable pub tag_at : ℕ → List ℕ → ℕ → Option Tag
unfolding read32
tag_at types raw addr = read32 raw addr >>= (λ type.
    read32 raw (addr + 4) >>= (λ size. some (record { type = type % types; size = size })))

-- `operator++` of the iterator; the size and its alignment are 32 bits wide.
unfoldable pub next : ℕ → Tag → ℕ
next addr tag = addr + align_up tag.size (order_max alignment) % 2 ^ 32

-- `find_tag`: the address of the tag and the tag.
unfoldable pub find_from : ℕ → Reader → ℕ → ℕ → Option (Option (ℕ × Tag))
unfolding tag_at next
find_from zero r tag_type addr = none
find_from (suc fuel) r tag_type addr =
    let onward = λ (tag : Tag). find_from fuel r tag_type (next addr tag) in
    let here =
      tag_at r.format.types r.raw addr
      >>= (λ tag. if tag.type == tag_type then some (some (addr, tag)) else onward tag) in
    if addr == r.size then some none else here

unfoldable pub find_tag : ℕ → Reader → ℕ → Option (Option (ℕ × Tag))
unfolding find_from
find_tag fuel r tag_type = find_from fuel r tag_type r.format.fixed

-- `get_full_tag` for a type of `n` bytes.
unfoldable pub get_full_tag : ℕ → List ℕ → ℕ → Tag → Option (List ℕ)
unfolding copy
get_full_tag n raw addr tag = assert (leb n tag.size) >> copy n raw addr
