-- ===== src/Tests/Multiboot2.antt =====
-- Tests and instances for the boot information.
use guest_tests.Base.{ℕ, ◌≡◌, refl, arith, none, some, Option, List, [], ◌∷◌, ◌++◌, replicate}
use guest_tests.Math.{align_up, align_down, order_max, order_max_from, mask}
use guest_tests.Multiboot2.{
  copy, bytes32, add_tag, add_boot_cmdline, add_image_load_base, build, reader,
}
use guest_tests.Multiboot2.Tags.{Item}
use guest_tests.Multiboot2.RoundTrip.{built, IsBuildable, Finds, find_tag-built}
use guest_tests.Multiboot2.Header.{starts_with, search_magic, locate_from, locate, locate_header}
use guest_tests.Multiboot2.Header.First.{Located, locate-Located}

abbrev load_base : Item
load_base = record { type = 21; fields = 0 ∷ 0 ∷ 16 ∷ 0 ∷ []; payload = [] }

abbrev command : Item
command = record { type = 1; fields = []; payload = 97 ∷ 98 ∷ 99 ∷ 0 ∷ [] }

abbrev information : List ℕ
information = built (load_base ∷ command ∷ [])

-- The builder's calls lay down what the items stand for.
information_lem :
    build (add_boot_cmdline (97 ∷ 98 ∷ 99 ∷ []) (add_image_load_base 0x100000 [])) ≡ information
unfolding add_boot_cmdline add_image_load_base bytes32
information_lem = refl

information_bytes :
    information
    ≡ (48 ∷ 0 ∷ 0 ∷ 0 ∷ 0 ∷ 0 ∷ 0 ∷ 0 ∷ [])
      ++ (21 ∷ 0 ∷ 0 ∷ 0 ∷ 12 ∷ 0 ∷ 0 ∷ 0 ∷ 0 ∷ 0 ∷ 16 ∷ 0 ∷ 0 ∷ 0 ∷ 0 ∷ 0 ∷ [])
      ++ (1 ∷ 0 ∷ 0 ∷ 0 ∷ 12 ∷ 0 ∷ 0 ∷ 0 ∷ 97 ∷ 98 ∷ 99 ∷ 0 ∷ 0 ∷ 0 ∷ 0 ∷ 0 ∷ [])
      ++ (0 ∷ 0 ∷ 0 ∷ 0 ∷ 8 ∷ 0 ∷ 0 ∷ 0 ∷ [])
unfolding build add_tag bytes32 align_up align_down order_max order_max_from mask
information_bytes = refl

information_IsBuildable : IsBuildable (load_base ∷ command ∷ [])
unfolding bytes32 align_up align_down order_max order_max_from mask
information_IsBuildable = record {
  fit = ((omega arith, omega arith), ((omega arith, omega arith), tt));
  sized = omega arith;
}

find_tag-built_example : Finds 2 information command
find_tag-built_example =
    find_tag-built 2 (load_base ∷ []) command [] (omega arith) information_IsBuildable
      ((omega arith), tt)

-- The magic stands at 4, where it is not aligned, and at 8.
abbrev image : List ℕ
image =
    0 ∷ 0 ∷ 0 ∷ 0 ∷ 0xD6 ∷ 0x50 ∷ 0x52 ∷ 0xE8 ∷ 0xD6 ∷ 0x50 ∷ 0x52 ∷ 0xE8 ∷ 0 ∷ 0 ∷ 0 ∷ 0 ∷ 16 ∷ 0
    ∷ 0 ∷ 0 ∷ []

-- The image ends behind the size in the header: the reader copies 16 bytes all the same.
locate_header_run : locate_header 20 image ≡ none
unfolding locate_header locate locate_from search_magic starts_with reader copy
locate_header_run = refl

locate_run : locate 20 image ≡ some (some 8)
unfolding locate locate_from search_magic starts_with
locate_run = refl

locate_header_whole : locate 20 (image ++ replicate 4 0) ≡ some (some 8)
unfolding locate locate_from search_magic starts_with
locate_header_whole = refl

locate-Located_example : (r : Option ℕ) × (locate 32769 image ≡ some r) × Located image 12 0 r
locate-Located_example = locate-Located 32769 image (omega arith) (omega arith)
