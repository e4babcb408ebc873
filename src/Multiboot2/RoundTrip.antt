-- ===== src/Multiboot2/RoundTrip.antt =====
-- What multiboot2.hpp reads from the structures that multiboot2_builder.hpp builds.
use guest_tests.Base.{
  ℕ, ◌+◌, ◌^◌, ◌<◌, ◌≡◌, ◌≢◌, refl, sym, ap, ◌∙◌, arith, none, some, ◌>>=◌, List, [], ◌∷◌, ◌++◌,
  length, length-append, All, replicate, ◌-◌, append_assoc, append-nil,
}
use native.Mathlib.Nat.{mod-eq_of_lt}
use guest_tests.Math.Align.{IsAlignedUp}
use guest_tests.Multiboot2.{
  tag_bytes, null_tag, resize, total, build, mbi2, reader, find_from, find_tag, copy, bytes32,
  read32,
}
use guest_tests.Multiboot2.Bytes.{copy-middle, read32-bytes32, aligned, aligned_up}
use guest_tests.Multiboot2.Tags.{
  Item, item_tag, item_bytes, padded, padded_bytes, laid, laid-append, length-item_bytes, All-split,
  All_join, added, Fits, concat-added, length-concat,
}
use guest_tests.Multiboot2.Search.{over, find-present, find-absent}

abbrev pub built : List Item → List ℕ
built items = build (added items [])

-- Every tag fits, and so does the whole structure.
pub record IsBuildable (items : List Item) : Type 0 where
  pub fit : All Fits items
  pub sized : 16 + length (laid items) < 2 ^ 32

abbrev null_item : Item
null_item = record { type = 0; fields = []; payload = [] }

null_item_Fits : Fits null_item
null_item_Fits = (omega arith, omega arith)

padded-null_item : padded null_item ≡ tag_bytes null_tag
unfolding bytes32
padded-null_item =
    ap (λ n. resize n (tag_bytes null_tag)) {x = aligned 8} {y = 8}
      (omega (arith, up.aligned, up.at_least, up.nearest))
  where
    up : IsAlignedUp 8 3 (aligned 8)
    up = aligned_up 8 (omega arith)

length-null_item : length (laid (null_item ∷ [])) ≡ 8
unfolding bytes32
length-null_item = ap length (append-nil (padded null_item) ∙ padded-null_item)

abbrev pub fixed_part : List Item → List ℕ
fixed_part items = bytes32 (16 + length (laid items)) ++ bytes32 0

length-fixed_part : (items : List Item) → length (fixed_part items) ≡ 8
unfolding bytes32
length-fixed_part items = refl

module _ (items : List Item) (ok : IsBuildable items) where
  total_lem : 8 + total (added items []) + 8 ≡ 16 + length (laid items)
  total_lem =
      omega (arith, length-concat (added items []), ap length (concat-added items [] ok.fit))

  built_lem : built items ≡ fixed_part items ++ laid (items ++ null_item ∷ [])
  unfolding build
  built_lem =
      rw (total_lem, mod-eq_of_lt ok.sized, concat-added items [] ok.fit)
        (sym (
            append_assoc (bytes32 (16 + length (laid items))) (bytes32 0)
              (laid items ++ tag_bytes null_tag))
          ∙ ap (λ rest. fixed_part items ++ rest) behind)
    where
      behind : laid items ++ tag_bytes null_tag ≡ laid (items ++ null_item ∷ [])
      behind =
          ap (λ end. laid items ++ end) (sym padded-null_item ∙ sym (append-nil (padded null_item)))
          ∙ sym (laid-append items (null_item ∷ []))

  length-built : length (built items) ≡ 16 + length (laid items)
  length-built =
      ap length
        (built_lem ∙ ap (λ rest. fixed_part items ++ rest) (laid-append items (null_item ∷ [])))
      ∙ omega (
        arith,
        length-fixed_part items,
        length-null_item,
        length-append (fixed_part items) (laid items ++ laid (null_item ∷ [])),
        length-append (laid items) (laid (null_item ∷ [])),
      )

  reader-built : reader mbi2 (built items) ≡ some (over (length (built items)) (built items))
  unfolding reader
  reader-built = rw (front, whole) refl
    where
      front : copy 8 (built items) 0 ≡ some (fixed_part items)
      front =
          ap (λ raw. copy 8 raw 0) built_lem
          ∙ (copy-middle 8 [] (fixed_part items) (laid (items ++ null_item ∷ []))
              (length-fixed_part items))

      whole : read32 (fixed_part items) 0 ≡ some (length (built items))
      whole =
          read32-bytes32 [] (16 + length (laid items)) (bytes32 0) ok.sized
          ∙ ap some (sym length-built)

built_small : (items : List Item) → IsBuildable items → length (built items) < 2 ^ 32
built_small items ok = omega (arith, length-built items ok, ok.sized)

-- `find_tag` of the reader over the structure finds the bytes of the item.
pub record Finds (fuel : ℕ) (raw : List ℕ) (item : Item) : Type 0 where
  pub addr : ℕ
  pub found :
      (reader mbi2 raw >>= (λ r. find_tag fuel r item.type)) ≡ some (some (addr, item_tag item))
  pub there : copy (item_tag item).size raw addr ≡ some (item_bytes item)

-- For tags that fit into a structure of less than 2^32 bytes: behind tags of other types the reader
-- finds a tag with the size and, at its address, all the bytes that the builder was given, in a
-- round for each tag up to it.
pub find_tag-built :
    (fuel : ℕ) (front : List Item) (item : Item) (back : List Item)
    → length front < fuel
    → IsBuildable (front ++ item ∷ back)
    → All (λ j. j.type ≢ item.type) front
    → Finds fuel (built (front ++ item ∷ back)) item
unfolding find_tag bytes32
find_tag-built fuel front item back hf ok others = record {
  addr = length (fixed_part items ++ laid front);
  found = rw (reader-built items ok) (
      ap (λ raw. find_from fuel (over (length (built items)) raw) item.type 8) split
      ∙ find-present item.type (length (built items)) (built_small items ok) fuel (fixed_part items)
          front item rest hf fits.0 fits.1.0 others refl
          (omega (
            arith,
            length-built items ok,
            length-fixed_part items,
            ap length (laid-append front (item ∷ back)),
            length-append (laid front) (laid (item ∷ back)),
          )));
  there =
      ap (λ raw. copy (item_tag item).size raw (length (fixed_part items ++ laid front))) exposed
      ∙ copy-middle (item_tag item).size (fixed_part items ++ laid front) (item_bytes item)
          (filler ++ rest) (length-item_bytes item);
}
  where
    items : List Item
    items = front ++ item ∷ back

    rest : List ℕ
    rest = laid (back ++ null_item ∷ [])

    fits : All Fits front × All Fits (item ∷ back)
    fits = All-split Fits front (item ∷ back) ok.fit

    split : built items ≡ fixed_part items ++ (laid front ++ (padded item ++ rest))
    split =
        built_lem items ok
        ∙ ap (λ bytes. fixed_part items ++ bytes)
            (ap laid (append_assoc front (item ∷ back) (null_item ∷ []))
              ∙ laid-append front (item ∷ (back ++ null_item ∷ [])))

    filler : List ℕ
    filler = replicate (aligned (item_tag item).size - length (item_bytes item)) 0

    exposed :
        built items ≡ (fixed_part items ++ laid front) ++ (item_bytes item ++ (filler ++ rest))
    exposed =
        split
        ∙ sym (append_assoc (fixed_part items) (laid front) (padded item ++ rest))
        ∙ ap (λ bytes. (fixed_part items ++ laid front) ++ bytes)
            (ap (λ bytes. bytes ++ rest) (padded_bytes item fits.1.0)
              ∙ append_assoc (item_bytes item) filler rest)

-- For tags that fit into a structure of less than 2^32 bytes: the reader finds no tag of a type, other
-- than the null tag's, that was not added, in two rounds more than there are tags.
pub find_tag_absent :
    (fuel tag_type : ℕ) (items : List Item)
    → length items + 1 < fuel
    → IsBuildable items
    → tag_type ≢ 0
    → All (λ j. j.type ≢ tag_type) items
    → (reader mbi2 (built items) >>= (λ r. find_tag fuel r tag_type)) ≡ some none
unfolding find_tag bytes32
find_tag_absent fuel tag_type items hf ok real others = rw (reader-built items ok) (
    ap (λ raw. find_from fuel (over (length (built items)) raw) tag_type 8) (built_lem items ok)
    ∙ find-absent tag_type (length (built items)) (built_small items ok) fuel (fixed_part items)
        (items ++ null_item ∷ []) (omega (arith, length-append items (null_item ∷ [])))
        (All_join Fits items (null_item ∷ []) ok.fit (null_item_Fits, tt))
        (All_join (λ j. j.type ≢ tag_type) items (null_item ∷ []) others ((λ e. real (sym e)), tt))
        (omega (
          arith,
          length-built items ok,
          length-fixed_part items,
          length-null_item,
          ap length (laid-append items (null_item ∷ [])),
          length-append (laid items) (laid (null_item ∷ [])),
        )))
