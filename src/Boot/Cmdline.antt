-- ===== src/Boot/Cmdline.antt =====
-- The command line that `entry64` of src/boot.cpp takes from the information of multiboot2_builder.hpp.
use guest_tests.Base.{
  ℕ, zero, suc, ◌+◌, ◌-◌, ◌≤◌, ◌<◌, ◌≡◌, ◌≢◌, refl, sym, ap, ◌∙◌, arith, true, leb, Bool-cases, inl,
  inr, some_inj, Option, none, some, ◌>>=◌, List, [], ◌∷◌, ◌++◌, length, length-append, take, drop,
  append_assoc, All,
}
use guest_tests.Multiboot2.{
  Tag, mbi2, reader, find_tag, get_full_tag, copy, bytes32, tag_bytes, cmdline_type,
}
use guest_tests.Multiboot2.Bytes.{copy-middle}
use guest_tests.Multiboot2.Tags.{Item, item_tag, item_bytes}
use guest_tests.Multiboot2.RoundTrip.{built, IsBuildable, Finds, find_tag-built}
use guest_tests.Boot.{cmdline_of, mb2_cmdline}

module _ {ℓ} {A : Type ℓ} where
  take-drop : (n : ℕ) (xs : List A) → take n xs ++ drop n xs ≡ xs
  take-drop zero xs = refl
  take-drop (suc n) [] = refl
  take-drop (suc n) (x ∷ xs) = ap (λ rest. x ∷ rest) (take-drop n xs)

  length-take : (n : ℕ) (xs : List A) → n ≤ length xs → length (take n xs) ≡ n
  length-take zero xs h = refl
  length-take (suc n) [] h = absurd (omega arith)
  length-take (suc n) (x ∷ xs) h = omega (arith, length-take n xs (omega arith))

-- Memory is split by what was copied from it.
record Split (raw bytes : List ℕ) (addr : ℕ) : Type 0 where
  before : List ℕ
  rest : List ℕ
  whole : raw ≡ before ++ (bytes ++ rest)
  start : length before ≡ addr

copied :
    (n : ℕ) (raw bytes : List ℕ) (addr : ℕ) → copy n raw addr ≡ some bytes → Split raw bytes addr
unfolding copy
copied n raw bytes addr e = elim (Bool-cases (leb (addr + n) (length raw))) [
  | inr outside ↦ cc (rw outside at e)
  | inl inside ↦ record {
    before = take addr raw;
    rest = drop n (drop addr raw);
    whole =
        sym (take-drop addr raw)
        ∙ ap (λ rest. take addr raw ++ rest)
            (sym (take-drop n (drop addr raw))
              ∙ ap (λ front. front ++ drop n (drop addr raw)) (some_inj (rw inside at e)));
    start = length-take addr raw (ground (arith, inside));
  }
]

-- What follows the head of a tag is copied as it stands.
cmdline_of-item :
    (raw payload : List ℕ) (addr : ℕ) (tag : Tag)
    → tag.size ≡ 8 + length payload
    → Split raw (tag_bytes tag ++ payload) addr
    → cmdline_of raw (some (addr, tag)) ≡ some payload
unfolding get_full_tag bytes32
cmdline_of-item raw payload addr tag sized split = rw (large, head_there, back_there) refl
  where
    large : leb 8 tag.size ≡ true
    large = ground (arith, sized)

    head_there : copy 8 raw addr ≡ some (tag_bytes tag)
    head_there =
        ap (λ mem. copy 8 mem addr)
          (split.whole
            ∙ ap (λ bytes. split.before ++ bytes) (append_assoc (tag_bytes tag) payload split.rest))
        ∙ ap (copy 8 (split.before ++ (tag_bytes tag ++ (payload ++ split.rest)))) (sym split.start)
        ∙ copy-middle 8 split.before (tag_bytes tag) (payload ++ split.rest) refl

    back_there : copy (tag.size - 8) raw (addr + 8) ≡ some payload
    back_there =
        ap (λ mem. copy (tag.size - 8) mem (addr + 8))
          (split.whole
            ∙ ap (λ bytes. split.before ++ bytes) (append_assoc (tag_bytes tag) payload split.rest)
            ∙ sym (append_assoc split.before (tag_bytes tag) (payload ++ split.rest)))
        ∙ ap (copy (tag.size - 8) ((split.before ++ tag_bytes tag) ++ (payload ++ split.rest)))
            (omega (arith, split.start, length-append split.before (tag_bytes tag)))
        ∙ copy-middle (tag.size - 8) (split.before ++ tag_bytes tag) payload split.rest
            (omega (arith, sized))

abbrev pub command_item : List ℕ → Item
command_item cmdline = record { type = cmdline_type; fields = []; payload = cmdline ++ 0 ∷ [] }

bind_assoc :
    {A B C : Type 0} (m : Option A) (f : A → Option B) (g : B → Option C)
    → (m >>= (λ a. f a >>= g)) ≡ ((m >>= f) >>= g)
bind_assoc none f g = refl
bind_assoc (some a) f g = refl

length-command :
    (cmdline : List ℕ) → (item_tag (command_item cmdline)).size ≡ 8 + length (cmdline ++ 0 ∷ [])
length-command cmdline = omega arith

-- For tags that fit into a structure of less than 2^32 bytes, the first command line behind tags of
-- other types: start-up takes the line that was added and the zero behind it, which stays in the string.
pub mb2_cmdline-built :
    (fuel : ℕ) (front : List Item) (cmdline : List ℕ) (back : List Item)
    → length front < fuel
    → IsBuildable (front ++ command_item cmdline ∷ back)
    → All (λ j. j.type ≢ cmdline_type) front
    → mb2_cmdline fuel (built (front ++ command_item cmdline ∷ back)) ≡ some (cmdline ++ 0 ∷ [])
unfolding mb2_cmdline
mb2_cmdline-built fuel front cmdline back hf ok others =
    bind_assoc (reader mbi2 raw) (λ r. find_tag fuel r cmdline_type) (cmdline_of raw)
    ∙ ap (λ found. found >>= cmdline_of raw) finds.found
    ∙ cmdline_of-item raw (cmdline ++ 0 ∷ []) finds.addr (item_tag item) (length-command cmdline)
        (copied (item_tag item).size raw (item_bytes item) finds.addr finds.there)
  where
    item : Item
    item = command_item cmdline

    raw : List ℕ
    raw = built (front ++ item ∷ back)

    finds : Finds fuel raw item
    finds = find_tag-built fuel front item back hf ok others
