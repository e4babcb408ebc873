-- ===== src/Multiboot2/Tags.antt =====
-- The tags of multiboot2_builder.hpp as they are laid out one behind the other.
use guest_tests.Base.{
  ℕ, ◌+◌, ◌-◌, ◌^◌, ◌<◌, ◌≡◌, refl, sym, ap, ◌∙◌, arith, some, List, [], ◌∷◌, ◌++◌, length,
  length-append, All, append_assoc, append-nil, replicate,
}
use native.Mathlib.Nat.{mod-eq_of_lt}
use guest_tests.Multiboot2.{Tag, tag_bytes, tag_at, resize, add_tag, concat, total, mbi2, bytes32}
use guest_tests.Multiboot2.Bytes.{
  tag_at-tag_bytes, aligned, aligned_up, resize_padded, length-resize,
}

-- What is added to the builder by one call of add_tag.
pub record Item : Type 0 where
  pub type : ℕ
  pub fields : List ℕ
  pub payload : List ℕ

abbrev pub item_tag : Item → Tag
item_tag i = record { type = i.type; size = 8 + length i.fields + length i.payload }

abbrev pub item_bytes : Item → List ℕ
item_bytes i = tag_bytes (item_tag i) ++ (i.fields ++ i.payload)

abbrev pub padded : Item → List ℕ
padded i = resize (aligned (item_tag i).size) (item_bytes i)

abbrev pub laid : List Item → List ℕ
laid [] = []
laid (i ∷ items) = padded i ++ laid items

-- The builder after the items were added in turn.
abbrev pub added : List Item → List (List ℕ) → List (List ℕ)
added [] raw_data = raw_data
added (i ∷ items) raw_data = added items (add_tag i.type i.fields i.payload raw_data)

-- Types and sizes are 32-bit words.
abbrev pub Fits : Item → Type 0
Fits i = (i.type < 2 ^ 32) × ((item_tag i).size < 2 ^ 32)

pub length-item_bytes : (i : Item) → length (item_bytes i) ≡ (item_tag i).size
unfolding bytes32
length-item_bytes i = omega (arith, length-append i.fields i.payload)

pub length-padded : (i : Item) → Fits i → length (padded i) ≡ aligned (item_tag i).size
length-padded i h =
    length-resize (aligned (item_tag i).size) (item_bytes i)
      (omega (arith, length-item_bytes i, (aligned_up (item_tag i).size h.1).at_least))

-- A padded item is its bytes and what fills them up.
pub padded_bytes :
    (i : Item)
    → Fits i
    → padded i ≡ item_bytes i ++ replicate (aligned (item_tag i).size - length (item_bytes i)) 0
padded_bytes i h =
    resize_padded (aligned (item_tag i).size) (item_bytes i)
      (omega (arith, length-item_bytes i, (aligned_up (item_tag i).size h.1).at_least))

pub laid-append : (xs ys : List Item) → laid (xs ++ ys) ≡ laid xs ++ laid ys
laid-append [] ys = refl
laid-append (x ∷ xs) ys =
    ap (λ rest. padded x ++ rest) (laid-append xs ys)
    ∙ sym (append_assoc (padded x) (laid xs) (laid ys))

pub All-split {ℓ κ} :
    {A : Type ℓ} (P : A → Type κ) (xs ys : List A) → All P (xs ++ ys) → All P xs × All P ys
All-split P [] ys h = (tt, h)
All-split P (x ∷ xs) ys (hx, h) = let (left, right) = All-split P xs ys h in ((hx, left), right)

pub All_join {ℓ κ} :
    {A : Type ℓ} (P : A → Type κ) (xs ys : List A) → All P xs → All P ys → All P (xs ++ ys)
All_join P [] ys h k = k
All_join P (x ∷ xs) ys (hx, h) k = (hx, All_join P xs ys h k)

concat-append : (xs ys : List (List ℕ)) → concat (xs ++ ys) ≡ concat xs ++ concat ys
concat-append [] ys = refl
concat-append (x ∷ xs) ys =
    ap (λ rest. x ++ rest) (concat-append xs ys) ∙ sym (append_assoc x (concat xs) (concat ys))

pub length-concat : (xs : List (List ℕ)) → length (concat xs) ≡ total xs
length-concat [] = refl
length-concat (x ∷ xs) = omega (arith, length-append x (concat xs), length-concat xs)

pub concat-added :
    (items : List Item) (raw_data : List (List ℕ))
    → All Fits items
    → concat (added items raw_data) ≡ concat raw_data ++ laid items
unfolding add_tag
concat-added [] raw_data h = sym (append-nil (concat raw_data))
concat-added (i ∷ items) raw_data (hi, h) = rw (mod-eq_of_lt hi.1) (
    concat-added items (raw_data ++ padded i ∷ []) h
    ∙ ap (λ front. front ++ laid items)
        (concat-append raw_data (padded i ∷ [])
          ∙ ap (λ item. concat raw_data ++ item) (append-nil (padded i)))
    ∙ append_assoc (concat raw_data) (padded i) (laid items))

-- A tag that is laid out at an address is read there.
pub tag_at-padded :
    (before : List ℕ) (i : Item) (rest : List ℕ)
    → Fits i
    → tag_at mbi2.types (before ++ (padded i ++ rest)) (length before) ≡ some (item_tag i)
tag_at-padded before i rest h =
    ap (λ bytes. tag_at mbi2.types (before ++ bytes) (length before)) split
    ∙ tag_at-tag_bytes mbi2.types before (item_tag i) (i.fields ++ i.payload ++ (filler ++ rest))
        h.0 h.1
    ∙ ap (λ type. some (record { type = type; size = (item_tag i).size })) (mod-eq_of_lt h.0)
  where
    filler : List ℕ
    filler = replicate (aligned (item_tag i).size - length (item_bytes i)) 0

    split : padded i ++ rest ≡ tag_bytes (item_tag i) ++ (i.fields ++ i.payload ++ (filler ++ rest))
    split =
        ap (λ bytes. bytes ++ rest) (padded_bytes i h)
        ∙ append_assoc (item_bytes i) filler rest
        ∙ append_assoc (tag_bytes (item_tag i)) (i.fields ++ i.payload) (filler ++ rest)
