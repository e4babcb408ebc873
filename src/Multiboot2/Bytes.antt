-- ===== src/Multiboot2/Bytes.antt =====
-- Words in memory, and the bytes of a tag that multiboot2_builder.hpp lays down.
use guest_tests.Base.{
  ℕ, ◌+◌, ◌-◌, ◌%◌, ◌^◌, ◌≤◌, ◌<◌, ◌≡◌, refl, sym, ap, ◌∙◌, arith, true, leb, some, List, ◌++◌,
  length, length-append, length-replicate, replicate, take-append, take_all, drop-append,
  drop-middle, append_assoc,
}
use guest_tests.Math.{align_up, order_max}
use guest_tests.Math.Orders.{order_max-two-pow}
use guest_tests.Math.Align.{IsAlignedUp, align_up-IsAlignedUp}
use guest_tests.Multiboot2.{
  copy, bytes32, word32, read32, Tag, tag_bytes, tag_at, alignment, resize,
}

word32-bytes32 : (n : ℕ) (rest : List ℕ) → n < 2 ^ 32 → word32 (bytes32 n ++ rest) ≡ some n
unfolding word32 bytes32
word32-bytes32 n rest h = ap some (omega arith)

-- A word is read back where it stands.
pub read32-bytes32 :
    (before : List ℕ) (n : ℕ) (rest : List ℕ)
    → n < 2 ^ 32
    → read32 (before ++ (bytes32 n ++ rest)) (length before) ≡ some n
unfolding read32
read32-bytes32 before n rest h =
    ap word32 (drop-append before (bytes32 n ++ rest)) ∙ word32-bytes32 n rest h

pub copy-middle :
    (n : ℕ) (before bytes rest : List ℕ)
    → length bytes ≡ n
    → copy n (before ++ (bytes ++ rest)) (length before) ≡ some bytes
unfolding copy
copy-middle n before bytes rest e =
    rw (inside, drop-append before (bytes ++ rest), sym e, take-append bytes rest) refl
  where
    inside : leb (length before + n) (length (before ++ (bytes ++ rest))) ≡ true
    inside = ground (arith, e, length-append before (bytes ++ rest), length-append bytes rest)

read32-second :
    (before : List ℕ) (m n : ℕ) (rest : List ℕ)
    → n < 2 ^ 32
    → read32 (before ++ (bytes32 m ++ (bytes32 n ++ rest))) (length before + 4) ≡ some n
unfolding read32 bytes32
read32-second before m n rest h =
    ap word32 (drop-middle before (bytes32 m) (bytes32 n ++ rest)) ∙ word32-bytes32 n rest h

-- A tag is read back where it stands.
pub tag_at-tag_bytes :
    (types : ℕ) (before : List ℕ) (tag : Tag) (rest : List ℕ)
    → tag.type < 2 ^ 32
    → tag.size < 2 ^ 32
    → tag_at types (before ++ (tag_bytes tag ++ rest)) (length before)
      ≡ some (record { type = tag.type % types; size = tag.size })
unfolding tag_at
tag_at-tag_bytes types before tag rest ht hs =
    ap (λ bytes. tag_at types (before ++ bytes) (length before))
      (append_assoc (bytes32 tag.type) (bytes32 tag.size) rest)
    ∙ rw
        (
          read32-bytes32 before tag.type (bytes32 tag.size ++ rest) ht,
          read32-second before tag.type tag.size rest hs,
        )
        refl

-- The size of a tag with its padding.
abbrev pub aligned : ℕ → ℕ
aligned size = align_up size (order_max alignment)

pub aligned_up : (size : ℕ) → size < 2 ^ 32 → IsAlignedUp size 3 (aligned size)
aligned_up size h =
    rw (order_max-two-pow 3 (omega arith)) (align_up-IsAlignedUp size 3 (omega arith) (omega arith))

pub resize_padded :
    (n : ℕ) (xs : List ℕ) → length xs ≤ n → resize n xs ≡ xs ++ replicate (n - length xs) 0
resize_padded n xs h = ap (λ front. front ++ replicate (n - length xs) 0) (take_all n xs h)

pub length-resize : (n : ℕ) (xs : List ℕ) → length xs ≤ n → length (resize n xs) ≡ n
length-resize n xs h =
    ap length (resize_padded n xs h)
    ∙ omega (
      arith,
      length-append xs (replicate (n - length xs) 0),
      length-replicate {A = ℕ} (n - length xs) 0,
    )
