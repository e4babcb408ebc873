-- ===== src/Multiboot2/Header.antt =====
-- `locate_header` of multiboot2.hpp: the header of a kernel image, which is a list of bytes.
pub mod First
use guest_tests.Base.{
  ℕ, zero, suc, ◌+◌, ◌-◌, ◌*◌, ◌%◌, ◌≤◌, ◌<◌, min, ◌≡◌, ◌≢◌, refl, sym, ap, subst, some_inj, ◌∙◌,
  arith, Bool, true, false, ◌&&◌, ◌==◌, leb, ltb, if◌then◌else◌, Bool-cases, ==_iff, ltb→lt, inl,
  inr, Option, none, some, Option-cases, ◌>>=◌, List, [], ◌∷◌, length, drop,
}
use guest_tests.Multiboot2.{Reader, reader, mb2_header, copy, read32, word32}

abbrev pub mb2_hdr_magic : List ℕ
mb2_hdr_magic = 0xD6 ∷ 0x50 ∷ 0x52 ∷ 0xE8 ∷ []

abbrev pub mb2_hdr_max : ℕ
mb2_hdr_max = 32 * 1024

unfoldable pub starts_with : List ℕ → List ℕ → Bool
starts_with [] bytes = true
starts_with (m ∷ magic) [] = false
starts_with (m ∷ magic) (b ∷ bytes) = b == m && starts_with magic bytes

abbrev pub magic_at : List ℕ → ℕ → Bool
magic_at binary p = starts_with mb2_hdr_magic (drop p binary)

-- `std::search` for the magic in front of `search_end`; the answer `search_end` is `none`.
unfoldable pub search_magic : ℕ → List ℕ → ℕ → ℕ → Option ℕ
unfolding starts_with
search_magic zero binary search_end p = none
search_magic (suc left) binary search_end p =
    let rest = search_magic left binary search_end (p + 1) in
    if leb (p + 4) search_end then (if magic_at binary p then some p else rest) else none

-- The loop of `locate_header`: the offset of the header. The outer `none` is fuel that ran out.
abbrev pub aligned_or : (ℕ → Option (Option ℕ)) → Option ℕ → Option (Option ℕ)
aligned_or onward none = some none
aligned_or onward (some found) = if found % 8 == 0 then some (some found) else onward (found + 1)

unfoldable pub locate_from : ℕ → List ℕ → ℕ → ℕ → Option (Option ℕ)
unfolding search_magic
locate_from zero binary search_end search_begin = none
locate_from (suc fuel) binary search_end search_begin =
    let searched =
      aligned_or (λ begin. locate_from fuel binary search_end begin)
        (search_magic (search_end - search_begin) binary search_end search_begin) in
    if ltb search_begin search_end then searched else some none

abbrev pub search_end_of : List ℕ → ℕ
search_end_of binary = min mb2_hdr_max (length binary) - 8

unfoldable pub locate : ℕ → List ℕ → Option (Option ℕ)
unfolding locate_from
locate fuel binary =
    if ltb (length binary) 16 then some none else locate_from fuel binary (search_end_of binary) 0

-- The reader over the header that was found; `none` is also a read behind the image.
unfoldable pub locate_header : ℕ → List ℕ → Option (Option Reader)
unfolding locate reader
locate_header fuel binary = locate fuel binary >>= (λ found. elim found [
  | none ↦ some none
  | some offset ↦ reader mb2_header (drop offset binary) >>= (λ r. some (some r))
])
