-- ===== src/ShadowReg/Access.antt =====
-- The reads and writes of util/shadow_reg.hpp on a register and a buffer.
use guest_tests.Base.{
  ℕ, ◌+◌, ◌<◌, ◌≡◌, refl, sym, ap, ap₂, ◌∙◌, arith, true, false, ◌==◌, leb, Bool-cases, inl, inr,
  none, some, List, [], ◌∷◌, ◌++◌, length, length-append, drop, take-append, take_all, drop-middle,
  append-nil,
}
use guest_tests.ShadowReg.{view_read, view_write, supported, read, set_shadow}

nothing : (xs : List ℕ) → length xs ≡ 0 → xs ≡ []
nothing [] h = refl
nothing (x ∷ xs) h = absurd (omega (arith, h))

-- For a register of bytes `xs`, `ys` and `zs`, and a buffer of a supported size with as many bytes as
-- `ys`: set_shadow at the offset of `ys` puts the buffer in its place and keeps all else.
pub set_shadow-replaces :
    (xs ys zs buf : List ℕ)
    → length buf ≡ length ys
    → supported (length buf) ≡ true
    → set_shadow (xs ++ (ys ++ zs)) buf (length xs) ≡ some (xs ++ (buf ++ zs))
unfolding set_shadow view_read view_write
set_shadow-replaces xs ys zs buf e ok =
    elim (Bool-cases (length (xs ++ (ys ++ zs)) == length buf)) [
      | inl all_of_it ↦
          rw (in_register, all_of_it, whole_buffer all_of_it)
            (ap some (
              take_all (length (xs ++ (ys ++ zs))) buf (ground (arith, all_of_it))
              ∙ sym (append-nil buf)
              ∙ ap₂ (λ a b. a ++ (buf ++ b))
                  (sym (nothing xs (omega (arith, sizes, e, same all_of_it))))
                  (sym (nothing zs (omega (arith, sizes, e, same all_of_it))))))
      | inr part ↦
          rw
            (
              in_register,
              part,
              ok,
              in_buffer,
              take_all (length buf) buf (ground arith),
              in_register,
              take-append xs (ys ++ zs),
              behind,
            )
            refl
    ]
  where
    sizes : length (xs ++ (ys ++ zs)) ≡ length xs + length ys + length zs
    sizes = omega (arith, length-append xs (ys ++ zs), length-append ys zs)

    same : (length (xs ++ (ys ++ zs)) == length buf) ≡ true → length (xs ++ (ys ++ zs)) ≡ length buf
    same h = ground (arith, h)

    in_register : leb (length buf + length xs) (length (xs ++ (ys ++ zs))) ≡ true
    in_register = ground (arith, sizes, e)

    in_buffer : leb (length buf + 0) (length buf) ≡ true
    in_buffer = ground arith

    whole_buffer :
        (length (xs ++ (ys ++ zs)) == length buf) ≡ true
        → leb (length (xs ++ (ys ++ zs)) + 0) (length buf) ≡ true
    whole_buffer h = ground (arith, h)

    behind : drop (length xs + length buf) (xs ++ (ys ++ zs)) ≡ zs
    behind = ap (λ n. drop (length xs + n) (xs ++ (ys ++ zs))) e ∙ drop-middle xs ys zs

-- For a buffer that is smaller than the register, read stops at a failed assertion, whatever the offset is.
pub read-partial_stops :
    (shadow buf : List ℕ) (offset : ℕ) → length buf < length shadow → read shadow buf offset ≡ none
unfolding read view_read view_write
read-partial_stops shadow buf offset h =
    elim (Bool-cases (leb (length shadow) (length buf + offset))) [
      | inr short ↦ rw short refl
      | inl reaches ↦ elim (Bool-cases (length shadow == length buf + offset)) [
        | inl exact ↦ rw (reaches, exact, too_small) refl
        | inr over ↦ elim (Bool-cases (supported (length buf))) [
          | inl fits ↦ rw (reaches, over, fits, behind reaches over) refl
          | inr odd ↦ rw (reaches, over, odd) refl
        ]
      ]
    ]
  where
    too_small : leb (length shadow + 0) (length buf) ≡ false
    too_small = ground (arith, h)

    behind :
        leb (length shadow) (length buf + offset) ≡ true
        → (length shadow == length buf + offset) ≡ false
        → leb (length buf + offset) (length shadow) ≡ false
    behind r o = ground (arith, r, o)
