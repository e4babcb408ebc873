-- ===== src/Pci/Device/Search.antt =====
-- The searches of pci/device.hpp for a capability, over the list that the capabilities form.
use guest_tests.Base.{
  ℕ, zero, suc, ◌<◌, ◌≡◌, ◌≢◌, refl, arith, false, ◌==◌, if◌then◌else◌, Bool-cases, inl, inr, ◌⊎◌,
  some, List, [], ◌∷◌, length,
}
use guest_tests.Pci.Device.{
  find_from, find_cap, find_ext_cap, cap_offset, cap_id, cap_next, ext_cap_id, ext_cap_next,
}

-- The offsets of a list that ends with 0 or with `stop`.
unfoldable pub Chain : (next_of : ℕ → ℕ) → (stop off : ℕ) → List ℕ → Type 0
Chain next_of stop off [] = (off ≡ 0) ⊎ (off ≡ stop)
Chain next_of stop off (x ∷ xs) =
    (x ≡ off) × (off ≢ 0) × (off ≢ stop) × Chain next_of stop (next_of off) xs

-- The first offset with the id, or 0.
unfoldable pub first_with : (id_of : ℕ → ℕ) → ℕ → List ℕ → ℕ
first_with id_of id [] = 0
first_with id_of id (x ∷ xs) =
    let rest = first_with id_of id xs in if id_of x == id then x else rest

differs : (a b : ℕ) → a ≢ b → (a == b) ≡ false
differs a b h = ground (arith, h)

module _ (id_of next_of : ℕ → ℕ) (stop : ℕ) where
  ended :
      (fuel id off : ℕ)
      → (off ≡ 0) ⊎ (off ≡ stop)
      → find_from id_of next_of stop (suc fuel) id off ≡ some 0
  unfolding find_from
  ended fuel id off (inl e) = ground (arith, e)
  ended fuel id off (inr e) = ground (arith, e)

  find_from-first :
      (fuel id off : ℕ) (offs : List ℕ)
      → Chain next_of stop off offs
      → length offs < fuel
      → find_from id_of next_of stop fuel id off ≡ some (first_with id_of id offs)
  unfolding find_from Chain first_with
  find_from-first zero id off offs c h = absurd (omega arith)
  find_from-first (suc fuel) id off [] c h = ended fuel id off c
  find_from-first (suc fuel) id off (x ∷ xs) (e, nz, ns, c) h =
      elim (Bool-cases (id_of off == id)) [
        | inl found ↦ rw (differs off 0 nz, differs off stop ns, e, found) refl
        | inr other ↦
            rw (differs off 0 nz, differs off stop ns, e, other)
              (find_from-first fuel id (next_of off) xs c (omega arith))
      ]

-- For a device whose capabilities form a list, and more rounds than capabilities: find_cap ends, and
-- answers the first offset of the list whose capability has the id, or 0 if none has.
pub find_cap-first :
    (config byte half : ℕ → ℕ) (cfg_base fuel id : ℕ) (offs : List ℕ)
    → Chain (cap_next config byte half cfg_base) 0xff (cap_offset config cfg_base) offs
    → length offs < fuel
    → find_cap config byte half cfg_base fuel id
      ≡ some (first_with (cap_id config byte half cfg_base) id offs)
unfolding find_cap
find_cap-first config byte half cfg_base fuel id offs c h =
    find_from-first (cap_id config byte half cfg_base) (cap_next config byte half cfg_base) 0xff
      fuel id (cap_offset config cfg_base) offs c h

-- For a device whose capabilities and whose extended capabilities form lists, and more rounds than
-- there are in each: find_ext_cap ends, and answers 0 if no capability is the PCI Express one, else the
-- first offset of the extended list with the id, or 0 if none has it.
pub find_ext_cap-first :
    (config byte half : ℕ → ℕ) (cfg_base fuel id : ℕ) (offs exts : List ℕ)
    → Chain (cap_next config byte half cfg_base) 0xff (cap_offset config cfg_base) offs
    → Chain (ext_cap_next config byte half cfg_base) 0xfff 256 exts
    → length offs < fuel
    → length exts < fuel
    → find_ext_cap config byte half cfg_base fuel id
      ≡ some (
          if first_with (cap_id config byte half cfg_base) 0x10 offs == 0
          then 0
          else first_with (ext_cap_id config byte half cfg_base) id exts)
unfolding find_ext_cap
find_ext_cap-first config byte half cfg_base fuel id offs exts c d h k =
    elim (Bool-cases (first_with (cap_id config byte half cfg_base) 0x10 offs == 0)) [
      | inl plain ↦ rw (find_cap-first config byte half cfg_base fuel 0x10 offs c h, plain) refl
      | inr express ↦
          rw (find_cap-first config byte half cfg_base fuel 0x10 offs c h, express)
            (find_from-first (ext_cap_id config byte half cfg_base)
              (ext_cap_next config byte half cfg_base) 0xfff fuel id 256 exts d k)
    ]
