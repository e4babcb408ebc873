-- ===== src/Paging/Pde/Setters.antt =====
-- What the setters of src/lib/toyos/src/pd.cpp store.
use guest_tests.Base.{
  ℕ, ◌<◌, ◌^◌, ◌≡◌, refl, arith, Bool, true, false, List, [], ◌∷◌, All, some, Option, Bool-cases,
  inl, inr, bit_and,
}
use guest_tests.Math.{mask}
use guest_tests.Paging.Entry.{Tlb, times, set_bits, is_present, is_large, is_global}
use Tlb.{kept, non_global, everything, one_page}
use guest_tests.Paging.Fields.{Replaced, flag-Replaced}
use guest_tests.Paging.Pde.{
  invalidate_entry, access_helper, set_present, set_writeable, set_usermode, set_pwt, set_pcd,
  set_accessed, set_exec_disable, get_page, lpage_mask,
}

-- The setters of flags that answer nothing, each with its bit.
abbrev pub pde_setters : List ((Bool → Bool → ℕ → Option (ℕ × Tlb)) × ℕ)
pde_setters =
    (set_present, 0)
    ∷ (set_writeable, 1)
    ∷ (set_usermode, 2)
    ∷ (set_pwt, 3)
    ∷ (set_pcd, 4)
    ∷ (set_accessed, 5)
    ∷ (set_exec_disable, 63)
    ∷ []

pub invalidate_entry-some :
    (invl : Bool) (raw : ℕ) → (t : Tlb) × (invalidate_entry invl raw ≡ some t)
unfolding invalidate_entry get_page is_large
invalidate_entry-some false raw = (kept, refl)
invalidate_entry-some true raw = elim (Bool-cases (is_global raw)) [
  | inl global ↦ (everything, rw global refl)
  | inr local ↦ elim (Bool-cases (is_large raw)) [
    | inl large ↦
        (one_page (bit_and raw lpage_mask), rw (local, large, is_large→is_present raw large) refl)
    | inr small ↦ (non_global, rw (local, small) refl)
  ]
]
  where
    is_large→is_present : (raw : ℕ) → is_large raw ≡ true → is_present raw ≡ true
    is_large→is_present raw h = elim (Bool-cases (is_present raw)) [
      | inl yes_present ↦ yes_present
      | inr absent ↦ ground (arith, h, absent)
    ]

pub SetsFlag : (Bool → Bool → ℕ → Option (ℕ × Tlb)) × ℕ → Type 0
SetsFlag (f, k) =
    (value invl : Bool) (raw : ℕ)
    → (raw2 : ℕ) × (t : Tlb) × (f value invl raw ≡ some (raw2, t))
      × Replaced k 1 (times value 1) raw raw2

access_helper-SetsFlag :
    (k m : ℕ)
    → k < 64
    → m ≡ 2 ^ k
    → SetsFlag ((λ value invl raw. access_helper value m invl raw), k)
unfolding SetsFlag access_helper
access_helper-SetsFlag k m h e value invl raw =
    let (t, flushed) = invalidate_entry-some invl (set_bits raw m (times value m)) in
    (set_bits raw m (times value m), t, rw flushed refl, flag-Replaced k raw m value h e)

-- Every setter of a flag of a PD entry that answers nothing stores the value in the bit of
-- its flag and leaves all other bits as they were; when it invalidates it finds the optional that it
-- uses filled.
pub pde_setters-SetsFlag : All SetsFlag pde_setters
unfolding SetsFlag set_present set_writeable set_usermode set_pwt set_pcd set_accessed
    set_exec_disable mask
pde_setters-SetsFlag = (
  access_helper-SetsFlag 0 _ (omega arith) refl,
  (
    access_helper-SetsFlag 1 _ (omega arith) refl,
    (
      access_helper-SetsFlag 2 _ (omega arith) refl,
      (
        access_helper-SetsFlag 3 _ (omega arith) refl,
        (
          access_helper-SetsFlag 4 _ (omega arith) refl,
          (
            access_helper-SetsFlag 5 _ (omega arith) refl,
            (access_helper-SetsFlag 63 _ (omega arith) refl, tt),
          ),
        ),
      ),
    ),
  ),
)
