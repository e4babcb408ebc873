-- ===== src/Paging/Pml4e/Setters.antt =====
-- What the setters of src/lib/toyos/src/pml4.cpp store.
use guest_tests.Base.{ℕ, refl, arith, Bool, List, [], ◌∷◌, All}
use guest_tests.Math.{mask}
use guest_tests.Paging.Entry.{Tlb, times}
use guest_tests.Paging.Fields.{Replaced, flag-Replaced}
use guest_tests.Paging.Pml4e.{
  access_helper, set_present, set_writeable, set_usermode, set_pwt, set_pcd, set_accessed,
  set_exec_disable,
}

-- The setters of flags, each with its bit.
abbrev pub pml4e_setters : List ((Bool → Bool → ℕ → ℕ × Tlb) × ℕ)
pml4e_setters =
    (set_present, 0)
    ∷ (set_writeable, 1)
    ∷ (set_usermode, 2)
    ∷ (set_pwt, 3)
    ∷ (set_pcd, 4)
    ∷ (set_accessed, 5)
    ∷ (set_exec_disable, 63)
    ∷ []

pub SetsFlag : (Bool → Bool → ℕ → ℕ × Tlb) × ℕ → Type 0
SetsFlag (f, k) =
    (value invl : Bool) (raw : ℕ) → Replaced k 1 (times value 1) raw (f value invl raw).0

-- Every setter of a flag of a PML4 entry stores the value in the bit of its flag and leaves all other
-- bits of the entry as they were.
pub pml4e_setters-SetsFlag : All SetsFlag pml4e_setters
unfolding SetsFlag set_present set_writeable set_usermode set_pwt set_pcd set_accessed
    set_exec_disable access_helper mask
pml4e_setters-SetsFlag = (
  λ value invl raw. flag-Replaced 0 raw _ value (omega arith) refl,
  (
    λ value invl raw. flag-Replaced 1 raw _ value (omega arith) refl,
    (
      λ value invl raw. flag-Replaced 2 raw _ value (omega arith) refl,
      (
        λ value invl raw. flag-Replaced 3 raw _ value (omega arith) refl,
        (
          λ value invl raw. flag-Replaced 4 raw _ value (omega arith) refl,
          (
            λ value invl raw. flag-Replaced 5 raw _ value (omega arith) refl,
            (λ value invl raw. flag-Replaced 63 raw _ value (omega arith) refl, tt),
          ),
        ),
      ),
    ),
  ),
)
