-- ===== src/Paging/Pte/Setters.antt =====
-- What the setters of src/lib/toyos/src/pt.cpp store.
use guest_tests.Base.{
  ℕ, ◌<◌, ◌^◌, ◌≡◌, refl, arith, Bool, true, false, List, [], ◌∷◌, All, Option, Bool-cases, inl,
  inr,
}
use guest_tests.Math.{mask}
use guest_tests.Paging.Entry.{Tlb, times, set_bits, is_present}
use Tlb.{kept, everything, one_page}
use guest_tests.Paging.Fields.{Replaced, Stored, flag-Replaced}
use Stored.{stored, no_value}
use guest_tests.Paging.Pte.{
  invalidate_entry, access_helper, set_present, set_writeable, set_usermode, set_pwt, set_pcd,
  set_accessed, set_exec_disable, set_dirty, set_pat, set_global, get_phys_addr, is_global,
}

-- The setters of flags that answer nothing, each with its bit.
abbrev pub pte_setters : List ((Bool → Bool → ℕ → Option (ℕ × Tlb)) × ℕ)
pte_setters =
    (set_present, 0)
    ∷ (set_writeable, 1)
    ∷ (set_usermode, 2)
    ∷ (set_pwt, 3)
    ∷ (set_pcd, 4)
    ∷ (set_accessed, 5)
    ∷ (set_exec_disable, 63)
    ∷ (set_dirty, 6)
    ∷ (set_pat, 7)
    ∷ (set_global, 8)
    ∷ []

pub SetsFlag : (Bool → Bool → ℕ → Option (ℕ × Tlb)) × ℕ → Type 0
SetsFlag (f, k) =
    (value invl : Bool) (raw : ℕ) → Stored k 1 (times value 1) raw invl (f value invl raw)

access_helper-SetsFlag :
    (k m : ℕ)
    → k < 64
    → m ≡ 2 ^ k
    → SetsFlag ((λ value invl raw. access_helper value m invl raw), k)
unfolding SetsFlag access_helper invalidate_entry get_phys_addr
access_helper-SetsFlag k m h e value false raw =
    stored (set_bits raw m (times value m)) kept (flag-Replaced k raw m value h e)
access_helper-SetsFlag k m h e value true raw = elim (Bool-cases (is_global raw2)) [
  | inl global ↦ rw global (stored raw2 everything done)
  | inr local ↦ elim (Bool-cases (is_present raw2)) [
    | inl present ↦ rw (local, present) (stored raw2 (one_page _) done)
    | inr absent ↦ rw (local, absent) (no_value raw2 done refl absent)
  ]
]
  where
    raw2 : ℕ
    raw2 = set_bits raw m (times value m)

    done : Replaced k 1 (times value 1) raw raw2
    done = flag-Replaced k raw m value h e

-- Every setter of a flag of a PT entry stores the value in the bit of its flag and leaves all other
-- bits as they were; it uses an optional without a value only if it is told to invalidate and the
-- present bit is clear in what it has stored.
pub pte_setters-SetsFlag : All SetsFlag pte_setters
unfolding SetsFlag set_present set_writeable set_usermode set_pwt set_pcd set_accessed
    set_exec_disable set_dirty set_pat set_global mask
pte_setters-SetsFlag = (
  access_helper-SetsFlag 0 _ (omega arith) refl,
  (
    access_helper-SetsFlag 1 _ (omega arith) refl,
    (
      access_helper-SetsFlag 2 _ (omega arith) refl,
      (
        access_helper-SetsFlag 3 _ (omega arith) refl,
        (
          access_helper-SetsFlag 4 _ (omega arith) refl,
          (
            access_helper-SetsFlag 5 _ (omega arith) refl,
            (
              access_helper-SetsFlag 63 _ (omega arith) refl,
              (
                access_helper-SetsFlag 6 _ (omega arith) refl,
                (
                  access_helper-SetsFlag 7 _ (omega arith) refl,
                  (access_helper-SetsFlag 8 _ (omega arith) refl, tt),
                ),
              ),
            ),
          ),
        ),
      ),
    ),
  ),
)
