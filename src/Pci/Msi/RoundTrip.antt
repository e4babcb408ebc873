-- ===== src/Pci/Msi/RoundTrip.antt =====
-- What the setters of the MSI capability in pci/capabilities.hpp store, its getters read.
use guest_tests.Base.{
  ℕ, ◌*◌, ◌/◌, ◌%◌, ◌^◌, ◌<◌, ◌≡◌, refl, subst, ◌∙◌, arith, bit_and, bit_or, Bool, true, false, not,
  ◌==◌, if◌then◌else◌, Bool-cases, inl, inr, bit_or_fields,
}
use guest_tests.Pci.Msi.{
  MsiCapability, is_64bit, msi_addr, msi_data, set_msi_addr, set_msi_data, enabled, order, copy,
  is_64b_capable,
}

-- What a driver sees of a capability.
pub record SameView (c d : MsiCapability) : Type 0 where
  pub same_id : d.id ≡ c.id
  pub same_next : d.next ≡ c.next
  pub same_enabled : enabled d ≡ enabled c
  pub same_order : order d ≡ order c
  pub same_addr : msi_addr d ≡ msi_addr c
  pub same_data : msi_data d ≡ msi_data c

-- A copy of a capability looks like the original.
pub copy-SameView : (c rhs : MsiCapability) → SameView rhs (copy c rhs)
unfolding copy enabled order msi_addr msi_data is_64bit
copy-SameView c rhs = elim (Bool-cases (bit_and rhs.msg_ctrl is_64b_capable == 0)) [
  | inl narrow ↦ record {
    same_id = rw narrow refl;
    same_next = rw narrow refl;
    same_enabled = rw narrow refl;
    same_order = rw narrow refl;
    same_addr = rw narrow (rw narrow refl);
    same_data = rw narrow (rw narrow (omega arith));
  }
  | inr wide ↦ record {
    same_id = rw wide refl;
    same_next = rw wide refl;
    same_enabled = rw wide refl;
    same_order = rw wide refl;
    same_addr = rw wide (rw wide refl);
    same_data = rw wide (rw wide refl);
  }
]

-- Storing an address and data.
pub record Stores (addr value : ℕ) (c : MsiCapability) : Type 0 where
  pub reads_addr : msi_addr (set_msi_addr addr c) ≡ addr
  pub reads_data : msi_data (set_msi_data value c) ≡ value
  pub keeps_data : msi_data (set_msi_addr addr c) ≡ msi_data c
  pub keeps_addr : msi_addr (set_msi_data value c) ≡ msi_addr c

-- For an address that fits the capability, 64 bits if it has that many and 32 bits otherwise, and data
-- of 16 bits: both are read as they were stored, and storing one keeps the other.
pub msi-Stores :
    (addr value : ℕ) (c : MsiCapability)
    → addr < (if is_64bit c then 2 ^ 64 else 2 ^ 32)
    → value < 2 ^ 16
    → Stores addr value c
unfolding set_msi_addr set_msi_data msi_addr msi_data is_64bit
msi-Stores addr value c fits small = elim (Bool-cases (bit_and c.msg_ctrl is_64b_capable == 0)) [
  | inl narrow ↦ record {
    reads_addr = rw narrow (rw narrow (omega (arith, bound true narrow)));
    reads_data = rw narrow (rw narrow (omega (arith, small)));
    keeps_data = rw narrow (rw narrow refl);
    keeps_addr = rw narrow (rw narrow refl);
  }
  | inr wide ↦ record {
    reads_addr = rw wide (rw wide (joined (bound false wide)));
    reads_data = rw wide (rw wide (omega (arith, small)));
    keeps_data = rw wide (rw wide refl);
    keeps_addr = rw wide (rw wide refl);
  }
]
  where
    bound :
        (b : Bool)
        → (bit_and c.msg_ctrl is_64b_capable == 0) ≡ b
        → addr < (if not b then 2 ^ 64 else 2 ^ 32)
    bound b e = subst (λ t. addr < (if not t then 2 ^ 64 else 2 ^ 32)) e fits

    joined : addr < 2 ^ 64 → bit_or (addr / 2 ^ 32 % 2 ^ 32 * 2 ^ 32) (addr % 2 ^ 32) ≡ addr
    joined h =
        bit_or_fields 32 (addr / 2 ^ 32 % 2 ^ 32) (addr % 2 ^ 32) (omega arith) ∙ omega (arith, h)
