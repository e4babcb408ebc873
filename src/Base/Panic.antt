-- ===== src/Base/Panic.antt =====
-- Code that may stop by a failed ASSERT, PANIC_ON or an exception: `none` is that stop.
use mathlib.Core.Bool.{Bool, true, false}
use mathlib.Core.Option.{Option, none, some}

infixl 5 ◌>>=◌ ◌>>◌
abbrev pub ◌>>=◌ {ℓ κ} : {A : Type ℓ} {B : Type κ} → Option A → (A → Option B) → Option B
none >>= f = none
some a >>= f = f a

abbrev pub ◌>>◌ {ℓ} : {B : Type ℓ} → Option (Unit {0}) → Option B → Option B
none >> k = none
some _ >> k = k

abbrev pub assert : Bool → Option (Unit {0})
assert true = some tt
assert false = none
