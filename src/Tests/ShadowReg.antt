-- ===== src/Tests/ShadowReg.antt =====
-- Tests and instances for the shadow registers.
use guest_tests.Base.{ℕ, ◌≡◌, refl, arith, none, some, List, [], ◌∷◌}
use guest_tests.ShadowReg.{view_read, view_write, read, set_shadow}
use guest_tests.ShadowReg.Access.{read-partial_stops}

abbrev bytes_before : List ℕ
bytes_before = 1 ∷ []

abbrev at_it : List ℕ
at_it = 2 ∷ 3 ∷ []

abbrev bytes_behind : List ℕ
bytes_behind = 4 ∷ []

abbrev register : List ℕ
register = 1 ∷ 2 ∷ 3 ∷ 4 ∷ []

abbrev buffer : List ℕ
buffer = 8 ∷ 9 ∷ []

set_shadow_run : set_shadow register buffer 2 ≡ some (1 ∷ 2 ∷ 8 ∷ 9 ∷ [])
unfolding set_shadow view_read view_write
set_shadow_run = refl

read_run : read register (0 ∷ 0 ∷ 0 ∷ 0 ∷ []) 0 ≡ some register
unfolding read view_read view_write
read_run = refl

read-partial_stops_example : read register buffer 2 ≡ none
read-partial_stops_example = read-partial_stops register buffer 2 (omega arith)
