-- ===== src/Cstr/Examples.antt =====
-- Tests of the string functions.
use psi_project.Base.{◌≡◌, refl, true, [], ◌∷◌}
use psi_project.Cstr.{strncmp, strncpy}

strncmp_stops_at_nul : strncmp 32 (7 ∷ 0 ∷ 1 ∷ []) (7 ∷ []) ≡ true
unfolding strncmp
strncmp_stops_at_nul = refl

strncpy_pads : strncpy 4 (7 ∷ 8 ∷ []) ≡ 7 ∷ 8 ∷ 0 ∷ 0 ∷ []
unfolding strncpy
strncpy_pads = refl
