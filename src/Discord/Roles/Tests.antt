-- ===== src/Discord/Roles/Tests.antt =====
-- Roles that are given by their positions.
use avorioncontrol.Prelude.{◌≡◌, refl, List, [], ◌∷◌, ℤ, pos}
use avorioncontrol.Discord.Roles.{rolesort}

abbrev itself : ℤ → ℤ
itself p = p

-- A role at the position of another is kept.
abbrev middle_twice : List ℤ
middle_twice = pos 2 ∷ pos 1 ∷ pos 2 ∷ []

keeps_middle : rolesort itself middle_twice ≡ pos 2 ∷ pos 2 ∷ pos 1 ∷ []
unfolding rolesort
keeps_middle = refl

-- A second role at the lowest position is lost.
abbrev lowest_twice : List ℤ
lowest_twice = pos 2 ∷ pos 1 ∷ pos 1 ∷ []

loses_lowest : rolesort itself lowest_twice ≡ pos 2 ∷ pos 1 ∷ []
unfolding rolesort
loses_lowest = refl
