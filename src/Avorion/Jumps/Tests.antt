-- ===== src/Avorion/Jumps/Tests.antt =====
-- Three jumps, the latest one first.
use avorioncontrol.Prelude.{ℕ, ◌≡◌, refl, List, [], ◌∷◌, pos}
use avorioncontrol.Avorion.Jumps.{ShipCoordData, add_jump, get_last_jumps}
use avorioncontrol.Avorion.Jumps.Laws.{history_of}

abbrev to : ℕ → ShipCoordData
to n = record { x = pos n; y = pos 0; name = "ship"; time = 0 }

abbrev three : List (ShipCoordData × ℕ)
three = (to 3, 30) ∷ (to 2, 20) ∷ (to 1, 10) ∷ []

two_latest :
    get_last_jumps (pos 2) (history_of three)
    ≡ record (to 3) { time = 30 } ∷ record (to 2) { time = 20 } ∷ []
unfolding get_last_jumps history_of add_jump
two_latest = refl
