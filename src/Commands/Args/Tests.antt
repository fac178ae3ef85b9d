-- ===== src/Commands/Args/Tests.antt =====
-- The arguments of concrete messages.
use avorioncontrol.Prelude.{ℕ, String, ◌≡◌, refl, List, [], ◌∷◌}
use avorioncontrol.Commands.Args.{read_args, reverse_jumps}

reads_two_words : read_args "!" "!  rcon \tsave " ≡ "rcon" ∷ "save" ∷ []
unfolding read_args
reads_two_words = refl

abbrev one_to_three : List ℕ
one_to_three = 1 ∷ 2 ∷ 3 ∷ []

reverses : reverse_jumps one_to_three ≡ 3 ∷ 2 ∷ 1 ∷ []
unfolding reverse_jumps
reverses = refl

abbrev rcon : String
rcon = "rcon"
