-- ===== src/Commands/Functions/ListingLaws.antt =====
-- The list of commands is that of what `ProcessCommand` allows.
use avorioncontrol.Prelude.{
  String, ◌≡◌, refl, Bool, true, false, not, ◌&&◌, none, some, List, [], ◌∷◌, pos, arith,
  if◌then◌else◌,
}
use avorioncontrol.Configuration.Data.{Settings}
use avorioncontrol.Configuration.Aliases.{command_disabled}
use avorioncontrol.Commands.Registrar.{Registrar, Registrant, command}
use avorioncontrol.Commands.Process.{is_authorized}
use avorioncontrol.Commands.Functions.Admin.{highest}
use avorioncontrol.Commands.Functions.AdminLaws.{shown_level_decides}
use avorioncontrol.Commands.Functions.Listing.{list_line, is_hidden, list_lines}

-- The lines of the commands that are registered, not disabled, and allowed by `ProcessCommand`.
abbrev pub usable_lines : Settings → Registrar → List String → List String → List String
usable_lines c reg roles [] = []
usable_lines c reg roles (n ∷ names) = elim (command n reg).1 [
  | none ↦ usable_lines c reg roles names
  | some cmd ↦
      if not (command_disabled cmd.name c) && is_authorized c cmd.name roles
      then list_line cmd ∷ usable_lines c reg roles names
      else usable_lines c reg roles names
]

-- Every name is that of a command.
abbrev pub AreRegistered : Registrar → List String → Type 0
AreRegistered reg [] = Unit
AreRegistered reg (n ∷ names) =
    ((cmd : Registrant) × ((command n reg).1 ≡ some cmd)) × AreRegistered reg names

is_hidden_exact :
    (c : Settings) (roles : List String) (name : String)
    → is_hidden c (highest c (pos 0) roles) name
      ≡ not (not (command_disabled name c) && is_authorized c name roles)
unfolding is_hidden
is_hidden_exact c roles name = ground (arith, shown_level_decides c name roles)

usable_lines-cons :
    (c : Settings) (reg : Registrar) (roles : List String) (n : String) (names : List String)
    {cmd : Registrant}
    → (command n reg).1 ≡ some cmd
    → usable_lines c reg roles (n ∷ names) ≡ (
        if not (command_disabled cmd.name c) && is_authorized c cmd.name roles
        then list_line cmd ∷ usable_lines c reg roles names
        else usable_lines c reg roles names)
usable_lines-cons c reg roles n names found = rw (usable_lines, found) refl

-- The list of commands shows a member exactly the commands that are not disabled and that the member may
-- use, in the order of their names; every name is that of a command.
pub list_lines_exact :
    (c : Settings) (reg : Registrar) (roles names : List String)
    → AreRegistered reg names
    → list_lines c reg (highest c (pos 0) roles) names ≡ some (usable_lines c reg roles names)
unfolding list_lines
list_lines_exact c reg roles [] known = refl
list_lines_exact c reg roles (n ∷ names) ((cmd, found), known) =
    rw
      (
        found,
        list_lines_exact c reg roles names known,
        is_hidden_exact c roles cmd.name,
        usable_lines-cons c reg roles n names found,
      )
      (chosen (not (command_disabled cmd.name c) && is_authorized c cmd.name roles))
  where
    chosen :
        (shown : Bool)
        → some (
            if not shown
            then usable_lines c reg roles names
            else list_line cmd ∷ usable_lines c reg roles names)
          ≡ some (
              if shown
              then list_line cmd ∷ usable_lines c reg roles names
              else usable_lines c reg roles names)
    chosen true = refl
    chosen false = refl
