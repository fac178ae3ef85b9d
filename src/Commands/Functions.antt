-- ===== src/Commands/Functions.antt =====
-- The functions of single commands, under discord/commands. A function answers an output or an error,
-- and the configuration with its files afterwards; `none` is a panic or the `log.Fatal` of
-- `HasNumArgs`. What only the logger reads is left out.
pub mod Admin
pub mod AdminLaws
pub mod Mods
pub mod ModsLaws
pub mod Players
pub mod Alias
pub mod Listing
pub mod ListingLaws
pub mod Server
pub mod Loglevel
pub mod LoglevelLaws
pub mod Settings
pub mod Coords
pub mod CoordsLaws
pub mod Game
pub mod GameLaws
pub mod RconLaws
pub mod GameTests
pub mod Tests
use avorioncontrol.Prelude.{
  String, ◌<>◌, Bool, true, Option, none, some, List, [], ◌∷◌, ℤ, bind, if◌then◌else◌, drop,
}
use avorioncontrol.Configuration.Storage.{World}
use avorioncontrol.Commands.Args.{has_num_args}
use avorioncontrol.Commands.Output.{CommandOutput, new_command_output, construct}
use avorioncontrol.Commands.Errors.{CommandError, CommandRef}

-- What a function returns, and the configuration that it leaves.
pub record Reply : Type 0 where
  pub out : Option CommandOutput
  pub failure : Option CommandError
  pub world : World

-- `return nil, nil`, `return nil, err` and `return out, nil`.
abbrev pub succeeds : World → Reply
succeeds w = record { out = none; failure = none; world = w }

abbrev pub fails : CommandError → World → Reply
fails e w = record { out = none; failure = some e; world = w }

abbrev pub shows : CommandOutput → World → Reply
shows o w = record { out = some o; failure = none; world = w }

-- `newCommandOutput(cmd, title)`
abbrev pub output_of : CommandRef → String → CommandOutput
output_of cmd title = new_command_output cmd.description cmd.uuid cmd.loglevel title

abbrev pub invalid_argument : CommandRef → String → CommandError
invalid_argument cmd message = CommandError.invalid_argument (some cmd) none message

abbrev pub command_error : CommandRef → String → CommandError
command_error cmd message = CommandError.command_error (some cmd) none message

-- "... was passed the wrong number of arguments", with the name of the command quoted or not.
abbrev pub wrong_number : CommandRef → String
wrong_number cmd = "`" <> (cmd.name <> "` was passed the wrong number of arguments")

abbrev pub wrong_number_plain : CommandRef → String
wrong_number_plain cmd = cmd.name <> " was passed the wrong number of arguments"

-- The guard on the number of the arguments `a`, in front of the rest; a subcommand drops one of them.
unfoldable pub with_args :
    CommandRef
    → (message : String) → (a : List String) → (min max : ℤ) → World
    → (rest : Option Reply) → Option Reply
with_args cmd message a min max w rest =
    bind (has_num_args a min max)
      (λ enough. if enough then rest else some (fails (invalid_argument cmd message) w))
