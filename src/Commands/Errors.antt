-- ===== src/Commands/Errors.antt =====
-- discord/commands/errors.go: the errors of commands, their texts and what `Emit` sends. Each Go
-- type is a constructor. Of a `*CommandRegistrant` an error uses the four fields of `CommandRef`;
-- `none` is nil.
pub mod Laws
pub mod Tests
use avorioncontrol.Prelude.{
  String, ◌<>◌, ◌==◌, Bool, true, false, ◌||◌, Option, none, some, ℤ, if◌then◌else◌,
}
use avorioncontrol.Commands.Output.{CommandOutput, new_command_output, add_line, construct}

pub record CommandRef : Type 0 where
  pub name : String
  pub description : String
  pub uuid : String
  pub loglevel : ℤ

pub data CommandError : Type 0 where
  invalid_argument : (cmd sub : Option CommandRef) (message : String) → CommandError
  invalid_timezone : (cmd sub : Option CommandRef) (tz : String) → CommandError
  invalid_command : (cmd sub : Option CommandRef) (name : String) → CommandError
  unauthorized_usage : (cmd sub : Option CommandRef) → CommandError
  invalid_alias : (cmd sub : Option CommandRef) (alias : String) → CommandError
  command_disabled : (cmd sub : Option CommandRef) → CommandError
  command_error : (cmd sub : Option CommandRef) (message : String) → CommandError
  invalid_subcommand : (cmd sub : Option CommandRef) (subname : String) → CommandError

-- `Command`
unfoldable pub command : CommandError → Option CommandRef
command (invalid_argument cmd sub message) = cmd
command (invalid_timezone cmd sub tz) = cmd
command (invalid_command cmd sub name) = cmd
command (unauthorized_usage cmd sub) = cmd
command (invalid_alias cmd sub alias) = cmd
command (command_disabled cmd sub) = cmd
command (command_error cmd sub message) = cmd
command (invalid_subcommand cmd sub subname) = cmd

-- `Subcommand`
unfoldable pub subcommand : CommandError → Option CommandRef
subcommand (invalid_argument cmd sub message) = sub
subcommand (invalid_timezone cmd sub tz) = sub
subcommand (invalid_command cmd sub name) = sub
subcommand (unauthorized_usage cmd sub) = sub
subcommand (invalid_alias cmd sub alias) = sub
subcommand (command_disabled cmd sub) = sub
subcommand (command_error cmd sub message) = sub
subcommand (invalid_subcommand cmd sub subname) = sub

-- A blank message, and a message that quotes a name.
abbrev or_default : String → String → String
or_default message default = if message == "" then default else message

abbrev quoting : String → String → String → String → String
quoting name before behind default = if name == "" then default else before <> (name <> behind)

-- `Error`
unfoldable pub error_text : CommandError → String
error_text (invalid_argument cmd sub message) = or_default message "Invalid argument supplied"
error_text (invalid_timezone cmd sub tz) =
    quoting tz "Configured timezone `" "` is invalid" "Invalid timezone configured"
error_text (invalid_command cmd sub name) =
    quoting name "Command `" "` is invalid" "Invalid command supplied"
error_text (unauthorized_usage cmd sub) = "You do not have permission to use that command"
error_text (invalid_alias cmd sub alias) =
    quoting alias "Alias `" "` is invalid" "Invalid command alias"
error_text (command_disabled none sub) = "That command has been disabled"
error_text (command_disabled (some cmd) sub) =
    "The command `" <> (cmd.name <> "` has been disabled")
error_text (command_error cmd sub message) =
    or_default message "Command encountered an unspecified failure"
error_text (invalid_subcommand none sub subname) = "Subcommand is not registered"
error_text (invalid_subcommand (some cmd) sub subname) =
    if subname == ""
    then "Subcommand is not registered"
    else cmd.name <> (" does not have the subcommand `" <> (subname <> "` registered"))

-- The command that `Emit` speaks for.
unfoldable pub speaker : CommandError → Option CommandRef
unfolding command subcommand
speaker e = elim (command e) [ none ↦ subcommand e | some cmd ↦ some cmd ]

-- The output that `Emit` builds for a command: `CommandFailure` is 1.
unfoldable pub error_output : CommandRef → String → CommandOutput
unfolding new_command_output add_line
error_output cmd text =
    let out = new_command_output cmd.description cmd.uuid cmd.loglevel "Command Error" in
    construct (add_line text (record out { status = 1 }))

-- `Emit`: the output whose current page is sent, if the error has a command.
unfoldable pub emit : CommandError → Option CommandOutput
unfolding speaker error_output
emit e = elim (speaker e) [ none ↦ none | some cmd ↦ some (error_output cmd (error_text e)) ]
