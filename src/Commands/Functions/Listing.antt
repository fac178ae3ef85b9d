-- ===== src/Commands/Functions/Listing.antt =====
-- discord/commands/listCmnd.go and helpCmnd.go: the commands that a member may use, and their help texts.
-- The member's roles come from Discord; without a member the loop over the roles panics.
use avorioncontrol.Prelude.{
  String, ◌<>◌, ◌==◌, Bool, ◌||◌, Option, none, some, List, [], ◌∷◌, ℤ, pos, ltb_ℤ, bind,
  if◌then◌else◌, ◌⊎◌, inl, inr,
}
use avorioncontrol.Configuration.Data.{Settings}
use avorioncontrol.Configuration.Aliases.{command_disabled}
use avorioncontrol.Configuration.Auth.{get_cmnd_auth}
use avorioncontrol.Commands.Output.{CommandOutput}
use avorioncontrol.Commands.Errors.{CommandError, CommandRef}
use avorioncontrol.Commands.Registrar.{Registrar, Registrant, command, all_commands, help, ref_of}
use avorioncontrol.Commands.Process.Dispatch.{find_cmdlet}
use avorioncontrol.Commands.Functions.{output_of}
use avorioncontrol.Commands.Functions.Admin.{highest, quote_lines}

-- The line of a command.
unfoldable pub list_line : Registrant → String
list_line cmd = "**_" <> (cmd.name <> ("_** - _" <> (cmd.description <> "_")))

-- The guard of the loop of `listCmd`, and of `helpCmd`.
unfoldable pub is_hidden : Settings → (authlvl : ℤ) → String → Bool
is_hidden c authlvl name = command_disabled name c || ltb_ℤ authlvl (get_cmnd_auth name c)

-- The loop of `listCmd`; a name that is no command panics.
unfoldable pub list_lines :
    Settings → Registrar → (authlvl : ℤ) → List String → Option (List String)
list_lines c reg authlvl [] = some []
list_lines c reg authlvl (n ∷ names) =
    let rest = list_lines c reg authlvl names in
    bind (command n reg).1 (λ cmd.
      bind rest
        (λ later. some (if is_hidden c authlvl cmd.name then later else list_line cmd ∷ later)))

-- `listCmd`
unfoldable pub list_cmd :
    CommandRef → Registrar → (member : Option (List String)) → Settings → Option CommandOutput
list_cmd cmd reg member c = bind member (λ roles.
    bind (list_lines c reg (highest c (pos 0) roles) (all_commands reg).1) (λ lines. some (
      quote_lines
        (record (output_of cmd "Command Listing") {
          description = "List available commands for this user";
          header = "Available Commands";
        })
        "No commands available" lines)))

-- `maincmd` after the loop over the subcommands.
unfoldable pub narrow : Registrant → String → Registrant
narrow maincmd sub = elim (find_cmdlet sub maincmd.cmdlets) [
  | none ↦ maincmd
  | some found ↦ record { self = found; cmdlets = [] }
]

-- `helpCmd` past the guard on the level, over the arguments `a`.
unfoldable pub help_for : Registrar → List String → Registrant → CommandOutput ⊎ CommandError
help_for reg (first ∷ name ∷ sub ∷ more) maincmd =
    let chosen = narrow maincmd sub in
    if chosen.name == name
    then inr (CommandError.invalid_subcommand (some (ref_of reg chosen.self)) none sub)
    else inl (help reg chosen)
help_for reg a maincmd = inl (help reg maincmd)

-- `helpCmd` from the level of the member on.
unfoldable pub help_main :
    Registrar
    → (member : Option (List String)) → Settings
    → List String
    → Registrant
    → Option (CommandOutput ⊎ CommandError)
help_main reg member c a maincmd = bind member (λ roles. some (
    if is_hidden c (highest c (pos 0) roles) maincmd.name
    then inr (CommandError.command_disabled (some (ref_of reg maincmd.self)) none)
    else help_for reg a maincmd))

-- `helpCmd`
unfoldable pub help_cmd :
    Registrant
    → Registrar
    → (member : Option (List String)) → Settings
    → List String
    → Option (CommandOutput ⊎ CommandError)
help_cmd cmd reg member c [] = none
help_cmd cmd reg member c (first ∷ []) =
    if first == "help"
    then bind (list_cmd (ref_of reg cmd.self) reg member c) (λ out. some (inl out))
    else help_main reg member c (first ∷ []) cmd
help_cmd cmd reg member c (first ∷ name ∷ more) =
    if first == "help"
    then (elim (command name reg).1 [
      | none ↦ some (inr (CommandError.invalid_command (some (ref_of reg cmd.self)) none name))
      | some maincmd ↦ help_main reg member c (first ∷ name ∷ more) maincmd
    ])
    else help_main reg member c (first ∷ []) cmd
