-- ===== src/Commands/Functions/Alias.antt =====
-- discord/commands/setAliasCmnd.go
use Prim.Native.Char.{code}
use avorioncontrol.Prelude.{
  String, ◌<>◌, Bool, true, ◌&&◌, ◌||◌, Option, none, some, List, pos, leb, count, bind, get_elem?,
  if◌then◌else◌,
}
use avorioncontrol.Configuration.Storage.{Env, World}
use avorioncontrol.Configuration.Auth.{with_settings, save}
use avorioncontrol.Configuration.Aliases.{set_alias_command}
use avorioncontrol.Commands.Errors.{CommandError, CommandRef}
use avorioncontrol.Commands.Registrar.{Registrar, is_registered}
use avorioncontrol.Commands.Functions.{
  Reply, succeeds, fails, command_error, wrong_number_plain, with_args,
}

-- `[a-zA-Z]*`
unfoldable pub all_letters : String → Bool
all_letters String.[] = true
all_letters (String.◌∷◌ c s) =
    let n = code c in ((leb 97 n && leb n 122) || (leb 65 n && leb n 90)) && all_letters s

-- `^[a-zA-Z]{1,10}$`
unfoldable pub is_alias : String → Bool
is_alias s = all_letters s && (leb 1 (count s) && leb (count s) 10)

-- `setaliasCmd` past its guards.
unfoldable pub set_alias : Env → CommandRef → (name alias : String) → World → Reply
set_alias env cmd name alias w =
    let (err, settings) = set_alias_command name alias w.conf.settings in
    elim err [
      | some e ↦ fails (command_error cmd ("Failed to configure Alias: " <> e)) w
      | none ↦ succeeds (save env (with_settings (λ c. settings) w))
    ]

-- `setaliasCmd`
unfoldable pub setalias_cmd : Env → CommandRef → Registrar → List String → World → Option Reply
setalias_cmd env cmd reg a w = with_args cmd (wrong_number_plain cmd) a (pos 2) (pos 2) w (
    bind (get_elem? a 2) (λ alias. bind (get_elem? a 1) (λ name. some (
      if is_alias alias
      then (if is_registered name reg
          then set_alias env cmd name alias w
          else fails (CommandError.invalid_command (some cmd) none name) w)
      else fails (CommandError.invalid_alias (some cmd) none alias) w))))
