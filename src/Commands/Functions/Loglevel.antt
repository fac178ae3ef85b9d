-- ===== src/Commands/Functions/Loglevel.antt =====
-- discord/commands/logLevelCmnd.go: the level of logging of the guild, of commands, and of the
-- configuration. The objects are worked through in order, and an error leaves what was set before it.
use avorioncontrol.Prelude.{
  String, ◌<>◌, ◌==◌, Bool, true, false, ◌||◌, Option, none, some, List, [], ◌∷◌, ℤ, pos, negsuc,
  ltb_ℤ, insert, bind, get_elem?, drop, if◌then◌else◌, ◌⊎◌, inl, inr,
}
use avorioncontrol.Prelude.Decimal.{show_ℤ, atoi}
use avorioncontrol.Configuration.Data.{Settings}
use avorioncontrol.Configuration.Storage.{Env, World}
use avorioncontrol.Configuration.Auth.{with_settings, save}
use avorioncontrol.Configuration.Aliases.{get_aliased_command}
use avorioncontrol.Commands.Args.{has_num_args}
use avorioncontrol.Commands.Output.{CommandOutput, add_line, construct}
use avorioncontrol.Commands.Errors.{CommandError, CommandRef}
use avorioncontrol.Commands.Registrar.{Registrar, Registrant, command}
use avorioncontrol.Commands.Functions.{output_of, invalid_argument, command_error}

-- What the function returns, and the registry and the configuration that it leaves.
pub record LevelReply : Type 0 where
  pub out : Option CommandOutput
  pub failure : Option CommandError
  pub registrar : Registrar
  pub world : World

abbrev pub rejects : CommandError → Registrar → World → LevelReply
rejects e reg w = record { out = none; failure = some e; registrar = reg; world = w }

abbrev pub answers : CommandOutput → Registrar → World → LevelReply
answers out reg w = record {
  out = some (construct out);
  failure = none;
  registrar = reg;
  world = w;
}

-- What becomes of one object: the loop goes on, or the function returns.
pub data Turn : Type 0 where
  goes_on : CommandOutput → Registrar → Turn
  returns : LevelReply → Turn

unfoldable pub is_level : ℤ → Bool
is_level l = if ltb_ℤ (pos 3) l then false else if ltb_ℤ l (pos 0) then false else true

-- The first argument as a level.
unfoldable pub read_level : String → Option ℤ
read_level s = bind (atoi s) (λ l. if is_level l then some l else none)

-- `CommandRegistrar.SetLoglevel`, and `SetLoglevel` of the command that is registered under a name.
unfoldable pub set_guild_level : ℤ → Registrar → Registrar
set_guild_level l reg = record reg { reg_loglevel = l }

unfoldable pub set_command_level : ℤ → (n : String) → Registrant → Registrar → Registrar
set_command_level l n cmdobj reg = record reg {
  commands = insert n (record cmdobj { self = record cmdobj.self { loglevel = l } }) reg.commands;
}

-- The command that an object names, by its name or by an alias, with its name in the registry.
unfoldable pub find_object :
    CommandRef → Registrar → Settings → String → CommandError ⊎ (String × Registrant)
find_object cmd reg c obj = elim (command obj reg).1 [
  | some cmdobj ↦ inr (obj, cmdobj)
  | none ↦
      let (ok, ac) = get_aliased_command obj c in
      if ok
      then (elim (command ac reg).1 [
        | some cmdobj ↦ inr (ac, cmdobj)
        | none ↦ inl (CommandError.invalid_alias (some cmd) none ac)
      ])
      else inl (command_error cmd ("**" <> (obj <> "** is not a valid object with a debug level ")))
]

-- The turn of a command, over what `find_object` answers.
unfoldable pub turn_command :
    (l : ℤ) → CommandOutput → Registrar → World → CommandError ⊎ (String × Registrant) → Turn
turn_command l out reg w (inl e) = returns (rejects e reg w)
turn_command l out reg w (inr (n, cmdobj)) =
    goes_on
      (add_line ("Level for **" <> (cmdobj.name <> ("** is now: _**" <> (show_ℤ l <> "**_")))) out)
      (set_command_level l n cmdobj reg)

-- One turn of the loop.
unfoldable pub turn :
    Env → CommandRef → (l : ℤ) → (obj : String) → CommandOutput → Registrar → World → Turn
turn env cmd l obj out reg w =
    if obj == "guild"
    then goes_on (add_line ("Default command loglevel is now: _**" <> (show_ℤ l <> "**_")) out)
        (set_guild_level l reg)
    else if obj == "user" || obj == "role"
    then returns
        (rejects (command_error cmd "User/Role specific logging is not yet implemented") reg w)
    else if obj == "default"
    then returns (
        answers (add_line ("Global loglevel is now: _**" <> (show_ℤ l <> "**_")) out) reg
          (save env (with_settings (λ c. record c { loglevel = l }) w)))
    else turn_command l out reg w (find_object cmd reg w.conf.settings obj)

-- The loop.
unfoldable pub set_levels :
    Env → CommandRef → (l : ℤ) → List String → CommandOutput → Registrar → World → LevelReply
set_levels env cmd l [] out reg w = answers out reg w
set_levels env cmd l (obj ∷ a) out reg w = elim (turn env cmd l obj out reg w) [
  | goes_on out' reg' ↦ set_levels env cmd l a out' reg' w
  | returns reply ↦ reply
]

unfoldable pub no_level : String → String
no_level given =
    "`"
    <> (given
        <> ("` is not a valid loglevel. Valid levels include:\n"
            <> ("```\n0 - Only output service level info\n"
                <> ("1 - Show warnings (default)\n"
                    <> ("2 - Show informational output\n" <> "3 - Debug mode\n```")))))

-- `loglevelCmnd`
unfoldable pub loglevel_cmnd :
    Env → CommandRef → Registrar → List String → World → Option LevelReply
loglevel_cmnd env cmd reg a w = bind (has_num_args a (pos 2) (negsuc 0)) (λ enough.
    bind (get_elem? a 0) (λ first.
      if enough
      then bind (get_elem? a 1) (λ given. some (elim (read_level given) [
        | none ↦ rejects (command_error cmd (no_level given)) reg w
        | some l ↦
            set_levels env cmd l (drop 2 a)
              (record (output_of cmd "Set Logging Level") { quoted = true }) reg w
      ]))
      else some (
          rejects (invalid_argument cmd (first <> " was passed the wrong number of arguments")) reg
            w)))
