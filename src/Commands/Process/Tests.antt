-- ===== src/Commands/Process/Tests.antt =====
-- Messages to a bot with the commands `rcon`, for members of level 5, and `server`.
use avorioncontrol.Prelude.{
  String, ◌==◌, ◌≡◌, ◌≢◌, refl, ◌↔◌, not, ◌||◌, Option, none, some, List, [], ◌∷◌, pos, lookup,
  ltb_ℤ, if◌then◌else◌,
}
use avorioncontrol.Configuration.Data.{Settings, new}
use avorioncontrol.Configuration.Aliases.{command_disabled, get_aliased_command}
use avorioncontrol.Configuration.Auth.{get_cmnd_auth, get_role_auth}
use avorioncontrol.Commands.Args.{read_args}
use avorioncontrol.Commands.Output.{CommandOutput, new_command_output}
use avorioncontrol.Commands.Errors.{CommandError}
use avorioncontrol.Commands.Registrar.{Handler, Cmdlet, Registrant, ref_of, command}
use avorioncontrol.Commands.Process.{
  Message, Bot, Action, Outcome, Admission, is_authorized, admit, present,
}
use avorioncontrol.Commands.Process.Dispatch.{Run, process_command}
use avorioncontrol.Commands.Process.Laws.{has_level, is_authorized_exact}
use avorioncontrol.Commands.Process.Refusal.{IsNameOf, MayRun, admitted_exactly}
use avorioncontrol.Commands.Process.Pagers.{IsKept, present-IsKept}

abbrev cmdlet : String → Handler → Cmdlet
cmdlet name h = record {
  name = name;
  description = "";
  exec = some h;
  args = [];
  usage = name;
  loglevel = pos 1;
}

abbrev rcon : Registrant
rcon = record { self = cmdlet "rcon" Handler.rcon_cmnd; cmdlets = [] }

abbrev server : Registrant
server = record {
  self = cmdlet "server" Handler.proxy_sub_cmnd;
  cmdlets = cmdlet "stop" Handler.stop_server_cmnd ∷ cmdlet "start" Handler.start_server_cmnd ∷ [];
}

abbrev settings : Settings
unfolding new
settings = record (new "").settings {
  prefix = "!";
  aliased_commands = ("rcon", "r" ∷ []) ∷ [];
  role_auth_levels = ("admins", pos 5) ∷ [];
  cmnd_auth_levels = ("rcon", pos 5) ∷ [];
}

abbrev bot : Bot
bot = record {
  reg = record {
    guild_id = "1";
    commands = ("rcon", rcon) ∷ ("server", server) ∷ [];
    commandnames = "rcon" ∷ "server" ∷ [];
    reg_loglevel = pos 1;
    embeds = 0 ∷ 1 ∷ 2 ∷ 3 ∷ 4 ∷ [];
  };
  settings = settings;
  next_chan = 5;
}

abbrev members : String → String → Option (List String)
members gid user =
    if user == "ann"
    then some ("guests" ∷ "admins" ∷ [])
    else if user == "bob"
    then some []
    else none

-- Functions that answer nothing.
abbrev quiet : Run
quiet h m args cmd b = some (record { bot = b; out = none; error = none })

abbrev from_ann : Message
from_ann = record { content = "!  r save "; author = "ann"; channel = "7"; id = "70" }

abbrev from_bob : Message
from_bob = record { content = "!rcon save"; author = "bob"; channel = "7"; id = "71" }

is_authorized_exact_example :
    is_authorized settings "rcon" ("guests" ∷ "admins" ∷ [])
    ≡ (not (ltb_ℤ (pos 0) (pos 5)) || has_level settings (pos 5) ("guests" ∷ "admins" ∷ []))
unfolding settings get_cmnd_auth lookup
is_authorized_exact_example = is_authorized_exact settings "rcon" ("guests" ∷ "admins" ∷ [])

abbrev alias : String
alias = "r"

admitted_exactly_example :
    (admit members bot from_ann ("r" ∷ "save" ∷ []) ≡ Admission.admitted rcon Handler.rcon_cmnd)
    ↔ ((alias ≢ "") × IsNameOf bot "r" rcon × MayRun members bot from_ann rcon Handler.rcon_cmnd)
admitted_exactly_example =
    admitted_exactly members bot from_ann "r" ("save" ∷ []) rcon Handler.rcon_cmnd

-- The message of a member who has the level runs the command.
ann_runs_rcon :
    (process_command members quiet bot from_ann)
    ≡ some (record {
      name = "rcon";
      failure = none;
      after = bot;
      actions = Action.reaction "7" "70" "✅" ∷ [];
    })
unfolding process_command settings admit read_args command lookup get_aliased_command
    command_disabled get_cmnd_auth get_role_auth present
ann_runs_rcon = refl

bob_is_refused :
    admit members bot from_bob (read_args bot.settings.prefix from_bob.content)
    ≡ Admission.refused "rcon"
        (CommandError.unauthorized_usage (some (ref_of bot.reg rcon.self)) none)
unfolding settings admit read_args command lookup command_disabled get_cmnd_auth
bob_is_refused = refl

abbrev long_output : CommandOutput
unfolding new_command_output
long_output = record (new_command_output "" "" (pos 1) "") {
  pages = record { content = "a"; index = 0 } ∷ record { content = "b"; index = 1 } ∷ [];
  curr = some 0;
}

abbrev outcome : Outcome
outcome = record { bot = bot; out = some long_output; error = none }

present-IsKept_example : IsKept (0 ∷ 1 ∷ 2 ∷ 3 ∷ 4 ∷ []) (present from_ann outcome)
present-IsKept_example = present-IsKept from_ann outcome
