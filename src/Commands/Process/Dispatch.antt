-- ===== src/Commands/Process/Dispatch.antt =====
-- The calls in discord/commands/registrar.go (ProcessCommand) and helperCmnds.go (proxySubCmnd).
use avorioncontrol.Prelude.{
  String, ◌<>◌, ◌==◌, Bool, false, not, ◌&&◌, Option, none, some, List, [], ◌∷◌, pos, negsuc,
  if◌then◌else◌, bind, drop, get_elem?,
}
use avorioncontrol.Commands.Args.{has_num_args, read_args}
use avorioncontrol.Commands.Errors.{CommandError}
use avorioncontrol.Commands.Registrar.{Handler, Cmdlet, Registrant, help, ref_of}
use avorioncontrol.Commands.Process.{Message, Bot, Outcome, Answer, Admission, admit, present}

-- What the function of a command does.
abbrev pub Run : Type 0
Run = Handler → Message → List String → Registrant → Bot → Option Outcome

-- The loop over the subcommands: the first with the name.
unfoldable pub find_cmdlet : String → List Cmdlet → Option Cmdlet
find_cmdlet s [] = none
find_cmdlet s (c ∷ cs) = if s == c.name then some c else find_cmdlet s cs

-- A function that is nil panics.
unfoldable pub run_cmdlet : Run → Message → List String → Cmdlet → Bot → Option Outcome
run_cmdlet run m args c bot = bind c.exec λ h. run h m args (record { self = c; cmdlets = [] }) bot

abbrev pub failed : Bot → CommandError → Option Outcome
failed bot e = some (record { bot = bot; out = none; error = some e })

-- The end of `proxySubCmnd`, over the name of the subcommand.
unfoldable pub proxy_to : Run → Message → List String → Registrant → Bot → String → Option Outcome
unfolding find_cmdlet run_cmdlet
proxy_to run m args cmd bot sub = elim (find_cmdlet sub cmd.cmdlets) [
  | none ↦ failed bot (CommandError.invalid_subcommand (some (ref_of bot.reg cmd.self)) none sub)
  | some c ↦ run_cmdlet run m args c bot
]

-- `proxySubCmnd`
unfoldable pub proxy_sub_cmnd : Run → Message → List String → Registrant → Bot → Option Outcome
unfolding proxy_to
proxy_sub_cmnd run m args cmd bot = bind (has_num_args args (pos 1) (negsuc 0)) λ enough.
    if enough
    then bind (get_elem? args 1) (proxy_to run m args cmd bot)
    else bind (get_elem? args 0) λ name. failed bot (
        CommandError.invalid_argument (some (ref_of bot.reg cmd.self)) none
          ("`" <> (name <> "` was not passed a subcommand to run")))

-- `cmd.exec(s, m, args, c, cmd)`
unfoldable pub call : Run → Handler → Message → List String → Registrant → Bot → Option Outcome
unfolding proxy_sub_cmnd
call run Handler.proxy_sub_cmnd m args cmd bot = proxy_sub_cmnd run m args cmd bot
call run h m args cmd bot = run h m args cmd bot

-- `args[1] == "help"`
unfoldable pub asks_help : List String → Bool
asks_help [] = false
asks_help (word ∷ words) = word == "help"

-- The call, or the help text in its place.
unfoldable pub execute : Run → Message → List String → Registrant → Handler → Bot → Option Outcome
unfolding call asks_help
execute run m args cmd h bot =
    if asks_help args && not (cmd.name == "rcon")
    then some (record { bot = bot; out = some (help bot.reg cmd); error = none })
    else call run h m (cmd.name ∷ args) cmd bot

-- The results and what is sent.
unfoldable pub answer : Message → String → Outcome → Answer
answer m name o =
    let (bot, acts) = present m o in
    record { name = name; failure = o.error; after = bot; actions = acts }

abbrev pub nothing_done : Bot → String → Option CommandError → Answer
nothing_done bot name e = record { name = name; failure = e; after = bot; actions = [] }

module _ (guild_member : String → String → Option (List String)) (run : Run) where
  -- What follows the checks, over the arguments behind the name.
  unfoldable pub proceed : Bot → Message → List String → Admission → Option Answer
  unfolding execute answer
  proceed bot m args Admission.empty = some (nothing_done bot "empty" none)
  proceed bot m args (Admission.refused name e) = some (nothing_done bot name (some e))
  proceed bot m args (Admission.admitted cmd h) =
      bind (execute run m args cmd h bot) λ o. some (answer m cmd.name o)

  -- `ProcessCommand`
  unfoldable pub process_command : Bot → Message → Option Answer
  unfolding proceed
  process_command bot m =
      let args = read_args bot.settings.prefix m.content in
      proceed bot m (drop 1 args) (admit guild_member bot m args)
