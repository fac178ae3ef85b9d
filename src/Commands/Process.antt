-- ===== src/Commands/Process.antt =====
-- discord/commands/registrar.go (ProcessCommand) and helperCmnds.go (proxySubCmnd): from a message
-- to the function of a command, and from its output to what is sent. The lookup of a guild's member
-- is a parameter, which answers with the member's roles. So is what a command's function does, but
-- for `proxySubCmnd`: the dispatch is the same whichever function it calls. `none` is the end of the
-- process, by `log.Fatal` or a panic. A pager that is started is an `Action`; the goroutine that
-- serves it is not modelled.
pub mod Laws
pub mod Refusal
pub mod Pagers
pub mod Proxy
pub mod Dispatch
pub mod Tests
use avorioncontrol.Prelude.{
  ℕ, ◌+◌, String, ◌<>◌, ◌==◌, Bool, true, false, not, ◌&&◌, Option, none, some, List, [], ◌∷◌, ◌++◌,
  ℤ, pos, negsuc, ltb_ℤ, ltb, length, if◌then◌else◌, bind, get_elem?, drop,
}
use avorioncontrol.Configuration.Data.{Settings}
use avorioncontrol.Configuration.Aliases.{command_disabled, get_aliased_command}
use avorioncontrol.Configuration.Auth.{get_role_auth, get_cmnd_auth}
use avorioncontrol.Commands.Args.{has_num_args, read_args}
use avorioncontrol.Commands.Output.{CommandOutput, index, this_page}
use avorioncontrol.Commands.Errors.{CommandError}
use avorioncontrol.Commands.Registrar.{
  Handler, Cmdlet, Registrant, Registrar, command, help, ref_of, subcommands,
}

pub record Message : Type 0 where
  pub content : String
  pub author : String
  pub channel : String
  pub id : String

-- The registry, the configuration, and the number of the next channel that `make` creates.
pub record Bot : Type 0 where
  pub reg : Registrar
  pub settings : Settings
  pub next_chan : ℕ

-- What is sent to Discord, the closing of a pager's channel, and the start of a pager.
pub data Action : Type 0 where
  reaction : (channel id emoji : String) → Action
  close_chan : (chan : ℕ) → Action
  start_pager : (out : CommandOutput) (chan : ℕ) → Action
  send_embed : (channel : String) (out : CommandOutput) (page : Option ℕ) → Action

-- The results of a `BotCommand`, with the state that it leaves.
pub record Outcome : Type 0 where
  pub bot : Bot
  pub out : Option CommandOutput
  pub error : Option CommandError

-- The results of `ProcessCommand`, with the state and what was done.
pub record Answer : Type 0 where
  pub name : String
  pub failure : Option CommandError
  pub after : Bot
  pub actions : List Action

-- What the checks in front of the call decide.
pub data Admission : Type 0 where
  empty : Admission
  refused : (name : String) (e : CommandError) → Admission
  admitted : (cmd : Registrant) (h : Handler) → Admission

-- The loop over the member's roles.
unfoldable pub role_level : Settings → List String → ℤ → ℤ
role_level c [] authlvl = authlvl
role_level c (r ∷ roles) authlvl =
    let l = get_role_auth r c in role_level c roles (if ltb_ℤ authlvl l then l else authlvl)

unfoldable pub is_authorized : Settings → String → List String → Bool
unfolding role_level
is_authorized c name roles =
    let authreq = get_cmnd_auth name c in
    if ltb_ℤ (pos 0) authreq then not (ltb_ℤ (role_level c roles (pos 0)) authreq) else true

-- The function of a command, or the error for its lack.
unfoldable pub admit_exec : Registrant → Admission
admit_exec cmd = elim cmd.exec [
  | none ↦ refused cmd.name (CommandError.invalid_command none none cmd.name)
  | some h ↦ admitted cmd h
]

module _ (guild_member : String → String → Option (List String)) where
  -- The checks on a command that was found.
  unfoldable pub admit_command : Bot → Message → Registrant → Admission
  unfolding is_authorized admit_exec
  admit_command bot m cmd =
      let ref = some (ref_of bot.reg cmd.self) in
      if command_disabled cmd.name bot.settings
      then refused cmd.name (CommandError.invalid_command ref none cmd.name)
      else elim (guild_member bot.reg.guild_id m.author) [
        | none ↦ refused cmd.name (
            CommandError.command_error ref none
              "You are not part of the guild, and cannot use this command")
        | some roles ↦
            if is_authorized bot.settings cmd.name roles
            then admit_exec cmd
            else refused cmd.name (CommandError.unauthorized_usage ref none)
      ]

  -- A name that is no command, looked up as an alias.
  unfoldable pub admit_alias : Bot → Message → String → Admission
  unfolding admit_command
  admit_alias bot m name =
      let (found, ac) = get_aliased_command name bot.settings in
      if found
      then elim (command ac bot.reg).1 [
        | none ↦ refused ac (CommandError.invalid_alias none none ac)
        | some cmd ↦ admit_command bot m cmd
      ]
      else refused name (CommandError.invalid_command none none name)

  -- `ProcessCommand` up to the call, over the arguments.
  unfoldable pub admit : Bot → Message → List String → Admission
  unfolding admit_command admit_alias
  admit bot m [] = empty
  admit bot m (name ∷ args) = if name == "" then empty else elim (command name bot.reg).1 [
    | none ↦ admit_alias bot m name
    | some cmd ↦ admit_command bot m cmd
  ]

-- With five pagers the oldest is closed.
unfoldable pub make_room : List ℕ → List ℕ × List Action
make_room [] = ([], [])
make_room (oldest ∷ others) =
    if ltb 4 (length (oldest ∷ others))
    then (others, close_chan oldest ∷ [])
    else (oldest ∷ others, [])

-- An output that needs a pager.
unfoldable pub add_pager : Bot → CommandOutput → Bot × List Action
unfolding make_room
add_pager bot out =
    let (embeds, acts) = make_room bot.reg.embeds in
    let chan = bot.next_chan in
    (
      record bot { reg = record bot.reg { embeds = embeds ++ chan ∷ [] }; next_chan = chan + 1 },
      acts ++ start_pager out chan ∷ [],
    )

-- `if _, max := out.Index(); max > 0`; `index` has `none` for -1.
unfoldable pub is_paged : CommandOutput → Bool
is_paged out = elim (index out).1 [ none ↦ false | some max ↦ ltb 0 max ]

-- The reaction to a message and the output.
unfoldable pub present : Message → Outcome → Bot × List Action
unfolding add_pager is_paged
present m o = elim o.error [
  | some e ↦ (o.bot, reaction m.channel m.id "🚫" ∷ [])
  | none ↦ elim o.out [
    | none ↦ (o.bot, reaction m.channel m.id "✅" ∷ [])
    | some out ↦
        if is_paged out
        then (let (bot, acts) = add_pager o.bot out in (bot, reaction m.channel m.id "✅" ∷ acts))
        else (o.bot, reaction m.channel m.id "✅" ∷ send_embed m.channel out (this_page out) ∷ [])
  ]
]
