-- ===== src/Commands/Registrar.antt =====
-- discord/commands/registrar.go and registrant.go: the registry of commands. `none` for a registry
-- is the `log.Fatal` that ends the process. A subcommand has no subcommands of its own: `Register`
-- gives them only to the registered commands. A channel of `embeds` is a number.
pub mod Startup
pub mod Order
pub mod Laws
pub mod Names
pub mod Tests
use avorioncontrol.Prelude.{
  ℕ, String, ◌<>◌, ◌==◌, Bool, true, false, not, ◌&&◌, Option, none, some, List, [], ◌∷◌, ◌++◌, ℤ,
  pos, ltb_ℤ, Map, lookup, insert, length, if◌then◌else◌, bind,
}
use Prim.Native.String.{compare}
use Prim.Native.Nat.{Ordering}
use avorioncontrol.Commands.Output.{CommandOutput, new_command_output, add_line, construct}
use avorioncontrol.Commands.Errors.{CommandRef}

-- The values of type `BotCommand` that `InitializeCommandRegistry` registers.
pub data Handler : Type 0 where
  help_cmd list_cmd ping_cmd pong_cmd loglevel_cmnd setprefix_cmd setalias_cmd rcon_cmnd : Handler
  status_cmnd get_jumps_cmnd get_coord_history_cmnd get_players_cmnd get_alliances_cmnd : Handler
  reload_config_cmnd set_chat_channel_cmnd set_log_channel_cmnd set_status_channel_cmnd : Handler
  set_timezone_cmnd proxy_sub_cmnd stop_server_cmnd start_server_cmnd restart_server_cmnd : Handler
  show_admin_roles show_admin_cmnds add_admin_role remove_admin_role add_admin_cmnd : Handler
  remove_admin_cmnd show_self_cmnd mod_add mod_allow mod_disallow mod_remove list_mods : Handler
  get_integrated_cmnd send_broadcast_cmnd player_kick_cmnd player_ban_cmnd : Handler
  show_online_players_cmnd check_hang_cmnd : Handler

-- The fields of a `CommandRegistrant` but its subcommands.
pub record Cmdlet : Type 0 where
  pub name : String
  pub description : String
  pub exec : Option Handler
  pub args : List (String × String)
  pub usage : String
  pub loglevel : ℤ

pub record Registrant : Type 0 where
  pub self : Cmdlet
  pub open self use *
  pub cmdlets : List Cmdlet

pub record Registrar : Type 0 where
  pub guild_id : String
  pub commands : Map Registrant
  pub commandnames : List String
  pub reg_loglevel : ℤ
  pub embeds : List ℕ

unfoldable pub empty_registrar : String → Registrar
empty_registrar gid = record {
  guild_id = gid;
  commands = [];
  commandnames = [];
  reg_loglevel = pos 1;
  embeds = [];
}

-- `NewRegistrar`: the registry, and the table of the guilds with it.
unfoldable pub new_registrar : String → Map Registrar → Registrar × Map Registrar
unfolding empty_registrar
new_registrar gid registrars = (empty_registrar gid, insert gid (empty_registrar gid) registrars)

-- `Registrar`
unfoldable pub registrar : String → Map Registrar → Option String × Option Registrar
registrar gid registrars = elim (lookup gid registrars) [
  | none ↦ (some "no registrar exists for that guild", none)
  | some r ↦ (none, some r)
]

-- `CommandRegistrar.Loglevel`
unfoldable pub loglevel_of_registrar : Registrar → ℤ
loglevel_of_registrar reg = if ltb_ℤ reg.reg_loglevel (pos 0) then pos 0 else reg.reg_loglevel

-- `CommandRegistrant.Loglevel`, which falls back on that of the registrar.
unfoldable pub loglevel_of : Registrar → Cmdlet → ℤ
unfolding loglevel_of_registrar
loglevel_of reg c = if ltb_ℤ c.loglevel (pos 0) then loglevel_of_registrar reg else c.loglevel

-- `CommandRegistrant.UUID`
unfoldable pub uuid_of : Registrar → Cmdlet → String
uuid_of reg c = c.name <> ("Cmnd:" <> reg.guild_id)

-- `IsRegistered`
unfoldable pub is_registered : String → Registrar → Bool
is_registered n reg = elim (lookup n reg.commands) [ none ↦ false | some c ↦ true ]

-- `Command`
unfoldable pub command : String → Registrar → Option String × Option Registrant
command n reg = elim (lookup n reg.commands) [
  | none ↦ (some ("Command " <> (n <> " isn't registered!")), none)
  | some c ↦ (none, some c)
]

-- `AllCommands`
unfoldable pub all_commands : Registrar → ℕ × List String
all_commands reg = (length reg.commandnames, reg.commandnames)

-- `sort.Strings`, as an insertion sort.
unfoldable pub insert_sorted : String → List String → List String
insert_sorted s [] = s ∷ []
insert_sorted s (t ∷ ts) =
    let rest = insert_sorted s ts in elim (compare s t) [ Ordering.gt ↦ t ∷ rest | _ ↦ s ∷ t ∷ ts ]

unfoldable pub sort_strings : List String → List String
unfolding insert_sorted
sort_strings [] = []
sort_strings (s ∷ ss) = insert_sorted s (sort_strings ss)

-- The loop of `Register` over the owners.
unfoldable pub add_to_owners : Cmdlet → List String → Registrar → Option Registrar
add_to_owners c [] reg = some reg
add_to_owners c (owner ∷ owners) reg = elim (lookup owner reg.commands) [
  | none ↦ none
  | some r ↦ add_to_owners c owners (record reg {
    commands = insert owner (record r { cmdlets = r.cmdlets ++ c ∷ [] }) reg.commands;
  })
]

-- The registrant that `Register` makes. No caller passes a nil function.
unfoldable pub new_cmdlet :
    String → String → String → List (String × String) → Handler → Registrar → Cmdlet
unfolding loglevel_of_registrar
new_cmdlet n d u a f reg = record {
  name = n;
  description = d;
  exec = some f;
  args = a;
  usage = u;
  loglevel = loglevel_of_registrar reg;
}

-- The end of `Register`, where no owner is given.
unfoldable pub add_command : String → Cmdlet → Registrar → Registrar
unfolding sort_strings
add_command n c reg = record reg {
  commands = insert n (record { self = c; cmdlets = [] }) reg.commands;
  commandnames = sort_strings (reg.commandnames ++ n ∷ []);
}

-- `Register`
unfoldable pub register :
    String
    → String
    → String
    → List (String × String)
    → Handler
    → List String
    → Registrar
    → Option Registrar
unfolding is_registered new_cmdlet add_command add_to_owners
register n d u a f [] reg =
    if is_registered n reg then none else some (add_command n (new_cmdlet n d u a f reg) reg)
register n d u a f (owner ∷ owners) reg =
    add_to_owners (new_cmdlet n d u a f reg) (owner ∷ owners) reg

-- What an error or an output uses of a registrant.
unfoldable pub ref_of : Registrar → Cmdlet → CommandRef
unfolding uuid_of loglevel_of
ref_of reg c = record {
  name = c.name;
  description = c.description;
  uuid = uuid_of reg c;
  loglevel = loglevel_of reg c;
}

-- `out.AddLine` of several lines.
unfoldable pub add_lines : List String → CommandOutput → CommandOutput
unfolding add_line
add_lines [] o = o
add_lines (l ∷ ls) o = add_lines ls (add_line l o)

unfoldable pub argument_lines : List (String × String) → List String
argument_lines [] = []
argument_lines ((arg, what) ∷ args) = ("> " <> (arg <> (" - " <> what))) ∷ argument_lines args

unfoldable pub cmdlet_lines : List Cmdlet → List String
cmdlet_lines [] = []
cmdlet_lines (c ∷ cs) = ("> " <> (c.name <> (" - " <> c.description))) ∷ cmdlet_lines cs

-- A heading and its lines, if there are any.
abbrev headed : String → List String → List String
headed heading [] = []
headed heading (l ∷ ls) = heading ∷ l ∷ ls

-- The lines of `Help`.
unfoldable pub help_lines : Registrant → List String
unfolding argument_lines cmdlet_lines
help_lines c =
    ("> " <> c.usage) ∷ headed "**Arguments**" (argument_lines c.args)
    ++ headed "**Subcommands**" (cmdlet_lines c.cmdlets)

-- `Help`
unfoldable pub help : Registrar → Registrant → CommandOutput
unfolding add_lines help_lines
help reg c =
    let out =
      new_command_output c.description (uuid_of reg c.self) (loglevel_of reg c.self)
        "Command Help" in
    construct (add_lines (help_lines c) (record out { header = "Usage" }))

-- `Subcommands`
unfoldable pub subcommands : Registrant → ℕ × List Cmdlet
subcommands c = (length c.cmdlets, c.cmdlets)
