-- ===== src/Commands/Registrar/Names.antt =====
-- The commands that are registered when the bot starts.
use avorioncontrol.Prelude.{ℕ, String, ◌≡◌, refl, Option, some, List, [], ◌∷◌, bind, lookup, insert}
use avorioncontrol.Commands.Registrar.{Registrar, empty_registrar, all_commands}
use avorioncontrol.Commands.Registrar.Startup.{
  initialize_command_registry, register_general, register_server, register_control,
  register_moderation,
}

abbrev pub listed_names : Option Registrar → Option (ℕ × List String)
listed_names reg = bind reg λ r. some (all_commands r)

-- In a new registry of any guild, `InitializeCommandRegistry` registers every command without ending
-- the process, and the names are then listed in alphabetical order.
pub initialize_lists_names :
    (gid : String)
    → listed_names (initialize_command_registry (empty_registrar gid))
      ≡ some (
        27,
        "admin" ∷ "broadcast" ∷ "checkhang" ∷ "getalliances" ∷ "getcoordhistory" ∷ "getjumps"
            ∷ "getplayers" ∷ "help" ∷ "list" ∷ "loglevel" ∷ "mod" ∷ "modlist" ∷ "ping" ∷ "player"
            ∷ "pong" ∷ "rcon" ∷ "reload" ∷ "server" ∷ "setalias" ∷ "setchatchannel"
            ∷ "setlogchannel" ∷ "setprefix" ∷ "setstatuschannel" ∷ "settimezone" ∷ "showonline"
            ∷ "showuserintegrations" ∷ "status" ∷ [],
      )
unfolding initialize_command_registry register_general register_server register_control
    register_moderation empty_registrar all_commands lookup insert
initialize_lists_names gid = refl
