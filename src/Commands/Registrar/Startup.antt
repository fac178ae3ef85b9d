-- ===== src/Commands/Registrar/Startup.antt =====
-- discord/commands/000-init.go: the commands that `InitializeCommandRegistry` registers, in its order.
use avorioncontrol.Prelude.{Option, some, List, [], ◌∷◌, bind}
use avorioncontrol.Commands.Registrar.{Registrar, register}
use avorioncontrol.Commands.Registrar.Handler.{
  help_cmd, list_cmd, ping_cmd, pong_cmd, loglevel_cmnd, setprefix_cmd, setalias_cmd, rcon_cmnd,
  status_cmnd, get_jumps_cmnd, get_coord_history_cmnd, get_players_cmnd, get_alliances_cmnd,
  reload_config_cmnd, set_chat_channel_cmnd, set_log_channel_cmnd, set_status_channel_cmnd,
  set_timezone_cmnd, proxy_sub_cmnd, stop_server_cmnd, start_server_cmnd, restart_server_cmnd,
  show_admin_roles, show_admin_cmnds, add_admin_role, remove_admin_role, add_admin_cmnd,
  remove_admin_cmnd, show_self_cmnd, mod_add, mod_allow, mod_disallow, mod_remove, list_mods,
  get_integrated_cmnd, send_broadcast_cmnd, player_kick_cmnd, player_ban_cmnd,
  show_online_players_cmnd, check_hang_cmnd,
}

-- One registration after another.
abbrev pub then_register : List (Registrar → Option Registrar) → Registrar → Option Registrar
then_register [] reg = some reg
then_register (r ∷ rs) reg = bind (r reg) (then_register rs)

-- The registrations up to `setalias`.
unfoldable pub register_general : Registrar → Option Registrar
unfolding register
register_general = then_register (
    register "help" "Output help text for a command" "help <command> (subcommand) ..."
      (("command", "The base command that you would like help with")
        ∷ ("subcommand", "The subcommand that you would like help with")
        ∷ [])
      help_cmd ([])
    ∷ register "list" "Output a list of all available commands" "list" ([]) list_cmd ([])
    ∷ register "ping" "Get a \"Pong!\" response" "ping" ([]) ping_cmd ([])
    ∷ register "pong" "Get a \"Ping~\" response" "pong" ([]) pong_cmd ([])
    ∷ register "loglevel" "Set the log level for a given command(s) or object(s)"
        "loglevel <number> <object> <object> <object> ..."
        (("number", "The level of logging being set. Must be a number between 0 and 3")
          ∷ ("object", "Object or command that is being configured. Ex: ping, or guild")
          ∷ [])
        loglevel_cmnd ([])
    ∷ register "setprefix" "Set the command prefix" "setprefix <prefix>"
        (("prefix", "The prefix that is to be applied.") ∷ []) setprefix_cmd ([])
    ∷ register "setalias" "Set a command alias" "setalias <command> <alias>"
        (("command", "Name of the command the new alias will apply to")
          ∷ ("alias", "Name of the alias that is being created")
          ∷ [])
        setalias_cmd ([])
    ∷ [])

-- From `rcon` to `settimezone`.
unfoldable pub register_server : Registrar → Option Registrar
unfolding register
register_server = then_register (
    register "rcon" "Run a command in Avorion and return its result" "rcon <command> ..."
      (("command", "Name of the command to run") ∷ ("...", "The commands arguments") ∷ []) rcon_cmnd
      ([])
    ∷ register "status" "Get the current server status" "status" ([]) status_cmnd ([])
    ∷ register "getjumps" "Get the last n jumps for a player or alliance" "getjumps <number> <name>"
        (("number", "Number of jumps to list (250 max)") ∷ ("name", "Player or Alliance name") ∷ [])
        get_jumps_cmnd ([])
    ∷ register "getcoordhistory" "Get all of the logged jumps made to a sector"
        "getcoordhistory <x:y> <x:y> ..."
        (("x", "x coordinate for a Sector") ∷ ("y", "y coordinate for a sector") ∷ [])
        get_coord_history_cmnd ([])
    ∷ register "getplayers" "List the tracked players" "getplayers" ([]) get_players_cmnd ([])
    ∷ register "getalliances" "List the tracked alliances" "getalliances" ([]) get_alliances_cmnd
        ([])
    ∷ register "reload" "Reloads the active configuration from our config file" "reload" ([])
        reload_config_cmnd ([])
    ∷ register "setchatchannel" "Sets the channel to output server chat into"
        "setchatchannel channelid"
        (("channelid", "UID of the channel to send server chat messages to") ∷ [])
        set_chat_channel_cmnd ([])
    ∷ register "setlogchannel" "Sets the channel to output logged server events to"
        "setlogchannel channelid"
        (("channelid", "UID of the channel to send logged events to ") ∷ []) set_log_channel_cmnd
        ([])
    ∷ register "setstatuschannel"
        "Sets the channel in which the server will update it's status embed"
        "setstatuschannel channelid"
        (("channelid", "UID of the channel to send server chat messages to") ∷ [])
        set_status_channel_cmnd ([])
    ∷ register "settimezone" "Sets the timezone that bot output will use" "settimezone timezone"
        ((
          "timezone",
          "Timezone to set (reference: https://en.wikipedia.org/wiki/List_of_tz_database_time_zones)",
        )
          ∷ [])
        set_timezone_cmnd ([])
    ∷ [])

-- `server` and `admin`, and their subcommands.
unfoldable pub register_control : Registrar → Option Registrar
unfolding register
register_control = then_register (
    register "server" "Control the state of the Avorion server" "server <subcommand>" ([])
      proxy_sub_cmnd ([])
    ∷ register "stop" "Stop the Avorion server (if its up)" "stop" ([]) stop_server_cmnd
        ("server" ∷ [])
    ∷ register "start" "Start the Avorion server (if its down)" "start" ([]) start_server_cmnd
        ("server" ∷ [])
    ∷ register "restart" "Restart the Avorion server" "restart" ([]) restart_server_cmnd
        ("server" ∷ [])
    ∷ register "admin" "Configure admin level privileges" "admin <subcommand>" ([]) proxy_sub_cmnd
        ([])
    ∷ register "roles" "List admin level roles" "roles" ([]) show_admin_roles ("admin" ∷ [])
    ∷ register "commands" "List commands that need admin" "commands" ([]) show_admin_cmnds
        ("admin" ∷ [])
    ∷ register "addrole" "Add a set level of authorization to a role" "addrole <role> <level>"
        (("role", "role to add auth privileges to")
          ∷ ("level", "number representing authorization level (max 10)")
          ∷ [])
        add_admin_role ("admin" ∷ [])
    ∷ register "delrole" "Remove authorization from a role" "delrole <role>"
        (("role", "role to add auth privileges to") ∷ []) remove_admin_role ("admin" ∷ [])
    ∷ register "addcommand" "Require authorization for a command" "addcommand <command> <level>"
        (("level", "number representing authorization level (max 10)")
          ∷ ("command", "role to add auth privileges to")
          ∷ [])
        add_admin_cmnd ("admin" ∷ [])
    ∷ register "delcommand" "Remove the auth requirements from a command" "delcommand <command>"
        (("command", "command to have remove requirements from") ∷ []) remove_admin_cmnd
        ("admin" ∷ [])
    ∷ register "self" "Output your authorization level" "delcommand <command>" ([]) show_self_cmnd
        ("admin" ∷ [])
    ∷ [])

-- From `mod` to `checkhang`.
unfoldable pub register_moderation : Registrar → Option Registrar
unfolding register
register_moderation = then_register (
    register "mod" "Configure mods installed on the Avorion server" "mod <add|remove|list>" ([])
      proxy_sub_cmnd ([])
    ∷ register "add" "Add a mod or mods to the server configuration"
        "add <workshopid> <workshopid> ..."
        (("workshopid", "Steam workshop ID of a mod to add") ∷ []) mod_add ("mod" ∷ [])
    ∷ register "allow" "Allow a mod to be installed on the client"
        "add <workshopid> <workshopid> ..."
        (("workshopid", "Steam workshop ID of a mod to add") ∷ []) mod_allow ("mod" ∷ [])
    ∷ register "disallow" "Remove a mod from the allowed client mods list"
        "add <workshopid> <workshopid> ..."
        (("workshopid", "Steam workshop ID of a mod to add") ∷ []) mod_disallow ("mod" ∷ [])
    ∷ register "remove" "Remove a mod or mods from the server configuration"
        "remove <workshopid> <workshopid> ..."
        (("workshopid", "Steam workshop ID of a mod to add") ∷ []) mod_remove ("mod" ∷ [])
    ∷ register "list" "List the workshop mods that are currently configured to be installed" "list"
        ([]) list_mods ("mod" ∷ [])
    ∷ register "modlist" "List the workshop mods that are currently configured to be installed"
        "list" ([]) list_mods ([])
    ∷ register "showuserintegrations"
        "Show the users that have integrated Discord and their in-game player"
        "showuserintegrations" ([]) get_integrated_cmnd ([])
    ∷ register "broadcast" "Send all players an email, with an attachment used as the message body"
        "broadcast <email subject header>" ([]) send_broadcast_cmnd ([])
    ∷ register "player" "Moderate a given player" "player <kick|ban>" ([]) proxy_sub_cmnd ([])
    ∷ register "kick" "Kick the given player" "kick <player index>"
        (("player index", "Valid player index") ∷ []) player_kick_cmnd ("player" ∷ [])
    ∷ register "ban" "Ban the given player" "ban <player index>"
        (("player index", "Valid player index") ∷ []) player_ban_cmnd ("player" ∷ [])
    ∷ register "showonline" "Show the players that are currently online" "showonline" ([])
        show_online_players_cmnd ([])
    ∷ register "checkhang"
        "Checks whether or not the server is online and restarts it if it is hanging" "checkhang"
        ([]) check_hang_cmnd ([])
    ∷ [])

-- `InitializeCommandRegistry`
unfoldable pub initialize_command_registry : Registrar → Option Registrar
unfolding register_general register_server register_control register_moderation
initialize_command_registry =
    then_register (register_general ∷ register_server ∷ register_control ∷ register_moderation ∷ [])
