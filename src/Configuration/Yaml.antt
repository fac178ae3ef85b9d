-- ===== src/Configuration/Yaml.antt =====
-- The body of `SaveConfiguration` up to `yaml.Marshal`, and of `LoadConfiguration` behind
-- `yaml.Unmarshal` (configuration/configuration.go): the settings to and from their YAML form.
pub mod Laws
use text.Mathlib.Text.{starts_with}
use avorioncontrol.Prelude.{
  String, ◌==◌, Bool, true, false, not, Option, none, some, List, [], ◌∷◌, ℤ, pos, ltb_ℤ, eqb_ℤ,
  Map, insert, if◌then◌else◌,
}
use avorioncontrol.Configuration.Data.{
  Settings, LoggedServerEvent, YamlDataCore, YamlDataGame, YamlDataDiscord, YamlDataRcon,
  YamlDataMods, YamlData,
}

-- The map of the events, by name: a later event of the same name replaces an earlier one. The order of
-- the list stands for nothing; a `range` over the map visits it in an order of its own.
unfoldable pub events_map : List LoggedServerEvent → Map (String × String) → Map (String × String)
events_map [] m = m
events_map (e ∷ es) m = events_map es (insert e.name (e.fstring, e.regex) m)

-- A prefix that is a mention is saved as the word.
unfoldable pub saved_prefix : String → String
saved_prefix p = if starts_with p "<@!" then "mention" else p

unfoldable pub to_yaml : Settings → YamlData
unfolding events_map saved_prefix
to_yaml c = record {
  core = record {
    log_level = c.loglevel;
    time_zone = c.timezone;
    log_time = c.logtime;
    log_file = c.logfile;
    db_name = c.dbname;
  };
  game = record {
    galaxy_name = c.galaxyname;
    install_dir = c.installdir;
    data_dir = c.datadir;
    ping_port = c.pingport;
    game_port = c.gameport;
    post_up_command = c.post_up_cmd;
    post_down_command = c.post_down_cmd;
    seconds_till_db_update = c.dbupdatetimeseconds;
    seconds_till_hang_check = c.hangtimeseconds;
  };
  rcon = record { address = c.rconaddr; binary = c.rconbin; port = c.rconport };
  discord = record {
    bots_allowed = c.botsallowed;
    sent_react = c.sentreact;
    log_channel = c.logchannel;
    chat_channel = c.chatchannel;
    status_channel = c.statuschannel;
    discord_link = c.discord_link;
    prefix = saved_prefix c.prefix;
    token = c.token;
    disabled_commands = some c.disabled_commands;
    aliased_commands = some c.aliased_commands;
    role_auth_levels = some c.role_auth_levels;
    command_auth_levels = some c.cmnd_auth_levels;
    clear_status_channel = c.statuschannelclear;
  };
  mods = record {
    steam_id = c.steam_id;
    enforce = c.enforce_mods;
    allowed = some c.allowed_mods;
    enabled = some c.enabled_mods;
    mod_paths = some c.enabled_mod_paths;
  };
  events = some (events_map c.loggedevents []);
}

-- `if out != "" { c = out }`, and the same for a port, a period, a list that must not be empty and
-- one that must not be nil.
abbrev pub text_or : String → String → String
text_or out old = if out == "" then old else out

abbrev pub number_or : ℤ → ℤ → ℤ
number_or out old = if eqb_ℤ out (pos 0) then old else out

abbrev pub period_or : ℤ → ℤ → ℤ
period_or out old = if ltb_ℤ (pos 0) out then out else old

abbrev pub list_or : {A : Type 0} → Option (List A) → List A → List A
list_or none old = old
list_or (some []) old = old
list_or (some (x ∷ xs)) old = x ∷ xs

abbrev pub value_or : {A : Type 0} → Option A → A → A
value_or none old = old
value_or (some x) old = x

-- `Core`, but for `DBName`'s check of a path.
unfoldable pub apply_core : YamlDataCore → Settings → Settings
apply_core out c = record c {
  logtime = if out.log_time then c.logtime else false;
  logfile = text_or out.log_file c.logfile;
  loglevel = number_or out.log_level c.loglevel;
  timezone = text_or out.time_zone c.timezone;
  dbname = text_or out.db_name c.dbname;
}

-- `Game`, the periods and the two commands with it.
unfoldable pub apply_game : YamlDataGame → Settings → Settings
apply_game out c = record c {
  dbupdatetimeseconds = period_or out.seconds_till_db_update c.dbupdatetimeseconds;
  hangtimeseconds = period_or out.seconds_till_hang_check c.hangtimeseconds;
  datadir = text_or out.data_dir c.datadir;
  galaxyname = text_or out.galaxy_name c.galaxyname;
  gameport = number_or out.game_port c.gameport;
  installdir = text_or out.install_dir c.installdir;
  pingport = number_or out.ping_port c.pingport;
  post_up_cmd = out.post_up_command;
  post_down_cmd = out.post_down_command;
}

unfoldable pub apply_rcon : YamlDataRcon → Settings → Settings
apply_rcon out c = record c {
  rconaddr = text_or out.address c.rconaddr;
  rconbin = text_or out.binary c.rconbin;
  rconport = number_or out.port c.rconport;
}

-- `Discord`, but for the channels of chat and log, which go through their setters.
unfoldable pub apply_discord : YamlDataDiscord → Settings → Settings
apply_discord out c = record c {
  statuschannel = text_or out.status_channel c.statuschannel;
  aliased_commands = list_or out.aliased_commands c.aliased_commands;
  disabled_commands = list_or out.disabled_commands c.disabled_commands;
  cmnd_auth_levels = value_or out.command_auth_levels c.cmnd_auth_levels;
  role_auth_levels = value_or out.role_auth_levels c.role_auth_levels;
  discord_link = text_or out.discord_link c.discord_link;
  prefix = text_or out.prefix c.prefix;
  token = if c.token == "" then text_or out.token c.token else c.token;
  statuschannelclear = if out.clear_status_channel then true else c.statuschannelclear;
  sentreact = out.sent_react;
}

unfoldable pub apply_mods : YamlDataMods → Settings → Settings
apply_mods out c = record c {
  allowed_mods = value_or out.allowed c.allowed_mods;
  enabled_mods = value_or out.enabled c.enabled_mods;
  enabled_mod_paths = value_or out.mod_paths c.enabled_mod_paths;
  steam_id = text_or out.steam_id c.steam_id;
  enforce_mods = out.enforce;
}

-- The events of the file, in the order of the visits: one with a blank output or a regular expression
-- that does not compile is left out.
unfoldable pub read_events :
    (String → Bool) → List (String × (String × String)) → List LoggedServerEvent
read_events compiles [] = []
read_events compiles ((name, (fstring, regex)) ∷ m) =
    let rest = read_events compiles m in
    if fstring == ""
    then rest
    else if compiles regex
    then record { name = name; fstring = fstring; regex = regex } ∷ rest
    else rest

-- The order in which a `range` visits the map of the events.
abbrev pub Visit : Type 0
Visit = Map (String × String) → List (String × (String × String))

unfoldable pub apply_events :
    (String → Bool) → Visit → Option (Map (String × String)) → Settings → Settings
unfolding read_events
apply_events compiles visit none c = record c { loggedevents = [] }
apply_events compiles visit (some m) c = record c { loggedevents = read_events compiles (visit m) }

-- All sections, in the order of the code.
unfoldable pub apply_yaml : (String → Bool) → Visit → YamlData → Settings → Settings
unfolding apply_core apply_game apply_rcon apply_discord apply_mods apply_events
apply_yaml compiles visit out c = apply_events compiles visit out.events (
    apply_mods out.mods (
      apply_discord out.discord
        (apply_rcon out.rcon (apply_core out.core (apply_game out.game c)))))
