-- ===== src/Configuration/Data.antt =====
-- The data of configuration/configuration.go and configuration/yaml.go. A nil slice or map of
-- `Conf` is an empty list. In the YAML form, where the code tests for nil, it is `none`. A compiled
-- regular expression is its source text.
use avorioncontrol.Prelude.{ℕ, String, Bool, true, false, Option, none, List, [], ℤ, pos, Map}

-- `ifaces.LoggedServerEvent`
pub record LoggedServerEvent : Type 0 where
  pub name : String
  pub fstring : String
  pub regex : String

-- The fields of `Conf` that hold settings.
pub record Settings : Type 0 where
  pub config_file : String
  pub logtime : Bool
  pub loglevel : ℤ
  pub timezone : String
  pub dbname : String
  pub galaxyname : String
  pub installdir : String
  pub datadir : String
  pub logfile : String
  pub hangtimeseconds : ℤ
  pub dbupdatetimeseconds : ℤ
  pub rconbin : String
  pub rconpass : String
  pub rconaddr : String
  pub rconport : ℤ
  pub gameport : ℤ
  pub pingport : ℤ
  pub post_up_cmd : String
  pub post_down_cmd : String
  pub token : String
  pub prefix : String
  pub statuschannel : String
  pub chatchannel : String
  pub logchannel : String
  pub discord_link : String
  pub botsallowed : Bool
  pub statuschannelclear : Bool
  pub role_auth_levels : Map ℤ
  pub cmnd_auth_levels : Map ℤ
  pub aliased_commands : Map (List String)
  pub disabled_commands : List String
  pub steam_id : String
  pub enforce_mods : Bool
  pub sentreact : Bool
  pub enabled_mods : List ℤ
  pub allowed_mods : List ℤ
  pub enabled_mod_paths : List String
  pub loggedevents : List LoggedServerEvent

-- `ifaces.ChatData`
pub record ChatData : Type 0 where
  pub name : String
  pub uid : String
  pub msg : String

-- A Go channel of chat messages.
pub record Pipe : Type 0 where
  pub buffer : List ChatData
  pub closed : Bool

-- `Conf`: the settings, and the two channels by their position in `pipes`, the channels that were
-- ever made. `gameconfig` is left out.
pub record Conf : Type 0 where
  pub settings : Settings
  pub open settings use *
  pub chatpipe : Option ℕ
  pub logpipe : Option ℕ
  pub pipes : List Pipe

-- `New`, over the password that `makePass` draws. `loglevel`, `botsallowed` and `sentreact` start
-- at their zero values, which are their defaults but for the loglevel.
unfoldable pub new : String → Conf
new pass = record {
  settings = record {
    config_file = "config.yaml";
    logtime = true;
    loglevel = pos 0;
    timezone = "America/New_York";
    dbname = "data.db";
    galaxyname = "Galaxy";
    installdir = "/srv/avorion/server_files/";
    datadir = "/srv/avorion/";
    logfile = "";
    hangtimeseconds = pos 300;
    dbupdatetimeseconds = pos 3600;
    rconbin = "/usr/local/bin/rcon";
    rconpass = pass;
    rconaddr = "127.0.0.1";
    rconport = pos 27015;
    gameport = pos 27000;
    pingport = pos 27020;
    post_up_cmd = "";
    post_down_cmd = "";
    token = "";
    prefix = "";
    statuschannel = "";
    chatchannel = "";
    logchannel = "";
    discord_link = "";
    botsallowed = false;
    statuschannelclear = false;
    role_auth_levels = [];
    cmnd_auth_levels = [];
    aliased_commands = [];
    disabled_commands = [];
    steam_id = "2303642289";
    enforce_mods = false;
    sentreact = false;
    enabled_mods = [];
    allowed_mods = [];
    enabled_mod_paths = [];
    loggedevents = [];
  };
  chatpipe = none;
  logpipe = none;
  pipes = [];
}

pub record YamlDataCore : Type 0 where
  pub log_level : ℤ
  pub time_zone : String
  pub log_time : Bool
  pub log_file : String
  pub db_name : String

pub record YamlDataGame : Type 0 where
  pub galaxy_name : String
  pub install_dir : String
  pub data_dir : String
  pub ping_port : ℤ
  pub game_port : ℤ
  pub post_up_command : String
  pub post_down_command : String
  pub seconds_till_db_update : ℤ
  pub seconds_till_hang_check : ℤ

pub record YamlDataDiscord : Type 0 where
  pub bots_allowed : Bool
  pub sent_react : Bool
  pub log_channel : String
  pub chat_channel : String
  pub status_channel : String
  pub discord_link : String
  pub prefix : String
  pub token : String
  pub disabled_commands : Option (List String)
  pub aliased_commands : Option (Map (List String))
  pub role_auth_levels : Option (Map ℤ)
  pub command_auth_levels : Option (Map ℤ)
  pub clear_status_channel : Bool

pub record YamlDataRcon : Type 0 where
  pub address : String
  pub binary : String
  pub port : ℤ

pub record YamlDataMods : Type 0 where
  pub steam_id : String
  pub enforce : Bool
  pub allowed : Option (List ℤ)
  pub enabled : Option (List ℤ)
  pub mod_paths : Option (List String)

pub record YamlData : Type 0 where
  pub core : YamlDataCore
  pub game : YamlDataGame
  pub rcon : YamlDataRcon
  pub discord : YamlDataDiscord
  pub mods : YamlDataMods
  pub events : Option (Map (String × String))
