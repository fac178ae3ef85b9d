-- ===== src/Configuration/Storage.antt =====
-- `LoadConfiguration`, `SaveConfiguration`, `Validate` and `touch` of configuration/configuration.go.
-- The file system is a map from paths to contents. YAML, the regular expressions and what the
-- operating system answers are a parameter; `yaml.Marshal` does not fail on data of this form. The
-- log's own settings are left out, and so are log lines.
pub mod Laws
use text.Mathlib.Text.{find?}
use avorioncontrol.Prelude.{
  ℕ, String, ◌<>◌, ◌==◌, Bool, true, false, not, Option, none, some, List, [], ◌∷◌, ℤ, Map, lookup,
  insert, if◌then◌else◌, bind,
}
use avorioncontrol.Prelude.Decimal.{show_ℤ}
use avorioncontrol.Configuration.Data.{Settings, Conf, YamlData}
use avorioncontrol.Configuration.Pipes.{set_chat_channel, set_log_channel}
use avorioncontrol.Configuration.Yaml.{Visit, to_yaml, apply_yaml}

-- What the package takes from elsewhere: yaml.v2, regexp, the file system's permissions and ports.
pub record Env : Type 0 where
  pub marshal : YamlData → String
  pub unmarshal : String → Option YamlData
  pub compiles : String → Bool
  pub visit : Visit
  pub stat_fails : String → Bool
  pub readable : String → Bool
  pub writable : String → Bool
  pub is_port_available : ℤ → Bool

pub record World : Type 0 where
  pub conf : Conf
  pub files : Map String

pub data Error : Type 0 where
  cannot_read : String → Error
  invalid_yaml : String → Error
  cannot_write : String → Error
  no_rcon_binary : String → Error
  port_not_available : ℤ → Error

-- How a load ends: it returns nil, it returns an error, the program exits with status 1, or a
-- close of a closed channel panics.
pub data Loaded : Type 0 where
  loaded : World → Loaded
  failed : Error → World → Loaded
  exited : Loaded
  panicked : Loaded

abbrev pub contains : String → String → Bool
contains s t = elim (find? s t) [ none ↦ false | some i ↦ true ]

-- The two setters of channels that `LoadConfiguration` calls, if the file names a channel; `none`
-- is a panic.
unfoldable pub apply_chat : String → Conf → Option Conf
apply_chat id c = if id == "" then some c else set_chat_channel id c

unfoldable pub apply_log : String → Conf → Option Conf
apply_log id c = if id == "" then some c else set_log_channel id c

unfoldable pub apply_channels : YamlData → Conf → Option Conf
unfolding apply_chat apply_log
apply_channels out c =
    bind (apply_chat out.discord.chat_channel c) (apply_log out.discord.log_channel)

-- The text of `rconhost.conf`, and its path.
unfoldable pub rcon_host : Settings → String
rcon_host c =
    "["
    <> (c.galaxyname
        <> ("]\nhostname = "
            <> (c.rconaddr
                <> ("\nport = "
                    <> (show_ℤ c.rconport <> ("\npassword = " <> (c.rconpass <> "\n")))))))

abbrev pub rcon_host_path : Settings → String
rcon_host_path c = c.datadir <> "/rconhost.conf"

module _ (env : Env) where
  -- `ioutil.WriteFile`, and the error that it returns.
  unfoldable pub write_file : String → String → Map String → Option Error × Map String
  write_file path text files =
      if env.writable path
      then (none, insert path text files)
      else (some (cannot_write path), files)

  -- `SaveConfiguration`
  unfoldable pub save_configuration : World → Option Error × World
  unfolding write_file
  save_configuration w =
      let (e, files) =
        write_file w.conf.config_file (env.marshal (to_yaml w.conf.settings)) w.files in
      (e, record w { files = files })

  -- A log file is created empty if it is not there and can be written.
  unfoldable pub touch : String → Map String → Map String
  unfolding write_file
  touch path files =
      if path == ""
      then files
      else elim (lookup path files) [ none ↦ (write_file path "" files).1 | some t ↦ files ]

  -- `LoadConfiguration` behind `yaml.Unmarshal`, once the channels are set.
  unfoldable pub apply_rest : YamlData → World → Option Conf → Loaded
  unfolding rcon_host write_file touch
  apply_rest out w none = panicked
  apply_rest out w (some c) =
      let settings = apply_yaml env.compiles env.visit out c.settings in
      let files = touch out.core.log_file w.files in
      loaded (record {
        conf = record c { settings = settings };
        files = (write_file (rcon_host_path settings) (rcon_host settings) files).1;
      })

  -- A database name with a slash ends the program.
  unfoldable pub apply_configuration : YamlData → World → Loaded
  unfolding apply_rest
  apply_configuration out w =
      if contains out.core.db_name "/" then exited else apply_rest out w (apply_channels out w.conf)

  -- `LoadConfiguration`: `os.Stat` may fail although the file is there, and the error of
  -- `ioutil.ReadFile` is dropped, so a file that cannot be read counts as empty.
  unfoldable pub load_configuration : World → Loaded
  unfolding apply_configuration apply_channels
  load_configuration w =
      let path = w.conf.config_file in
      if env.stat_fails path then failed (cannot_read path) w else elim (lookup path w.files) [
        | none ↦ loaded w
        | some text ↦ elim (env.unmarshal (if env.readable path then text else "")) [
          | none ↦ failed (invalid_yaml path) w
          | some out ↦ apply_configuration out w
        ]
      ]

  -- The loop of `Validate` over the ports.
  unfoldable pub first_unavailable : List ℤ → Option Error
  first_unavailable [] = none
  first_unavailable (port ∷ ports) =
      if env.is_port_available port then first_unavailable ports else some (port_not_available port)

  -- `Validate`
  unfoldable pub validate : World → Option Error
  unfolding first_unavailable
  validate w =
      let ports = first_unavailable (w.conf.gameport ∷ w.conf.rconport ∷ w.conf.pingport ∷ []) in
      if env.stat_fails w.conf.rconbin then ports else elim (lookup w.conf.rconbin w.files) [
        | none ↦ some (no_rcon_binary w.conf.rconbin)
        | some t ↦ ports
      ]
