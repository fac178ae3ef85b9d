-- ===== src/Configuration/Tests.antt =====
-- The theorems on the configuration, at concrete settings.
use mathlib.Core.List.{Perm, reverse, reverse_perm}
use avorioncontrol.Prelude.{
  List, ◌==◌, ◌≡◌, refl, ◌↔◌, true, false, none, some, [], ◌∷◌, pos, arith, eqb_ℤ_iff,
  if◌then◌else◌,
}
use avorioncontrol.Configuration.Data.{LoggedServerEvent, Settings, Conf, YamlData, new}
use avorioncontrol.Configuration.Pipes.Laws.{IsListening}
use avorioncontrol.Configuration.Yaml.{to_yaml}
use avorioncontrol.Configuration.Storage.{Env, World, load_configuration, save_configuration}
use avorioncontrol.Configuration.Storage.Laws.{IsLoaded, load-save}
use avorioncontrol.Configuration.Aliases.{get_aliased_command}
use avorioncontrol.Configuration.Aliases.Laws.{Aliases, AreUnique, get_aliased_exact}
use avorioncontrol.Configuration.Mods.{remove_server_mod}
use avorioncontrol.Configuration.Mods.Laws.{copies, AreOnce, remove_server_mod_exact}

abbrev join_event : LoggedServerEvent
join_event = record { name = "join"; fstring = "%s joined"; regex = "joined: (.*)" }

abbrev leave_event : LoggedServerEvent
leave_event = record { name = "leave"; fstring = "%s left"; regex = "left: (.*)" }

-- Settings with two events, an alias, levels and mods, and the pipes of the log and the chat.
abbrev conf : Conf
unfolding new
conf = record {
  settings = record (new "secret").settings {
    prefix = "!";
    aliased_commands = ("status", "st" ∷ []) ∷ [];
    disabled_commands = "rcon" ∷ [];
    role_auth_levels = ("17", pos 5) ∷ [];
    cmnd_auth_levels = ("server", pos 3) ∷ [];
    enabled_mods = pos 7 ∷ pos 8 ∷ [];
    allowed_mods = pos 8 ∷ pos 9 ∷ [];
    loggedevents = join_event ∷ leave_event ∷ [];
  };
  chatpipe = some 0;
  logpipe = some 1;
  pipes = record { buffer = []; closed = false } ∷ record { buffer = []; closed = false } ∷ [];
}

abbrev conf_yaml : YamlData
unfolding to_yaml
conf_yaml = to_yaml conf.settings

-- A file system on which all is allowed, a YAML library that knows one document, and a `range` that visits
-- the entries from the last one on.
abbrev env : Env
env = record {
  marshal = λ y. "document";
  unmarshal = λ s. if s == "document" then some conf_yaml else none;
  compiles = λ r. true;
  visit = reverse;
  stat_fails = λ p. false;
  readable = λ p. true;
  writable = λ p. true;
  is_port_available = λ p. true;
}

abbrev world : World
world = record { conf = conf; files = ("config.yaml", "document") ∷ [] }

conf-IsListening : IsListening conf
unfolding conf
conf-IsListening = record {
  chat = (record { buffer = []; closed = false }, refl, refl);
  log = (record { buffer = []; closed = false }, refl, refl);
  apart = λ i e f. ground arith;
}

abbrev mention : Settings
mention = record conf.settings { prefix = "<@!123>"; disabled_commands = []; aliased_commands = [] }

load-save_example :
    (events : List LoggedServerEvent) × Perm events (join_event ∷ leave_event ∷ [])
    × IsLoaded
        (load_configuration env (save_configuration env world).1)
        (record conf.settings { loggedevents = events })
unfolding to_yaml conf_yaml conf
load-save_example =
    load-save env world (record { unmarshal-marshal = refl }) reverse_perm refl refl refl refl refl
      ((refl, tt), (tt, tt)) ((refl, refl), ((refl, refl), tt)) conf-IsListening

-- The last of the configuration's invariants, at the aliases above.
aliases-AreUnique : AreUnique conf.aliased_commands
unfolding conf
aliases-AreUnique = record { at = λ a. ground arith }

get_aliased_exact_example :
    (get_aliased_command "st" conf.settings ≡ (true, "status"))
    ↔ Aliases "status" "st" conf.aliased_commands
get_aliased_exact_example = get_aliased_exact "status" "st" conf.settings aliases-AreUnique

mods-AreOnce : AreOnce conf.enabled_mods
unfolding conf
mods-AreOnce = record { at = λ id. ground (arith, eqb_ℤ_iff id (pos 7), eqb_ℤ_iff id (pos 8)) }

remove_server_mod_exact_example :
    let (error, w') = remove_server_mod env (pos 7) world in
    (copies (pos 8) w'.conf.enabled_mods ≡ 1)
    × (error ≡ none)
    × AreOnce w'.conf.enabled_mods
    × (w'.conf.allowed_mods ≡ pos 8 ∷ pos 9 ∷ [])
unfolding conf
remove_server_mod_exact_example = remove_server_mod_exact env (pos 7) (pos 8) world mods-AreOnce
