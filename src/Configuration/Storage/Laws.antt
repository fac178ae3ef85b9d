-- ===== src/Configuration/Storage/Laws.antt =====
-- Saving and loading: what comes back, and that loading does not panic.
use text.Mathlib.Text.{starts_with}
use mathlib.Core.List.{Perm}
use avorioncontrol.Prelude.{
  List, String, ◌==◌, eq_refl, ◌≡◌, refl, ap, ◌∙◌, Bool, true, false, Option, none, some,
  if◌then◌else◌, All, Bool-cases, Option-cases, bind, inl, inr, lookup, insert, Map, lookup-insert,
}
use avorioncontrol.Configuration.Data.{Conf, Settings, LoggedServerEvent, YamlData}
use avorioncontrol.Configuration.Pipes.Laws.{
  IsListening, set_chat_channel-IsListening, set_log_channel-IsListening,
}
use avorioncontrol.Configuration.Yaml.{to_yaml, apply_yaml}
use avorioncontrol.Configuration.Yaml.Laws.{
  AreNamed, IsReadable, IsVisit, events_read, events_back, reload_settings,
}
use avorioncontrol.Configuration.Storage.{
  Env, World, Loaded, loaded, failed, exited, panicked, contains, apply_channels, apply_chat,
  apply_log, apply_configuration, write_file, touch, rcon_host, rcon_host_path, save_configuration,
  load_configuration,
}

-- The settings with the channels of the file, where it names any.
abbrev with_chat : String → Settings → Settings
with_chat id c = if id == "" then c else record c { chatchannel = id }

abbrev with_log : String → Settings → Settings
with_log id c = if id == "" then c else record c { logchannel = id }

abbrev with_channels : YamlData → Settings → Settings
with_channels out c = with_log out.discord.log_channel (with_chat out.discord.chat_channel c)

abbrev Sets : Conf → Option Conf → Settings → Type 0
Sets c r settings = (c' : Conf) × (r ≡ some c') × IsListening c' × (c'.settings ≡ settings)

apply_chat-Sets :
    (id : String) (c : Conf) → IsListening c → Sets c (apply_chat id c) (with_chat id c.settings)
unfolding apply_chat
apply_chat-Sets id c h = elim (Bool-cases (id == "")) [
  | inl e ↦ rw e (c, refl, h, refl)
  | inr e ↦ rw e (
      let (c', done, replaced, same, other) = set_chat_channel-IsListening id c h in
      (c', done, replaced.listening, same))
]

apply_log-Sets :
    (id : String) (c : Conf) → IsListening c → Sets c (apply_log id c) (with_log id c.settings)
unfolding apply_log
apply_log-Sets id c h = elim (Bool-cases (id == "")) [
  | inl e ↦ rw e (c, refl, h, refl)
  | inr e ↦ rw e (
      let (c', done, replaced, same, other) = set_log_channel-IsListening id c h in
      (c', done, replaced.listening, same))
]

apply_channels-Sets :
    (out : YamlData) (c : Conf)
    → IsListening c
    → Sets c (apply_channels out c) (with_channels out c.settings)
unfolding apply_channels
apply_channels-Sets out c h =
    let (c', done, listening, same) = apply_chat-Sets out.discord.chat_channel c h in
    let (c'', done', listening', same') = apply_log-Sets out.discord.log_channel c' listening in
    (c'', rw (done, bind) done', listening', same' ∙ ap (with_log out.discord.log_channel) same)

same_either {ℓ} : {A : Type ℓ} (b : Bool) (a : A) → (if b then a else a) ≡ a
same_either true a = refl
same_either false a = refl

with_channels-to_yaml : (c : Settings) → with_channels (to_yaml c) c ≡ c
unfolding to_yaml
with_channels-to_yaml c =
    ap (with_log c.logchannel) (same_either (c.chatchannel == "") c)
    ∙ same_either (c.logchannel == "") c

-- A load that returns nil: the settings that it leaves, and that its pipes are open.
pub record IsLoaded (r : Loaded) (settings : Settings) : Type 0 where
  pub world : World
  pub returns : r ≡ loaded world
  pub same_settings : world.conf.settings ≡ settings
  pub listening : IsListening world.conf

module _ (env : Env) where
  apply_configuration-IsLoaded :
      (out : YamlData) (w : World)
      → IsListening w.conf
      → contains out.core.db_name "/" ≡ false
      → IsLoaded
          (apply_configuration env out w)
          (apply_yaml env.compiles env.visit out (with_channels out w.conf.settings))
  unfolding apply_configuration
  apply_configuration-IsLoaded out w h plain =
      let (c, done, listening, same) = apply_channels-Sets out w.conf h in
      let settings : Settings = apply_yaml env.compiles env.visit out c.settings in
      let files : Map String = touch env out.core.log_file w.files in
      record {
        world = record {
          conf = record c { settings = settings };
          files = (write_file env (rcon_host_path settings) (rcon_host settings) files).1;
        };
        returns = rw (plain, done);
        same_settings = ap (apply_yaml env.compiles env.visit out) same;
        listening = record { chat = listening.chat; log = listening.log; apart = listening.apart };
      }

-- A file that is there, can be read and is valid is applied.
load_found :
    (env : Env) (w : World) (text : String) (out : YamlData)
    → env.stat_fails w.conf.config_file ≡ false
    → env.readable w.conf.config_file ≡ true
    → lookup w.conf.config_file w.files ≡ some text
    → env.unmarshal text ≡ some out
    → load_configuration env w ≡ apply_configuration env out w
unfolding load_configuration
load_found env w text out found readable there valid = rw (found, there, readable, valid)

abbrev saved_world : Env → World → World
saved_world env w = record w {
  files = insert w.conf.config_file (env.marshal (to_yaml w.conf.settings)) w.files;
}

save_writes :
    (env : Env) (w : World)
    → env.writable w.conf.config_file ≡ true
    → save_configuration env w ≡ (none, saved_world env w)
unfolding save_configuration
save_writes env w writable = rw writable

to_yaml-db_name :
    (c : Settings) → contains c.dbname "/" ≡ false → contains (to_yaml c).core.db_name "/" ≡ false
unfolding to_yaml
to_yaml-db_name c h = h

-- The ends of a load that are no panic, from a world.
abbrev pub Ends : World → Loaded → Type 0
Ends w (loaded w') = IsListening w'.conf
Ends w (failed e w') = w' ≡ w
Ends w exited = Unit
Ends w panicked = ⊥

path_exits :
    (env : Env) (out : YamlData) (w : World)
    → contains out.core.db_name "/" ≡ true
    → apply_configuration env out w ≡ exited
unfolding apply_configuration
path_exits env out w e = rw e

-- What the two halves of yaml.v2 promise: a value that was written is read back.
pub record IsYaml (env : Env) (y : YamlData) : Type 0 where
  pub unmarshal-marshal : env.unmarshal (env.marshal y) ≡ some y

-- With a YAML library that reads back what it wrote for these settings, a `range` that visits every entry of
-- a map once, and a configuration file that can be read and written: `SaveConfiguration` followed by
-- `LoadConfiguration` returns nil and leaves the pipes open and every setting as it was, but for the order
-- of the events: they are those that were saved, in any order. The settings have a prefix that is no
-- mention, a database name with no slash, and events with different names, outputs that are not blank and
-- regular expressions that compile; the pipes were open.
pub load-save :
    (env : Env) (w : World)
    → IsYaml env (to_yaml w.conf.settings)
    → IsVisit env.visit
    → env.writable w.conf.config_file ≡ true
    → env.readable w.conf.config_file ≡ true
    → env.stat_fails w.conf.config_file ≡ false
    → starts_with w.conf.prefix "<@!" ≡ false
    → contains w.conf.dbname "/" ≡ false
    → AreNamed w.conf.loggedevents
    → All (IsReadable env.compiles) w.conf.loggedevents
    → IsListening w.conf
    → (events : List LoggedServerEvent) × Perm events w.conf.loggedevents
      × IsLoaded
          (load_configuration env (save_configuration env w).1)
          (record w.conf.settings { loggedevents = events })
load-save env w yaml order writable readable found p d n e h =
    let w' : World = saved_world env w in
    let out : YamlData = to_yaml w.conf.settings in
    let r : IsLoaded (apply_configuration env out w')
        (apply_yaml env.compiles env.visit out (with_channels out w.conf.settings)) =
      apply_configuration-IsLoaded env out w' h (to_yaml-db_name w.conf.settings d) in
    (
      events_read env.compiles env.visit w.conf.loggedevents,
      events_back env.compiles env.visit w.conf.loggedevents order n e,
      record {
        world = r.world;
        returns = rw (save_writes env w writable) (
            load_found env w' (env.marshal out) out found readable
              (lookup-insert w.conf.config_file w.conf.config_file (env.marshal out) w.files
                ∙ rw (eq_refl w.conf.config_file))
              yaml.unmarshal-marshal
            ∙ r.returns);
        same_settings =
            r.same_settings
            ∙ ap (apply_yaml env.compiles env.visit out) (with_channels-to_yaml w.conf.settings)
            ∙ reload_settings env.compiles env.visit w.conf.settings p;
        listening = r.listening;
      },
    )

apply_configuration-Ends :
    (env : Env) (out : YamlData) (w : World)
    → IsListening w.conf
    → Ends w (apply_configuration env out w)
apply_configuration-Ends env out w h = elim (Bool-cases (contains out.core.db_name "/")) [
  | inl e ↦ rw (path_exits env out w e) tt
  | inr e ↦
      let r : IsLoaded (apply_configuration env out w)
          (apply_yaml env.compiles env.visit out (with_channels out w.conf.settings)) =
        apply_configuration-IsLoaded env out w h e in
      rw r.returns r.listening
]

-- While the pipes are open and distinct, `LoadConfiguration` never panics, and when it returns nil
-- the pipes are open and distinct again; an error leaves everything as it was.
pub load_keeps : (env : Env) (w : World) → IsListening w.conf → Ends w (load_configuration env w)
unfolding load_configuration
load_keeps env w h = elim (Bool-cases (env.stat_fails w.conf.config_file)) [
  | inl e ↦ rw e refl
  | inr e ↦ rw e (elim (Option-cases (lookup w.conf.config_file w.files)) [
    | inl f ↦ rw f h
    | inr (text, f) ↦
        rw f
          (elim (Option-cases
            (env.unmarshal (if env.readable w.conf.config_file then text else ""))) [
              | inl g ↦ rw g refl
              | inr (out, g) ↦ rw g (apply_configuration-Ends env out w h)
            ])
  ])
]
