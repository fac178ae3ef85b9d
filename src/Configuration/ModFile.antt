-- ===== src/Configuration/ModFile.antt =====
-- `BuildModConfig` of configuration/configuration.go: the file of mods for the game.
pub mod Tests
use avorioncontrol.Prelude.{String, ◌<>◌, Option, List, [], ◌∷◌, map, ◌++◌, if◌then◌else◌}
use avorioncontrol.Prelude.Decimal.{show_ℤ}
use avorioncontrol.Configuration.Data.{Settings}
use avorioncontrol.Configuration.Storage.{Env, World, Error, write_file}

-- The texts one after another.
unfoldable pub joined_texts : List String → String
joined_texts [] = ""
joined_texts (t ∷ ts) = t <> joined_texts ts

abbrev workshop_line : String → String
workshop_line id = "  {workshopid = \"" <> (id <> "\"},\n")

abbrev path_line : String → String
path_line path = "  {path = prefix .. \"" <> (path <> "\"},\n")

abbrev allowed_line : String → String
allowed_line id = "  {id = \"" <> (id <> "\"},\n")

-- The head of the file, up to the list of mods.
unfoldable pub mod_config_head : Settings → List String
mod_config_head c =
    "-- Generated by AvorionControl\n"
    ∷ "--   To add mods to this file, please either\n"
    ∷ "--   edit the configuration file or run the \n"
    ∷ "--   \"mod\" command in Discord\n\n"
    ∷ "modLocation   = \"\"\n"
    ∷ "forceEnabling = "
    ∷ (if c.enforce_mods then "true" else "false")
    ∷ "\nlocal prefix  = \""
    ∷ c.datadir
    ∷ "mods/\"\n\nmods = {\n"
    ∷ []

-- The text of `modconfig.lua`.
unfoldable pub mod_config : Settings → String
unfolding joined_texts mod_config_head
mod_config c = joined_texts (
    mod_config_head c
    ++ workshop_line c.steam_id ∷ map (λ id. workshop_line (show_ℤ id)) c.enabled_mods
    ++ map path_line c.enabled_mod_paths
    ++ "}\n\nallowed = {\n" ∷ map (λ id. allowed_line (show_ℤ id)) c.allowed_mods
    ++ "}\n" ∷ [])

-- `BuildModConfig`
unfoldable pub build_mod_config : Env → World → Option Error × World
unfolding mod_config write_file
build_mod_config env w =
    let path = w.conf.datadir <> ("/" <> (w.conf.galaxyname <> "/modconfig.lua")) in
    let (e, files) = write_file env path (mod_config w.conf.settings) w.files in
    (e, record w { files = files })
