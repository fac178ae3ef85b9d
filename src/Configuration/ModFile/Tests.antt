-- ===== src/Configuration/ModFile/Tests.antt =====
-- The file for one mod on the server and one path.
use avorioncontrol.Prelude.{◌≡◌, refl, [], ◌∷◌, pos}
use avorioncontrol.Prelude.Decimal.{show_ℤ}
use avorioncontrol.Configuration.Data.{Settings, new}
use avorioncontrol.Configuration.ModFile.{mod_config}

abbrev settings : Settings
unfolding new
settings = record (new "").settings { enabled_mods = pos 71 ∷ []; enabled_mod_paths = "own" ∷ [] }

whole_file :
    mod_config settings
    ≡ "-- Generated by AvorionControl\n--   To add mods to this file, please either\n--   edit the configuration file or run the \n--   \"mod\" command in Discord\n\nmodLocation   = \"\"\nforceEnabling = false\nlocal prefix  = \"/srv/avorion/mods/\"\n\nmods = {\n  {workshopid = \"2303642289\"},\n  {workshopid = \"71\"},\n  {path = prefix .. \"own\"},\n}\n\nallowed = {\n}\n"
unfolding mod_config settings new show_ℤ
whole_file = refl
