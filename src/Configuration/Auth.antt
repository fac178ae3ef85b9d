-- ===== src/Configuration/Auth.antt =====
-- The authorization levels of roles and commands (configuration/configuration.go). A method that
-- calls `SaveConfiguration` drops its error, so only the world comes back.
pub mod Laws
use avorioncontrol.Prelude.{
  String, Option, none, some, ℤ, pos, ltb_ℤ, Map, lookup, insert, delete, if◌then◌else◌,
}
use avorioncontrol.Configuration.Data.{Settings, Conf}
use avorioncontrol.Configuration.Storage.{Env, World, save_configuration}

-- The world with its settings changed.
abbrev pub with_settings : (Settings → Settings) → World → World
with_settings f w = record w { conf = record w.conf { settings = f w.conf.settings } }

abbrev pub set_role_levels : Map ℤ → Settings → Settings
set_role_levels m c = record c { role_auth_levels = m }

abbrev pub set_cmnd_levels : Map ℤ → Settings → Settings
set_cmnd_levels m c = record c { cmnd_auth_levels = m }

module _ (env : Env) where
  -- `c.SaveConfiguration()`, its error dropped.
  unfoldable pub save : World → World
  unfolding save_configuration
  save w = (save_configuration env w).1

  -- `AddRoleAuth`
  unfoldable pub add_role_auth : String → ℤ → World → World
  add_role_auth role l w =
      if ltb_ℤ (pos 0) l
      then save (with_settings (set_role_levels (insert role l w.conf.role_auth_levels)) w)
      else w

  -- `RemoveRoleAuth`
  unfoldable pub remove_role_auth : String → World → World
  remove_role_auth role w = elim (lookup role w.conf.role_auth_levels) [
    | none ↦ w
    | some l ↦ save (with_settings (set_role_levels (delete role w.conf.role_auth_levels)) w)
  ]

  -- `AddCmndAuth`
  unfoldable pub add_cmnd_auth : String → ℤ → World → World
  add_cmnd_auth cmnd l w =
      if ltb_ℤ (pos 0) l
      then save (with_settings (set_cmnd_levels (insert cmnd l w.conf.cmnd_auth_levels)) w)
      else w

-- `RemoveCmndAuth`, which does not save.
unfoldable pub remove_cmnd_auth : String → World → World
remove_cmnd_auth cmnd w = elim (lookup cmnd w.conf.cmnd_auth_levels) [
  | none ↦ w
  | some l ↦ with_settings (set_cmnd_levels (delete cmnd w.conf.cmnd_auth_levels)) w
]

-- `GetRoleAuth`
unfoldable pub get_role_auth : String → Settings → ℤ
get_role_auth role c = elim (lookup role c.role_auth_levels) [ none ↦ pos 0 | some l ↦ l ]

-- `GetCmndAuth`
unfoldable pub get_cmnd_auth : String → Settings → ℤ
get_cmnd_auth cmnd c = elim (lookup cmnd c.cmnd_auth_levels) [ none ↦ pos 0 | some l ↦ l ]
