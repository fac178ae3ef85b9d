-- ===== src/Configuration/Auth/Laws.antt =====
-- What the methods on levels change, and what they write to the file.
use avorioncontrol.Prelude.{
  String, ◌==◌, eq_iff, eq_refl, ◌≡◌, refl, true, some, ℤ, pos, ltb_ℤ, lookup, insert, delete,
  lookup-insert, lookup-delete, if◌then◌else◌, ◌&&◌, arith, Bool-cases, inl, inr, ◌∙◌, Option-cases,
}
use avorioncontrol.Configuration.Yaml.{to_yaml}
use avorioncontrol.Configuration.Storage.{Env, World}
use avorioncontrol.Configuration.Auth.{
  save, add_role_auth, remove_role_auth, add_cmnd_auth, remove_cmnd_auth, get_role_auth,
  get_cmnd_auth, with_settings, set_role_levels, set_cmnd_levels,
}

conf-save : (env : Env) (w : World) → (save env w).conf ≡ w.conf
unfolding save
conf-save env w = refl

-- After `AddRoleAuth` a role's level is the one given, if it is above 0 and the role is the one
-- named, and after `RemoveRoleAuth` the role named has level 0; every other role's level, and every
-- command's, is what it was.
pub get_role_auth-changes :
    (env : Env) (role q cmnd : String) (l : ℤ) (w : World)
    → let a = (add_role_auth env role l w).conf.settings in
      let r = (remove_role_auth env role w).conf.settings in
      (get_role_auth q a
        ≡ (if ltb_ℤ (pos 0) l && (role == q) then l else get_role_auth q w.conf.settings))
      × (get_role_auth q r ≡ (if role == q then pos 0 else get_role_auth q w.conf.settings))
      × (get_cmnd_auth cmnd a ≡ get_cmnd_auth cmnd w.conf.settings)
      × (get_cmnd_auth cmnd r ≡ get_cmnd_auth cmnd w.conf.settings)
unfolding add_role_auth remove_role_auth get_role_auth get_cmnd_auth save
get_role_auth-changes env role q cmnd l w = ground (
  arith,
  lookup-insert role q l w.conf.role_auth_levels,
  lookup-delete role q w.conf.role_auth_levels,
  eq_iff role q,
)

-- After `AddCmndAuth` the level that a command requires is the one given, if it is above 0 and the
-- command is the one named, and after `RemoveCmndAuth` the command named requires level 0; what
-- every other command requires, and every role's level, is what it was.
pub get_cmnd_auth-changes :
    (env : Env) (cmnd q role : String) (l : ℤ) (w : World)
    → let a = (add_cmnd_auth env cmnd l w).conf.settings in
      let r = (remove_cmnd_auth cmnd w).conf.settings in
      (get_cmnd_auth q a
        ≡ (if ltb_ℤ (pos 0) l && (cmnd == q) then l else get_cmnd_auth q w.conf.settings))
      × (get_cmnd_auth q r ≡ (if cmnd == q then pos 0 else get_cmnd_auth q w.conf.settings))
      × (get_role_auth role a ≡ get_role_auth role w.conf.settings)
      × (get_role_auth role r ≡ get_role_auth role w.conf.settings)
unfolding add_cmnd_auth remove_cmnd_auth get_role_auth get_cmnd_auth save
get_cmnd_auth-changes env cmnd q role l w = ground (
  arith,
  lookup-insert cmnd q l w.conf.cmnd_auth_levels,
  lookup-delete cmnd q w.conf.cmnd_auth_levels,
  eq_iff cmnd q,
)

-- The file holds the settings.
abbrev pub IsSaved : Env → World → Type 0
IsSaved env w = lookup w.conf.config_file w.files ≡ some (env.marshal (to_yaml w.conf.settings))

save-IsSaved :
    (env : Env) (w : World) → env.writable w.conf.config_file ≡ true → IsSaved env (save env w)
unfolding save
save-IsSaved env w h = rw h (
    lookup-insert w.conf.config_file w.conf.config_file (env.marshal (to_yaml w.conf.settings))
      w.files
    ∙ rw (eq_refl w.conf.config_file))

module _ (env : Env) (name : String) where
  add_role_auth-IsSaved :
      (l : ℤ) (w : World)
      → env.writable w.conf.config_file ≡ true
      → IsSaved env w
      → IsSaved env (add_role_auth env name l w)
  unfolding add_role_auth
  add_role_auth-IsSaved l w h s = elim (Bool-cases (ltb_ℤ (pos 0) l)) [
    | inl e ↦ rw e (
        save-IsSaved env (with_settings (set_role_levels (insert name l w.conf.role_auth_levels)) w)
          h)
    | inr e ↦ rw e s
  ]

  remove_role_auth-IsSaved :
      (w : World)
      → env.writable w.conf.config_file ≡ true
      → IsSaved env w
      → IsSaved env (remove_role_auth env name w)
  unfolding remove_role_auth
  remove_role_auth-IsSaved w h s = elim (Option-cases (lookup name w.conf.role_auth_levels)) [
    | inl e ↦ rw (e, remove_role_auth) s
    | inr (l, e) ↦
        rw (e, remove_role_auth)
          (save-IsSaved env
            (with_settings (set_role_levels (delete name w.conf.role_auth_levels)) w) h)
  ]

  add_cmnd_auth-IsSaved :
      (l : ℤ) (w : World)
      → env.writable w.conf.config_file ≡ true
      → IsSaved env w
      → IsSaved env (add_cmnd_auth env name l w)
  unfolding add_cmnd_auth
  add_cmnd_auth-IsSaved l w h s = elim (Bool-cases (ltb_ℤ (pos 0) l)) [
    | inl e ↦ rw e (
        save-IsSaved env (with_settings (set_cmnd_levels (insert name l w.conf.cmnd_auth_levels)) w)
          h)
    | inr e ↦ rw e s
  ]

files-remove_cmnd_auth : (name : String) (w : World) → (remove_cmnd_auth name w).files ≡ w.files
unfolding remove_cmnd_auth
files-remove_cmnd_auth name w = ground arith

-- Where the file can be written and holds the settings, it holds them after `AddRoleAuth`,
-- `RemoveRoleAuth` and `AddCmndAuth` too. `RemoveCmndAuth` leaves the files as they were, so it
-- does not save.
pub levels-IsSaved :
    (env : Env) (name : String) (l : ℤ) (w : World)
    → env.writable w.conf.config_file ≡ true
    → IsSaved env w
    → IsSaved env (add_role_auth env name l w)
      × IsSaved env (remove_role_auth env name w)
      × IsSaved env (add_cmnd_auth env name l w)
      × ((remove_cmnd_auth name w).files ≡ w.files)
levels-IsSaved env name l w h s = (
  add_role_auth-IsSaved env name l w h s,
  remove_role_auth-IsSaved env name w h s,
  add_cmnd_auth-IsSaved env name l w h s,
  files-remove_cmnd_auth name w,
)
