-- ===== src/Commands/Functions/Admin.antt =====
-- discord/commands/adminConfigCmnd.go: the levels of roles and commands, shown and changed. The roles of
-- a guild come from Discord, and so does the mention of a role.
use avorioncontrol.Prelude.{
  String, ◌<>◌, ◌==◌, true, ◌||◌, ◌⊎◌, inl, inr, Option, none, some, List, [], ◌∷◌, ℤ, pos, negsuc,
  ltb_ℤ, bind, get_elem?, drop, if◌then◌else◌,
}
use avorioncontrol.Prelude.Decimal.{show_ℤ, atoi}
use avorioncontrol.Configuration.Data.{Settings}
use avorioncontrol.Configuration.Storage.{Env, World}
use avorioncontrol.Configuration.Auth.{
  add_role_auth, remove_role_auth, add_cmnd_auth, remove_cmnd_auth, get_role_auth, get_cmnd_auth,
}
use avorioncontrol.Commands.Output.{CommandOutput, add_line, construct}
use avorioncontrol.Commands.Errors.{CommandRef}
use avorioncontrol.Commands.Registrar.{Registrar, is_registered, all_commands}
use avorioncontrol.Commands.Functions.{
  Reply, succeeds, fails, shows, output_of, invalid_argument, command_error, wrong_number,
  wrong_number_plain, with_args,
}

-- What is read of a `discordgo.Role`.
pub record GuildRole : Type 0 where
  pub id : String
  pub role_name : String
  pub mention : String

-- `s.Guild`: its error, or the roles of the guild.
abbrev pub Guild : Type 0
Guild = String ⊎ List GuildRole

-- `strings.Join(words, " ")`
unfoldable pub join_words : List String → String
join_words [] = ""
join_words (word ∷ []) = word
join_words (word ∷ next ∷ rest) = word <> (" " <> join_words (next ∷ rest))

-- A role by its id, its name or its mention.
unfoldable pub find_role : String → List GuildRole → Option GuildRole
find_role role [] = none
find_role role (r ∷ rest) =
    let later = find_role role rest in
    if ((r.id == role) || (r.role_name == role)) || (r.mention == role) then some r else later

-- The lines of the output, or the one that says that there are none; `Quoted` and `Construct`.
unfoldable pub quote_lines : CommandOutput → String → List String → CommandOutput
quote_lines out nothing [] = construct (record (add_line nothing out) { quoted = true })
quote_lines out nothing (line ∷ lines) =
    construct (record (add_lines out (line ∷ lines)) { quoted = true })
  where
    add_lines : CommandOutput → List String → CommandOutput
    add_lines o [] = o
    add_lines o (l ∷ ls) = add_lines (add_line l o) ls

-- The loop of `showAdminRolesSubCmnd`
unfoldable pub role_lines : Settings → List GuildRole → List String
role_lines c [] = []
role_lines c (r ∷ rest) =
    let l = get_role_auth r.id c in
    let later = role_lines c rest in
    if ltb_ℤ (pos 0) l
    then ("_**" <> (r.role_name <> ("'s**_ authorization Level: **" <> (show_ℤ l <> "**")))) ∷ later
    else later

-- `showAdminRolesSubCmnd`
unfoldable pub show_admin_roles : CommandRef → Guild → World → Reply
show_admin_roles cmd (inl err) w = fails (command_error cmd ("Could not find guild: " <> err)) w
show_admin_roles cmd (inr roles) w =
    shows
      (quote_lines (output_of cmd "Admin Role List") "No roles have received authorization levels"
        (role_lines w.conf.settings roles))
      w

-- The loop of `showAdminCmndsSubCmnd`
unfoldable pub cmnd_lines : Settings → List String → List String
cmnd_lines c [] = []
cmnd_lines c (name ∷ rest) =
    let l = get_cmnd_auth name c in
    let later = cmnd_lines c rest in
    if ltb_ℤ (pos 0) l
    then ("_**" <> (name <> ("**_ authorization level requirement: **" <> (show_ℤ l <> "**"))))
      ∷ later
    else later

-- `showAdminCmndsSubCmnd`
unfoldable pub show_admin_cmnds : CommandRef → Registrar → World → Reply
show_admin_cmnds cmd reg w =
    shows
      (quote_lines (output_of cmd "Admin Command List") "No commands require admin privileges"
        (cmnd_lines w.conf.settings (all_commands reg).1))
      w

-- The highest level of the roles, and of `authlvl`.
unfoldable pub highest : Settings → ℤ → List String → ℤ
highest c authlvl [] = authlvl
highest c authlvl (r ∷ rest) =
    let l = get_role_auth r c in highest c (if ltb_ℤ authlvl l then l else authlvl) rest

-- `showSelfCmndSubCmnd`; without a member the loop over its roles panics.
unfoldable pub show_self_cmnd : CommandRef → (member : Option (List String)) → World → Option Reply
show_self_cmnd cmd member w = bind member (λ roles. some (
    shows
      (construct (
        add_line
          ("Your authorization level is: **"
            <> (show_ℤ (highest w.conf.settings (pos 0) roles) <> "**"))
          (record (output_of cmd "Display the users command authorization level") {
            header = "Result";
            quoted = true;
          })))
      w))

module _ (env : Env) where
  -- The end of `addAdminRoleSubCmnd`
  unfoldable pub set_role_level : CommandRef → Guild → ℤ → String → World → Reply
  set_role_level cmd (inl err) level role w =
      fails (command_error cmd ("Could not find guild: " <> err)) w
  set_role_level cmd (inr roles) level role w = elim (find_role role roles) [
    | none ↦ fails (command_error cmd ("`" <> (role <> "` is not a valid role"))) w
    | some r ↦ succeeds (add_role_auth env r.id level w)
  ]

  -- `addAdminRoleSubCmnd`
  unfoldable pub add_admin_role : CommandRef → Guild → List String → World → Option Reply
  add_admin_role cmd guild a w = with_args cmd (wrong_number cmd) (drop 1 a) (pos 2) (negsuc 0) w (
      bind (get_elem? a 2) (λ given. elim (atoi given) [
        | none ↦ some (fails (invalid_argument cmd ("`" <> (given <> "` is not a valid number"))) w)
        | some level ↦ some (set_role_level cmd guild level (join_words (drop 3 a)) w)
      ]))

  -- The end of `removeAdminRoleSubCmnd`; `RemoveRoleAuth` has no error.
  unfoldable pub unset_role_level : CommandRef → Guild → String → World → Reply
  unset_role_level cmd (inl err) role w =
      fails (command_error cmd ("Could not find guild: " <> err)) w
  unset_role_level cmd (inr roles) role w = elim (find_role role roles) [
    | none ↦ fails (invalid_argument cmd ("`" <> (role <> "` is not a valid role"))) w
    | some r ↦ succeeds (remove_role_auth env r.id w)
  ]

  -- `removeAdminRoleSubCmnd`
  unfoldable pub remove_admin_role : CommandRef → Guild → List String → World → Option Reply
  remove_admin_role cmd guild a w =
      with_args cmd (wrong_number cmd) (drop 1 a) (pos 1) (negsuc 0) w
        (some (unset_role_level cmd guild (join_words (drop 2 a)) w))

  -- The end of `addAdminCmndSubCmnd`
  unfoldable pub set_cmnd_level : CommandRef → (given name : String) → World → Reply
  set_cmnd_level cmd given name w = elim (atoi given) [
    | none ↦ fails (invalid_argument cmd (given <> " is not a valid number")) w
    | some lvl ↦
        if ltb_ℤ (pos 0) lvl
        then succeeds (add_cmnd_auth env name lvl w)
        else fails (invalid_argument cmd "Please specify a value higher than 0") w
  ]

  -- `addAdminCmndSubCmnd`
  unfoldable pub add_admin_cmnd : CommandRef → List String → World → Option Reply
  add_admin_cmnd cmd a w = with_args cmd (wrong_number cmd) (drop 1 a) (pos 2) (pos 2) w (
      bind (get_elem? a 3)
        (λ name. bind (get_elem? a 2) (λ given. some (set_cmnd_level cmd given name w))))

-- `removeAdminCmndSubCmnd`
unfoldable pub remove_admin_cmnd : CommandRef → Registrar → List String → World → Option Reply
remove_admin_cmnd cmd reg a w =
    with_args cmd (wrong_number_plain cmd) (drop 1 a) (pos 1) (pos 1) w (
      bind (get_elem? a 2) (λ name. some (
        if is_registered name reg
        then succeeds (remove_cmnd_auth name w)
        else fails (invalid_argument cmd (name <> " is not a valid command")) w)))
