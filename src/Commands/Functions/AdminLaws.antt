-- ===== src/Commands/Functions/AdminLaws.antt =====
-- What the functions of adminConfigCmnd.go do to the levels, and what `ProcessCommand` then allows.
use avorioncontrol.Prelude.{
  String, ◌<>◌, ◌==◌, ◌≡◌, ◌⊎◌, inl, inr, refl, ◌∙◌, eq_refl, Bool, true, false, not, Option, none,
  some, List, [], ◌∷◌, ℤ, pos, negsuc, ltb_ℤ, arith, bind, get_elem?, drop, if◌then◌else◌,
  Bool-cases, Option-cases,
}
use avorioncontrol.Prelude.Decimal.{atoi}
use avorioncontrol.Configuration.Data.{Settings}
use avorioncontrol.Configuration.Storage.{Env, World}
use avorioncontrol.Configuration.Auth.{
  add_cmnd_auth, remove_cmnd_auth, get_role_auth, get_cmnd_auth,
}
use avorioncontrol.Configuration.Auth.Laws.{get_cmnd_auth-changes}
use avorioncontrol.Commands.Args.{has_num_args}
use avorioncontrol.Commands.Errors.{CommandRef}
use avorioncontrol.Commands.Registrar.{Registrar, is_registered}
use avorioncontrol.Commands.Process.{is_authorized, role_level}
use avorioncontrol.Commands.Process.Laws.{has_level, role_level_below, is_authorized_exact}
use avorioncontrol.Commands.Functions.{
  Reply, succeeds, fails, invalid_argument, wrong_number, wrong_number_plain, with_args,
}
use avorioncontrol.Commands.Functions.Admin.{
  Guild, find_role, join_words, highest, set_role_level, add_admin_role, unset_role_level,
  remove_admin_role, set_cmnd_level, add_admin_cmnd, remove_admin_cmnd,
}

highest-role_level :
    (c : Settings) (authlvl : ℤ) (roles : List String)
    → highest c authlvl roles ≡ role_level c roles authlvl
unfolding highest role_level
highest-role_level c authlvl [] = refl
highest-role_level c authlvl (r ∷ rest) =
    highest-role_level c (if ltb_ℤ authlvl (get_role_auth r c) then get_role_auth r c else authlvl)
      rest

-- The level that a member is shown decides what the member may use: a command is allowed exactly where
-- it requires no more than that level.
pub shown_level_decides :
    (c : Settings) (name : String) (roles : List String)
    → is_authorized c name roles ≡ not (ltb_ℤ (highest c (pos 0) roles) (get_cmnd_auth name c))
unfolding is_authorized
shown_level_decides c name roles =
    let below = role_level_below c roles (get_cmnd_auth name c) (pos 0) in
    rw highest-role_level (ground (arith, below))

-- An answer with an error comes with the configuration and the files as they were.
abbrev pub IsAtomic : World → Option Reply → Type 0
IsAtomic w none = Unit
IsAtomic w (some r) = (r.failure ≡ none) ⊎ (r.world ≡ w)

module _ (w : World) where
  with_args-IsAtomic :
      (cmd : CommandRef) (message : String) (a : List String) (min max : ℤ) (rest : Option Reply)
      → IsAtomic w rest
      → IsAtomic w (with_args cmd message a min max w rest)
  unfolding with_args
  with_args-IsAtomic cmd message a min max rest ok = after_guard (has_num_args a min max)
    where
      after_guard :
          (counted : Option Bool)
          → IsAtomic w (
              bind counted
                (λ enough. if enough then rest else some (fails (invalid_argument cmd message) w)))
      after_guard none = tt
      after_guard (some true) = ok
      after_guard (some false) = inr refl

  bind-IsAtomic :
      (word : Option String) (f : String → Option Reply)
      → ((s : String) → IsAtomic w (f s))
      → IsAtomic w (bind word f)
  bind-IsAtomic none f ok = tt
  bind-IsAtomic (some s) f ok = ok s

  module _ (env : Env) (cmd : CommandRef) where
    set_role_level-IsAtomic :
        (guild : Guild) (level : ℤ) (role : String)
        → IsAtomic w (some (set_role_level env cmd guild level role w))
    unfolding set_role_level
    set_role_level-IsAtomic (inl err) level role = inr refl
    set_role_level-IsAtomic (inr roles) level role = elim (Option-cases (find_role role roles)) [
      | inl unknown ↦ rw (set_role_level, unknown) (inr refl)
      | inr (r, found) ↦ rw (set_role_level, found) (inl refl)
    ]

    unset_role_level-IsAtomic :
        (guild : Guild) (role : String) → IsAtomic w (some (unset_role_level env cmd guild role w))
    unfolding unset_role_level
    unset_role_level-IsAtomic (inl err) role = inr refl
    unset_role_level-IsAtomic (inr roles) role = elim (Option-cases (find_role role roles)) [
      | inl unknown ↦ rw (unset_role_level, unknown) (inr refl)
      | inr (r, found) ↦ rw (unset_role_level, found) (inl refl)
    ]

    set_cmnd_level-IsAtomic :
        (given name : String) → IsAtomic w (some (set_cmnd_level env cmd given name w))
    unfolding set_cmnd_level
    set_cmnd_level-IsAtomic given name = elim (Option-cases (atoi given)) [
      | inl no_number ↦ rw (set_cmnd_level, no_number) (inr refl)
      | inr (lvl, number) ↦ elim (Bool-cases (ltb_ℤ (pos 0) lvl)) [
        | inl above ↦ rw (set_cmnd_level, number, above) (inl refl)
        | inr below ↦ rw (set_cmnd_level, number, below) (inr refl)
      ]
    ]

    leveled-IsAtomic :
        (guild : Guild) (given : String) (role : String)
        → IsAtomic w (elim (atoi given) [
          | none ↦
              some (fails (invalid_argument cmd ("`" <> (given <> "` is not a valid number"))) w)
          | some level ↦ some (set_role_level env cmd guild level role w)
        ])
    leveled-IsAtomic guild given role = elim (Option-cases (atoi given)) [
      | inl no_number ↦ rw no_number (inr refl)
      | inr (lvl, number) ↦ rw number (set_role_level-IsAtomic guild lvl role)
    ]

-- Whatever its arguments and whatever Discord answers, none of the four functions that change levels
-- changes the configuration or a file when it answers an error.
pub changes_of_levels-IsAtomic :
    (env : Env) (cmd : CommandRef) (guild : Guild) (reg : Registrar) (a : List String) (w : World)
    → IsAtomic w (add_admin_role env cmd guild a w)
      × IsAtomic w (remove_admin_role env cmd guild a w)
      × IsAtomic w (add_admin_cmnd env cmd a w)
      × IsAtomic w (remove_admin_cmnd cmd reg a w)
unfolding add_admin_role remove_admin_role add_admin_cmnd remove_admin_cmnd
changes_of_levels-IsAtomic env cmd guild reg a w = (
  with_args-IsAtomic w cmd (wrong_number cmd) (drop 1 a) (pos 2) (negsuc 0) _ (
      bind-IsAtomic w (get_elem? a 2) _
        (λ given. leveled-IsAtomic w env cmd guild given (join_words (drop 3 a)))),
  with_args-IsAtomic w cmd (wrong_number cmd) (drop 1 a) (pos 1) (negsuc 0) _
      (unset_role_level-IsAtomic w env cmd guild (join_words (drop 2 a))),
  with_args-IsAtomic w cmd (wrong_number cmd) (drop 1 a) (pos 2) (pos 2) _ (
      bind-IsAtomic w (get_elem? a 3) _ (λ name.
        bind-IsAtomic w (get_elem? a 2) _ (λ given. set_cmnd_level-IsAtomic w env cmd given name))),
  with_args-IsAtomic w cmd (wrong_number_plain cmd) (drop 1 a) (pos 1) (pos 1) _
      (bind-IsAtomic w (get_elem? a 2) _ (λ name. removed name (is_registered name reg))),
)
  where
    removed :
        (name : String) (registered : Bool)
        → IsAtomic w (
            some (
              if registered
              then succeeds (remove_cmnd_auth name w)
              else fails (invalid_argument cmd (name <> " is not a valid command")) w))
    removed name true = inl refl
    removed name false = inr refl

level_set :
    (env : Env) (cmd : CommandRef) (given name : String) (lvl : ℤ) (w : World)
    → atoi given ≡ some lvl
    → ltb_ℤ (pos 0) lvl ≡ true
    → set_cmnd_level env cmd given name w ≡ succeeds (add_cmnd_auth env name lvl w)
unfolding set_cmnd_level
level_set env cmd given name lvl w number above = rw (set_cmnd_level, number, above) refl

-- After "addcommand" with a level above 0, a member may use the command named exactly if some role of
-- theirs has that level.
pub added_level_is_enforced :
    (env : Env) (cmd : CommandRef) (first sub given name : String) (lvl : ℤ) (w : World)
    (roles : List String)
    → (sub == "") ≡ false
    → atoi given ≡ some lvl
    → ltb_ℤ (pos 0) lvl ≡ true
    → (r : Reply) × (add_admin_cmnd env cmd (first ∷ sub ∷ given ∷ name ∷ []) w ≡ some r)
      × (r.failure ≡ none)
      × (is_authorized r.world.conf.settings name roles ≡ has_level r.world.conf.settings lvl roles)
unfolding add_admin_cmnd with_args has_num_args
added_level_is_enforced env cmd first sub given name lvl w roles named number above =
    let after = add_cmnd_auth env name lvl w in
    let required : get_cmnd_auth name after.conf.settings ≡ lvl =
      ground (arith, (get_cmnd_auth-changes env name name "" lvl w).0, eq_refl name, above) in
    (
      succeeds after,
      rw (named, level_set env cmd given name lvl w number above) refl,
      refl,
      is_authorized_exact after.conf.settings name roles ∙ rw (required, above) refl,
    )
