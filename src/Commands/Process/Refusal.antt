-- ===== src/Commands/Process/Refusal.antt =====
-- Which messages run a command.
use avorioncontrol.Prelude.{
  String, ◌==◌, ◌≡◌, ◌≢◌, refl, sym, subst, ◌∙◌, ◌↔◌, ◌⊎◌, inl, inr, Bool, true, false, Option,
  none, some, List, ◌∷◌, arith, eq_iff, lookup, Bool-cases, Option-cases,
}
use avorioncontrol.Configuration.Aliases.{command_disabled, get_aliased_command}
use avorioncontrol.Commands.Errors.{CommandError}
use avorioncontrol.Commands.Registrar.{Handler, Registrant, command}
use avorioncontrol.Commands.Process.{
  Message, Bot, Admission, is_authorized, admit_exec, admit_command, admit_alias, admit,
}

-- The name is that of the command, or it is no command's and the first alias for the command.
abbrev pub IsNameOf : Bot → String → Registrant → Type 0
IsNameOf bot name cmd =
    (lookup name bot.reg.commands ≡ some cmd)
    ⊎ ((lookup name bot.reg.commands ≡ none)
        × (ac : String) × (get_aliased_command name bot.settings ≡ (true, ac))
        × (lookup ac bot.reg.commands ≡ some cmd))

pair_cases :
    (p : Bool × String) → ((ac : String) × (p ≡ (true, ac))) ⊎ ((ac : String) × (p ≡ (false, ac)))
pair_cases (true, ac) = inl (ac, refl)
pair_cases (false, ac) = inr (ac, refl)

aliased_cases :
    (bot : Bot) (name : String)
    → ((ac : String) × (get_aliased_command name bot.settings ≡ (true, ac)))
      ⊎ ((ac : String) × (get_aliased_command name bot.settings ≡ (false, ac)))
aliased_cases bot name = pair_cases (get_aliased_command name bot.settings)

pub not_empty : (name : String) → (name == "") ≡ false → name ≢ ""
not_empty name e = ground (arith, eq_iff name "")

module _ (guild_member : String → String → Option (List String)) where
  -- The conditions on a command that was found.
  abbrev pub MayRun : Bot → Message → Registrant → Handler → Type 0
  MayRun bot m cmd h =
      (command_disabled cmd.name bot.settings ≡ false)
      × (cmd.exec ≡ some h)
      × (roles : List String) × (guild_member bot.reg.guild_id m.author ≡ some roles)
      × (is_authorized bot.settings cmd.name roles ≡ true)

  admit_command-MayRun :
      (bot : Bot) (m : Message) (cmd cmd' : Registrant) (h : Handler)
      → admit_command guild_member bot m cmd ≡ Admission.admitted cmd' h
      → (cmd ≡ cmd') × MayRun bot m cmd h
  unfolding admit_command admit_exec
  admit_command-MayRun bot m cmd cmd' h adm =
      ground (arith, Option-cases (guild_member bot.reg.guild_id m.author), Option-cases cmd.exec)

  MayRun-admit_command :
      (bot : Bot) (m : Message) (cmd : Registrant) (h : Handler)
      → MayRun bot m cmd h
      → admit_command guild_member bot m cmd ≡ Admission.admitted cmd h
  unfolding admit_command admit_exec
  MayRun-admit_command bot m cmd h (on, exec, roles, member, auth) =
      rw on (rw member (rw auth (rw exec refl)))

  admit_alias_of_alias :
      (bot : Bot) (m : Message) (name ac : String) (cmd : Registrant)
      → get_aliased_command name bot.settings ≡ (true, ac)
      → lookup ac bot.reg.commands ≡ some cmd
      → admit_alias guild_member bot m name ≡ admit_command guild_member bot m cmd
  unfolding admit_alias command
  admit_alias_of_alias bot m name ac cmd aliased found = rw aliased (rw found refl)

  admit_alias_of_dangling :
      (bot : Bot) (m : Message) (name ac : String)
      → get_aliased_command name bot.settings ≡ (true, ac)
      → lookup ac bot.reg.commands ≡ none
      → admit_alias guild_member bot m name
        ≡ Admission.refused ac (CommandError.invalid_alias none none ac)
  unfolding admit_alias command
  admit_alias_of_dangling bot m name ac aliased missing = ground arith

  admit_alias_of_other :
      (bot : Bot) (m : Message) (name ac : String)
      → get_aliased_command name bot.settings ≡ (false, ac)
      → admit_alias guild_member bot m name
        ≡ Admission.refused name (CommandError.invalid_command none none name)
  unfolding admit_alias
  admit_alias_of_other bot m name ac other = rw other refl

  admit_of_command :
      (bot : Bot) (m : Message) (name : String) (args : List String) (cmd : Registrant)
      → name ≢ ""
      → lookup name bot.reg.commands ≡ some cmd
      → admit guild_member bot m (name ∷ args) ≡ admit_command guild_member bot m cmd
  unfolding admit command
  admit_of_command bot m name args cmd named found = rw found (ground (arith, eq_iff name ""))

  admit_of_other :
      (bot : Bot) (m : Message) (name : String) (args : List String)
      → name ≢ ""
      → lookup name bot.reg.commands ≡ none
      → admit guild_member bot m (name ∷ args) ≡ admit_alias guild_member bot m name
  unfolding admit command
  admit_of_other bot m name args named missing = rw missing (ground (arith, eq_iff name ""))

  admit_of_empty :
      (bot : Bot) (m : Message) (name : String) (args : List String)
      → (name == "") ≡ true
      → admit guild_member bot m (name ∷ args) ≡ Admission.empty
  unfolding admit
  admit_of_empty bot m name args empty = rw empty refl

  admit_alias-MayRun :
      (bot : Bot) (m : Message) (name : String) (cmd : Registrant) (h : Handler)
      → lookup name bot.reg.commands ≡ none
      → admit_alias guild_member bot m name ≡ Admission.admitted cmd h
      → IsNameOf bot name cmd × MayRun bot m cmd h
  admit_alias-MayRun bot m name cmd h missing adm = elim (aliased_cases bot name) [
    | inl (ac, aliased) ↦ elim (Option-cases (lookup ac bot.reg.commands)) [
      | inl dangling ↦ ground (arith, admit_alias_of_dangling bot m name ac aliased dangling)
      | inr (cmd', found) ↦
          let (same, may) =
            admit_command-MayRun bot m cmd' cmd h
              (sym (admit_alias_of_alias bot m name ac cmd' aliased found) ∙ adm) in
          subst (λ c. IsNameOf bot name c × MayRun bot m c h) same
            (inr (missing, ac, aliased, found), may)
    ]
    | inr (ac, other) ↦ ground (arith, admit_alias_of_other bot m name ac other)
  ]

  admitted-MayRun :
      (bot : Bot) (m : Message) (name : String) (args : List String) (cmd : Registrant)
      (h : Handler)
      → admit guild_member bot m (name ∷ args) ≡ Admission.admitted cmd h
      → (name ≢ "") × IsNameOf bot name cmd × MayRun bot m cmd h
  admitted-MayRun bot m name args cmd h adm = elim (Bool-cases (name == "")) [
    | inl e ↦ ground (arith, admit_of_empty bot m name args e)
    | inr e ↦
        let named = not_empty name e in
        elim (Option-cases (lookup name bot.reg.commands)) [
          | inl missing ↦
              let (of, may) =
                admit_alias-MayRun bot m name cmd h missing
                  (sym (admit_of_other bot m name args named missing) ∙ adm) in
              (named, of, may)
          | inr (cmd', found) ↦
              let (same, may) =
                admit_command-MayRun bot m cmd' cmd h
                  (sym (admit_of_command bot m name args cmd' named found) ∙ adm) in
              subst (λ c. (name ≢ "") × IsNameOf bot name c × MayRun bot m c h) same
                (named, inl found, may)
        ]
  ]

  MayRun-admitted :
      (bot : Bot) (m : Message) (name : String) (args : List String) (cmd : Registrant)
      (h : Handler)
      → name ≢ ""
      → IsNameOf bot name cmd
      → MayRun bot m cmd h
      → admit guild_member bot m (name ∷ args) ≡ Admission.admitted cmd h
  MayRun-admitted bot m name args cmd h named (inl found) may =
      admit_of_command bot m name args cmd named found ∙ MayRun-admit_command bot m cmd h may
  MayRun-admitted bot m name args cmd h named (inr (missing, ac, aliased, found)) may =
      admit_of_other bot m name args named missing
      ∙ admit_alias_of_alias bot m name ac cmd aliased found
      ∙ MayRun-admit_command bot m cmd h may

  -- The checks admit a command and its function exactly if the name is not empty and is the command's
  -- or, if no command has it, `GetAliasedCommand` finds the command under it; the command is not
  -- disabled; the author is a member of the guild and is authorized for the command; and the command
  -- has the function.
  pub admitted_exactly :
      (bot : Bot) (m : Message) (name : String) (args : List String) (cmd : Registrant)
      (h : Handler)
      → (admit guild_member bot m (name ∷ args) ≡ Admission.admitted cmd h)
        ↔ ((name ≢ "") × IsNameOf bot name cmd × MayRun bot m cmd h)
  admitted_exactly bot m name args cmd h = (
    admitted-MayRun bot m name args cmd h,
    λ (named, of, may). MayRun-admitted bot m name args cmd h named of may,
  )
