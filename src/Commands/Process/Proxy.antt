-- ===== src/Commands/Process/Proxy.antt =====
-- Which subcommand `proxySubCmnd` runs.
use avorioncontrol.Prelude.{
  String, ◌==◌, ◌≡◌, ◌≢◌, refl, ap, ◌∙◌, Bool, true, false, none, some, List, [], ◌∷◌, ◌++◌, any,
  arith, eq_iff, eq_refl, pos, negsuc,
}
use avorioncontrol.Commands.Args.{has_num_args}
use avorioncontrol.Commands.Errors.{CommandError}
use avorioncontrol.Commands.Registrar.{Handler, Cmdlet, Registrant, ref_of}
use avorioncontrol.Commands.Process.{Message, Bot}
use avorioncontrol.Commands.Process.Dispatch.{
  Run, find_cmdlet, run_cmdlet, failed, proxy_to, proxy_sub_cmnd,
}

-- Some subcommand has the name.
abbrev pub has_cmdlet : String → List Cmdlet → Bool
has_cmdlet s = any (λ c. s == c.name)

find_cmdlet-append :
    (before after : List Cmdlet) (c : Cmdlet)
    → has_cmdlet c.name before ≡ false
    → find_cmdlet c.name (before ++ c ∷ after) ≡ some c
unfolding find_cmdlet
find_cmdlet-append [] after c new = rw (eq_refl c.name) refl
find_cmdlet-append (b ∷ before) after c new = ground (arith, find_cmdlet-append before after c)

find_cmdlet-none :
    (s : String) (cs : List Cmdlet) → has_cmdlet s cs ≡ false → find_cmdlet s cs ≡ none
unfolding find_cmdlet
find_cmdlet-none s [] new = refl
find_cmdlet-none s (c ∷ cs) new = ground (arith, find_cmdlet-none s cs)

enough_args :
    (name sub : String) (rest : List String)
    → name ≢ ""
    → has_num_args (name ∷ sub ∷ rest) (pos 1) (negsuc 0) ≡ some true
unfolding has_num_args
enough_args name sub rest named = ground (arith, eq_iff name "")

proxy_to_named :
    (run : Run) (m : Message) (args : List String) (cmd : Registrant) (bot : Bot)
    (before after : List Cmdlet) (c : Cmdlet) (h : Handler)
    → cmd.cmdlets ≡ before ++ c ∷ after
    → has_cmdlet c.name before ≡ false
    → c.exec ≡ some h
    → proxy_to run m args cmd bot c.name ≡ run h m args (record { self = c; cmdlets = [] }) bot
unfolding proxy_to run_cmdlet
proxy_to_named run m args cmd bot before after c h owned new exec =
    let found : find_cmdlet c.name cmd.cmdlets ≡ some c =
      ap (find_cmdlet c.name) owned ∙ find_cmdlet-append before after c new in
    rw (proxy_to, found) (rw exec refl)

proxy_to_unknown :
    (run : Run) (m : Message) (args : List String) (cmd : Registrant) (bot : Bot) (sub : String)
    → has_cmdlet sub cmd.cmdlets ≡ false
    → proxy_to run m args cmd bot sub
      ≡ failed bot (CommandError.invalid_subcommand (some (ref_of bot.reg cmd.self)) none sub)
unfolding proxy_to
proxy_to_unknown run m args cmd bot sub missing =
    rw (proxy_to, find_cmdlet-none sub cmd.cmdlets missing) refl

-- `proxySubCmnd` runs the first subcommand that has the name given as the second argument, with
-- all the arguments, if the first argument is not empty and the subcommand has a function.
pub proxy_runs_named :
    (run : Run) (m : Message) (cmd : Registrant) (bot : Bot) (name : String) (rest : List String)
    (before after : List Cmdlet) (c : Cmdlet) (h : Handler)
    → name ≢ ""
    → cmd.cmdlets ≡ before ++ c ∷ after
    → has_cmdlet c.name before ≡ false
    → c.exec ≡ some h
    → proxy_sub_cmnd run m (name ∷ c.name ∷ rest) cmd bot
      ≡ run h m (name ∷ c.name ∷ rest) (record { self = c; cmdlets = [] }) bot
unfolding proxy_sub_cmnd
proxy_runs_named run m cmd bot name rest before after c h named owned new exec =
    rw (enough_args name c.name rest named)
      (proxy_to_named run m (name ∷ c.name ∷ rest) cmd bot before after c h owned new exec)

-- If the first argument is not empty and the command has no subcommand of the name given as the
-- second, `proxySubCmnd` runs nothing, leaves the state as it was, and answers with an error that
-- carries the name.
pub proxy_rejects_unknown :
    (run : Run) (m : Message) (cmd : Registrant) (bot : Bot) (name sub : String)
    (rest : List String)
    → name ≢ ""
    → has_cmdlet sub cmd.cmdlets ≡ false
    → proxy_sub_cmnd run m (name ∷ sub ∷ rest) cmd bot
      ≡ failed bot (CommandError.invalid_subcommand (some (ref_of bot.reg cmd.self)) none sub)
unfolding proxy_sub_cmnd
proxy_rejects_unknown run m cmd bot name sub rest named missing =
    rw (enough_args name sub rest named)
      (proxy_to_unknown run m (name ∷ sub ∷ rest) cmd bot sub missing)
