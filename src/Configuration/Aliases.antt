-- ===== src/Configuration/Aliases.antt =====
-- The aliases and the disabled commands of configuration/configuration.go. An error is the text of
-- the Go error.
pub mod Laws
use avorioncontrol.Prelude.{
  String, ◌<>◌, ◌==◌, Bool, true, false, Option, none, some, List, [], ◌∷◌, ◌++◌, Map, lookup,
  insert, any, if◌then◌else◌,
}
use avorioncontrol.Configuration.Data.{Settings}

-- `for _, x := range xs { if x == s { … } }`
abbrev pub has : String → List String → Bool
has s = any (λ x. x == s)

-- `CommandDisabled`
unfoldable pub command_disabled : String → Settings → Bool
command_disabled cmd c = has cmd c.disabled_commands

-- `DisableCommand`
unfoldable pub disable_command : String → Settings → Option String × Settings
disable_command s c =
    if has s c.disabled_commands
    then (some ("Command `" <> (s <> "` is already disabled")), c)
    else (none, record c { disabled_commands = c.disabled_commands ++ s ∷ [] })

-- `CommandAliases`; no list of the map is nil.
unfoldable pub command_aliases : String → Settings → Bool × List String
command_aliases cmd c = elim (lookup cmd c.aliased_commands) [
  | none ↦ (false, [])
  | some l ↦ (true, l)
]

-- The two loops of `GetAliasedCommand`, in the order in which the map is visited.
unfoldable pub find_alias : String → Map (List String) → Bool × String
find_alias s [] = (false, "")
find_alias s ((cmd, aliases) ∷ m) = if has s aliases then (true, cmd) else find_alias s m

-- `GetAliasedCommand`
unfoldable pub get_aliased_command : String → Settings → Bool × String
unfolding find_alias
get_aliased_command s c = find_alias s c.aliased_commands

-- The aliases that a command has, none if the map lacks it.
unfoldable pub aliases_of : String → Map (List String) → List String
aliases_of r m = elim (lookup r m) [ none ↦ [] | some l ↦ l ]

-- `SetAliasCommand`
unfoldable pub set_alias_command : String → String → Settings → Option String × Settings
unfolding find_alias aliases_of
set_alias_command r a c =
    let (found, cmdname) = find_alias a c.aliased_commands in
    if found
    then (some ("Alias `" <> (a <> ("` is aleady aliased to `" <> (cmdname <> "`")))), c)
    else (
      none,
      record c {
        aliased_commands = insert r (aliases_of r c.aliased_commands ++ a ∷ []) c.aliased_commands;
      },
    )
