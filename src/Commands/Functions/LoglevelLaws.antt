-- ===== src/Commands/Functions/LoglevelLaws.antt =====
-- The levels of logging stay levels.
use avorioncontrol.Prelude.{
  insert, ◌∙◌, ◌≤ℤ◌, sym, subst, String, ◌==◌, ◌≡◌, refl, subst, true, false, ◌||◌, Option, none,
  some, List, [], ◌∷◌, ℤ, lookup, lookup-insert, get_elem?, drop, arith, ◌⊎◌, inl, inr, Bool-cases,
  Option-cases, pos, negsuc, ltb, length,
}
use avorioncontrol.Prelude.Decimal.{atoi}
use avorioncontrol.Configuration.Storage.{Env, World}
use avorioncontrol.Commands.Args.{has_num_args}
use avorioncontrol.Commands.Output.{CommandOutput}
use avorioncontrol.Commands.Errors.{CommandError, CommandRef}
use avorioncontrol.Commands.Registrar.{Registrar, Registrant}
use avorioncontrol.Commands.Functions.{output_of}
use avorioncontrol.Commands.Functions.Loglevel.{
  LevelReply, Turn, goes_on, returns, is_level, read_level, set_guild_level, set_command_level,
  find_object, turn_command, turn, set_levels, loglevel_cmnd,
}

-- A level: 0 to 3.
abbrev pub IsLevel : ℤ → Type 0
IsLevel l = (pos 0 ≤ℤ l) × (l ≤ℤ pos 3)

-- The level of the guild and those of its commands are levels.
abbrev pub AreLevels : Registrar → Type 0
AreLevels reg =
    IsLevel reg.reg_loglevel
    × ((n : String) (r : Registrant) → lookup n reg.commands ≡ some r → IsLevel r.self.loglevel)

-- A command that was found has a level.
abbrev IsLeveled : Option Registrant → Type 0
IsLeveled none = Unit
IsLeveled (some r) = IsLevel r.self.loglevel

set_command_level-AreLevels :
    (l : ℤ) (n : String) (cmdobj : Registrant) (reg : Registrar)
    → IsLevel l
    → AreLevels reg
    → AreLevels (set_command_level l n cmdobj reg)
unfolding set_command_level
set_command_level-AreLevels l n cmdobj reg ok levels =
    let changed = record cmdobj { self = record cmdobj.self { loglevel = l } } in
    (
      levels.0,
      λ m r found. elim (Bool-cases (n == m)) [
        | inl same ↦
            let set : lookup m (insert n changed reg.commands) ≡ some changed =
              lookup-insert n m changed reg.commands ∙ ground (arith, same) in
            subst IsLeveled (sym set ∙ found) ok
        | inr other ↦
            let kept : lookup m (insert n changed reg.commands) ≡ lookup m reg.commands =
              lookup-insert n m changed reg.commands ∙ ground (arith, other) in
            levels.1 m r (sym kept ∙ found)
      ],
    )

-- What a turn leaves.
abbrev IsSound : Turn → Type 0
IsSound (goes_on out reg) = AreLevels reg
IsSound (returns reply) = AreLevels reply.registrar

turn_command-IsSound :
    (l : ℤ) (out : CommandOutput) (reg : Registrar) (w : World)
    (found : CommandError ⊎ (String × Registrant))
    → IsLevel l
    → AreLevels reg
    → IsSound (turn_command l out reg w found)
unfolding turn_command
turn_command-IsSound l out reg w (inl e) ok levels = levels
turn_command-IsSound l out reg w (inr (n, cmdobj)) ok levels =
    set_command_level-AreLevels l n cmdobj reg ok levels

turn-IsSound :
    (env : Env) (cmd : CommandRef) (l : ℤ) (obj : String) (out : CommandOutput) (reg : Registrar)
    (w : World)
    → IsLevel l
    → AreLevels reg
    → IsSound (turn env cmd l obj out reg w)
unfolding turn set_guild_level
turn-IsSound env cmd l obj out reg w ok levels = elim (Bool-cases (obj == "guild")) [
  | inl guild ↦ rw (turn, guild) (ok, levels.1)
  | inr e ↦ elim (Bool-cases (obj == "user" || obj == "role")) [
    | inl e' ↦ rw (turn, e, e') levels
    | inr e' ↦ elim (Bool-cases (obj == "default")) [
      | inl e'' ↦ rw (turn, e, e', e'') levels
      | inr e'' ↦
          rw (turn, e, e', e'')
            (turn_command-IsSound l out reg w (find_object cmd reg w.conf.settings obj) ok levels)
    ]
  ]
]

follow :
    (env : Env) (cmd : CommandRef) (l : ℤ) (a : List String) (w : World) (t : Turn)
    → IsSound t
    → ((out : CommandOutput) (reg : Registrar)
        → AreLevels reg
        → AreLevels (set_levels env cmd l a out reg w).registrar)
    → AreLevels
        (elim t as (λ u. LevelReply) [
          | goes_on out' reg' ↦ set_levels env cmd l a out' reg' w
          | returns reply ↦ reply
        ]).registrar
follow env cmd l a w (goes_on out reg) sound rest = rest out reg sound
follow env cmd l a w (returns reply) sound rest = sound

set_levels-AreLevels :
    (env : Env) (cmd : CommandRef) (l : ℤ) (a : List String) (out : CommandOutput) (reg : Registrar)
    (w : World)
    → IsLevel l
    → AreLevels reg
    → AreLevels (set_levels env cmd l a out reg w).registrar
unfolding set_levels
set_levels-AreLevels env cmd l [] out reg w ok levels = levels
set_levels-AreLevels env cmd l (obj ∷ a) out reg w ok levels =
    follow env cmd l a w (turn env cmd l obj out reg w)
      (turn-IsSound env cmd l obj out reg w ok levels)
      (λ out' reg' sound. set_levels-AreLevels env cmd l a out' reg' w ok sound)

is_level-IsLevel : (l : ℤ) → is_level l ≡ true → IsLevel l
unfolding is_level
is_level-IsLevel (pos n) level = (ground (arith, level), ground (arith, level))
is_level-IsLevel (negsuc n) level = (ground (arith, level), ground (arith, level))

read_level-IsLevel : (s : String) (l : ℤ) → read_level s ≡ some l → IsLevel l
unfolding read_level
read_level-IsLevel s l read = is_level-IsLevel l (elim (Option-cases (atoi s)) [
  | inl e ↦ ground (arith, read, e)
  | inr (n, e) ↦ elim (Bool-cases (is_level n)) [
    | inl level ↦ ground (arith, read, e, level)
    | inr other ↦ ground (arith, read, e, other)
  ]
])

-- What the command leaves, if it returns.
abbrev Leaves : Option LevelReply → Type 0
Leaves none = Unit
Leaves (some reply) = AreLevels reply.registrar

loglevel_cmnd-Leaves :
    (env : Env) (cmd : CommandRef) (reg : Registrar) (a : List String) (w : World)
    → AreLevels reg
    → Leaves (loglevel_cmnd env cmd reg a w)
unfolding loglevel_cmnd
loglevel_cmnd-Leaves env cmd reg a w levels =
    elim (Option-cases (has_num_args a (pos 2) (negsuc 0))) [
      | inl e ↦ rw e tt
      | inr (false, e) ↦ elim (Option-cases (get_elem? a 0)) [
        | inl e' ↦ rw (e, e') tt
        | inr (first, e') ↦ rw (e, e') levels
      ]
      | inr (true, e) ↦ elim (Option-cases (get_elem? a 0)) [
        | inl e' ↦ rw (e, e') tt
        | inr (first, e') ↦ elim (Option-cases (get_elem? a 1)) [
          | inl e'' ↦ rw (e, e', e'') tt
          | inr (given, e'') ↦ elim (Option-cases (read_level given)) [
            | inl r ↦ rw (e, e', e'', r) levels
            | inr (l, r) ↦
                rw (e, e', e'', r)
                  (set_levels-AreLevels env cmd l (drop 2 a)
                    (record (output_of cmd "Set Logging Level") { quoted = true }) reg w
                    (read_level-IsLevel given l r) levels)
          ]
        ]
      ]
    ]

-- The guard answers, and past it there is a first argument.
has_num_args_returns :
    (first : String) (a : List String)
    → (first == "") ≡ false
    → (has_num_args (first ∷ a) (pos 2) (negsuc 0) ≡ some false)
      ⊎ ((has_num_args (first ∷ a) (pos 2) (negsuc 0) ≡ some true)
          × (given : String) × (get_elem? (first ∷ a) 1 ≡ some given))
unfolding has_num_args
has_num_args_returns first [] named = inl (ground (arith, named))
has_num_args_returns first (given ∷ rest) named = elim (Bool-cases (ltb (length rest) 1)) [
  | inl few ↦ inl (ground (arith, named, few))
  | inr enough ↦ inr (ground (arith, named, enough), given, refl)
]

loglevel_cmnd_returns :
    (env : Env) (cmd : CommandRef) (reg : Registrar) (first : String) (a : List String) (w : World)
    → (first == "") ≡ false
    → (reply : LevelReply) × (loglevel_cmnd env cmd reg (first ∷ a) w ≡ some reply)
unfolding loglevel_cmnd
loglevel_cmnd_returns env cmd reg first a w named = elim (has_num_args_returns first a named) [
  | inl e ↦ rw e (_, refl)
  | inr (e, given, e') ↦ rw (e, e') (_, refl)
]

-- Whatever its arguments and wherever it stops, `loglevel` returns, unless it has no name, and leaves the
-- level of the guild and those of all commands between 0 and 3, if they were.
pub loglevel_cmnd-AreLevels :
    (env : Env) (cmd : CommandRef) (reg : Registrar) (first : String) (a : List String) (w : World)
    → (first == "") ≡ false
    → AreLevels reg
    → (reply : LevelReply) × (loglevel_cmnd env cmd reg (first ∷ a) w ≡ some reply)
      × AreLevels reply.registrar
loglevel_cmnd-AreLevels env cmd reg first a w named levels =
    let (reply, returned) = loglevel_cmnd_returns env cmd reg first a w named in
    (reply, returned, subst Leaves returned (loglevel_cmnd-Leaves env cmd reg (first ∷ a) w levels))
