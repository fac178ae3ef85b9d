-- ===== src/Configuration/Aliases/Laws.antt =====
-- An alias belongs to one command at most, so the order in which Go visits the map does not matter.
use avorioncontrol.Prelude.{
  ℕ, ◌+◌, ◌≤◌, String, ◌==◌, eq_iff, eq_refl, ◌≡◌, ◌≢◌, refl, ◌∙◌, ap, subst, ◌⊎◌, inl, inr, ◌↔◌,
  Bool, true, false, ◌||◌, Option, none, some, List, [], ◌∷◌, ◌++◌, Map, lookup, insert, arith,
  if◌then◌else◌, Bool-cases,
}
use avorioncontrol.Configuration.Data.{Settings}
use avorioncontrol.Configuration.Aliases.{
  has, find_alias, get_aliased_command, set_alias_command, command_disabled, disable_command,
  aliases_of,
}

-- The command has the alias, in whatever place of the map.
abbrev pub Aliases : String → String → Map (List String) → Type 0
Aliases cmd a [] = ⊥
Aliases cmd a ((c, l) ∷ m) = ((c ≡ cmd) × (has a l ≡ true)) ⊎ Aliases cmd a m

-- How many commands have the alias.
abbrev pub owners : String → Map (List String) → ℕ
owners a [] = 0
owners a ((c, l) ∷ m) = (if has a l then 1 else 0) + owners a m

-- No alias has two commands.
pub record AreUnique (m : Map (List String)) : Type 0 where
  pub at : (a : String) → owners a m ≤ 1

owners_pos : (cmd a : String) (m : Map (List String)) → Aliases cmd a m → 1 ≤ owners a m
owners_pos cmd a [] h = elim h [ ]
owners_pos cmd a ((c, l) ∷ m) (inl (e, f)) = rw f (omega arith)
owners_pos cmd a ((c, l) ∷ m) (inr h) = omega (arith, owners_pos cmd a m h)

find_alias_sound :
    (cmd a : String) (m : Map (List String)) → find_alias a m ≡ (true, cmd) → Aliases cmd a m
unfolding find_alias
find_alias_sound cmd a [] h = cc
find_alias_sound cmd a ((c, l) ∷ m) h = elim (Bool-cases (has a l)) [
  | inl e ↦ inl (ground arith, e)
  | inr e ↦ inr (find_alias_sound cmd a m (ground arith))
]

find_alias_complete :
    (cmd a : String) (m : Map (List String))
    → owners a m ≤ 1
    → Aliases cmd a m
    → find_alias a m ≡ (true, cmd)
unfolding find_alias
find_alias_complete cmd a [] u h = elim h [ ]
find_alias_complete cmd a ((c, l) ∷ m) u (inl (e, f)) = rw f (rw e)
find_alias_complete cmd a ((c, l) ∷ m) u (inr h) =
    ground (arith, owners_pos cmd a m h, find_alias_complete cmd a m)

-- While no alias has two commands, `GetAliasedCommand` finds a command exactly when the command
-- has the alias, whatever the order of the map.
pub get_aliased_exact :
    (cmd a : String) (c : Settings)
    → AreUnique c.aliased_commands
    → (get_aliased_command a c ≡ (true, cmd)) ↔ Aliases cmd a c.aliased_commands
unfolding get_aliased_command
get_aliased_exact cmd a c u = (
  find_alias_sound cmd a c.aliased_commands,
  find_alias_complete cmd a c.aliased_commands (u.at a),
)

owners_zero : (a : String) (m : Map (List String)) → (find_alias a m).0 ≡ false → owners a m ≡ 0
unfolding find_alias
owners_zero a [] h = refl
owners_zero a ((c, l) ∷ m) h = ground (arith, owners_zero a m)

has-append : (b a : String) (l : List String) → has b (l ++ a ∷ []) ≡ (has b l || (a == b))
has-append b a [] = ground arith
has-append b a (x ∷ l) = ground (arith, has-append b a l)

owners-insert :
    (b r : String) (l : List String) (m : Map (List String))
    → owners b (insert r l m) + (if has b (aliases_of r m) then 1 else 0)
      ≡ (if has b l then 1 else 0) + owners b m
unfolding insert lookup aliases_of
owners-insert b r l [] = omega arith
owners-insert b r l ((k, v) ∷ m) = ground (arith, owners-insert b r l m)

-- One more alias of `r`: the number of its owners grows by one, and no other number grows.
owners-alias :
    (a b r : String) (m : Map (List String))
    → owners b (insert r (aliases_of r m ++ a ∷ []) m) ≤ (if a == b then 1 else 0) + owners b m
owners-alias a b r m =
    ground (arith, owners-insert b r (aliases_of r m ++ a ∷ []) m, has-append b a (aliases_of r m))

or_true : (b : Bool) → (b || true) ≡ true
or_true true = refl
or_true false = refl

set_free :
    (r a : String) (c : Settings)
    → (get_aliased_command a c).0 ≡ false
    → set_alias_command r a c ≡ (
      none,
      record c {
        aliased_commands = insert r (aliases_of r c.aliased_commands ++ a ∷ []) c.aliased_commands;
      },
    )
unfolding set_alias_command get_aliased_command
set_free r a c free = rw free

set_taken :
    (q a : String) (c : Settings)
    → (get_aliased_command a c).0 ≡ true
    → ((set_alias_command q a c).0 ≢ none) × ((set_alias_command q a c).1 ≡ c)
unfolding set_alias_command get_aliased_command
set_taken q a c taken = rw taken ((λ e. cc), refl)

-- `SetAliasCommand` keeps every alias with one command at most, whether it succeeds or not, if it
-- was so before.
pub set_alias_command-AreUnique :
    (r a : String) (c : Settings)
    → AreUnique c.aliased_commands
    → AreUnique (set_alias_command r a c).1.aliased_commands
unfolding set_alias_command
set_alias_command-AreUnique r a c u = elim (Bool-cases (find_alias a c.aliased_commands).0) [
  | inl e ↦ rw e u
  | inr e ↦ rw e (record {
    at = λ b. ground (
      arith,
      owners-alias a b r c.aliased_commands,
      owners_zero a c.aliased_commands,
      eq_iff a b,
      u.at b,
    );
  })
]

Aliases-insert_self :
    (r a : String) (l : List String) (m : Map (List String))
    → has a l ≡ true
    → Aliases r a (insert r l m)
unfolding insert
Aliases-insert_self r a l [] h = inl (refl, h)
Aliases-insert_self r a l ((k, v) ∷ m) h = elim (Bool-cases (k == r)) [
  | inl e ↦ rw e (inl (refl, h))
  | inr e ↦ rw e (inr (Aliases-insert_self r a l m h))
]

-- While no alias has two commands: `SetAliasCommand` of an alias that no command has succeeds,
-- `GetAliasedCommand` then finds the command under the alias, and a second `SetAliasCommand` of
-- the alias, for any command, fails and changes nothing.
pub get_aliased-set_alias :
    (r q a : String) (c : Settings)
    → AreUnique c.aliased_commands
    → (get_aliased_command a c).0 ≡ false
    → let c' = (set_alias_command r a c).1 in
      ((set_alias_command r a c).0 ≡ none)
      × (get_aliased_command a c' ≡ (true, r))
      × ((set_alias_command q a c').0 ≢ none)
      × ((set_alias_command q a c').1 ≡ c')
get_aliased-set_alias r q a c u free =
    let m : Map (List String) =
      insert r (aliases_of r c.aliased_commands ++ a ∷ []) c.aliased_commands in
    let c' : Settings = record c { aliased_commands = m } in
    let done : set_alias_command r a c ≡ (none, c') = set_free r a c free in
    let unique : AreUnique m =
      subst (λ (x : Option String × Settings). AreUnique x.1.aliased_commands) done
        (set_alias_command-AreUnique r a c u) in
    let found : get_aliased_command a c' ≡ (true, r) = (get_aliased_exact r a c' unique).1 (
      Aliases-insert_self r a (aliases_of r c.aliased_commands ++ a ∷ []) c.aliased_commands
        (has-append a a (aliases_of r c.aliased_commands) ∙ rw (eq_refl a) (or_true _))) in
    let (failed, same) = set_taken q a c' (ap (λ (x : Bool × String). x.0) found) in
    rw done (refl, found, failed, same)

abbrev pub is_error : Option String → Bool
is_error none = false
is_error (some e) = true

-- No command is listed twice.
abbrev pub AreDistinct : List String → Type 0
AreDistinct [] = Unit
AreDistinct (x ∷ xs) = (has x xs ≡ false) × AreDistinct xs

AreDistinct-append :
    (s : String) (xs : List String) → AreDistinct xs → has s xs ≡ false → AreDistinct (xs ++ s ∷ [])
AreDistinct-append s [] d n = (refl, tt)
AreDistinct-append s (x ∷ xs) d n = (
  ground (arith, has-append x s xs, d.0, eq_iff s x, eq_iff x s),
  AreDistinct-append s xs d.1 (ground arith),
)

-- After `DisableCommand` exactly the commands that were disabled and this one are disabled, it
-- fails exactly when the command was disabled before, and no command is listed twice if none was.
pub disable_command_exact :
    (s q : String) (c : Settings)
    → AreDistinct c.disabled_commands
    → let (error, c') = disable_command s c in
      (command_disabled q c' ≡ (command_disabled q c || (s == q)))
      × (command_disabled s c ≡ is_error error)
      × AreDistinct c'.disabled_commands
unfolding command_disabled disable_command
disable_command_exact s q c d = elim (Bool-cases (has s c.disabled_commands)) [
  | inl e ↦ rw e (ground (arith, eq_iff s q), refl, d)
  | inr e ↦
      rw e (has-append q s c.disabled_commands, refl, AreDistinct-append s c.disabled_commands d e)
]
