-- ===== src/Commands/Registrar/Laws.antt =====
-- The registry of commands stays consistent, and when `Register` ends the process.
use avorioncontrol.Prelude.{
  String, ◌==◌, ◌≡◌, refl, sym, ap, subst, ◌∙◌, ◌↔◌, Bool, true, false, not, ◌||◌, none, some, List,
  [], ◌∷◌, ◌++◌, any, arith, eq_iff, lookup, insert, lookup-insert, Bool-cases, Option-cases, inl,
  inr, ◌⊎◌,
}
use avorioncontrol.Configuration.Aliases.{has}
use avorioncontrol.Commands.Registrar.Order.{IsAlphabetical, sort_strings-IsAlphabetical}
use avorioncontrol.Commands.Registrar.{
  Handler, Cmdlet, Registrant, Registrar, is_registered, register, add_command, add_to_owners,
  new_cmdlet, sort_strings, insert_sorted, empty_registrar,
}

has-append : (s : String) (a b : List String) → has s (a ++ b) ≡ (has s a || has s b)
has-append s [] b = refl
has-append s (x ∷ a) b = ground (arith, has-append s a b)

has-insert_sorted :
    (s t : String) (l : List String) → has s (insert_sorted t l) ≡ ((t == s) || has s l)
unfolding insert_sorted
has-insert_sorted s t [] = refl
has-insert_sorted s t (x ∷ l) = ground (arith, has-insert_sorted s t l)

has-sort_strings : (s : String) (l : List String) → has s (sort_strings l) ≡ has s l
unfolding sort_strings
has-sort_strings s [] = refl
has-sort_strings s (x ∷ l) =
    has-insert_sorted s x (sort_strings l) ∙ ap (λ b. (x == s) || b) (has-sort_strings s l)

-- The names that are listed are those of the registered commands, in alphabetical order, and each
-- command is stored under its own name.
abbrev pub IsRegistry : Registrar → Type 0
IsRegistry reg =
    ((n : String) → has n reg.commandnames ≡ is_registered n reg)
    × ((n : String) (c : Registrant) → lookup n reg.commands ≡ some c → c.name ≡ n)
    × IsAlphabetical reg.commandnames

pub empty_registrar-IsRegistry : (gid : String) → IsRegistry (empty_registrar gid)
unfolding empty_registrar lookup is_registered
empty_registrar-IsRegistry gid = (λ n. refl, λ n c found. ground arith, tt)

add_command-IsRegistry :
    (n : String) (c : Cmdlet) (reg : Registrar)
    → c.name ≡ n
    → IsRegistry reg
    → IsRegistry (add_command n c reg)
unfolding add_command is_registered
add_command-IsRegistry n c reg named (listed, own, ordered) = (
  λ m.
      has-sort_strings m (reg.commandnames ++ n ∷ [])
      ∙ has-append m reg.commandnames (n ∷ [])
      ∙ ground
          (arith, listed m, lookup-insert n m (record { self = c; cmdlets = [] }) reg.commands),
  λ m d found. ground (
    arith,
    own m d,
    eq_iff n m,
    lookup-insert n m (record { self = c; cmdlets = [] }) reg.commands,
  ),
  sort_strings-IsAlphabetical (reg.commandnames ++ n ∷ []),
)

-- A registry in which a command has one more subcommand.
abbrev with_cmdlet : Cmdlet → String → Registrant → Registrar → Registrar
with_cmdlet c owner r reg = record reg {
  commands = insert owner (record r { cmdlets = r.cmdlets ++ c ∷ [] }) reg.commands;
}

with_cmdlet-IsRegistry :
    (c : Cmdlet) (owner : String) (r : Registrant) (reg : Registrar)
    → lookup owner reg.commands ≡ some r
    → IsRegistry reg
    → IsRegistry (with_cmdlet c owner r reg)
unfolding is_registered
with_cmdlet-IsRegistry c owner r reg found (listed, own, ordered) = (
  λ n. ground (
    arith,
    listed n,
    eq_iff owner n,
    own owner r found,
    lookup-insert owner n (record r { cmdlets = r.cmdlets ++ c ∷ [] }) reg.commands,
  ),
  λ n d there. ground (
    arith,
    own n d,
    eq_iff owner n,
    own owner r found,
    lookup-insert owner n (record r { cmdlets = r.cmdlets ++ c ∷ [] }) reg.commands,
  ),
  ordered,
)

add_to_owners_next :
    (c : Cmdlet) (owner : String) (owners : List String) (r : Registrant) (reg : Registrar)
    → lookup owner reg.commands ≡ some r
    → add_to_owners c (owner ∷ owners) reg ≡ add_to_owners c owners (with_cmdlet c owner r reg)
unfolding add_to_owners
add_to_owners_next c owner owners r reg found = rw (add_to_owners, found) refl

add_to_owners-IsRegistry :
    (c : Cmdlet) (owners : List String) (reg reg' : Registrar)
    → IsRegistry reg
    → add_to_owners c owners reg ≡ some reg'
    → IsRegistry reg'
unfolding add_to_owners
add_to_owners-IsRegistry c [] reg reg' ok done =
    let same : reg ≡ reg' = ground arith in subst IsRegistry same ok
add_to_owners-IsRegistry c (owner ∷ owners) reg reg' ok done =
    elim (Option-cases (lookup owner reg.commands)) [
      | inl missing ↦ ground arith
      | inr (r, found) ↦
          add_to_owners-IsRegistry c owners (with_cmdlet c owner r reg) reg'
            (with_cmdlet-IsRegistry c owner r reg found ok)
            (sym (add_to_owners_next c owner owners r reg found) ∙ done)
    ]

-- When `Register` returns, for a command or for a subcommand, the registry is consistent if it was
-- before: the names that are listed are those of the registered commands, in alphabetical order, and
-- each command is stored under its own name.
pub register-IsRegistry :
    (n d u : String) (a : List (String × String)) (f : Handler) (owners : List String)
    (reg reg' : Registrar)
    → IsRegistry reg
    → register n d u a f owners reg ≡ some reg'
    → IsRegistry reg'
unfolding register new_cmdlet
register-IsRegistry n d u a f [] reg reg' ok done = elim (Bool-cases (is_registered n reg)) [
  | inl taken ↦ ground arith
  | inr new ↦
      let same : add_command n (new_cmdlet n d u a f reg) reg ≡ reg' = ground arith in
      subst IsRegistry same (add_command-IsRegistry n (new_cmdlet n d u a f reg) reg refl ok)
]
register-IsRegistry n d u a f (owner ∷ owners) reg reg' ok done =
    add_to_owners-IsRegistry (new_cmdlet n d u a f reg) (owner ∷ owners) reg reg' ok done

is_registered-with_cmdlet :
    (c : Cmdlet) (owner : String) (r : Registrant) (reg : Registrar) (n : String)
    → lookup owner reg.commands ≡ some r
    → is_registered n (with_cmdlet c owner r reg) ≡ is_registered n reg
unfolding is_registered
is_registered-with_cmdlet c owner r reg n found = ground (
  arith,
  eq_iff owner n,
  lookup-insert owner n (record r { cmdlets = r.cmdlets ++ c ∷ [] }) reg.commands,
)

-- Some owner is no registered command.
abbrev pub is_unowned : Registrar → List String → Bool
is_unowned reg = any (λ o. not (is_registered o reg))

any_same : (p q : String → Bool) (l : List String) → ((x : String) → p x ≡ q x) → any p l ≡ any q l
any_same p q [] same = refl
any_same p q (x ∷ l) same = rw (same x, any_same p q l same) refl

registered :
    (n : String) (r : Registrant) (reg : Registrar)
    → lookup n reg.commands ≡ some r
    → is_registered n reg ≡ true
unfolding is_registered
registered n r reg found = rw (is_registered, found) refl

unregistered :
    (n : String) (reg : Registrar) → lookup n reg.commands ≡ none → is_registered n reg ≡ false
unfolding is_registered
unregistered n reg missing = rw (is_registered, missing) refl

add_to_owners_fails :
    (c : Cmdlet) (owners : List String) (reg : Registrar)
    → (add_to_owners c owners reg ≡ none) ↔ (is_unowned reg owners ≡ true)
unfolding add_to_owners
add_to_owners_fails c [] reg = ground arith
add_to_owners_fails c (owner ∷ owners) reg = elim (Option-cases (lookup owner reg.commands)) [
  | inl missing ↦ ground (arith, unregistered owner reg missing)
  | inr (r, found) ↦ ground (
    arith,
    registered owner r reg found,
    add_to_owners_next c owner owners r reg found,
    add_to_owners_fails c owners (with_cmdlet c owner r reg),
    any_same (λ o. not (is_registered o (with_cmdlet c owner r reg)))
        (λ o. not (is_registered o reg)) owners
        (λ o. ap not (is_registered-with_cmdlet c owner r reg o found)),
  )
]

-- `Register` ends the process exactly if a command of that name is there and no owner is given, or
-- some owner is no registered command.
pub register_fatal_exactly :
    (n d u : String) (a : List (String × String)) (f : Handler) (owners : List String)
    (reg : Registrar)
    → (register n d u a f owners reg ≡ none)
      ↔ (((owners ≡ []) × (is_registered n reg ≡ true)) ⊎ (is_unowned reg owners ≡ true))
unfolding register
register_fatal_exactly n d u a f [] reg = ground arith
register_fatal_exactly n d u a f (owner ∷ owners) reg =
    ground (arith, add_to_owners_fails (new_cmdlet n d u a f reg) (owner ∷ owners) reg)
