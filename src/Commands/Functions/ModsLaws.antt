-- ===== src/Commands/Functions/ModsLaws.antt =====
-- What the functions of modConfigCmnd.go do with the arguments: each is told of as done or as failed,
-- and the mods added are listed.
use avorioncontrol.Prelude.{
  some_injective, ℕ, zero, suc, ◌+◌, ◌≡◌, inl, inr, refl, sym, subst, ap, ◌∙◌, String, true, some,
  List, [], ◌∷◌, ◌++◌, ℤ, eqb_ℤ, eqb_ℤ_iff, ◌||◌, length, length-append, get_elem?, arith,
  Bool-cases, Option-cases,
}
use avorioncontrol.Prelude.Decimal.{atoi}
use avorioncontrol.Configuration.Storage.{World}
use avorioncontrol.Configuration.Mods.{add_server_mod, has_mod}
use avorioncontrol.Commands.Functions.Mods.{Tally, Method, change_mod, change_mods}

-- How many arguments are told of.
abbrev pub told : Tally → ℕ
told t = length t.success + length t.failed

told-change_mod :
    (method : Method) (given : String) (t : Tally) → told (change_mod method given t) ≡ suc (told t)
unfolding change_mod
told-change_mod method given t = elim (Option-cases (atoi given)) [
  | inl none_read ↦ rw (change_mod, none_read, length-append) (omega arith)
  | inr (id, number) ↦ elim (Option-cases (method id t.world).0) [
    | inl done ↦ rw (change_mod, number, done, length-append) (omega arith)
    | inr (reason, refused) ↦ rw (change_mod, number, refused, length-append) (omega arith)
  ]
]

told-change_mods :
    (method : Method) (mods : List String) (t : Tally)
    → told (change_mods method mods t) ≡ length mods + told t
unfolding change_mods
told-change_mods method [] t = omega arith
told-change_mods method (given ∷ rest) t =
    told-change_mods method rest (change_mod method given t)
    ∙ omega (arith, told-change_mod method given t)

-- Every argument is told of once, as done or as failed, whichever method is called.
pub change_mods_tells_all :
    (method : Method) (mods : List String) (w : World)
    → let t = change_mods method mods (record { success = []; failed = []; world = w }) in
      length t.success + length t.failed ≡ length mods
change_mods_tells_all method mods w =
    told-change_mods method mods (record { success = []; failed = []; world = w }) ∙ omega arith

-- A mod that the server has.
abbrev pub IsListed : World → ℤ → Type 0
IsListed w id = has_mod id w.conf.enabled_mods ≡ true

has_mod-append :
    (id new : ℤ) (mods : List ℤ) → has_mod id (mods ++ new ∷ []) ≡ (has_mod id mods || eqb_ℤ id new)
has_mod-append id new [] = ground arith
has_mod-append id new (first ∷ rest) = ground (arith, has_mod-append id new rest)

has_mod-add_server_mod :
    (id new : ℤ) (w : World)
    → has_mod id (add_server_mod new w).1.conf.enabled_mods
      ≡ (has_mod id w.conf.enabled_mods || eqb_ℤ id new)
unfolding add_server_mod
has_mod-add_server_mod id new w = elim (Bool-cases (has_mod new w.conf.enabled_mods)) [
  | inl present ↦ rw (add_server_mod, present) (already present)
  | inr absent ↦ rw (add_server_mod, absent) (has_mod-append id new w.conf.enabled_mods)
]
  where
    already :
        has_mod new w.conf.enabled_mods ≡ true
        → has_mod id w.conf.enabled_mods ≡ (has_mod id w.conf.enabled_mods || eqb_ℤ id new)
    already present = elim (Bool-cases (eqb_ℤ id new)) [
      | inl same ↦
          let e = (eqb_ℤ_iff id new).0 same in
          let there = subst (λ k. has_mod k w.conf.enabled_mods ≡ true) (sym e) present in
          ground (arith, there, same)
      | inr other ↦ ground (arith, other)
    ]

change_mod-IsListed :
    (id : ℤ) (given : String) (t : Tally)
    → IsListed t.world id
    → IsListed (change_mod add_server_mod given t).world id
unfolding change_mod
change_mod-IsListed id given t listed = elim (Option-cases (atoi given)) [
  | inl none_read ↦ rw (change_mod, none_read) listed
  | inr (new, number) ↦
      let after : IsListed (add_server_mod new t.world).1 id =
        rw (has_mod-add_server_mod id new t.world, listed) refl in
      elim (Option-cases (add_server_mod new t.world).0) [
        | inl done ↦ rw (change_mod, number, done) after
        | inr (reason, refused) ↦ rw (change_mod, number, refused) after
      ]
]

change_mods-IsListed :
    (id : ℤ) (mods : List String) (t : Tally)
    → IsListed t.world id
    → IsListed (change_mods add_server_mod mods t).world id
unfolding change_mods
change_mods-IsListed id [] t listed = listed
change_mods-IsListed id (given ∷ rest) t listed =
    change_mods-IsListed id rest (change_mod add_server_mod given t)
      (change_mod-IsListed id given t listed)

change_mod_lists :
    (id : ℤ) (given : String) (t : Tally)
    → atoi given ≡ some id
    → IsListed (change_mod add_server_mod given t).world id
unfolding change_mod
change_mod_lists id given t number =
    let self = (eqb_ℤ_iff id id).1 refl in
    let after : IsListed (add_server_mod id t.world).1 id =
      has_mod-add_server_mod id id t.world ∙ ground (arith, self) in
    elim (Option-cases (add_server_mod id t.world).0) [
      | inl done ↦ rw (change_mod, number, done) after
      | inr (reason, refused) ↦ rw (change_mod, number, refused) after
    ]

-- After "mods add" every argument that is a number stands among the server's mods, whichever of the
-- others failed.
pub change_mods_lists :
    (mods : List String) (k : ℕ) (given : String) (id : ℤ) (t : Tally)
    → get_elem? mods k ≡ some given
    → atoi given ≡ some id
    → has_mod id (change_mods add_server_mod mods t).world.conf.enabled_mods ≡ true
unfolding change_mods
change_mods_lists [] k given id t found number = ground (arith, found)
change_mods_lists (first ∷ rest) zero given id t found number =
    change_mods-IsListed id rest (change_mod add_server_mod first t)
      (change_mod_lists id first t (ap atoi (some_injective found) ∙ number))
change_mods_lists (first ∷ rest) (suc k) given id t found number =
    change_mods_lists rest k given id (change_mod add_server_mod first t) found number
