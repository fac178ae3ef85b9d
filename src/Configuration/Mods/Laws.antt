-- ===== src/Configuration/Mods/Laws.antt =====
-- Adding and removing mods keeps the other mods, and no mod is listed twice.
use avorioncontrol.Prelude.{
  ℕ, zero, suc, ◌+◌, ◌≤◌, ◌≡◌, refl, ap, false, none, some, List, [], ◌∷◌, ◌++◌, ℤ, eqb_ℤ,
  eqb_ℤ_iff, eqb, get_elem?, set, if◌then◌else◌, arith, Bool-cases, Option-cases, inl, inr,
}
use avorioncontrol.Configuration.Storage.{Env, World}
use avorioncontrol.Configuration.Auth.{save}
use avorioncontrol.Configuration.Mods.{
  already_present, not_present, has_mod, index_of, last_of, drop_last, swap_remove, add_server_mod,
  remove_server_mod, remove_client_mod,
}

-- How often a mod is listed.
abbrev pub copies : ℤ → List ℤ → ℕ
copies id [] = 0
copies id (x ∷ xs) = (if eqb_ℤ id x then 1 else 0) + copies id xs

-- Every mod is listed once at most.
pub record AreOnce (xs : List ℤ) : Type 0 where
  pub at : (id : ℤ) → copies id xs ≤ 1

copies-drop_last :
    (z x : ℤ) (xs : List ℤ)
    → copies z (drop_last (x ∷ xs)) + (if eqb_ℤ z (last_of (x ∷ xs)) then 1 else 0)
      ≡ copies z (x ∷ xs)
unfolding drop_last last_of
copies-drop_last z x [] = omega arith
copies-drop_last z x (y ∷ xs) = omega (arith, copies-drop_last z y xs)

drop_last-set-zero :
    (x l y : ℤ) (xs : List ℤ) → drop_last (set (x ∷ y ∷ xs) zero l) ≡ l ∷ drop_last (y ∷ xs)
unfolding drop_last
drop_last-set-zero x l y xs = refl

drop_last-set-suc :
    (x l y : ℤ) (xs : List ℤ) (i : ℕ)
    → drop_last (set (x ∷ y ∷ xs) (suc i) l) ≡ x ∷ drop_last (set (y ∷ xs) i l)
unfolding drop_last
drop_last-set-suc x l y xs zero = refl
drop_last-set-suc x l y xs (suc i) = refl

-- One copy of the mod at the position goes, and nothing else.
copies-swap_remove :
    (z x : ℤ) (xs : List ℤ) (i : ℕ)
    → get_elem? xs i ≡ some x
    → copies z (swap_remove i xs) + (if eqb_ℤ z x then 1 else 0) ≡ copies z xs
unfolding swap_remove
copies-swap_remove z x [] i h = cc
copies-swap_remove z x (y ∷ []) zero h = ground arith
copies-swap_remove z x (y ∷ []) (suc i) h = cc
copies-swap_remove z x (y ∷ w ∷ xs) zero h = ground (arith, copies-drop_last z w xs)
copies-swap_remove z x (y ∷ w ∷ xs) (suc i) h = omega (
  arith,
  ap (copies z) (drop_last-set-suc y (last_of (w ∷ xs)) w xs i),
  copies-swap_remove z x (w ∷ xs) i h,
)

copies-append :
    (z x : ℤ) (xs : List ℤ) → copies z (xs ++ x ∷ []) ≡ copies z xs + (if eqb_ℤ z x then 1 else 0)
copies-append z x [] = omega arith
copies-append z x (y ∷ xs) = omega (arith, copies-append z x xs)

copies_none : (id : ℤ) (xs : List ℤ) → has_mod id xs ≡ false → copies id xs ≡ 0
copies_none id [] h = refl
copies_none id (x ∷ xs) h = ground (arith, copies_none id xs)

-- The position found holds the mod, and none is found exactly when it is not listed.
index_of-found : (id : ℤ) (xs : List ℤ) (i : ℕ) → index_of id xs ≡ some i → get_elem? xs i ≡ some id
unfolding index_of
index_of-found id [] i h = cc
index_of-found id (x ∷ xs) zero h = ground (arith, eqb_ℤ_iff id x)
index_of-found id (x ∷ xs) (suc i) h = ground (arith, index_of-found id xs i)

index_of-none : (id : ℤ) (xs : List ℤ) → index_of id xs ≡ none → copies id xs ≡ 0
unfolding index_of
index_of-none id [] h = refl
index_of-none id (x ∷ xs) h = ground (arith, index_of-none id xs)

module _ (id : ℤ) (xs : List ℤ) (once : AreOnce xs) where
  copies_removed :
      (z : ℤ) (i : ℕ)
      → index_of id xs ≡ some i
      → (copies z (swap_remove i xs) ≡ (if eqb_ℤ z id then 0 else copies z xs)) × (copies id xs ≡ 1)
  copies_removed z i h =
      let found = index_of-found id xs i h in
      ground (
        arith,
        copies-swap_remove z id xs i found,
        copies-swap_remove id id xs i found,
        once.at z,
        once.at id,
        eqb_ℤ_iff z id,
        eqb_ℤ_iff id id,
      )

  copies_kept :
      (z : ℤ) → index_of id xs ≡ none → copies z xs ≡ (if eqb_ℤ z id then 0 else copies z xs)
  copies_kept z h = ground (arith, index_of-none id xs h, eqb_ℤ_iff z id)

  swap_remove-AreOnce : (i : ℕ) → index_of id xs ≡ some i → AreOnce (swap_remove i xs)
  swap_remove-AreOnce i h = record { at = λ z. ground (arith, copies_removed z i h, once.at z) }

-- Where every mod is listed once at most, `AddServerMod` of a mod that is not listed lists it once
-- more and no other mod, of one that is listed it fails and lists nothing more; no mod is then
-- listed twice, and the mods for clients stay.
pub add_server_mod_exact :
    (id z : ℤ) (w : World)
    → AreOnce w.conf.enabled_mods
    → let (error, w') = add_server_mod id w in
      (copies z w'.conf.enabled_mods
        ≡ copies z w.conf.enabled_mods
          + (if has_mod id w.conf.enabled_mods then 0 else (if eqb_ℤ z id then 1 else 0)))
      × (error ≡ (if has_mod id w.conf.enabled_mods then some already_present else none))
      × AreOnce w'.conf.enabled_mods
      × (w'.conf.allowed_mods ≡ w.conf.allowed_mods)
unfolding add_server_mod
add_server_mod_exact id z w once = elim (Bool-cases (has_mod id w.conf.enabled_mods)) [
  | inl e ↦ rw e (omega arith, refl, once, refl)
  | inr e ↦ rw e (
    copies-append z id w.conf.enabled_mods,
    refl,
    record {
      at = λ y. ground (
        arith,
        copies-append y id w.conf.enabled_mods,
        once.at y,
        copies_none id w.conf.enabled_mods e,
        eqb_ℤ_iff y id,
      );
    },
    refl,
  )
]

-- Where every mod is listed once at most, `RemoveServerMod` of a mod that is listed takes away
-- that mod and no other, although it moves the last one, and of a mod that is not listed it fails
-- and takes none away; no mod is then listed twice, and the mods for clients stay.
pub remove_server_mod_exact :
    (env : Env) (id z : ℤ) (w : World)
    → AreOnce w.conf.enabled_mods
    → let (error, w') = remove_server_mod env id w in
      (copies z w'.conf.enabled_mods ≡ (if eqb_ℤ z id then 0 else copies z w.conf.enabled_mods))
      × (error ≡ (if eqb (copies id w.conf.enabled_mods) 0 then some not_present else none))
      × AreOnce w'.conf.enabled_mods
      × (w'.conf.allowed_mods ≡ w.conf.allowed_mods)
unfolding remove_server_mod save
remove_server_mod_exact env id z w once =
    let xs : List ℤ = w.conf.enabled_mods in
    elim (Option-cases (index_of id xs)) [
      | inl e ↦
          rw (e, remove_server_mod)
            (copies_kept id xs once z e, ground (arith, index_of-none id xs e), once, refl)
      | inr (i, e) ↦
          rw (e, remove_server_mod)
            (
              (copies_removed id xs once z i e).0,
              ground (arith, copies_removed id xs once z i e),
              swap_remove-AreOnce id xs once i e,
              refl,
            )
    ]

-- Where every mod for clients is listed once at most, `RemoveClientMod` of a mod that is listed
-- takes away that mod and no other, and of a mod that is not listed it fails and takes none away;
-- no mod is then listed twice, and the server's mods stay.
pub remove_client_mod_exact :
    (env : Env) (id z : ℤ) (w : World)
    → AreOnce w.conf.allowed_mods
    → let (error, w') = remove_client_mod env id w in
      (copies z w'.conf.allowed_mods ≡ (if eqb_ℤ z id then 0 else copies z w.conf.allowed_mods))
      × (error ≡ (if eqb (copies id w.conf.allowed_mods) 0 then some not_present else none))
      × AreOnce w'.conf.allowed_mods
      × (w'.conf.enabled_mods ≡ w.conf.enabled_mods)
unfolding remove_client_mod save
remove_client_mod_exact env id z w once =
    let xs : List ℤ = w.conf.allowed_mods in
    elim (Option-cases (index_of id xs)) [
      | inl e ↦
          rw (e, remove_client_mod)
            (copies_kept id xs once z e, ground (arith, index_of-none id xs e), once, refl)
      | inr (i, e) ↦
          rw (e, remove_client_mod)
            (
              (copies_removed id xs once z i e).0,
              ground (arith, copies_removed id xs once z i e),
              swap_remove-AreOnce id xs once i e,
              refl,
            )
    ]
