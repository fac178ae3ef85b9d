-- ===== src/Discord/Roles/Laws.antt =====
-- What `rolesort` keeps of the roles.
use avorioncontrol.Prelude.{
  ◌≡◌, ◌∙◌, Bool, true, false, ◌||◌, List, [], ◌∷◌, ℤ, ltb_ℤ, eqb_ℤ, eqb_ℤ_iff, ◌≤ℤ◌, All, any,
  arith, Bool-cases, inl, inr,
}
use avorioncontrol.Discord.Roles.{insert_role, place_role, sort_onto, rolesort}

below_trans : (a b c : ℤ) → a ≤ℤ b → b ≤ℤ c → a ≤ℤ c
below_trans a b c le le' = omega arith

ltb_ℤ→≤ℤ : (a b : ℤ) → ltb_ℤ a b ≡ true → a ≤ℤ b
ltb_ℤ→≤ℤ a b h = ground arith

not_ltb_ℤ : (a b : ℤ) → ltb_ℤ a b ≡ false → b ≤ℤ a
not_ltb_ℤ a b h = ground arith

module _ {Role : Type 0} (position : Role → ℤ) where
  -- No role stands above one that is higher.
  abbrev pub IsSorted : List Role → Type 0
  IsSorted [] = Unit
  IsSorted (s ∷ ss) = All (λ t. position t ≤ℤ position s) ss × IsSorted ss

  -- Some role has the position.
  abbrev pub has_position : ℤ → List Role → Bool
  has_position p = any (λ r. eqb_ℤ p (position r))

  insert_role-has :
      (p : ℤ) (u s : Role) (ss : List Role)
      → has_position p (insert_role position u (s ∷ ss))
        ≡ (eqb_ℤ p (position u) || has_position p (s ∷ ss))
  unfolding insert_role
  insert_role-has p u s [] = ground (arith, eqb_ℤ_iff p (position u), eqb_ℤ_iff p (position s))
  insert_role-has p u s (t ∷ ts) = ground (arith, insert_role-has p u t ts)

  insert_role-All :
      (bound : ℤ) (u s : Role) (ss : List Role)
      → position u ≤ℤ bound
      → All (λ t. position t ≤ℤ bound) (s ∷ ss)
      → All (λ t. position t ≤ℤ bound) (insert_role position u (s ∷ ss))
  unfolding insert_role
  insert_role-All bound u s [] low (first, rest) =
      elim (Bool-cases (ltb_ℤ (position u) (position s))) [
        | inl e ↦ rw e (first, (low, tt))
        | inr e ↦ elim (Bool-cases (ltb_ℤ (position s) (position u))) [
          | inl f ↦ rw e (rw f (low, (first, tt)))
          | inr f ↦ rw e (rw f (first, tt))
        ]
      ]
  insert_role-All bound u s (t ∷ ts) low (first, rest) =
      elim (Bool-cases (ltb_ℤ (position s) (position u))) [
        | inl e ↦ rw e (low, (first, rest))
        | inr e ↦ rw e (first, insert_role-All bound u t ts low rest)
      ]

  All-raise :
      (a b : ℤ) (ss : List Role)
      → a ≤ℤ b
      → All (λ t. position t ≤ℤ a) ss
      → All (λ t. position t ≤ℤ b) ss
  All-raise a b [] le ok = tt
  All-raise a b (s ∷ ss) le (first, rest) =
      (below_trans (position s) a b first le, All-raise a b ss le rest)

  insert_role-IsSorted :
      (u s : Role) (ss : List Role) → IsSorted (s ∷ ss) → IsSorted (insert_role position u (s ∷ ss))
  unfolding insert_role
  insert_role-IsSorted u s [] sorted = elim (Bool-cases (ltb_ℤ (position u) (position s))) [
    | inl e ↦ rw e ((ltb_ℤ→≤ℤ (position u) (position s) e, tt), (tt, tt))
    | inr e ↦ elim (Bool-cases (ltb_ℤ (position s) (position u))) [
      | inl f ↦ rw e (rw f ((ltb_ℤ→≤ℤ (position s) (position u) f, tt), (tt, tt)))
      | inr f ↦ rw e (rw f (tt, tt))
    ]
  ]
  insert_role-IsSorted u s (t ∷ ts) (first, rest) =
      elim (Bool-cases (ltb_ℤ (position s) (position u))) [
        | inl e ↦
            let up = ltb_ℤ→≤ℤ (position s) (position u) e in
            rw e ((up, All-raise (position s) (position u) (t ∷ ts) up first), (first, rest))
        | inr e ↦ rw e (
          insert_role-All (position s) u t ts (not_ltb_ℤ (position s) (position u) e) first,
          insert_role-IsSorted u t ts rest,
        )
      ]

  sort_onto-IsSorted :
      (sorted unsorted : List Role)
      → IsSorted sorted
      → IsSorted (sort_onto position sorted unsorted)
  unfolding sort_onto place_role
  sort_onto-IsSorted sorted [] ok = ok
  sort_onto-IsSorted [] (u ∷ us) ok = sort_onto-IsSorted (u ∷ []) us (tt, tt)
  sort_onto-IsSorted (s ∷ ss) (u ∷ us) ok =
      sort_onto-IsSorted (insert_role position u (s ∷ ss)) us (insert_role-IsSorted u s ss ok)

  sort_onto-has :
      (p : ℤ) (sorted unsorted : List Role)
      → has_position p (sort_onto position sorted unsorted)
        ≡ (has_position p sorted || has_position p unsorted)
  unfolding sort_onto place_role
  sort_onto-has p sorted [] = ground arith
  sort_onto-has p [] (u ∷ us) = sort_onto-has p (u ∷ []) us ∙ ground arith
  sort_onto-has p (s ∷ ss) (u ∷ us) =
      sort_onto-has p (insert_role position u (s ∷ ss)) us
      ∙ ground (arith, insert_role-has p u s ss)

  -- `rolesort` answers with no role above a higher one, and with a role at exactly the positions at
  -- which some role was given.
  pub rolesort_exact :
      (p : ℤ) (roles : List Role)
      → IsSorted (rolesort position roles)
        × (has_position p (rolesort position roles) ≡ has_position p roles)
  unfolding rolesort
  rolesort_exact p roles = (sort_onto-IsSorted [] roles tt, sort_onto-has p [] roles)
