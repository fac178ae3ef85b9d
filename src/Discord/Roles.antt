-- ===== src/Discord/Roles.antt =====
-- `rolesort` of discord/datacache.go, which sorts the roles of a guild by their positions, the
-- highest first. A role is discordgo's; the code reads its position only, which is a parameter.
pub mod Laws
pub mod Tests
use avorioncontrol.Prelude.{List, [], ◌∷◌, ℤ, ltb_ℤ, if◌then◌else◌}

module _ {Role : Type 0} (position : Role → ℤ) where
  -- The loop over the sorted roles. A role that is neither lower than the last nor higher than any
  -- other is not put in.
  unfoldable pub insert_role : Role → List Role → List Role
  insert_role u [] = []
  insert_role u (s ∷ []) =
      if ltb_ℤ (position u) (position s)
      then s ∷ u ∷ []
      else if ltb_ℤ (position s) (position u)
      then u ∷ s ∷ []
      else s ∷ []
  insert_role u (s ∷ t ∷ ts) =
      let rest = insert_role u (t ∷ ts) in
      if ltb_ℤ (position s) (position u) then u ∷ s ∷ t ∷ ts else s ∷ rest

  -- One round of the outer loop.
  unfoldable pub place_role : Role → List Role → List Role
  unfolding insert_role
  place_role u [] = u ∷ []
  place_role u (s ∷ ss) = insert_role u (s ∷ ss)

  -- The outer loop, over what is sorted already.
  unfoldable pub sort_onto : List Role → List Role → List Role
  unfolding place_role
  sort_onto sorted [] = sorted
  sort_onto sorted (u ∷ us) = sort_onto (place_role u sorted) us

  -- `rolesort`
  unfoldable pub rolesort : List Role → List Role
  unfolding sort_onto
  rolesort unsorted = sort_onto [] unsorted
