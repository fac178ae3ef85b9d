-- ===== src/Commands/Process/Laws.antt =====
-- The level that a command needs, against the roles of a member.
use avorioncontrol.Prelude.{
  String, ◌≡◌, ap, ◌∙◌, Bool, true, not, ◌&&◌, ◌||◌, List, [], ◌∷◌, ℤ, pos, ltb_ℤ, any,
  if◌then◌else◌, arith,
}
use avorioncontrol.Configuration.Data.{Settings}
use avorioncontrol.Configuration.Auth.{get_role_auth, get_cmnd_auth}
use avorioncontrol.Commands.Process.{role_level, is_authorized}

larger_below : (a b c : ℤ) → ltb_ℤ (if ltb_ℤ a b then b else a) c ≡ (ltb_ℤ a c && ltb_ℤ b c)
larger_below a b c = ground arith

and_not : (x y z : Bool) → ((x && y) && not z) ≡ (x && not (not y || z))
and_not x y z = ground arith

unless : (p q : Bool) → (if p then not (p && not q) else true) ≡ (not p || q)
unless p q = ground arith

-- Some role of the member has the level.
abbrev pub has_level : Settings → ℤ → List String → Bool
has_level c level = any (λ r. not (ltb_ℤ (get_role_auth r c) level))

pub role_level_below :
    (c : Settings) (roles : List String) (level authlvl : ℤ)
    → ltb_ℤ (role_level c roles authlvl) level
      ≡ (ltb_ℤ authlvl level && not (has_level c level roles))
unfolding role_level
role_level_below c [] level authlvl = ground arith
role_level_below c (r ∷ roles) level authlvl =
    let l = get_role_auth r c in
    role_level_below c roles level (if ltb_ℤ authlvl l then l else authlvl)
    ∙ ap (λ b. b && not (has_level c level roles)) (larger_below authlvl l level)
    ∙ and_not (ltb_ℤ authlvl level) (ltb_ℤ l level) (has_level c level roles)

-- A member may use a command exactly if the command needs no level above 0, or some role of theirs
-- has the level that the command needs.
pub is_authorized_exact :
    (c : Settings) (name : String) (roles : List String)
    → is_authorized c name roles
      ≡ (not (ltb_ℤ (pos 0) (get_cmnd_auth name c)) || has_level c (get_cmnd_auth name c) roles)
unfolding is_authorized
is_authorized_exact c name roles =
    let req = get_cmnd_auth name c in
    ap (λ b. if ltb_ℤ (pos 0) req then not b else true) (role_level_below c roles req (pos 0))
    ∙ unless (ltb_ℤ (pos 0) req) (has_level c req roles)
