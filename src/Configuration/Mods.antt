-- ===== src/Configuration/Mods.antt =====
-- The lists of mods (configuration/configuration.go): the mods installed on the server and those
-- allowed for clients. An id is an int64.
pub mod Laws
use avorioncontrol.Prelude.{
  ℕ, zero, suc, ◌-◌, String, Bool, true, false, ◌||◌, Option, none, some, List, [], ◌∷◌, ◌++◌, ℤ,
  pos, eqb_ℤ, any, length, get_elem?, set, take, if◌then◌else◌,
}
use avorioncontrol.Configuration.Data.{Settings, Conf}
use avorioncontrol.Configuration.Storage.{Env, World}
use avorioncontrol.Configuration.Auth.{with_settings, save}

abbrev pub already_present : String
already_present = "Mod is already present in the configuration"

abbrev pub not_present : String
not_present = "Mod is not present in the configuration"

-- The loop of the two methods that add.
abbrev pub has_mod : ℤ → List ℤ → Bool
has_mod id = any (λ found. eqb_ℤ id found)

-- The position at which the loop of the two methods that remove stops.
unfoldable pub index_of : ℤ → List ℤ → Option ℕ
index_of id [] = none
index_of id (x ∷ xs) =
    if eqb_ℤ id x then some 0 else elim (index_of id xs) [ none ↦ none | some i ↦ some (suc i) ]

-- The last element, `xs[len(xs)-1]`; the callers have a list that is not empty.
unfoldable pub last_of : List ℤ → ℤ
last_of [] = pos 0
last_of (x ∷ []) = x
last_of (x ∷ y ∷ xs) = last_of (y ∷ xs)

-- `xs[:len(xs)-1]`
unfoldable pub drop_last : List ℤ → List ℤ
drop_last [] = []
drop_last (x ∷ []) = []
drop_last (x ∷ y ∷ xs) = x ∷ drop_last (y ∷ xs)

-- `xs[i] = xs[len-1]; xs[len-1] = 0; xs = xs[:len-1]`. The slice cuts the 0 off again, so that
-- write is left out.
unfoldable pub swap_remove : ℕ → List ℤ → List ℤ
unfolding last_of drop_last
swap_remove i xs = drop_last (set xs i (last_of xs))

abbrev pub set_enabled_mods : List ℤ → Settings → Settings
set_enabled_mods xs c = record c { enabled_mods = xs }

abbrev pub set_allowed_mods : List ℤ → Settings → Settings
set_allowed_mods xs c = record c { allowed_mods = xs }

-- `AddServerMod`
unfoldable pub add_server_mod : ℤ → World → Option String × World
add_server_mod id w =
    if has_mod id w.conf.enabled_mods
    then (some already_present, w)
    else (none, with_settings (set_enabled_mods (w.conf.enabled_mods ++ id ∷ [])) w)

-- `AddClientMod`
unfoldable pub add_client_mod : ℤ → World → Option String × World
add_client_mod id w =
    if has_mod id w.conf.allowed_mods
    then (some already_present, w)
    else (none, with_settings (set_allowed_mods (w.conf.allowed_mods ++ id ∷ [])) w)

module _ (env : Env) where
  -- `RemoveServerMod`
  unfoldable pub remove_server_mod : ℤ → World → Option String × World
  remove_server_mod id w = elim (index_of id w.conf.enabled_mods) [
    | none ↦ (some not_present, w)
    | some i ↦
        (none, save env (with_settings (set_enabled_mods (swap_remove i w.conf.enabled_mods)) w))
  ]

  -- `RemoveClientMod`
  unfoldable pub remove_client_mod : ℤ → World → Option String × World
  remove_client_mod id w = elim (index_of id w.conf.allowed_mods) [
    | none ↦ (some not_present, w)
    | some i ↦
        (none, save env (with_settings (set_allowed_mods (swap_remove i w.conf.allowed_mods)) w))
  ]

  -- `ListServerMods`
  unfoldable pub list_server_mods : World → List ℤ × World
  unfolding save
  list_server_mods w = (w.conf.enabled_mods, save env w)

  -- `ListClientMods`
  unfoldable pub list_client_mods : World → List ℤ × World
  unfolding save
  list_client_mods w = (w.conf.allowed_mods, save env w)
