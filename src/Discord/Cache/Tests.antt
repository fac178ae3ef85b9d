-- ===== src/Discord/Cache/Tests.antt =====
-- A guild of two members, one of them linked to a player, and a dark color.
use avorioncontrol.Prelude.{
  ℕ, ◌≡◌, ◌≢◌, ◌↔◌, ◌⊎◌, refl, String, ◌==◌, true, Option, none, some, List, [], ◌∷◌, ◌++◌, lookup,
  take, arith, if◌then◌else◌, ◌%◌, ◌<◌,
}
use avorioncontrol.Avorion.Server.{Player}
use avorioncontrol.Discord.Cache.{
  Member, Caches, Session, cached, panics, cached_color, short_of, add_linked, update_guild,
}
use avorioncontrol.Prelude.Decimal.{hex}
use avorioncontrol.Discord.Cache.Fetch.{Serves}
use avorioncontrol.Discord.Cache.Laws.{first_name, or_else, cached_color_panics, update_guild_names}

-- Green, 0x00ff00, is `ff00` to `%x`.
green_panics : cached_color 65280 ≡ none
green_panics = (cached_color_panics 65280).1 (λ zero. cc zero, omega arith)

red_is_cached : short_of (hex 16711680) ≡ some "f00"
unfolding hex short_of
red_is_cached = refl

cached_color_panics_example :
    (cached_color 65280 ≡ none) ↔ ((◌≢◌ {A = ℕ} 65280 0) × (65280 % 16777216 < 1048576))
cached_color_panics_example = cached_color_panics 65280

abbrev ann : Member
ann = record { user_id = "7"; username = "ann"; nick = "annie"; role_ids = [] }

abbrev members : List Member
members = ann ∷ []

abbrev pages : String → Option (List Member)
pages last = if last == "7" then some [] else some members

abbrev session : Session
session = record {
  guild = λ gid. true;
  guild_roles = λ gid. some [];
  guild_members = λ gid. pages;
  role = λ gid rid. none;
}

only_ann :
    (front : List Member) (m : Member) (back : List Member)
    → members ≡ front ++ m ∷ back
    → pages m.user_id ≡ some (take 1 back)
only_ann [] m back split =
    let same : m ≡ ann = cc split in
    let none_left : back ≡ [] = cc split in rw (same, none_left) refl
only_ann (x ∷ []) m back split = cc split
only_ann (x ∷ y ∷ front) m back split = cc split

served : Serves pages 0 members
served = record { first = refl; behind = only_ann }

-- The player of the same id gives the name.
abbrev linked_ann : Player
linked_ann = record {
  index = "1";
  player_name = "Captain";
  online = true;
  discordid = "7";
  jumphistory = [];
}

update_guild_names_example :
    (update_guild 2 session (some (linked_ann ∷ [])) "1" ≡ panics)
    ⊎ ((c : Caches) × (update_guild 2 session (some (linked_ann ∷ [])) "1" ≡ cached c)
        × ((uid : String)
            → lookup uid c.0
              ≡ or_else
                  (lookup uid (add_linked (linked_ann ∷ []) []))
                  (first_name (session.role "1") members uid)))
update_guild_names_example =
    update_guild_names 2 0 session (linked_ann ∷ []) "1" [] members refl refl served (omega arith)
