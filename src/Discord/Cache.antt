-- ===== src/Discord/Cache.antt =====
-- The caches of names and colors of discord/datacache.go. What discordgo answers is the record
-- `Session`; a map is visited in the order of an association list. The number of pages of members that
-- are fetched is not known beforehand, so the loop takes fuel, and `none` of it means that it ran out.
pub mod Laws
pub mod Fetch
pub mod Tests
use Prim.Native.Char.{Char}
use avorioncontrol.Prelude.{
  ℕ, zero, suc, ◌%◌, count, String, ◌<>◌, ◌==◌, Bool, true, false, not, ◌&&◌, Option, none, some,
  List, [], ◌∷◌, ◌++◌, ℤ, ltb, eqb, any, bind, Map, lookup, insert, if◌then◌else◌,
}
use avorioncontrol.Prelude.Decimal.{hex}
use avorioncontrol.Avorion.Server.{Player}
use avorioncontrol.Discord.Roles.{rolesort}

-- What is read of a role and of a member.
pub record Role : Type 0 where
  pub id : String
  pub position : ℤ
  pub color : ℕ

pub record Member : Type 0 where
  pub user_id : String
  pub username : String
  pub nick : String
  pub role_ids : List String

-- `CachedColor`
pub record CachedColor : Type 0 where
  pub integer : ℕ
  pub string : String
  pub short : String

-- `DataCache`
pub record DataCache : Type 0 where
  pub guildcache : Map Bool
  pub namecache : Map (Map String)
  pub colorcache : Map (Map CachedColor)

-- `State.Guild`, `GuildRoles`, `GuildMembers` (the members behind one, at most 1000) and `State.Role`.
pub record Session : Type 0 where
  pub guild : String → Bool
  pub guild_roles : String → Option (List Role)
  pub guild_members : (gid last : String) → Option (List Member)
  pub role : (gid rid : String) → Option Role

-- Every second character, from the first on if `taken`.
unfoldable pub every_second : (taken : Bool) → String → String
every_second taken String.[] = ""
every_second taken (String.◌∷◌ c s) =
    let rest = every_second (not taken) s in if taken then String.◌∷◌ c rest else rest

-- The parts of `^(.).(.).(.).$` in a line; without a match the slice of the submatches panics, `none`.
unfoldable pub short_of : String → Option String
unfolding every_second
short_of s = if eqb (count s) 6 then some (every_second true s) else none

-- The entry of a color.
unfoldable pub cached_color : ℕ → Option CachedColor
unfolding short_of
cached_color color =
    if eqb color 0
    then some (record { integer = 0; string = ""; short = "" })
    else (let string = hex (color % 16777216) in
        bind (short_of string)
          (λ short. some (record { integer = color; string = string; short = short })))

-- The names of the players that are linked.
unfoldable pub add_linked : List Player → Map String → Map String
add_linked [] names = names
add_linked (p ∷ players) names =
    add_linked players (if p.discordid == "" then names else insert p.discordid p.player_name names)

-- The roles of a member; `none` is the `continue MEMBERGET`.
unfoldable pub user_roles : (String → Option Role) → List String → Option (List Role)
user_roles role [] = some []
user_roles role (rid ∷ rids) =
    let rest = user_roles role rids in bind (role rid) (λ r. bind rest (λ rs. some (r ∷ rs)))

-- The first color of a role that the guild has too, 0 without one.
unfoldable pub color_of : (guildroles userroles : List Role) → ℕ
color_of guildroles [] = 0
color_of guildroles (mr ∷ userroles) =
    let later = color_of guildroles userroles in
    if not (eqb mr.color 0) && any (λ gr. mr.id == gr.id) guildroles then mr.color else later

-- The name of a member who is not linked.
unfoldable pub own_name : Member → String
own_name m = if m.nick == "" then m.username else m.nick

-- The name of a member, whose id may have one already.
unfoldable pub name_of : Map String → Member → String
unfolding own_name
name_of names m = elim (lookup m.user_id names) [ some pname ↦ pname | none ↦ own_name m ]

abbrev pub Caches : Type 0
Caches = Map String × Map CachedColor

-- One round of the loop over the members, with its roles.
unfoldable pub cache_member : (guildroles userroles : List Role) → Member → Caches → Option Caches
cache_member guildroles userroles m (names, colors) =
    bind (cached_color (color_of guildroles (rolesort (λ r. r.position) userroles)))
      (λ entry. some (insert m.user_id (name_of names m) names, insert m.user_id entry colors))

-- The loop over the members of a guild.
unfoldable pub cache_members :
    (String → Option Role) → (guildroles : List Role) → List Member → Caches → Option Caches
cache_members role guildroles [] caches = some caches
cache_members role guildroles (m ∷ members) caches = elim (user_roles role m.role_ids) [
  | none ↦ cache_members role guildroles members caches
  | some userroles ↦
      bind (cache_member guildroles userroles m caches)
        (λ after. cache_members role guildroles members after)
]

-- The id behind which the next page of members begins.
unfoldable pub last_id : String → List Member → String
last_id last [] = last
last_id last (m ∷ members) = last_id m.user_id members

-- The members of a guild, page by page; the second `none` is an error of discordgo.
unfoldable pub fetch :
    (pages : String → Option (List Member))
    → (fuel : ℕ) → (last : String) → List Member
    → Option (Option (List Member))
fetch pages zero last members = none
fetch pages (suc fuel) last members = elim (pages last) [
  | none ↦ some none
  | some [] ↦ some (some members)
  | some (m ∷ page) ↦ fetch pages fuel (last_id last (m ∷ page)) (members ++ m ∷ page)
]

-- What a round of the loop over the guilds leaves for its guild, and how it ends the update.
pub data Round : Type 0 where
  cached : Caches → Round
  gives_up : Round
  panics : Round
  no_fuel : Round

-- The entries of a guild, over its members and its roles.
unfoldable pub cache_guild :
    Session
    → (gid : String) → Map String
    → (guildroles : List Role) → Option (Option (List Member))
    → Round
cache_guild s gid names guildroles none = no_fuel
cache_guild s gid names guildroles (some none) = cached (names, [])
cache_guild s gid names guildroles (some (some members)) =
    elim (cache_members (s.role gid) guildroles members (names, [])) [
      | none ↦ panics
      | some caches ↦ cached caches
    ]

-- A round of the loop over the guilds.
unfoldable pub update_guild : (fuel : ℕ) → Session → Option (List Player) → (gid : String) → Round
update_guild fuel s gs gid =
    let names : Map String = elim gs [ none ↦ [] | some players ↦ add_linked players [] ] in
    if s.guild gid
    then (elim (s.guild_roles gid) [
      | none ↦ cached (names, [])
      | some guildroles ↦
          cache_guild s gid names (rolesort (λ r. r.position) guildroles)
            (fetch (s.guild_members gid) fuel "" [])
    ])
    else gives_up

-- What `UpdateCache` comes to.
pub data Update : Type 0 where
  updated : DataCache → Update
  panicked : Update
  exhausted : Update

-- The loop over the guilds, and the exchange of the caches behind it; `d` is the cache before.
unfoldable pub update_guilds :
    (fuel : ℕ)
    → Session
    → Option (List Player)
    → (d : DataCache) → Map Bool
    → Map (Map String)
    → Map (Map CachedColor)
    → Update
update_guilds fuel s gs d [] newnames newcolors =
    updated (record d { namecache = newnames; colorcache = newcolors })
update_guilds fuel s gs d ((gid, false) ∷ guilds) newnames newcolors =
    update_guilds fuel s gs d guilds newnames newcolors
update_guilds fuel s gs d ((gid, true) ∷ guilds) newnames newcolors =
    elim (update_guild fuel s gs gid) [
      | cached (names, colors) ↦
          update_guilds fuel s gs d guilds (insert gid names newnames) (insert gid colors newcolors)
      | gives_up ↦ updated d
      | panics ↦ panicked
      | no_fuel ↦ exhausted
    ]

-- `UpdateCache`, without a server if `gs` is nil.
unfoldable pub update_cache : (fuel : ℕ) → Session → Option (List Player) → DataCache → Update
update_cache fuel s gs d = update_guilds fuel s gs d d.guildcache [] []

-- `GetName`
unfoldable pub get_name : (gid uid : String) → DataCache → Option String
get_name gid uid d =
    if gid == ""
    then none
    else if uid == ""
    then none
    else bind (lookup gid d.namecache) (lookup uid)

-- `GetColor`; `none` stands for 0 and two empty texts.
unfoldable pub get_color : (gid uid : String) → DataCache → Option CachedColor
get_color gid uid d =
    if gid == ""
    then none
    else if uid == ""
    then none
    else bind (lookup gid d.colorcache) (lookup uid)

-- `AddGuild`
unfoldable pub add_guild : String → DataCache → DataCache
add_guild gid d = if gid == "" then d else elim (lookup gid d.guildcache) [
  | some known ↦ d
  | none ↦ record d { guildcache = insert gid true d.guildcache }
]
