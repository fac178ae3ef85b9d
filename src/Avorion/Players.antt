-- ===== src/Avorion/Players.antt =====
-- The players and alliances that the server knows, and the handlers of avorion/events/eventhandlers.go
-- for players who join and leave. A player is reached by a pointer there and by its place in the list
-- here. The database, and what only the logger reads, are left out.
pub mod Laws
pub mod Tests
use avorioncontrol.Prelude.{
  ℕ, zero, suc, String, ◌==◌, ◌<>◌, Bool, true, false, Option, none, some, List, [], ◌∷◌, ◌++◌, ℤ,
  pos, negsuc, ltb, length, get_elem?, if◌then◌else◌,
}
use avorioncontrol.Prelude.Decimal.{is_int, atoi, read_number, read_natural, read_digits}
use avorioncontrol.Avorion.Server.{Player, Alliance, Server}

-- The loop of `Player`
unfoldable pub player_in : String → List Player → Option Player
player_in plrstr [] = none
player_in plrstr (p ∷ rest) =
    let later = player_in plrstr rest in if p.index == plrstr then some p else later

-- `Server.Player`
unfoldable pub player : String → Server → Option Player
player plrstr s = player_in plrstr s.players

-- The loop of `Alliance`
unfoldable pub alliance_in : String → List Alliance → Option Alliance
alliance_in index [] = none
alliance_in index (a ∷ rest) =
    let later = alliance_in index rest in if a.alliance_index == index then some a else later

-- `Server.Alliance`
unfoldable pub alliance : String → Server → Option Alliance
alliance index s = alliance_in index s.alliances

-- The loop of `PlayerFromName`
unfoldable pub named_in : String → List Player → Option Player
named_in wanted [] = none
named_in wanted (p ∷ rest) =
    let later = named_in wanted rest in if p.player_name == wanted then some p else later

-- `PlayerFromName`
unfoldable pub player_from_name : String → Server → Option Player
player_from_name wanted s = named_in wanted s.players

-- A write through the pointer that `Player` answers.
unfoldable pub update_player : String → (Player → Player) → List Player → List Player
update_player plrstr f [] = []
update_player plrstr f (p ∷ rest) =
    let later = update_player plrstr f rest in if p.index == plrstr then f p ∷ rest else p ∷ later

-- A write through the pointer that `Alliance` answers.
unfoldable pub update_alliance : String → (Alliance → Alliance) → List Alliance → List Alliance
update_alliance index f [] = []
update_alliance index f (a ∷ rest) =
    let later = update_alliance index f rest in
    if a.alliance_index == index then f a ∷ rest else a ∷ later

-- `SetOnline`
unfoldable pub set_online : Bool → Player → Player
set_online o p = record p { online = o }

-- `n + 1` and `n - 1` on Go's integers.
abbrev pub inc : ℤ → ℤ
inc (pos n) = pos (suc n)
inc (negsuc zero) = pos 0
inc (negsuc (suc n)) = negsuc n

abbrev pub dec : ℤ → ℤ
dec (pos (suc n)) = pos n
dec (pos zero) = negsuc 0
dec (negsuc n) = negsuc (suc n)

-- The loop of `updateOnlineString`
unfoldable pub online_string : String → List Player → String
online_string so_far [] = so_far
online_string so_far (p ∷ rest) =
    let joined = online_string ((so_far <> "\n") <> p.player_name) rest in
    let skipped = online_string so_far rest in if p.online then joined else skipped

-- `updateOnlineString`
unfoldable pub update_online_string : Server → Server
update_online_string s = record s { onlineplayers = online_string "" s.players }

-- `AddPlayerOnline`
unfoldable pub add_player_online : Server → Server
add_player_online s =
    update_online_string (record s { onlineplayercount = inc s.onlineplayercount })

-- `SubPlayerOnline`
unfoldable pub sub_player_online : Server → Server
sub_player_online s =
    update_online_string (record s { onlineplayercount = dec s.onlineplayercount })

-- What a call leads to: the program goes on, ends by `os.Exit`, or panics.
pub data Outcome {ℓ} (A : Type ℓ) : Type ℓ where
  goes_on : A → Outcome A
  exits : Outcome A
  panics : Outcome A

-- What the game answers to the RCON command: an error, data that the regular expression refuses, or
-- the submatches of the data.
pub data Answer : Type 0 where
  failed : Answer
  bad_data : Answer
  data_of : List String → Answer

-- The data that `NewPlayer` goes on with; none on a panic.
unfoldable pub player_data : Answer → List String → Option (List String)
player_data answer d =
    if ltb (length d) 15
    then (elim answer [ failed ↦ some d | bad_data ↦ none | data_of d' ↦ some d' ])
    else some d

-- The end of `NewPlayer`: `d[14]` panics where there is no such element.
unfoldable pub register_player : String → Option (List String) → Server → Outcome Server
register_player index none s = panics
register_player index (some d) s = elim (get_elem? d 14) [
  | none ↦ panics
  | some called ↦ goes_on (record s {
    players =
        s.players
        ++ record {
          index = index;
          player_name = called;
          online = false;
          discordid = "";
          jumphistory = [];
        }
          ∷ [];
    playercount = inc s.playercount;
  })
]

-- `NewPlayer`, over the answer of the game.
unfoldable pub new_player : Answer → String → List String → Server → Outcome Server
new_player answer index d s =
    if is_int index then register_player index (player_data answer d) s else exits

-- The new player is the last of the list.
unfoldable pub set_last_online : List Player → List Player
set_last_online [] = []
set_last_online (p ∷ []) = set_online true p ∷ []
set_last_online (p ∷ q ∷ rest) = p ∷ set_last_online (q ∷ rest)

-- What follows in `handleEventPlayerJoin`
unfoldable pub join_new : Outcome Server → Outcome Server
join_new exits = exits
join_new panics = panics
join_new (goes_on s) =
    goes_on (add_player_online (record s { players = set_last_online s.players }))

-- `handleEventPlayerJoin`, over the index and all of the submatches of the event.
unfoldable pub handle_player_join : Answer → String → List String → Server → Outcome Server
handle_player_join answer index m s =
    let added = join_new (new_player answer index m s) in
    elim (player index s) [
      | none ↦ added
      | some p ↦ goes_on (
          add_player_online
            (record s { players = update_player index (set_online true) s.players }))
    ]

-- `handleEventPlayerLeft`
unfoldable pub handle_player_left : String → Server → Server
handle_player_left index s = elim (player index s) [
  | none ↦ s
  | some p ↦
      sub_player_online (record s { players = update_player index (set_online false) s.players })
]
