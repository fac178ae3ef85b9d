-- ===== src/Avorion/Sectors.antt =====
-- The sectors that the server knows (`Sector` and `loadSectors` of avorion/server.go) and the jumps that
-- ships make into them (`AddJump` of avorion/player.go and avorion/alliance.go, and the handler of the
-- jump event). What the database keeps is left out, and `sort.Sort` is an argument.
pub mod Laws
pub mod Loading
pub mod Tests
use avorioncontrol.Prelude.{
  ℕ, String, ◌==◌, Bool, ◌&&◌, Option, none, some, List, [], ◌∷◌, ◌++◌, map, ℤ, ltb, leb, eqb_ℤ,
  if◌then◌else◌,
}
use avorioncontrol.Prelude.Decimal.{show_ℤ, parse_int_32}
use avorioncontrol.Avorion.Jumps.{ShipCoordData, unix, add_jump}
use avorioncontrol.Avorion.Server.{JumpInfo, Sector, Player, Alliance, Server}
use avorioncontrol.Avorion.Players.{player, alliance, update_player, update_alliance, inc}

-- The two coordinates are those of the sector.
unfoldable pub is_at : ℤ → ℤ → Sector → Bool
is_at x y sec = eqb_ℤ sec.sector_x x && eqb_ℤ sec.sector_y y

-- `s.sectors[x][y]`
unfoldable pub sector_in : ℤ → ℤ → List Sector → Option Sector
sector_in x y [] = none
sector_in x y (sec ∷ rest) =
    let later = sector_in x y rest in if is_at x y sec then some sec else later

-- `Sector`, for its change of the server.
unfoldable pub track_sector : ℤ → ℤ → Server → Server
track_sector x y s = elim (sector_in x y s.sectors) [
  | some sec ↦ s
  | none ↦ record s {
    sectors = s.sectors ++ record { sector_x = x; sector_y = y; sector_history = [] } ∷ [];
    sectorcount = inc s.sectorcount;
  }
]

-- A write through the pointer that `Sector` answers: the jump at the end of its history.
unfoldable pub append_jump : ℤ → ℤ → JumpInfo → List Sector → List Sector
append_jump x y jump [] = []
append_jump x y jump (sec ∷ rest) =
    let later = append_jump x y jump rest in
    if is_at x y sec
    then record sec { sector_history = sec.sector_history ++ jump ∷ [] } ∷ rest
    else sec ∷ later

-- `Sector`, and the jump appended to the history of what it answers.
unfoldable pub record_jump : JumpInfo → Server → Server
record_jump jump s =
    let tracked = track_sector jump.jump_x jump.jump_y s in
    record tracked { sectors = append_jump jump.jump_x jump.jump_y jump tracked.sectors }

-- The `JumpInfo` of a jump, over the number that `ParseInt` answers for the index.
unfoldable pub jump_of : String → ℤ → ℕ → ShipCoordData → JumpInfo
jump_of kind fid now sc = record {
  jump_name = sc.name;
  kind = kind;
  fid = fid;
  jump_x = sc.x;
  jump_y = sc.y;
  jump_time = now;
}

-- `Player.AddJump`
unfoldable pub player_add_jump : String → ShipCoordData → ℕ → Server → Server
player_add_jump index sc now s =
    record_jump (jump_of "player" (parse_int_32 index) now sc) (record s {
      players =
          update_player index (λ p. record p { jumphistory = add_jump sc now p.jumphistory })
            s.players;
    })

-- `Alliance.AddJump`
unfoldable pub alliance_add_jump : String → ShipCoordData → ℕ → Server → Server
alliance_add_jump index sc now s =
    record_jump (jump_of "alliance" (parse_int_32 index) now sc) (record s {
      alliances =
          update_alliance index
            (λ a. record a { alliance_history = add_jump sc now a.alliance_history }) s.alliances;
    })

-- `handleEventShipJump`, over the parts of the event: the index, and the jump.
unfoldable pub handle_ship_jump : String → ShipCoordData → ℕ → Server → Server
handle_ship_jump index sc now s = elim (player index s) [
  | some p ↦ player_add_jump index sc now s
  | none ↦ elim (alliance index s) [ some a ↦ alliance_add_jump index sc now s | none ↦ s ]
]

-- The jump as `loadSectors` copies it into a history.
unfoldable pub ship_jump : JumpInfo → ShipCoordData
ship_jump j = record { x = j.jump_x; y = j.jump_y; name = j.jump_name; time = j.jump_time }

-- The jumps of a sector that `loadSectors` appends for the index, over `FormatInt` of the faction.
unfoldable pub jumps_of : String → List JumpInfo → List ShipCoordData
jumps_of index [] = []
jumps_of index (j ∷ rest) =
    let later = jumps_of index rest in if index == show_ℤ j.fid then ship_jump j ∷ later else later

-- The same over all sectors, in the order in which the maps are visited.
unfoldable pub all_jumps_of : String → List Sector → List ShipCoordData
all_jumps_of index [] = []
all_jumps_of index (sec ∷ rest) = jumps_of index sec.sector_history ++ all_jumps_of index rest

-- `jumpsByTime.Less`, over the two elements: it compares seconds.
unfoldable pub less : ShipCoordData → ShipCoordData → Bool
less j k = ltb (unix j.time) (unix k.time)

-- `sort.Sort`, over `Less`.
abbrev pub Sort : Type 0
Sort = (ShipCoordData → ShipCoordData → Bool) → List ShipCoordData → List ShipCoordData

-- What `loadSectors` makes of the history of an index.
unfoldable pub load_history : Sort → List Sector → String → List ShipCoordData → List ShipCoordData
load_history sort secs index history = sort less (history ++ all_jumps_of index secs)

unfoldable pub load_player : Sort → List Sector → Player → Player
load_player sort secs p = record p { jumphistory = load_history sort secs p.index p.jumphistory }

unfoldable pub load_alliance : Sort → List Sector → Alliance → Alliance
load_alliance sort secs a = record a {
  alliance_history = load_history sort secs a.alliance_index a.alliance_history;
}

-- `loadSectors`
unfoldable pub load_sectors : Sort → Server → Server
load_sectors sort s = record s {
  players = map (load_player sort s.sectors) s.players;
  alliances = map (load_alliance sort s.sectors) s.alliances;
}
