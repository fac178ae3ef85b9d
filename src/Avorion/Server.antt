-- ===== src/Avorion/Server.antt =====
-- The server of avorion/server.go: its data, the state of its process, and the status that it reports.
-- The two levels of the map of sectors are one list, keyed by both coordinates. Handles of the
-- operating system and of the database, and what only the logger reads, are left out.
pub mod Laws
use avorioncontrol.Prelude.{
  ℕ, ◌+◌, String, ◌==◌, Bool, true, false, ◌&&◌, Option, none, some, List, ℤ, pos, eqb, eqb_ℤ, Map,
  if◌then◌else◌,
}
use avorioncontrol.Ifaces.Enums.{
  server_offline, server_online, server_starting, server_stopping, server_restarting,
  server_crashed_offline,
}
use avorioncontrol.Avorion.Jumps.{ShipCoordData}

-- `RunState`
pub record RunState : Type 0 where
  pub isrestarting : Bool
  pub isstopping : Bool
  pub isstarting : Bool
  pub iscrashed : Bool
  pub last : ℕ

-- What the code reads of an `exec.Cmd`: whether `Process` is set, and the exit code in `ProcessState`.
pub record Cmd : Type 0 where
  pub process : Bool
  pub process_state : Option ℤ

-- `ifaces.JumpInfo`
pub record JumpInfo : Type 0 where
  pub jump_name : String
  pub kind : String
  pub fid : ℤ
  pub jump_x : ℤ
  pub jump_y : ℤ
  pub jump_time : ℕ

-- `ifaces.Sector`
pub record Sector : Type 0 where
  pub sector_x : ℤ
  pub sector_y : ℤ
  pub sector_history : List JumpInfo

-- `Player`
pub record Player : Type 0 where
  pub index : String
  pub player_name : String
  pub online : Bool
  pub discordid : String
  pub jumphistory : List ShipCoordData

-- `Alliance`
pub record Alliance : Type 0 where
  pub alliance_index : String
  pub alliance_name : String
  pub alliance_history : List ShipCoordData

-- `Server`, with the variable `state` of the package.
pub record Server : Type 0 where
  pub state : RunState
  pub cmd : Option Cmd
  pub name : String
  pub players : List Player
  pub alliances : List Alliance
  pub sectors : List Sector
  pub onlineplayers : String
  pub statusoutput : String
  pub onlineplayercount : ℤ
  pub playercount : ℤ
  pub alliancecount : ℤ
  pub sectorcount : ℤ
  pub requests : Map String

-- `IsUp`
unfoldable pub is_up : Option Cmd → Bool
is_up none = false
is_up (some c) = elim (c.process_state) [ some code ↦ false | none ↦ c.process ]

-- `statusInt`
unfoldable pub status_int : Server → ℕ
status_int s =
    let sint =
      if s.state.isrestarting
      then server_restarting
      else if s.state.isstopping
      then server_stopping
      else if s.state.isstarting
      then server_starting
      else if is_up s.cmd
      then server_online
      else server_offline in
    if s.state.iscrashed then server_crashed_offline + sint else sint

-- `ifaces.ServerStatus`, over the type of the game's configuration.
pub record ServerStatus (Ini : Type 0) : Type 0 where
  pub name : String
  pub status : ℕ
  pub players : String
  pub total_players : ℤ
  pub players_online : ℤ
  pub alliances : ℤ
  pub output : String
  pub sectors : ℤ
  pub ini : Option Ini

-- `Status`, over the configured galaxy and the configuration that `GameConfig` answers.
unfoldable pub status_of : {Ini : Type 0} → String → Option Ini → Server → ServerStatus Ini
status_of galaxy config s = record {
  name = if s.name == "" then galaxy else s.name;
  status = status_int s;
  players = s.onlineplayers;
  total_players = s.playercount;
  players_online = s.onlineplayercount;
  alliances = s.alliancecount;
  output = s.statusoutput;
  sectors = s.sectorcount;
  ini = config;
}

-- `CompareStatus`
unfoldable pub compare_status : {Ini : Type 0} → ServerStatus Ini → ServerStatus Ini → Bool
compare_status a b =
    (a.name == b.name)
    && (eqb a.status b.status
        && ((a.players == b.players)
            && (eqb_ℤ a.total_players b.total_players
                && (eqb_ℤ a.players_online b.players_online
                    && (eqb_ℤ a.alliances b.alliances
                        && ((a.output == b.output) && eqb_ℤ a.sectors b.sectors))))))

-- `Crashed`
unfoldable pub crashed : Server → Server
crashed s = record s { state = record s.state { iscrashed = true } }

-- `Recovered`
unfoldable pub recovered : Server → Server
recovered s = record s { state = record s.state { iscrashed = false } }
