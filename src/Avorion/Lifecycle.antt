-- ===== src/Avorion/Lifecycle.antt =====
-- Starting, stopping and restarting the process: `Start`, `Stop` and `Restart` of avorion/server.go
-- and the goroutine that waits for the process. What the configuration, the database and the process
-- do is an argument. Events, scripts and messages to Discord are left out.

pub mod Laws
pub mod Steps
pub mod Tests
use avorioncontrol.Prelude.{
  ℕ, ◌+◌, ◌-◌, String, ◌<>◌, Bool, true, false, not, ◌||◌, ◌&&◌, Option, none, some, List, [], ◌∷◌,
  ℤ, pos, negsuc, ltb, eqb_ℤ, ◌⊎◌, inl, inr, if◌then◌else◌,
}
use avorioncontrol.Ifaces.Enums.{server_online}
use avorioncontrol.Avorion.Server.{RunState, Cmd, Sector, Server, is_up, crashed}

-- `state.isstarting = b`
unfoldable pub set_starting : Bool → Server → Server
set_starting b s = record s { state = record s.state { isstarting = b } }

-- `state.isstopping = b`
unfoldable pub set_stopping : Bool → Server → Server
set_stopping b s = record s { state = record s.state { isstopping = b } }

-- `state.isrestarting = b`
unfoldable pub set_restarting : Bool → Server → Server
set_restarting b s = record s { state = record s.state { isrestarting = b } }

-- The data that `Start` empties, and the name that it takes from the configuration.
unfoldable pub reset : String → Server → Server
reset galaxy s = record s {
  players = [];
  sectors = [];
  onlineplayercount = pos 0;
  statusoutput = "";
  name = galaxy;
}

-- `s.sectors[sec.X][sec.Y] = sec`
unfoldable pub put_sector : Sector → List Sector → List Sector
put_sector new [] = new ∷ []
put_sector new (first ∷ rest) =
    let later = put_sector new rest in
    if eqb_ℤ first.sector_x new.sector_x && eqb_ℤ first.sector_y new.sector_y
    then new ∷ rest
    else first ∷ later

-- The loop over the sectors that the database answers.
unfoldable pub put_sectors : List Sector → List Sector → List Sector
put_sectors [] known = known
put_sectors (sec ∷ rest) known = put_sectors rest (put_sector sec known)

-- `sectorcount++` for each of them.
unfoldable pub count_sectors : List Sector → ℕ
count_sectors [] = 0
count_sectors (sec ∷ rest) = 1 + count_sectors rest

-- What `Start` asks for before it makes the command: whether the mod configuration is written, the
-- error of `gamedb.New`, and the error or the sectors of `Init`.
pub record Setup : Type 0 where
  pub mods_written : Bool
  pub opened : Option String
  pub init_answer : String ⊎ List Sector

-- The error of the first of them that fails, or the sectors.
unfoldable pub set_up : Setup → String ⊎ List Sector
set_up e =
    if e.mods_written
    then (elim (e.opened) [
      | some err ↦ inl err
      | none ↦ elim (e.init_answer) [ inl err ↦ inl ("GameDB: " <> err) | inr secs ↦ inr secs ]
    ])
    else inl "Failed to generate modconfig.lua file"

-- The sectors of the database, and a command that is not started.
unfoldable pub fill : List Sector → Server → Server
fill secs s = record s {
  sectors = put_sectors secs s.sectors;
  sectorcount = pos (count_sectors secs);
  cmd = some (record { process = false; process_state = none });
}

-- `s.Cmd.Start()`, which may fail.
unfoldable pub run_cmd : (started : Bool) → Server → Server
run_cmd started s = record s { cmd = some (record { process = started; process_state = none }) }

-- The exit code that `Wait` leaves in `ProcessState`, where there is a process.
unfoldable pub wait_cmd : ℤ → Option Cmd → Option Cmd
wait_cmd code none = none
wait_cmd code (some c) =
    some (record c { process_state = if c.process then some code else c.process_state })

-- The goroutine of `Start` once the process has ended, up to the closing of the channel.
unfoldable pub exit_process : ℤ → Server → Server
exit_process code s =
    let ended = record s { cmd = wait_cmd code s.cmd } in
    if eqb_ℤ code (pos 0) then ended else crashed ended

-- The first case of the `select` of `Start`, at the time `now`; `load` is the work on the data.
unfoldable pub come_up : (load : Server → Server) → (now : ℕ) → Server → Server
come_up load now s =
    let loaded = load (record s { state = record s.state { iscrashed = false } }) in
    record loaded { state = record loaded.state { last = now } }

-- The case of the `select` of `Start` that is taken.
pub data Select : Type 0 where
  ready : (now : ℕ) → Select
  closed : (code : ℤ) → Select
  late : Select

-- An attempt: the galaxy, the answers of the set-up, the error of `StdinPipe`, whether the process
-- starts, and the case of the `select`.
pub record Attempt : Type 0 where
  pub galaxy : String
  pub setup : Setup
  pub piped : Option String
  pub started : Bool
  pub outcome : Select

-- The `select` of `Start`, over a running command.
unfoldable pub select_start : (load : Server → Server) → Select → Server → Option String × Server
select_start load (ready now) s = (none, come_up load now s)
select_start load (closed code) s = (some "avorion initialization failed", exit_process code s)
select_start load late s = (some "avorion took over 5 minutes to start", s)

-- `Start` from `StdinPipe` on, over its error.
unfoldable pub after_pipe :
    (load : Server → Server) → Attempt → Server → Option String → Option String × Server
after_pipe load a s (some err) = (some err, s)
after_pipe load a s none = select_start load a.outcome (run_cmd a.started s)

-- `Start` over the answer of the set-up.
unfoldable pub after_set_up :
    (load : Server → Server) → Attempt → Server → String ⊎ List Sector → Option String × Server
after_set_up load a s (inl err) = (some err, s)
after_set_up load a s (inr secs) = after_pipe load a (fill secs s) a.piped

-- `Start`, up to its deferred function.
unfoldable pub try_start : (load : Server → Server) → Attempt → Server → Option String × Server
try_start load a s =
    if is_up s.cmd
    then (some "Cannot start server thats already running", s)
    else after_set_up load a (reset a.galaxy s) (set_up a.setup)

-- `Start`
unfoldable pub start : (load : Server → Server) → Attempt → Server → Option String × Server
start load a s =
    let (err, after) = try_start load a (set_starting true s) in (err, set_starting false after)

-- How the process ends after the commands `save` and `stop`: in time, or killed.
pub data Ending : Type 0 where
  in_time : (code : ℤ) → Ending
  killed : (code : ℤ) → Ending

-- The `select` of `Stop`
unfoldable pub select_stop : Ending → Server → Option String × Server
select_stop (in_time code) s = (none, exit_process code s)
select_stop (killed code) s =
    (some "Avorion took too long to exit and had to be killed", exit_process code (crashed s))

-- `Stop`, up to its deferred function.
unfoldable pub try_stop : Ending → Server → Option String × Server
try_stop e s =
    if is_up s.cmd then select_stop e (record s { onlineplayercount = pos 0 }) else (none, s)

-- `Stop`
unfoldable pub stop : Ending → Server → Option String × Server
stop e s = let (err, after) = try_stop e (set_stopping true s) in (err, set_stopping false after)

-- `Restart` at the time `now`, in nanoseconds.
unfoldable pub restart :
    (load : Server → Server) → (now : ℕ) → Ending → Attempt → Server → Option String × Server
restart load now e a s =
    if ltb 10 (now - s.state.last)
    then (if s.state.isrestarting || s.state.isstarting
        then (none, s)
        else let (err, after) = start load a (set_restarting true (stop e s).1) in
          (err, set_restarting false after))
    else (some "Server was just restarted", s)
