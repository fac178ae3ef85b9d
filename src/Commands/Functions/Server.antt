-- ===== src/Commands/Functions/Server.antt =====
-- discord/commands/serverCmnd.go: the server started, stopped and restarted, over the functions of
-- Avorion/Lifecycle. The message that `startServerCmnd` sends besides its error is left out.
use avorioncontrol.Prelude.{
  ℕ, String, ◌<>◌, ◌≡◌, refl, inl, inr, true, false, Option, none, some, if◌then◌else◌, Bool-cases,
  subst, arith,
}
use avorioncontrol.Avorion.Server.{Server, is_up, status_int}
use avorioncontrol.Avorion.Lifecycle.{Attempt, Ending, start, stop, restart}
use avorioncontrol.Avorion.Lifecycle.Laws.{IsDataOnly, start_is_online, stop_exactly}
use avorioncontrol.Commands.Errors.{CommandError, CommandRef}
use avorioncontrol.Commands.Functions.{command_error}

-- The error that a function answers, and the server.
unfoldable pub reported :
    CommandRef → (before : String) → Option String × Server → Option CommandError × Server
reported cmd before (none, s) = (none, s)
reported cmd before (some err, s) = (some (command_error cmd (before <> err)), s)

-- `restartServerCmnd`
unfoldable pub restart_server_cmnd :
    CommandRef
    → (load : Server → Server) → (now : ℕ) → Ending
    → Attempt
    → Server
    → Option CommandError × Server
restart_server_cmnd cmd load now e a s =
    reported cmd "Error restarting Avorion: " (restart load now e a s)

-- `stopServerCmnd`
unfoldable pub stop_server_cmnd : CommandRef → Ending → Server → Option CommandError × Server
stop_server_cmnd cmd e s =
    if is_up s.cmd then reported cmd "Error stopping Avorion: " (stop e s) else (none, s)

-- `startServerCmnd`
unfoldable pub start_server_cmnd :
    CommandRef → (load : Server → Server) → Attempt → Server → Option CommandError × Server
start_server_cmnd cmd load a s =
    if is_up s.cmd then (none, s) else reported cmd "Error starting Avorion: " (start load a s)

reported_server :
    (cmd : CommandRef) (before : String) (r : Option String × Server)
    → (reported cmd before r).1 ≡ r.1
unfolding reported
reported_server cmd before (none, s) = refl
reported_server cmd before (some err, s) = refl

none-reported :
    (cmd : CommandRef) (before : String) (r : Option String × Server)
    → (reported cmd before r).0 ≡ none
    → r.0 ≡ none
unfolding reported
none-reported cmd before (none, s) e = refl
none-reported cmd before (some err, s) e = ground (arith, e)

stop_cmnd_down :
    (cmd : CommandRef) (e : Ending) (s : Server) → is_up (stop_server_cmnd cmd e s).1.cmd ≡ false
unfolding stop_server_cmnd
stop_cmnd_down cmd e s = elim (Bool-cases (is_up s.cmd)) [
  | inl up ↦ rw (stop_server_cmnd, up, reported_server) (stop_exactly e s).0
  | inr down ↦ rw (stop_server_cmnd, down) down
]

-- After a start command without an error the server is reported online, and a stop command after it
-- takes the process down, whatever it answers: the server was down, no restart and no stop was under
-- way, the process can be started, and the work on the data leaves the flags and the command alone.
pub server_commands_act :
    (cmd : CommandRef) (load : Server → Server) (e : Ending) (a : Attempt) (s : Server)
    → IsDataOnly load
    → a.started ≡ true
    → s.state.isrestarting ≡ false
    → s.state.isstopping ≡ false
    → is_up s.cmd ≡ false
    → (start_server_cmnd cmd load a s).0 ≡ none
    → (status_int (start_server_cmnd cmd load a s).1 ≡ 1)
      × (is_up (stop_server_cmnd cmd e (start_server_cmnd cmd load a s).1).1.cmd ≡ false)
unfolding start_server_cmnd
server_commands_act cmd load e a s keeps started restarting stopping down none_said =
    let said =
      subst
        (λ b.
          (if b then (none, s) else reported cmd "Error starting Avorion: " (start load a s)).0
          ≡ none)
        down none_said in
    (
      rw (start_server_cmnd, down, reported_server)
          (start_is_online load a s keeps started restarting stopping
            (none-reported cmd "Error starting Avorion: " (start load a s) said)).1,
      stop_cmnd_down cmd e (start_server_cmnd cmd load a s).1,
    )
