-- ===== src/Commands/Functions/Game.antt =====
-- The commands that ask the game: `RunCommand` of avorion/server.go, rconCmnd.go, statusCmnd.go,
-- checkHangCmnd.go, pingCmnd.go and pongCmnd.go of discord/commands. `exec` is the RCON program: the
-- output of a command, or none if it failed. The lock of `RunCommand` and the message that announces
-- the check of the server are left out.
use Prim.Native.Char.{Char, code}
use text.Mathlib.Text.{starts_with}
use avorioncontrol.Prelude.{
  ℕ, String, ◌<>◌, ◌==◌, Bool, true, false, not, ◌&&◌, ◌||◌, Option, none, some, List, [], ◌∷◌, pos,
  negsuc, ◌⊎◌, inl, inr, eqb, ltb, length, take, drop, bind, if◌then◌else◌,
}
use avorioncontrol.Ifaces.Enums.{
  server_offline, server_starting, server_restarting, server_stopping, server_crashed_offline,
}
use avorioncontrol.Avorion.Server.{Server, is_up, status_int, crashed}
use avorioncontrol.Commands.Args.{has_num_args}
use avorioncontrol.Commands.Output.{CommandOutput, add_line, construct}
use avorioncontrol.Commands.Errors.{CommandError, CommandRef}
use avorioncontrol.Commands.Functions.{
  output_of, invalid_argument, command_error, wrong_number_plain,
}
use avorioncontrol.Commands.Functions.Admin.{join_words}

-- No character is left.
unfoldable pub is_end : String → Bool
is_end String.[] = true
is_end (String.◌∷◌ c s) = false

-- `strings.TrimSuffix(out, "\n")`
unfoldable pub trim_line_feed : String → String
trim_line_feed String.[] = ""
trim_line_feed (String.◌∷◌ c s) =
    let rest = trim_line_feed s in if eqb (code c) 10 && is_end s then "" else String.◌∷◌ c rest

-- `RunCommand`: the error on the left, the output on the right.
unfoldable pub run_server_command :
    (exec : String → Option String) → Server → String → String ⊎ String
unfolding trim_line_feed
run_server_command exec s c =
    if is_up s.cmd
    then (elim (exec c) [
      | none ↦ inl ("Failed to run the following command: " <> c)
      | some out ↦
          if starts_with out "Unknown command: "
          then inl "Invalid command provided"
          else inr (trim_line_feed out)
    ])
    else inl "Server is not online"

-- A character before the first line.
unfoldable pub before_first : Char → List String → List String
before_first c [] = String.◌∷◌ c "" ∷ []
before_first c (line ∷ lines) = String.◌∷◌ c line ∷ lines

-- `strings.Split(out, "\n")`
unfoldable pub split_lines : String → List String
unfolding before_first
split_lines String.[] = "" ∷ []
split_lines (String.◌∷◌ c s) =
    let rest = split_lines s in if eqb (code c) 10 then "" ∷ rest else before_first c rest

-- `strings.ReplaceAll(out, " ", "") == ""`
unfoldable pub is_blank : String → Bool
is_blank String.[] = true
is_blank (String.◌∷◌ c s) = eqb (code c) 32 && is_blank s

-- `AddLine` of every line.
unfoldable pub add_lines : List String → CommandOutput → CommandOutput
add_lines [] out = out
add_lines (line ∷ lines) out = add_lines lines (add_line line out)

-- What a function returns here: an output or none, and an error or none.
abbrev pub Answered : Type 0
Answered = Option CommandOutput × Option CommandError

abbrev pub failed_to_run : CommandRef → (rcmd err : String) → Answered
failed_to_run cmd rcmd err = (
  none,
  some (command_error cmd ("Failed to run `" <> (rcmd <> ("`. Error:\n```" <> (err <> "```"))))),
)

-- The output of `rconCmnd`
unfoldable pub rcon_output : CommandRef → (rcmd rconout : String) → CommandOutput
unfolding add_lines split_lines
rcon_output cmd rcmd rconout =
    construct
      (record (add_lines (split_lines rconout)
        (record (output_of cmd "RCON") { description = rcmd })) { quoted = true })

-- `rconCmnd` behind the call of `RunCommand`.
unfoldable pub show_rcon : CommandRef → (rcmd : String) → String ⊎ String → Answered
unfolding is_blank rcon_output
show_rcon cmd rcmd (inl err) = failed_to_run cmd rcmd err
show_rcon cmd rcmd (inr rconout) =
    if is_blank rconout then (none, none) else (some (rcon_output cmd rcmd rconout), none)

-- `rconCmnd`
unfoldable pub rcon_cmnd :
    CommandRef → (exec : String → Option String) → List String → Server → Option Answered
unfolding run_server_command show_rcon
rcon_cmnd cmd exec a srv = bind (has_num_args a (pos 1) (negsuc 0)) (λ enough.
    if enough
    then (let rcmd = join_words (drop 1 a) in
        some (show_rcon cmd rcmd (run_server_command exec srv rcmd)))
    else some (none, some (invalid_argument cmd (wrong_number_plain cmd))))

-- `statusCmnd` behind the call of `RunCommand`; the slice of the first ten lines panics on fewer.
unfoldable pub show_status : CommandRef → String ⊎ String → Option Answered
unfolding is_blank add_lines split_lines
show_status cmd (inl err) = some (failed_to_run cmd "status" err)
show_status cmd (inr ret) =
    let lines = split_lines ret in
    if is_blank ret
    then some (none, some (command_error cmd "Invalid output recieved from status"))
    else if ltb (length lines) 10
    then none
    else some (
      some (
          construct (
            add_lines (take 10 lines)
              (record (output_of cmd "Server Status") { monospace = true }))),
      none,
    )

-- `statusCmnd`
unfoldable pub status_cmnd : CommandRef → (exec : String → Option String) → Server → Option Answered
unfolding run_server_command show_status
status_cmnd cmd exec srv = show_status cmd (run_server_command exec srv "status")

-- `pingCmd` and `pongCmd`
unfoldable pub ping_cmd : CommandRef → CommandOutput
ping_cmd cmd = construct (add_line "Pong!" (output_of cmd "Ping"))

unfoldable pub pong_cmd : CommandRef → CommandOutput
pong_cmd cmd = construct (add_line "Ping~" (output_of cmd "Pong"))

-- What `checkHangCmnd` leaves: its output, the variable `checkingState`, the server, and whether the
-- goroutine is started that restarts the server and clears the variable.
pub record HangCheck : Type 0 where
  pub shown : CommandOutput
  pub checking : Bool
  pub server : Server
  pub restarting : Bool

unfoldable pub says : CommandRef → String → CommandOutput
says cmd line =
    construct (add_line line (record (output_of cmd "Server Hang Check") { quoted = true }))

-- The switch: the line of the case that is met.
unfoldable pub no_check : (checking : Bool) → (state : ℕ) → Option String
no_check checking state =
    if checking
    then some "Already checking server state"
    else if eqb state server_offline
    then some "Server is currently offline, and was taken down normally"
    else if ltb server_crashed_offline state
    then some "Server crash state has already been detected, and is recovering"
    else if eqb state server_starting
    then some "Server is currently being started"
    else if eqb state server_restarting
    then some "Server is currently being restarted"
    else if eqb state server_stopping
    then some "Server is being stopped"
    else none

-- The test of the error of `RunCommand`: one that is not of a server that is down.
unfoldable pub hangs : String ⊎ String → Bool
hangs (inl err) = not (err == "Server is not online")
hangs (inr out) = false

-- `checkHangCmnd` behind its switch: whether the server is asked, and whether it hangs.
unfoldable pub probe : CommandRef → (asked hanging : Bool) → Server → HangCheck
probe cmd true true srv = record {
  shown = says cmd "Server is hanging or is down, starting restart process";
  checking = true;
  server = crashed srv;
  restarting = true;
}
probe cmd true false srv = record {
  shown = says cmd "Server is online";
  checking = true;
  server = srv;
  restarting = false;
}
probe cmd false hanging srv = record {
  shown = says cmd "Server is currently offline";
  checking = false;
  server = srv;
  restarting = false;
}

-- The case of the switch, or what follows it.
unfoldable pub or_probe :
    CommandRef → (checking : Bool) → Option String → (probed : HangCheck) → Server → HangCheck
or_probe cmd checking none probed srv = probed
or_probe cmd checking (some line) probed srv = record {
  shown = says cmd line;
  checking = checking;
  server = srv;
  restarting = false;
}

-- `checkHangCmnd`, over `checkingState`.
unfoldable pub check_hang_cmnd :
    CommandRef → (exec : String → Option String) → (checking : Bool) → Server → HangCheck
unfolding no_check probe or_probe run_server_command hangs
check_hang_cmnd cmd exec checking srv =
    let state = status_int srv in
    let hanging = hangs (run_server_command exec srv "echo Server status check") in
    or_probe cmd checking (no_check checking state)
      (probe cmd (is_up srv.cmd || eqb state server_crashed_offline) hanging srv) srv
