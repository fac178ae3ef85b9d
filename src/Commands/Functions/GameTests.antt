-- ===== src/Commands/Functions/GameTests.antt =====
-- The commands that ask the game, on an online server and two RCON programs.
use avorioncontrol.Prelude.{
  All, ◌<>◌, Option, String, ◌≡◌, refl, true, false, none, some, List, [], ◌∷◌, pos, negsuc,
}
use avorioncontrol.Commands.Errors.{CommandRef}
use avorioncontrol.Avorion.Server.{Server, is_up, status_int}
use avorioncontrol.Avorion.Lifecycle.Steps.{new_server}
use avorioncontrol.Commands.Args.{has_num_args}
use text.Mathlib.Text.{starts_with}
use avorioncontrol.Commands.Output.{CommandOutput}
use avorioncontrol.Commands.Output.Content.{joined, printed}
use avorioncontrol.Commands.Functions.Game.{
  failed_to_run, is_blank, run_server_command, trim_line_feed, rcon_cmnd, check_hang_cmnd, no_check,
  or_probe, probe, hangs,
}
use avorioncontrol.Commands.Functions.RconLaws.{is_line, unlines, rcon_shows_lines}
use avorioncontrol.Commands.Functions.Admin.{join_words}

abbrev asking : CommandRef
asking = record { name = "rcon"; description = ""; uuid = ""; loglevel = pos 1 }

abbrev online_server : Server
online_server = record (new_server 0) {
  cmd = some (record { process = true; process_state = none });
}

-- An RCON program that answers two lines to every command, and one that fails.
abbrev two_lines : String → Option String
two_lines c = some "Alice\nBob\n"

abbrev no_answer : String → Option String
no_answer c = none

abbrev asked_for : String
asked_for = join_words ("/players" ∷ [])

two_words : has_num_args ("rcon" ∷ "/players" ∷ []) (pos 1) (negsuc 0) ≡ some true
unfolding has_num_args
two_words = refl

rcon_shows_lines_example :
    (is_up online_server.cmd ≡ false
      → rcon_cmnd asking two_lines ("rcon" ∷ "/players" ∷ []) online_server
        ≡ some (failed_to_run asking asked_for "Server is not online"))
    × (is_up online_server.cmd ≡ true
        → two_lines asked_for ≡ none
        → rcon_cmnd asking two_lines ("rcon" ∷ "/players" ∷ []) online_server
          ≡ some (
              failed_to_run asking asked_for
                ("Failed to run the following command: " <> asked_for)))
    × ((out : String)
        → is_up online_server.cmd ≡ true
        → two_lines asked_for ≡ some out
        → starts_with out "Unknown command: " ≡ true
        → rcon_cmnd asking two_lines ("rcon" ∷ "/players" ∷ []) online_server
          ≡ some (failed_to_run asking asked_for "Invalid command provided"))
    × ((line : String) (lines : List String)
        → is_up online_server.cmd ≡ true
        → two_lines asked_for ≡ some (unlines (line ∷ lines))
        → starts_with (unlines (line ∷ lines)) "Unknown command: " ≡ false
        → is_blank line ≡ false
        → All (λ l. is_line l ≡ true) (line ∷ lines)
        → (o : CommandOutput) × (rcon_cmnd asking two_lines ("rcon" ∷ "/players" ∷ []) online_server
            ≡ some (some o, none))
          × (joined o.pages ≡ printed "> " (line ∷ lines)))
rcon_shows_lines_example =
    rcon_shows_lines asking two_lines ("rcon" ∷ "/players" ∷ []) online_server two_words

-- The premises on the two lines hold.
lines_are_shown :
    (two_lines asked_for ≡ some (unlines ("Alice" ∷ "Bob" ∷ [])))
    × (is_blank "Alice" ≡ false)
    × All (λ l. is_line l ≡ true) ("Alice" ∷ "Bob" ∷ [])
unfolding is_blank is_line
lines_are_shown = (refl, refl, (refl, (refl, tt)))

-- The server whose RCON program fails is restarted; a check that finds the server online leaves the mark
-- behind, so that no later check is made.
checks :
    ((check_hang_cmnd asking no_answer false online_server).restarting ≡ true)
    × ((check_hang_cmnd asking two_lines false online_server).checking ≡ true)
unfolding check_hang_cmnd no_check or_probe probe status_int is_up run_server_command hangs
    trim_line_feed new_server
checks = (refl, refl)
