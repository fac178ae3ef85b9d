-- ===== src/Avorion/Players/Tests.antt =====
-- A roster of two players, the first of whom is online.
use avorioncontrol.Prelude.{◌+◌, ◌≡◌, refl, String, true, false, List, [], ◌∷◌, pos}
use avorioncontrol.Avorion.Server.{Player, Server}
use avorioncontrol.Avorion.Lifecycle.Steps.{new_server}
use avorioncontrol.Avorion.Players.{
  Outcome, Answer, player, player_in, inc, handle_player_join, handle_player_left,
}
use avorioncontrol.Avorion.Players.Laws.{bit, count_online, roster_counts}

abbrev ann : Player
ann = record { index = "1"; player_name = "ann"; online = true; discordid = ""; jumphistory = [] }

abbrev bob : Player
bob = record { index = "2"; player_name = "bob"; online = false; discordid = ""; jumphistory = [] }

abbrev roster : Server
unfolding new_server
roster = record (new_server 0) { players = ann ∷ bob ∷ []; onlineplayercount = pos 1 }

abbrev submatches : List String
submatches = "playerJoinEvent: 2 bob" ∷ "2" ∷ "bob" ∷ []

roster_counts_example :
    ((t : Server) × (handle_player_join Answer.failed "1" submatches roster ≡ Outcome.goes_on t)
      × (t.onlineplayercount ≡ pos (count_online t.players + bit true)))
    × (inc (handle_player_left "1" roster).onlineplayercount
        ≡ pos (count_online (handle_player_left "1" roster).players + bit true))
unfolding player player_in count_online roster
roster_counts_example = roster_counts Answer.failed "1" submatches roster refl refl
