-- ===== src/Commands/Functions/Players.antt =====
-- discord/commands/playerCmnds.go: players kicked, banned and listed, with `Kick` and `Ban` of
-- avorion/player.go.
use avorioncontrol.Prelude.{
  String, ◌<>◌, ◌==◌, ◌≡◌, refl, Bool, true, false, Option, none, some, List, [], ◌∷◌, pos, negsuc,
  bind, get_elem?, drop, if◌then◌else◌,
}
use avorioncontrol.Avorion.Server.{Player, Server}
use avorioncontrol.Avorion.Players.{player}
use avorioncontrol.Commands.Args.{has_num_args}
use avorioncontrol.Commands.Output.{CommandOutput, add_line, construct}
use avorioncontrol.Commands.Errors.{CommandError, CommandRef}
use avorioncontrol.Commands.Functions.{output_of, invalid_argument}
use avorioncontrol.Commands.Functions.Admin.{join_words}

-- What is sent: a command to the game, and a message to the log channel.
pub data Sent : Type 0 where
  run_command : String → Sent
  send_log : String → Sent

-- What a function returns, and what is sent.
pub record PlayerReply : Type 0 where
  pub out : Option CommandOutput
  pub failure : Option CommandError
  pub sent : List Sent

-- `Kick`
unfoldable pub kick : Player → String → List Sent
kick p r =
    run_command ("kick " <> (p.index <> (" \"" <> (r <> "\""))))
    ∷ send_log ("**Kicked Player:** `" <> (p.player_name <> ("`\n**Reason:** _" <> (r <> "_"))))
    ∷ []

-- `Ban`
unfoldable pub ban : Player → String → List Sent
ban p r =
    run_command ("ban " <> (p.index <> (" \"" <> (r <> "\""))))
    ∷ send_log ("**Banned Player:** `" <> (p.player_name <> ("`\n**Reason:** _" <> (r <> "_"))))
    ∷ []

-- The two functions from `ref` on; the title of both is "Kick Player". The reason is given whenever
-- `a[2]` is there, so the default is never used.
unfoldable pub act_on :
    CommandRef
    → (verb : String) → (act : Player → String → List Sent) → List String
    → Server
    → String
    → PlayerReply
act_on cmd verb act a srv ref = elim (player ref srv) [
  | none ↦ record {
    out = none;
    failure = some (invalid_argument cmd (ref <> " is an invalid reference to a player"));
    sent = [];
  }
  | some p ↦ record {
    out = some (
        construct (
          add_line (verb <> (" player " <> p.player_name))
            (record (output_of cmd "Kick Player") { quoted = true })));
    failure = none;
    sent = act p (join_words (drop 3 a));
  }
]

abbrev pub no_player : CommandRef → PlayerReply
no_player cmd = record {
  out = none;
  failure = some (invalid_argument cmd "Please provide a player index to kick");
  sent = [];
}

-- `playerKickCmnd`
unfoldable pub player_kick_cmnd : CommandRef → List String → Server → Option PlayerReply
player_kick_cmnd cmd a srv = bind (has_num_args (drop 1 a) (pos 1) (negsuc 0)) (λ enough.
    if enough
    then bind (get_elem? a 2) (λ ref. some (act_on cmd "Kicked" kick a srv ref))
    else some (no_player cmd))

-- `playerBanCmnd`, whose guard counts the name of the subcommand as well.
unfoldable pub player_ban_cmnd : CommandRef → List String → Server → Option PlayerReply
player_ban_cmnd cmd a srv = bind (has_num_args a (pos 1) (negsuc 0)) (λ enough.
    if enough
    then bind (get_elem? a 2) (λ ref. some (act_on cmd "Banned" ban a srv ref))
    else some (no_player cmd))

-- The loop of `showOnlinePlayersCmnd`: the output, and whether a player is online.
unfoldable pub online_lines : List Player → CommandOutput × Bool → CommandOutput × Bool
online_lines [] built = built
online_lines (p ∷ rest) built =
    let listed =
      online_lines rest
        (add_line ("**" <> (p.index <> ("**: `" <> (p.player_name <> "`")))) built.0, true) in
    let skipped = online_lines rest built in if p.online then listed else skipped

-- `showOnlinePlayersCmnd`
unfoldable pub show_online_players_cmnd : CommandRef → Server → PlayerReply
show_online_players_cmnd cmd srv =
    let (out, any_online) =
      online_lines srv.players (record (output_of cmd "Players Online") { quoted = true }, false) in
    record {
      out = some (construct (if any_online then out else add_line "No players online" out));
      failure = none;
      sent = [];
    }

-- "kick" and "ban" without a player are told apart: the first answers an error, and the second passes its
-- guard and panics; with a known player both send their command to the game.
pub kick_and_ban_guards :
    (cmd : CommandRef) (first sub ref : String) (srv : Server) {p : Player}
    → (first == "") ≡ false
    → (sub == "") ≡ false
    → player ref srv ≡ some p
    → (player_kick_cmnd cmd (first ∷ sub ∷ []) srv ≡ some (no_player cmd))
      × (player_ban_cmnd cmd (first ∷ sub ∷ []) srv ≡ none)
      × (player_kick_cmnd cmd (first ∷ sub ∷ ref ∷ []) srv
          ≡ some (act_on cmd "Kicked" kick (first ∷ sub ∷ ref ∷ []) srv ref))
      × ((act_on cmd "Kicked" kick (first ∷ sub ∷ ref ∷ []) srv ref).sent ≡ kick p "")
unfolding player_kick_cmnd player_ban_cmnd has_num_args act_on join_words
kick_and_ban_guards cmd first sub ref srv named sub_named known =
    (rw sub_named refl, rw named refl, rw sub_named refl, rw (act_on, known) refl)
