-- ===== src/Avorion/Supervisor.antt =====
-- The output of the game: `superviseAvorionOut` of avorion/goroutines.go, the handlers of
-- avorion/events/eventhandlers.go and of the configured events that it runs, and `SendChat` and `SendLog`
-- of avorion/server.go. The submatches of a regular expression in a line, which there are exactly if it
-- matches, and `fmt.Sprintf` are parameters. A cut inside a code point is not told apart.
pub mod Tracked
pub mod Total
pub mod Laws
pub mod Chat
pub mod Pipes
pub mod Tests
use Prim.Native.Char.{code}
use Prim.Native.String.{slice}
use avorioncontrol.Prelude.{
  ℕ, String, ◌<>◌, len, ◌==◌, Bool, true, false, ◌&&◌, ◌||◌, Option, none, some, List, [], ◌∷◌,
  ◌++◌, map, leb, ltb, eqb, length, get_elem?, set, drop, bind, if◌then◌else◌,
}
use avorioncontrol.Prelude.Decimal.{parse_int}
use avorioncontrol.Configuration.Data.{Conf, Pipe, ChatData}
use avorioncontrol.Avorion.Jumps.{ShipCoordData}
use avorioncontrol.Avorion.Server.{Player, Server, crashed}
use avorioncontrol.Avorion.Players.{
  Answer, Outcome, goes_on, exits, panics, player, alliance, handle_player_join, handle_player_left,
}
use avorioncontrol.Avorion.Sectors.{handle_ship_jump}
use avorioncontrol.Avorion.Integration.{add_integration_request, all_digits}
use avorioncontrol.Avorion.Events.{Handler, Registered, get_from_string}
use avorioncontrol.Commands.Functions.Players.{Sent, run_command, send_log, kick, ban}

-- What a handler sends: to the chat, to the log, or as a command to the game.
pub data Effect : Type 0 where
  chat : ChatData → Effect
  log : ChatData → Effect
  command : String → Effect

unfoldable pub effect_of : Sent → Effect
effect_of (run_command c) = command c
effect_of (send_log text) = log (record { name = ""; uid = ""; msg = text })

abbrev pub Handled : Type 0
Handled = Outcome (Server × List Effect)

-- A submatch, or the panic of an index out of range.
unfoldable pub sub : List String → ℕ → (String → Handled) → Handled
sub m i f = elim (get_elem? m i) [ none ↦ panics | some v ↦ f v ]

-- The cut of `handlePlayerChat`, and of `SendChat` and `SendLog`.
unfoldable pub shorten : String → String
shorten msg = if leb 2000 (len msg) then slice msg 0 1900 <> "...(truncated)" else msg

-- `handlePlayerChat`; `own` says whether the line is a message of this bot.
unfoldable pub handle_player_chat : (own : Bool) → List String → Server → Handled
handle_player_chat own m s =
    if own
    then goes_on (s, [])
    else sub m 1 (λ name.
      if name == "Server" || name == "Discord"
      then goes_on (s, [])
      else sub m 2
          (λ text. goes_on (s, chat (record { name = name; uid = ""; msg = shorten text }) ∷ [])))

-- `handleEventShipJump`
unfoldable pub ship_jump_event : (now : ℕ) → List String → Server → Handled
ship_jump_event now m s = sub m 2 (λ x. sub m 3 (λ y. sub m 4 (λ name. sub m 1 (λ index. goes_on (
  handle_ship_jump index (record { x = parse_int x; y = parse_int y; name = name; time = 0 }) now s,
  [],
)))))

unfoldable pub silent : Outcome Server → Handled
silent (goes_on s) = goes_on (s, [])
silent exits = exits
silent panics = panics

-- `handleEventPlayerKick`
unfoldable pub handle_player_kick : List String → Server → Handled
handle_player_kick m s = sub m 1 (λ index. sub m 2 (λ reason. elim (player index s) [
  | none ↦ goes_on (s, command ("kick " <> (index <> (" " <> reason))) ∷ [])
  | some p ↦ goes_on (s, map effect_of (kick p reason))
]))

-- `handleEventPlayerBan`, which logs a ban twice, the second time as a kick.
unfoldable pub handle_player_ban : List String → Server → Handled
handle_player_ban m s = sub m 1 (λ index. sub m 2 (λ reason. elim (player index s) [
  | none ↦ goes_on (s, command ("ban " <> (index <> (" " <> reason))) ∷ [])
  | some p ↦ goes_on (
    s,
    map effect_of (ban p reason)
        ++ log (record {
          name = "";
          uid = "";
          msg =
              "**Kicked Player:** `" <> (p.player_name <> ("`\n**Reason:** _" <> (reason <> "_")));
        })
          ∷ [],
  )
]))

-- `handleModUpdate`
unfoldable pub handle_mod_update : List String → Server → Handled
handle_mod_update m s = sub m 1 (λ id. goes_on (
  s,
  chat (record {
    name = "Startup";
    uid = "";
    msg = "Updated https://steamcommunity.com/sharedfiles/filedetails/?id=" <> id;
  })
      ∷ [],
))

-- The text behind a prefix, if it is digits, at least one.
unfoldable pub index_behind : (prefix : String) → String → Option String
index_behind prefix v =
    let rest = slice v (len prefix) (len v) in
    if (slice v 0 (len prefix) == prefix) && (all_digits rest && ltb 0 (len rest))
    then some rest
    else none

-- The name for a submatch that is an index: of a player, or of an alliance.
unfoldable pub named : Server → String → String
named s v = elim (index_behind "player:" v) [
  | some i ↦ elim (player i s) [ some p ↦ p.player_name | none ↦ i ]
  | none ↦ elim (index_behind "alliance:" v) [
    | some i ↦ elim (alliance i s) [ some a ↦ a.alliance_name | none ↦ i ]
    | none ↦ v
  ]
]

-- A line of the output with the game's answer to the command that it may make needed and the time, or
-- a line when the channel of the process is closed already.
pub data Tick : Type 0 where
  says : Answer → (now : ℕ) → (line : String) → Tick
  says_closed : Tick

-- The state of the loop: the server, what was sent, and whether `ready` is closed.
pub record Watch : Type 0 where
  pub server : Server
  pub sent : List Effect
  pub ready : Bool

unfoldable pub after_line : Watch → Handled → Outcome Watch
after_line w (goes_on (s, sent)) = goes_on (record w { server = s; sent = w.sent ++ sent })
after_line w exits = exits
after_line w panics = panics

module _ (captures : (regex line : String) → Option (List String))
    (sprintf : (f_string : String) → List String → String) where
  -- The handler of a configured event.
  unfoldable pub handle_custom : (f_string : String) → List String → Server → Handled
  handle_custom f_string [] s = panics
  handle_custom f_string (whole ∷ m) s =
      goes_on
        (s, log (record { name = ""; uid = ""; msg = sprintf f_string (map (named s) m) }) ∷ [])

  -- The handlers, over the submatches of their event.
  unfoldable pub handle :
      Handler → Answer → (now : ℕ) → (line : String) → List String → Server → Handled
  handle Handler.handle_event_ship_track_init answer now line m s = goes_on (s, [])
  handle Handler.handle_player_chat answer now line m s =
      handle_player_chat
        (elim (captures "^\\s*<D> <.*?#[0-9]{4}> (.*)$" line) [ none ↦ false | some own ↦ true ]) m
        s
  handle Handler.handle_event_ship_jump answer now line m s = ship_jump_event now m s
  handle Handler.handle_event_player_join answer now line m s =
      sub m 1 (λ index. silent (handle_player_join answer index m s))
  handle Handler.handle_event_player_left answer now line m s = sub m 1 (λ index.
      elim (player index s) [
        | some p ↦ goes_on (handle_player_left index s, [])
        | none ↦ sub m 2 (λ called. goes_on (s, []))
      ])
  handle Handler.handle_event_player_kick answer now line m s = handle_player_kick m s
  handle Handler.handle_event_player_ban answer now line m s = handle_player_ban m s
  handle Handler.handle_discord_integration_request answer now line m s =
      sub m 1 (λ index. sub m 2 (λ pin. goes_on (add_integration_request index pin s, [])))
  handle Handler.handle_mod_update answer now line m s = handle_mod_update m s
  handle (Handler.log_custom f_string) answer now line m s = handle_custom f_string m s
  handle Handler.log_output answer now line m s = goes_on (s, [])

  abbrev pub matches : String → String → Bool
  matches regex line = elim (captures regex line) [ none ↦ false | some m ↦ true ]

  abbrev pub submatches : String → String → List String
  submatches regex line = elim (captures regex line) [ none ↦ [] | some m ↦ m ]

  -- The event of a line, and its handler.
  unfoldable pub handle_line :
      List (Registered Handler) → Answer → (now : ℕ) → (line : String) → Server → Handled
  handle_line events answer now line s = elim (get_from_string matches line events) [
    | none ↦ goes_on (s, [])
    | some e ↦ handle e.run answer now line (submatches e.regex line) s
  ]

  -- A round of the loop.
  unfoldable pub take_line :
      List (Registered Handler) → Answer → (now : ℕ) → (line : String) → Watch → Outcome Watch
  take_line events answer now line w =
      let handled = after_line w (handle_line events answer now line w.server) in
      if w.ready
      then handled
      else if line == "Server startup complete."
      then goes_on (record w { ready = true })
      else if line == "Server startup FAILED."
      then goes_on (record w { server = crashed w.server })
      else handled

  -- `superviseAvorionOut`
  unfoldable pub supervise : List (Registered Handler) → List Tick → Watch → Outcome Watch
  supervise events [] w = goes_on w
  supervise events (says_closed ∷ ticks) w = goes_on w
  supervise events (says answer now line ∷ ticks) w = elim (take_line events answer now line w) [
    | goes_on w' ↦ supervise events ticks w'
    | exits ↦ exits
    | panics ↦ panics
  ]

-- A send to a channel that has room for 100 messages: a closed one panics, and a message that finds no
-- room in five seconds is discarded.
unfoldable pub push : ChatData → Pipe → Option Pipe
push m p =
    if p.closed
    then none
    else if ltb (length p.buffer) 100
    then some (record p { buffer = p.buffer ++ m ∷ [] })
    else some p

unfoldable pub push_at : List Pipe → Option ℕ → ChatData → Option (List Pipe)
push_at pipes none m = some pipes
push_at pipes (some i) m =
    bind (get_elem? pipes i) (λ p. bind (push m p) (λ q. some (set pipes i q)))

-- `SendChat` and `SendLog`
unfoldable pub send_chat : ChatData → Conf → Option Conf
send_chat input c =
    bind (push_at c.pipes c.chatpipe (record input { msg = shorten input.msg }))
      (λ pipes. some (record c { pipes = pipes }))

unfoldable pub send_log_data : ChatData → Conf → Option Conf
send_log_data input c =
    bind (push_at c.pipes c.logpipe (record input { msg = shorten input.msg }))
      (λ pipes. some (record c { pipes = pipes }))

-- What was sent, one after the other; the commands go to the game.
unfoldable pub deliver : List Effect → Conf → Option Conf
deliver [] c = some c
deliver (chat m ∷ rest) c = bind (send_chat m c) (λ c'. deliver rest c')
deliver (log m ∷ rest) c = bind (send_log_data m c) (λ c'. deliver rest c')
deliver (command text ∷ rest) c = deliver rest c
