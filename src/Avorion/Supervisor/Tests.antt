-- ===== src/Avorion/Supervisor/Tests.antt =====
-- A game that writes a few lines, and chat that is sent on.
use avorioncontrol.Prelude.{
  ℕ, zero, suc, ◌≡◌, refl, String, ◌<>◌, ◌==◌, true, false, Option, none, some, List, [], ◌∷◌, pos,
  length, arith, if◌then◌else◌, subst, ◌<◌,
}
use avorioncontrol.Configuration.Data.{Settings, Conf, Pipe, ChatData, new}
use avorioncontrol.Avorion.Server.{Player}
use avorioncontrol.Avorion.Lifecycle.Steps.{new_server}
use avorioncontrol.Avorion.Players.{failed, goes_on}
use avorioncontrol.Avorion.Events.{Registered, Handler, event, get_from_string}
use avorioncontrol.Avorion.Supervisor.{
  Effect, chat, log, deliver, Watch, Tick, says, says_closed, supervise, handle_line,
  handle_player_chat, shorten, index_behind, take_line, after_line, handle, ship_jump_event, sub,
  submatches,
}
use avorioncontrol.Avorion.Sectors.{handle_ship_jump}
use avorioncontrol.Avorion.Integration.{all_digits}
use avorioncontrol.Prelude.Decimal.{parse_int, read_number, read_natural, read_digits, is_digit}
use avorioncontrol.Avorion.Supervisor.Tracked.{IsTracked}
use avorioncontrol.Avorion.Supervisor.Laws.{supervise-IsTracked}
use avorioncontrol.Avorion.Supervisor.Total.{GoesOn, last_group, IsKnown, handle_line-GoesOn}
use avorioncontrol.Avorion.Supervisor.Pipes.{IsAt, filled, chats, logs, deliver_fills_pipes}
use avorioncontrol.Avorion.Supervisor.Chat.{IsCutCleanly, chat_is_cut_once, message}
use avorioncontrol.Discord.Relay.{relay_chat}

-- One expression, which matches the line of a jump.
abbrev captures : (regex line : String) → Option (List String)
captures regex line = if line == "jump" then some ("jump" ∷ "1" ∷ "3" ∷ "4" ∷ "ship" ∷ []) else none

abbrev sprintf : String → List String → String
sprintf f_string parts = f_string

abbrev events : List (Registered Handler)
events = event "EventShipJump" "jump" Handler.handle_event_ship_jump ∷ []

abbrev ann : Player
ann = record { index = "1"; player_name = "ann"; online = true; discordid = ""; jumphistory = [] }

abbrev started : Watch
unfolding new_server
started = record { server = record (new_server 0) { players = ann ∷ [] }; sent = []; ready = false }

started-IsTracked : IsTracked started.server
unfolding started
started-IsTracked = record {
  counted = refl;
  players_capped = (omega arith, tt);
  alliances_capped = tt;
}

abbrev ticks : List Tick
ticks = says failed 5 "jump" ∷ says failed 6 "Server startup complete." ∷ says_closed ∷ []

index_read :
    (index_behind "player:" "player:12" ≡ some "12") × (index_behind "player:" "player:" ≡ none)
unfolding index_behind all_digits is_digit
index_read = (refl, refl)

-- The jump before the start is complete is recorded, and what is read after the close is not.
one_jump :
    supervise captures sprintf events ticks started
    ≡ goes_on (record {
      server =
          handle_ship_jump "1"
            (record { x = pos 3; y = pos 4; name = "ship"; time = 0 })
            5
            started.server;
      sent = [];
      ready = true;
    })
unfolding supervise take_line after_line handle_line handle ship_jump_event sub get_from_string
    parse_int read_number read_natural read_digits is_digit started
one_jump = refl

supervise-IsTracked_example : IsTracked (
    handle_ship_jump "1"
      (record { x = pos 3; y = pos 4; name = "ship"; time = 0 })
      5
      started.server)
supervise-IsTracked_example =
    supervise-IsTracked captures sprintf events ticks started _ started-IsTracked one_jump

-- What an event has to fit.
abbrev Fits : Option (Registered Handler) → Type 0
Fits none = Unit
Fits (some e) =
    (last_group e.run < length (submatches captures sprintf e.regex "jump"))
    × IsKnown e.run (submatches captures sprintf e.regex "jump") started.server

handle_line-GoesOn_example :
    GoesOn (handle_line captures sprintf events failed 5 "jump" started.server)
unfolding get_from_string
handle_line-GoesOn_example =
    handle_line-GoesOn captures sprintf events failed 5 "jump" started.server
      (λ e found. subst Fits found (omega arith, tt))

unfoldable repeated : ℕ → String → String
repeated zero text = ""
repeated (suc n) text = text <> repeated n text

abbrev spam : String
unfolding repeated
spam = repeated 210 "0123456789"

spam-IsCutCleanly : IsCutCleanly spam
unfolding spam
spam-IsCutCleanly long = refl

abbrev settings : Settings
unfolding new
settings = record (new "").settings { chatchannel = "42" }

chat_is_cut_once_example :
    (d : ChatData) × (handle_player_chat false ("" ∷ "ann" ∷ spam ∷ []) started.server
      ≡ goes_on (started.server, chat d ∷ []))
    × (relay_chat (λ t. []) settings (record d { msg = shorten d.msg })
        ≡ relay_chat (λ t. []) settings (message "ann" spam))
chat_is_cut_once_example =
    chat_is_cut_once ("" ∷ "ann" ∷ spam ∷ []) "ann" spam started.server (λ t. []) settings refl refl
      refl spam-IsCutCleanly

abbrev chat_before : Pipe
chat_before = record { buffer = message "bob" "hi" ∷ []; closed = false }

abbrev log_before : Pipe
log_before = record { buffer = []; closed = false }

abbrev listening : Conf
unfolding new
listening = record (new "") {
  pipes = chat_before ∷ log_before ∷ [];
  chatpipe = some 0;
  logpipe = some 1;
}

abbrev sent : List Effect
sent = chat (message "ann" spam) ∷ log (message "" "joined") ∷ chat (message "ann" "ho") ∷ []

deliver_fills_pipes_example :
    (c' : Conf) × (deliver sent listening ≡ some c')
    × IsAt c'.pipes 0 (filled chat_before (chats sent))
    × IsAt c'.pipes 1 (filled log_before (logs sent))
unfolding listening
deliver_fills_pipes_example =
    deliver_fills_pipes sent listening 0 1 chat_before log_before refl refl (omega arith)
      (refl, refl, omega arith) (refl, refl, omega arith)

-- Both lines of the chat stand behind the one that was there.
chat_after : length (filled chat_before (chats sent)).buffer ≡ 3
chat_after = refl
