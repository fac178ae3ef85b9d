-- ===== src/Avorion/Events/Tests.antt =====
-- Two configured events, the second of which takes the name of the first.
use avorioncontrol.Prelude.{String, ◌==◌, ◌≡◌, refl, Bool, List, [], ◌∷◌, pos}
use avorioncontrol.Avorion.Events.{
  Registered, Handler, get_from_string, event_type, event_type_from, init_b, initialize,
  initialize_events, new_all, new, registry, is_taken, event, add_all, add, customs, custom,
}

abbrev configured : List (String × String × String)
configured = ("Trade", "%s trades", "trade") ∷ ("Trade", "%s sells", "sale") ∷ []

-- A regular expression that matches its own text.
abbrev same_text : String → String → Bool
same_text re line = re == line

abbrev chat : Registered Handler
chat = event "EventPlayerChat" "^\\s*<(.+?)> (.*)" Handler.handle_player_chat

-- The second event called "Trade" is refused, and the catch-all comes last.
events_of_trade : event_type same_text ".*" (initialize_events configured) ≡ pos 10
unfolding initialize_events initialize init_b new_all new registry is_taken get_from_string
    event_type add_all add customs custom event_type_from
events_of_trade = refl
