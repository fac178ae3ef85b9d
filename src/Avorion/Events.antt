-- ===== src/Avorion/Events.antt =====
-- The registry of game events: avorion/events/events.go, functions.go and `initB` of eventhandlers.go,
-- and `InitializeEvents` of avorion/server.go. A regular expression is its text, and whether one matches
-- a line is a parameter, Go's `MatchString`. What a handler does is of any type `H`.
pub mod Laws
pub mod Tests
use avorioncontrol.Prelude.{
  ℕ, suc, String, ◌==◌, Bool, ◌||◌, Option, none, some, List, [], ◌∷◌, ◌++◌, ℤ, pos, negsuc, ◌⊎◌,
  inl, inr, if◌then◌else◌,
}

module _ (H : Type 0) where
  -- `Event`; the two pointers are optional.
  pub record Event : Type 0 where
    pub event_name : String
    pub capture : Option String
    pub handler : Option H

  -- A registered event, whose pointers are set.
  pub record Registered : Type 0 where
    pub name : String
    pub regex : String
    pub run : H

module _ {H : Type 0} where
  -- The test of the loop of `New` and `Add`.
  unfoldable pub is_taken : String → String → List (Registered H) → Bool
  is_taken n re [] = Bool.false
  is_taken n re (e ∷ rest) = ((e.regex == re) || (e.name == n)) || is_taken n re rest

  -- `New`
  unfoldable pub new : String → String → H → List (Registered H) → String ⊎ List (Registered H)
  new n re h events =
      if is_taken n re events
      then inl "Cannot register the same event multiple times"
      else inr (events ++ record { name = n; regex = re; run = h } ∷ [])

  -- `Add`
  unfoldable pub add : String → Event H → List (Registered H) → String ⊎ List (Registered H)
  add n ge events = if n == "" then inl "Event does not have valid name" else elim (ge.capture) [
    | none ↦ inl "Event does not have a defined regex"
    | some re ↦ elim (ge.handler) [
      | none ↦ inl "Event does not have a defined handler"
      | some h ↦ new n re h events
    ]
  ]

  -- What the registry is afterwards: an error leaves it as it was.
  unfoldable pub registry : List (Registered H) → String ⊎ List (Registered H) → List (Registered H)
  registry events (inl err) = events
  registry events (inr more) = more

  -- The calls of `New` in `initB`, one after the other, whose errors nobody reads.
  unfoldable pub new_all : List (Registered H) → List (Registered H) → List (Registered H)
  new_all [] events = events
  new_all (e ∷ rest) events = new_all rest (registry events (new e.name e.regex e.run events))

  -- The loop of `InitializeEvents` over the configured events: the name, and the event.
  unfoldable pub add_all : List (String × Event H) → List (Registered H) → List (Registered H)
  add_all [] events = events
  add_all ((n, ge) ∷ rest) events = add_all rest (registry events (add n ge events))

  module _ (matches : String → String → Bool) where
    -- `GetFromString`
    unfoldable pub get_from_string : String → List (Registered H) → Option (Registered H)
    get_from_string line [] = none
    get_from_string line (e ∷ rest) =
        let later = get_from_string line rest in if matches e.regex line then some e else later

    -- The loop of `EventType` from the index `i`.
    unfoldable pub event_type_from : ℕ → String → List (Registered H) → ℤ
    event_type_from i line [] = negsuc 0
    event_type_from i line (e ∷ rest) =
        let later = event_type_from (suc i) line rest in
        if matches e.regex line then pos i else later

    -- `EventType`
    unfoldable pub event_type : String → List (Registered H) → ℤ
    event_type line events = event_type_from 0 line events

-- The handlers of `initB`, the one that `InitializeEvents` makes for a configured event, and the one of
-- the event "EventNone".
pub data Handler : Type 0 where
  handle_event_ship_track_init : Handler
  handle_player_chat : Handler
  handle_event_ship_jump : Handler
  handle_event_player_join : Handler
  handle_event_player_left : Handler
  handle_event_player_kick : Handler
  handle_event_player_ban : Handler
  handle_discord_integration_request : Handler
  handle_mod_update : Handler
  log_custom : (f_string : String) → Handler
  log_output : Handler

-- The events of `initB`
abbrev pub event : String → String → Handler → Registered Handler
event n re h = record { name = n; regex = re; run = h }

unfoldable pub init_b : List (Registered Handler)
init_b =
    event "EventShipTrackInit" "^\\s*shipTrackInitEvent: (-?[0-9]+) (-?[0-9]+):(-?[0-9]+) (.*)$"
      Handler.handle_event_ship_track_init
    ∷ event "EventPlayerChat" "^\\s*<(.+?)> (.*)" Handler.handle_player_chat
    ∷ event "EventShipJump" "^\\s*shipJumpEvent: (-?[0-9]+) (-?[0-9]+):(-?[0-9]+) (.*)$"
        Handler.handle_event_ship_jump
    ∷ event "EventPlayerJoin" "^\\s*playerJoinEvent: ([0-9]+) (.+?)\\s*$"
        Handler.handle_event_player_join
    ∷ event "EventPlayerLeft" "^\\s*playerLeftEvent: ([0-9]+) (.+?)\\s*$"
        Handler.handle_event_player_left
    ∷ event "EventPlayerKick" "^\\s*doPlayerKickEvent: ([0-9]+) (.*?)\\s*$"
        Handler.handle_event_player_kick
    ∷ event "EventPlayerBan" "^\\s*doPlayerBanEvent: ([0-9]+) (.*?)\\s*$"
        Handler.handle_event_player_ban
    ∷ event "EventDiscordIntegrationRequest"
        "^\\s*discordIntegrationRequestEvent: ([0-9]+) ([0-9]+)"
        Handler.handle_discord_integration_request
    ∷ event "EventModUpdate" "^\\s*Downloading ([0-9]+) \\[[^\\s]+ of [^\\s]+ \\| 100%\\]\\s*$"
        Handler.handle_mod_update
    ∷ []

-- `Initialize`
unfoldable pub initialize : List (Registered Handler)
initialize = new_all init_b []

-- The event of a configured one: its name, its format and its regular expression.
unfoldable pub custom : String × String × String → String × Event Handler
custom (n, f_string, re) =
    (n, record { event_name = ""; capture = some re; handler = some (Handler.log_custom f_string) })

unfoldable pub customs : List (String × String × String) → List (String × Event Handler)
customs [] = []
customs (c ∷ rest) = custom c ∷ customs rest

-- `InitializeEvents`, over the configured events.
unfoldable pub initialize_events : List (String × String × String) → List (Registered Handler)
initialize_events configured =
    let known = add_all (customs configured) initialize in
    registry known (new "EventNone" ".*" Handler.log_output known)
