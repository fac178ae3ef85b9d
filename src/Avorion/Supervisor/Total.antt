-- ===== src/Avorion/Supervisor/Total.antt =====
-- Which lines of the game the program survives.
use avorioncontrol.Prelude.{
  ℕ, ◌<◌, ◌≡◌, refl, String, ◌==◌, Bool, true, false, ◌||◌, Option, some, List, [], ◌∷◌, length,
  get_elem?, get_elem?-some, arith, Bool-cases, Option-cases, inl, inr,
}
use avorioncontrol.Avorion.Server.{Player, Server}
use avorioncontrol.Avorion.Players.{Answer, goes_on, player, handle_player_join}
use avorioncontrol.Avorion.Events.{Handler, Registered, get_from_string}
use avorioncontrol.Avorion.Supervisor.{
  Effect, Handled, sub, silent, handle_player_chat, ship_jump_event, handle_player_kick,
  handle_player_ban, handle_mod_update, handle_custom, handle, matches, submatches, handle_line,
}

-- A handler that returns, and what it leaves.
abbrev pub GoesOn : Handled → Type 0
GoesOn h = (left : Server × List Effect) × (h ≡ goes_on left)

-- The last submatch that a handler reads.
abbrev pub last_group : Handler → ℕ
last_group Handler.handle_event_ship_track_init = 0
last_group Handler.handle_player_chat = 2
last_group Handler.handle_event_ship_jump = 4
last_group Handler.handle_event_player_join = 1
last_group Handler.handle_event_player_left = 2
last_group Handler.handle_event_player_kick = 2
last_group Handler.handle_event_player_ban = 2
last_group Handler.handle_discord_integration_request = 2
last_group Handler.handle_mod_update = 1
last_group (Handler.log_custom f) = 0
last_group Handler.log_output = 0

-- Who joins is known already.
abbrev pub IsKnown : Handler → List String → Server → Type 0
IsKnown Handler.handle_event_player_join m s =
    (i : String) → get_elem? m 1 ≡ some i → (p : Player) × (player i s ≡ some p)
IsKnown Handler.log_output m s = Unit
IsKnown h m s = Unit

sub-GoesOn :
    (m : List String) (i : ℕ) (f : String → Handled)
    → i < length m
    → ((v : String) → get_elem? m i ≡ some v → GoesOn (f v))
    → GoesOn (sub m i f)
unfolding sub
sub-GoesOn m i f enough goes =
    let (v, found) = get_elem?-some m i enough in rw (sub, found) (goes v found)

handle_player_chat-GoesOn :
    (own : Bool) (m : List String) (s : Server) → 2 < length m → GoesOn (handle_player_chat own m s)
unfolding handle_player_chat
handle_player_chat-GoesOn true m s enough = (_, refl)
handle_player_chat-GoesOn false m s enough = sub-GoesOn m 1 _ (omega (arith, enough)) (λ name found.
    elim (Bool-cases (name == "Server" || name == "Discord")) [
      | inl e ↦ rw e (_, refl)
      | inr e ↦ rw e (sub-GoesOn m 2 _ enough (λ text found'. (_, refl)))
    ])

ship_jump_event-GoesOn :
    (now : ℕ) (m : List String) (s : Server) → 4 < length m → GoesOn (ship_jump_event now m s)
unfolding ship_jump_event
ship_jump_event-GoesOn now m s enough = sub-GoesOn m 2 _ (omega (arith, enough)) (λ x found.
    sub-GoesOn m 3 _ (omega (arith, enough)) (λ y found'.
      sub-GoesOn m 4 _ enough
        (λ name found''. sub-GoesOn m 1 _ (omega (arith, enough)) (λ i found'''. (_, refl)))))

handle_player_kick-GoesOn :
    (m : List String) (s : Server) → 2 < length m → GoesOn (handle_player_kick m s)
unfolding handle_player_kick
handle_player_kick-GoesOn m s enough = sub-GoesOn m 1 _ (omega (arith, enough)) (λ i found.
    sub-GoesOn m 2 _ enough (λ reason found'. elim (Option-cases (player i s)) [
      | inl e ↦ rw e (_, refl)
      | inr (p, e) ↦ rw e (_, refl)
    ]))

handle_player_ban-GoesOn :
    (m : List String) (s : Server) → 2 < length m → GoesOn (handle_player_ban m s)
unfolding handle_player_ban
handle_player_ban-GoesOn m s enough = sub-GoesOn m 1 _ (omega (arith, enough)) (λ i found.
    sub-GoesOn m 2 _ enough (λ reason found'. elim (Option-cases (player i s)) [
      | inl e ↦ rw e (_, refl)
      | inr (p, e) ↦ rw e (_, refl)
    ]))

module _ (captures : (regex line : String) → Option (List String))
    (sprintf : (f_string : String) → List String → String) where
  handle_custom-GoesOn :
      (f : String) (m : List String) (s : Server)
      → 0 < length m
      → GoesOn (handle_custom captures sprintf f m s)
  unfolding handle_custom
  handle_custom-GoesOn f [] s enough = elim enough [ ]
  handle_custom-GoesOn f (whole ∷ m) s enough = (_, refl)

  handle-GoesOn :
      (h : Handler) (answer : Answer) (now : ℕ) (line : String) (m : List String) (s : Server)
      → last_group h < length m
      → IsKnown h m s
      → GoesOn (handle captures sprintf h answer now line m s)
  unfolding handle handle_mod_update handle_player_join silent
  handle-GoesOn Handler.handle_event_ship_track_init answer now line m s enough known = (_, refl)
  handle-GoesOn Handler.handle_player_chat answer now line m s enough known =
      handle_player_chat-GoesOn _ m s enough
  handle-GoesOn Handler.handle_event_ship_jump answer now line m s enough known =
      ship_jump_event-GoesOn now m s enough
  handle-GoesOn Handler.handle_event_player_join answer now line m s enough known =
      sub-GoesOn m 1 _ enough (λ i found. rw (handle_player_join, (known i found).1) (_, refl))
  handle-GoesOn Handler.handle_event_player_left answer now line m s enough known =
      sub-GoesOn m 1 _ (omega (arith, enough)) (λ i found. elim (Option-cases (player i s)) [
        | inl e ↦ rw e (sub-GoesOn m 2 _ enough (λ called found'. (_, refl)))
        | inr (p, e) ↦ rw e (_, refl)
      ])
  handle-GoesOn Handler.handle_event_player_kick answer now line m s enough known =
      handle_player_kick-GoesOn m s enough
  handle-GoesOn Handler.handle_event_player_ban answer now line m s enough known =
      handle_player_ban-GoesOn m s enough
  handle-GoesOn Handler.handle_discord_integration_request answer now line m s enough known =
      sub-GoesOn m 1 _ (omega (arith, enough))
        (λ i found. sub-GoesOn m 2 _ enough (λ pin found'. (_, refl)))
  handle-GoesOn Handler.handle_mod_update answer now line m s enough known =
      sub-GoesOn m 1 _ enough (λ id found. (_, refl))
  handle-GoesOn (Handler.log_custom f) answer now line m s enough known =
      handle_custom-GoesOn f m s enough
  handle-GoesOn Handler.log_output answer now line m s enough known = (_, refl)

  -- No line ends the program but that of a join: if a regular expression that matches gives the submatches
  -- that its handler reads, every line is handled, whatever events are registered and whatever the game
  -- answers, unless it tells of the join of a player who is not known.
  pub handle_line-GoesOn :
      (events : List (Registered Handler)) (answer : Answer) (now : ℕ) (line : String) (s : Server)
      → ((e : Registered Handler)
          → get_from_string (matches captures sprintf) line events ≡ some e
          → (last_group e.run < length (submatches captures sprintf e.regex line))
            × IsKnown e.run (submatches captures sprintf e.regex line) s)
      → GoesOn (handle_line captures sprintf events answer now line s)
  unfolding handle_line
  handle_line-GoesOn events answer now line s fits =
      elim (Option-cases (get_from_string (matches captures sprintf) line events)) [
        | inl e ↦ rw (handle_line, e) (_, refl)
        | inr (r, e) ↦
            let (enough, known) = fits r e in
            rw (handle_line, e) (handle-GoesOn r.run answer now line _ s enough known)
      ]
