-- ===== src/Avorion/Supervisor/Laws.antt =====
-- What holds of the server whatever the game writes.
use avorioncontrol.Prelude.{
  ℕ, ◌≡◌, subst, String, ◌==◌, Bool, true, false, ◌||◌, Option, List, [], ◌∷◌, get_elem?,
  Bool-cases, Option-cases, inl, inr,
}
use avorioncontrol.Avorion.Server.{Server}
use avorioncontrol.Avorion.Players.{
  Answer, Outcome, goes_on, exits, panics, player, handle_player_join,
}
use avorioncontrol.Avorion.Integration.{add_integration_request}
use avorioncontrol.Avorion.Events.{Handler, Registered, get_from_string}
use avorioncontrol.Avorion.Supervisor.{
  Handled, sub, handle_player_chat, ship_jump_event, silent, handle_player_kick, handle_player_ban,
  handle_mod_update, handle_custom, handle, matches, handle_line, Tick, Watch, says, says_closed,
  after_line, take_line, supervise,
}
use avorioncontrol.Avorion.Supervisor.Tracked.{
  IsTracked, Leaves, handle_ship_jump-IsTracked, handle_player_left-IsTracked,
  handle_player_join-IsTracked, if-Leaves, crashed-IsTracked,
}

-- What a handler leaves.
abbrev IsKept : Handled → Type 0
IsKept = Leaves (λ left. IsTracked left.0)

silent-IsKept : (o : Outcome Server) → Leaves IsTracked o → IsKept (silent o)
unfolding silent
silent-IsKept (goes_on s) t = t
silent-IsKept exits t = tt
silent-IsKept panics t = tt

sub-IsKept :
    (m : List String) (i : ℕ) (f : String → Handled)
    → ((v : String) → IsKept (f v))
    → IsKept (sub m i f)
unfolding sub
sub-IsKept m i f kept = elim (Option-cases (get_elem? m i)) [
  | inl e ↦ rw (sub, e) tt
  | inr (v, e) ↦ rw (sub, e) (kept v)
]

-- A handler that only sends.
handle_player_chat-IsKept :
    (own : Bool) (m : List String) (s : Server) → IsTracked s → IsKept (handle_player_chat own m s)
unfolding handle_player_chat
handle_player_chat-IsKept true m s t = t
handle_player_chat-IsKept false m s t = sub-IsKept m 1 _ (λ name.
    elim (Bool-cases (name == "Server" || name == "Discord")) [
      | inl e ↦ rw e t
      | inr e ↦ rw e (sub-IsKept m 2 _ (λ text. t))
    ])

handle_player_kick-IsKept :
    (m : List String) (s : Server) → IsTracked s → IsKept (handle_player_kick m s)
unfolding handle_player_kick
handle_player_kick-IsKept m s t = sub-IsKept m 1 _ (λ i.
    sub-IsKept m 2 _
      (λ reason. elim (Option-cases (player i s)) [ inl e ↦ rw e t | inr (p, e) ↦ rw e t ]))

handle_player_ban-IsKept :
    (m : List String) (s : Server) → IsTracked s → IsKept (handle_player_ban m s)
unfolding handle_player_ban
handle_player_ban-IsKept m s t = sub-IsKept m 1 _ (λ i.
    sub-IsKept m 2 _
      (λ reason. elim (Option-cases (player i s)) [ inl e ↦ rw e t | inr (p, e) ↦ rw e t ]))

ship_jump_event-IsKept :
    (now : ℕ) (m : List String) (s : Server) → IsTracked s → IsKept (ship_jump_event now m s)
unfolding ship_jump_event
ship_jump_event-IsKept now m s t = sub-IsKept m 2 _ (λ x. sub-IsKept m 3 _ (λ y.
    sub-IsKept m 4 _ (λ name. sub-IsKept m 1 _ (λ i. handle_ship_jump-IsTracked i _ now s t))))

module _ (captures : (regex line : String) → Option (List String))
    (sprintf : (f_string : String) → List String → String) where
  handle_custom-IsKept :
      (f : String) (m : List String) (s : Server)
      → IsTracked s
      → IsKept (handle_custom captures sprintf f m s)
  unfolding handle_custom
  handle_custom-IsKept f [] s t = tt
  handle_custom-IsKept f (whole ∷ m) s t = t

  handle-IsKept :
      (h : Handler) (answer : Answer) (now : ℕ) (line : String) (m : List String) (s : Server)
      → IsTracked s
      → IsKept (handle captures sprintf h answer now line m s)
  unfolding handle handle_mod_update add_integration_request
  handle-IsKept Handler.handle_event_ship_track_init answer now line m s t = t
  handle-IsKept Handler.handle_player_chat answer now line m s t = handle_player_chat-IsKept _ m s t
  handle-IsKept Handler.handle_event_ship_jump answer now line m s t =
      ship_jump_event-IsKept now m s t
  handle-IsKept Handler.handle_event_player_join answer now line m s t = sub-IsKept m 1 _ (λ i.
      silent-IsKept (handle_player_join answer i m s) (handle_player_join-IsTracked answer i m s t))
  handle-IsKept Handler.handle_event_player_left answer now line m s t = sub-IsKept m 1 _ (λ i.
      elim (Option-cases (player i s)) [
        | inl e ↦ rw e (sub-IsKept m 2 _ (λ called. t))
        | inr (p, e) ↦ rw e (handle_player_left-IsTracked i s t)
      ])
  handle-IsKept Handler.handle_event_player_kick answer now line m s t =
      handle_player_kick-IsKept m s t
  handle-IsKept Handler.handle_event_player_ban answer now line m s t =
      handle_player_ban-IsKept m s t
  handle-IsKept Handler.handle_discord_integration_request answer now line m s t =
      sub-IsKept m 1 _ (λ i. sub-IsKept m 2 _ (λ pin. record {
        counted = t.counted;
        players_capped = t.players_capped;
        alliances_capped = t.alliances_capped;
      }))
  handle-IsKept Handler.handle_mod_update answer now line m s t = sub-IsKept m 1 _ (λ id. t)
  handle-IsKept (Handler.log_custom f) answer now line m s t = handle_custom-IsKept f m s t
  handle-IsKept Handler.log_output answer now line m s t = t

  handle_line-IsKept :
      (events : List (Registered Handler)) (answer : Answer) (now : ℕ) (line : String) (s : Server)
      → IsTracked s
      → IsKept (handle_line captures sprintf events answer now line s)
  unfolding handle_line
  handle_line-IsKept events answer now line s t =
      elim (Option-cases (get_from_string (matches captures sprintf) line events)) [
        | inl e ↦ rw (handle_line, e) t
        | inr (r, e) ↦ rw (handle_line, e) (handle-IsKept r.run answer now line _ s t)
      ]

  after_line-Leaves :
      (w : Watch) (h : Handled) → IsKept h → Leaves (λ w'. IsTracked w'.server) (after_line w h)
  unfolding after_line
  after_line-Leaves w (goes_on (s, sent)) t = t
  after_line-Leaves w exits t = tt
  after_line-Leaves w panics t = tt

  take_line-Leaves :
      (events : List (Registered Handler)) (answer : Answer) (now : ℕ) (line : String) (w : Watch)
      → IsTracked w.server
      → Leaves (λ w'. IsTracked w'.server) (take_line captures sprintf events answer now line w)
  unfolding take_line
  take_line-Leaves events answer now line w t =
      let handled = after_line-Leaves w _ (handle_line-IsKept events answer now line w.server t) in
      if-Leaves w.ready _ _ handled (
        if-Leaves (line == "Server startup complete.") _ _ t
          (if-Leaves (line == "Server startup FAILED.") _ _ (crashed-IsTracked w.server t) handled))

  supervise-Leaves :
      (events : List (Registered Handler)) (ticks : List Tick) (w : Watch)
      → IsTracked w.server
      → Leaves (λ w'. IsTracked w'.server) (supervise captures sprintf events ticks w)
  unfolding supervise
  supervise-Leaves events [] w t = t
  supervise-Leaves events (says_closed ∷ ticks) w t = t
  supervise-Leaves events (says answer now line ∷ ticks) w t =
      rest (take_line captures sprintf events answer now line w)
        (take_line-Leaves events answer now line w t) (λ w' t'. supervise-Leaves events ticks w' t')
    where
      rest :
          (o : Outcome Watch)
          → Leaves (λ w'. IsTracked w'.server) o
          → ((w' : Watch)
              → IsTracked w'.server
              → Leaves (λ v. IsTracked v.server) (supervise captures sprintf events ticks w'))
          → Leaves
              (λ v. IsTracked v.server)
              (elim o as (λ u. Outcome Watch) [
                | goes_on w' ↦ supervise captures sprintf events ticks w'
                | exits ↦ exits
                | panics ↦ panics
              ])
      rest (goes_on w') t' k = k w' t'
      rest exits t' k = tt
      rest panics t' k = tt

  -- Whatever the game writes, whatever its answers and whatever events are registered: as long as the
  -- program goes on, the count of the sectors is their number, and no player and no alliance has more
  -- than 1000 jumps, if that was so before.
  pub supervise-IsTracked :
      (events : List (Registered Handler)) (ticks : List Tick) (w w' : Watch)
      → IsTracked w.server
      → supervise captures sprintf events ticks w ≡ goes_on w'
      → IsTracked w'.server
  supervise-IsTracked events ticks w w' t ended =
      subst (Leaves (λ v. IsTracked v.server)) ended (supervise-Leaves events ticks w t)
