-- ===== src/Commands/Functions/Coords.antt =====
-- discord/commands/getCoordHistoryCmnd.go: the jumps into the sectors that are named, newest first for
-- each sector. `location` is what `time.LoadLocation` answers for the zone, as the text of a time; its
-- error is not looked at, so the first line panics without one. `Sector` tracks a sector that it does
-- not know, so the command changes the server.
use Prim.Native.Char.{code}
use avorioncontrol.Prelude.{
  ℕ, String, ◌<>◌, ◌==◌, Bool, true, ◌||◌, Option, none, some, List, [], ◌∷◌, ◌++◌, ℤ, pos, negsuc,
  ltb_ℤ, leb, eqb, count, bind, drop, if◌then◌else◌, ◌⊎◌, inl, inr,
}
use avorioncontrol.Prelude.Decimal.{show_ℤ, read_natural, negate}
use avorioncontrol.Avorion.Server.{JumpInfo, Sector, Server}
use avorioncontrol.Avorion.Players.{player, alliance}
use avorioncontrol.Avorion.Sectors.{sector_in, track_sector}
use avorioncontrol.Commands.Args.{has_num_args, reverse_jumps}
use avorioncontrol.Commands.Output.{CommandOutput, add_line, construct}
use avorioncontrol.Commands.Errors.{CommandError, CommandRef}
use avorioncontrol.Commands.Functions.{
  output_of, invalid_argument, command_error, wrong_number_plain,
}

-- `[0-9]{1,3}`, with its number.
unfoldable pub up_to_three : String → Option ℕ
up_to_three s = if leb (count s) 3 then read_natural s else none

-- `-?[0-9]{1,3}`, with its number.
unfoldable pub ordinate : String → Option ℤ
ordinate String.[] = none
ordinate (String.◌∷◌ c s) =
    if eqb (code c) 45
    then bind (up_to_three s) (λ n. some (negate n))
    else bind (up_to_three (String.◌∷◌ c s)) (λ n. some (pos n))

-- The texts around the first colon.
unfoldable pub at_colon : String → Option (String × String)
at_colon String.[] = none
at_colon (String.◌∷◌ c s) =
    let rest = at_colon s in
    if eqb (code c) 58
    then some ("", s)
    else bind rest (λ parts. some (String.◌∷◌ c parts.0, parts.1))

-- `coordRe`, with its two numbers.
unfoldable pub match_coord : String → Option (ℤ × ℤ)
match_coord c =
    bind (at_colon c)
      (λ parts. bind (ordinate parts.0) (λ x. bind (ordinate parts.1) (λ y. some (x, y))))

unfoldable pub is_out_of_range : ℤ → Bool
is_out_of_range n = ltb_ℤ (pos 500) n || ltb_ℤ n (negsuc 499)

-- The sector that an argument names, or the message of an error.
unfoldable pub read_coord : String → String ⊎ (ℤ × ℤ)
read_coord c = elim (match_coord c) [
  | none ↦ inl ("Invalid coordinate given: `" <> (c <> "`"))
  | some (x, y) ↦
      if is_out_of_range x
      then inl ("Coordinate **x** is out of range: `" <> (show_ℤ x <> "`"))
      else if is_out_of_range y
      then inl ("Coordinate **y** is out of range: `" <> (show_ℤ y <> "`"))
      else inr (x, y)
]

-- The first loop, up to its first error.
unfoldable pub read_coords : List String → String ⊎ List (ℤ × ℤ)
read_coords [] = inr []
read_coords (c ∷ a) = elim (read_coord c) [
  | inl message ↦ inl message
  | inr at ↦ elim (read_coords a) [ inl message ↦ inl message | inr coords ↦ inr (at ∷ coords) ]
]

-- `Sector`, for its answer: the history of a sector that is tracked, and a new one is empty.
unfoldable pub jumphistory_at : ℤ → ℤ → List Sector → List JumpInfo
jumphistory_at x y secs = elim (sector_in x y secs) [ none ↦ [] | some sec ↦ sec.sector_history ]

-- The second loop: the jumps, and the server that it leaves.
unfoldable pub collect : List (ℤ × ℤ) → Server → List JumpInfo × Server
collect [] s = ([], s)
collect ((x, y) ∷ coords) s =
    let tracked = track_sector x y s in
    let (jumps, after) = collect coords tracked in
    (reverse_jumps (jumphistory_at x y tracked.sectors) ++ jumps, after)

-- The name of who jumped; `none` for a faction that is not known, and for another kind.
unfoldable pub jumper : JumpInfo → Server → Option String
jumper j s =
    if j.kind == "player"
    then bind (player (show_ℤ j.fid) s) (λ p. some p.player_name)
    else if j.kind == "alliance"
    then bind (alliance (show_ℤ j.fid) s) (λ a. some a.alliance_name)
    else none

unfoldable pub jump_line : (time : ℕ → String) → JumpInfo → (name : String) → String
jump_line time j name =
    "**"
    <> (time j.jump_time
        <> (" | "
            <> (show_ℤ j.jump_x
                <> (":"
                    <> (show_ℤ j.jump_y
                        <> ("** _"
                            <> (name
                                <> ("/" <> (j.kind <> (" \"" <> (j.jump_name <> "\"_")))))))))))

-- The third loop, over the output; `none` is the return of its error.
unfoldable pub jump_lines :
    (time : ℕ → String) → List JumpInfo → Server → CommandOutput → Option CommandOutput
jump_lines time [] s out = some out
jump_lines time (j ∷ jumps) s out =
    bind (jumper j s) (λ name. jump_lines time jumps s (add_line (jump_line time j name) out))

-- `getCoordHistoryCmnd` behind its first loop.
unfoldable pub show_history :
    CommandRef
    → (location : Option (ℕ → String)) → List JumpInfo
    → Server
    → Option (CommandOutput ⊎ CommandError)
show_history cmd location [] s =
    some (inl (construct (add_line "No results found" (output_of cmd "Coordinate History"))))
show_history cmd location (j ∷ jumps) s = bind location (λ time.
    some (elim (jump_lines time (j ∷ jumps) s (output_of cmd "Coordinate History")) [
      | none ↦ inr (command_error cmd "Error, bad data type encountered. Please review the logs.")
      | some out ↦ inl (construct (record out { header = "Results"; quoted = true }))
    ]))

-- `getCoordHistoryCmnd`, and the server that it leaves.
unfoldable pub get_coord_history_cmnd :
    CommandRef
    → (location : Option (ℕ → String)) → List String
    → Server
    → Option ((CommandOutput ⊎ CommandError) × Server)
get_coord_history_cmnd cmd location a s = bind (has_num_args a (pos 1) (negsuc 0)) (λ enough.
    if enough
    then (elim (read_coords (drop 1 a)) [
      | inl message ↦ some (inr (invalid_argument cmd message), s)
      | inr coords ↦
          let (jumps, after) = collect coords s in
          bind (show_history cmd location jumps after) (λ answer. some (answer, after))
    ])
    else some (inr (invalid_argument cmd (wrong_number_plain cmd)), s))
