-- ===== src/Commands/Functions/RconLaws.antt =====
-- The pages that `rcon` (discord/commands/rconCmnd.go) shows of what the game prints, and its errors.
use Prim.Native.Char.{code}
use text.Mathlib.Text.{starts_with}
use text.Mathlib.TextLemmas.{
  nil-append, cons-append, append_assoc as assoc, append-nil as append_nil,
}
use avorioncontrol.Prelude.{
  All, ◌<>◌, String, ◌≡◌, refl, ap, ◌∙◌, sym, Bool, true, false, not, ◌&&◌, Option, none, some,
  List, [], ◌∷◌, ◌++◌, append-nil, append_assoc, eqb, drop, pos, negsuc, arith, if◌then◌else◌,
}
use avorioncontrol.Avorion.Server.{Server, is_up}
use avorioncontrol.Commands.Args.{has_num_args}
use avorioncontrol.Commands.Output.{CommandOutput, new_command_output, add_line, line_prefix}
use avorioncontrol.Commands.Output.Content.{joined, printed, construct_keeps_lines}
use avorioncontrol.Commands.Errors.{CommandRef}
use avorioncontrol.Commands.Functions.{output_of}
use avorioncontrol.Commands.Functions.Admin.{join_words}
use avorioncontrol.Commands.Functions.Game.{
  run_server_command, is_end, trim_line_feed, before_first, split_lines, is_blank, add_lines,
  rcon_output, failed_to_run, show_rcon, rcon_cmnd,
}

add_lines-appends :
    (lines : List String) (o : CommandOutput)
    → o.mutable ≡ true
    → add_lines lines o ≡ record o { lines = o.lines ++ lines }
unfolding add_lines add_line
add_lines-appends [] o still = ap (λ ls. record o { lines = ls }) (sym (append-nil o.lines))
add_lines-appends (line ∷ lines) o still =
    let longer = record o { lines = o.lines ++ line ∷ [] } in
    ap (λ b. add_lines lines (if b then longer else o)) still
    ∙ add_lines-appends lines longer still
    ∙ ap (λ ls. record o { lines = ls }) (append_assoc o.lines (line ∷ []) lines)

rcon_output-prints :
    (cmd : CommandRef) (rcmd out : String)
    → joined (rcon_output cmd rcmd out).pages ≡ printed "> " (split_lines out)
unfolding rcon_output line_prefix new_command_output
rcon_output-prints cmd rcmd out =
    let base : CommandOutput = record (output_of cmd "RCON") { description = rcmd } in
    let lines = split_lines out in
    rw (rcon_output, add_lines-appends lines base refl)
      (construct_keeps_lines (record base { quoted = true; lines = lines }) refl)

-- A text without a line feed.
unfoldable pub is_line : String → Bool
is_line String.[] = true
is_line (String.◌∷◌ c s) = not (eqb (code c) 10) && is_line s

-- Lines as the game writes them, each before a line feed.
abbrev pub unlines : List String → String
unlines [] = ""
unlines (line ∷ lines) = line <> ("\n" <> unlines lines)

-- The same without the last line feed.
abbrev joined_lines : String → List String → String
joined_lines line [] = line
joined_lines line (next ∷ lines) = line <> ("\n" <> joined_lines next lines)

feed_behind : (s : String) → is_end (s <> "\n") ≡ false
unfolding is_end
feed_behind String.[] = refl
feed_behind (String.◌∷◌ c s) = rw (cons-append c s "\n") refl

trim-append : (s : String) → trim_line_feed (s <> "\n") ≡ s
unfolding trim_line_feed is_end
trim-append String.[] = refl
trim-append (String.◌∷◌ c s) =
    rw (cons-append c s "\n", trim_line_feed, feed_behind s, trim-append s) (ground arith)

unlines-joined_lines :
    (line : String) (lines : List String) → unlines (line ∷ lines) ≡ joined_lines line lines <> "\n"
unlines-joined_lines line [] = ap (λ t. line <> t) (append_nil "\n")
unlines-joined_lines line (next ∷ lines) =
    ap (λ t. line <> ("\n" <> t)) (unlines-joined_lines next lines)
    ∙ sym (
        assoc line ("\n" <> joined_lines next lines) "\n"
        ∙ ap (λ t. line <> t) (assoc "\n" (joined_lines next lines) "\n"))

split-line : (s : String) → is_line s ≡ true → split_lines s ≡ s ∷ []
unfolding split_lines before_first is_line
split-line String.[] h = refl
split-line (String.◌∷◌ c s) h =
    let no_feed : eqb (code c) 10 ≡ false = ground (arith, h) in
    let later : is_line s ≡ true = ground (arith, h) in rw (no_feed, split-line s later) refl

split-append :
    (s rest : String) → is_line s ≡ true → split_lines (s <> ("\n" <> rest)) ≡ s ∷ split_lines rest
unfolding split_lines before_first is_line
split-append String.[] rest h =
    rw (nil-append ("\n" <> rest), cons-append "\n" String.[] rest, nil-append rest) refl
split-append (String.◌∷◌ c s) rest h =
    let no_feed : eqb (code c) 10 ≡ false = ground (arith, h) in
    let later : is_line s ≡ true = ground (arith, h) in
    rw (cons-append c s ("\n" <> rest), no_feed, split-append s rest later) refl

split-joined_lines :
    (line : String) (lines : List String)
    → All (λ l. is_line l ≡ true) (line ∷ lines)
    → split_lines (joined_lines line lines) ≡ line ∷ lines
split-joined_lines line [] (h, _) = split-line line h
split-joined_lines line (next ∷ lines) (h, hs) =
    split-append line (joined_lines next lines) h
    ∙ ap (λ ls. line ∷ ls) (split-joined_lines next lines hs)

is_blank-append : (s t : String) → is_blank s ≡ false → is_blank (s <> t) ≡ false
unfolding is_blank
is_blank-append String.[] t h = cc h
is_blank-append (String.◌∷◌ c s) t h =
    rw (cons-append c s t) (ground (arith, h, is_blank-append s t))

is_blank-joined_lines :
    (line : String) (lines : List String)
    → is_blank line ≡ false
    → is_blank (joined_lines line lines) ≡ false
is_blank-joined_lines line [] h = h
is_blank-joined_lines line (next ∷ lines) h =
    is_blank-append line ("\n" <> joined_lines next lines) h

-- What `rcon` answers to arguments that are joined to `rcmd`: an error that says why, when the server is
-- down, when the RCON program fails and when the game knows no such command. If the program prints lines,
-- each before a line feed, of which the first is not blank, it shows an output whose pages hold these
-- very lines in order, each behind a quote mark and before a line feed.
pub rcon_shows_lines :
    (cmd : CommandRef) (exec : String → Option String) (a : List String) (srv : Server)
    → has_num_args a (pos 1) (negsuc 0) ≡ some true
    → let rcmd = join_words (drop 1 a) in
      (is_up srv.cmd ≡ false
        → rcon_cmnd cmd exec a srv ≡ some (failed_to_run cmd rcmd "Server is not online"))
      × (is_up srv.cmd ≡ true
          → exec rcmd ≡ none
          → rcon_cmnd cmd exec a srv
            ≡ some (failed_to_run cmd rcmd ("Failed to run the following command: " <> rcmd)))
      × ((out : String)
          → is_up srv.cmd ≡ true
          → exec rcmd ≡ some out
          → starts_with out "Unknown command: " ≡ true
          → rcon_cmnd cmd exec a srv ≡ some (failed_to_run cmd rcmd "Invalid command provided"))
      × ((line : String) (lines : List String)
          → is_up srv.cmd ≡ true
          → exec rcmd ≡ some (unlines (line ∷ lines))
          → starts_with (unlines (line ∷ lines)) "Unknown command: " ≡ false
          → is_blank line ≡ false
          → All (λ l. is_line l ≡ true) (line ∷ lines)
          → (o : CommandOutput) × (rcon_cmnd cmd exec a srv ≡ some (some o, none))
            × (joined o.pages ≡ printed "> " (line ∷ lines)))
unfolding rcon_cmnd run_server_command show_rcon
rcon_shows_lines cmd exec a srv counted =
    let rcmd = join_words (drop 1 a) in
    (
      λ down. rw (rcon_cmnd, counted, run_server_command, down) refl,
      λ up failed. rw (rcon_cmnd, counted, run_server_command, up, failed) refl,
      λ out up ran unknown. rw (rcon_cmnd, counted, run_server_command, up, ran, unknown) refl,
      λ line lines up ran known full are_lines.
          let out = joined_lines line lines in
          let trimmed : trim_line_feed (unlines (line ∷ lines)) ≡ out =
            ap trim_line_feed (unlines-joined_lines line lines) ∙ trim-append out in
          (
            rcon_output cmd rcmd out,
            rw
                (
                  rcon_cmnd,
                  counted,
                  run_server_command,
                  up,
                  ran,
                  known,
                  trimmed,
                  is_blank-joined_lines line lines full,
                )
                refl,
            rcon_output-prints cmd rcmd out
                ∙ ap (printed "> ") (split-joined_lines line lines are_lines),
          ),
    )
