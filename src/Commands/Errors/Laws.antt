-- ===== src/Commands/Errors/Laws.antt =====
-- What `Emit` shows of an error.
use text.Mathlib.TextLemmas.{nil-append}
use avorioncontrol.Prelude.{
  String, count, ◌<>◌, ◌≡◌, ◌≢◌, refl, ◌∙◌, ◌↔◌, false, Option, none, some, [], ◌∷◌, arith,
  if◌then◌else◌, bind, get_elem?, Option-cases, inl, inr, ◌⊎◌, Bool-cases, ap, ltb,
}
use avorioncontrol.Commands.Output.{
  Page, CommandOutput, new_command_output, add_line, construct, this_page, build_pages, add_all,
  add_to_pages, fits, open_page, close_page, first_page, line_prefix,
}
use avorioncontrol.Commands.Errors.{
  CommandRef, CommandError, command, subcommand, error_text, speaker, error_output, emit,
}

-- The page that is sent.
abbrev pub shown : CommandOutput → Option Page
shown o = bind (this_page o) (get_elem? o.pages)

-- The pages of a single line, neither quoted nor monospace.
one_line :
    (line : String)
    → build_pages false "" (line ∷ []) ≡ (
        if ltb (count line) 1000
        then record { content = line <> "\n"; index = 0 } ∷ []
        else first_page ∷ record { content = line <> "\n"; index = 1 } ∷ [])
unfolding build_pages add_all add_to_pages open_page fits close_page
one_line line = elim (Bool-cases (ltb (count line) 1000)) [
  | inl e ↦ simp (nil-append, e)
  | inr e ↦ simp (nil-append, e)
]

-- `Emit` sends a message exactly for the errors that have a command or a subcommand.
pub emit_sends : (e : CommandError) → (emit e ≢ none) ↔ ((command e ≢ none) ⊎ (subcommand e ≢ none))
unfolding emit speaker
emit_sends e = ground (arith, Option-cases (command e), Option-cases (subcommand e))

-- The page that an error's output shows.
shown-error_output :
    (cmd : CommandRef) (text : String)
    → shown (error_output cmd text)
      ≡ some (
          if ltb (count text) 1000
          then record { content = text <> "\n"; index = 0 }
          else first_page)
unfolding error_output new_command_output add_line construct this_page line_prefix
shown-error_output cmd text =
    ap (λ pages. get_elem? pages 0) (one_line text)
    ∙ elim (Bool-cases (ltb (count text) 1000)) [ inl e ↦ rw e refl | inr e ↦ rw e refl ]

-- What `Emit` sends of an error that has a command or a subcommand: the text of the error on one
-- page if it is shorter than 1000 code points, and an empty page otherwise.
pub emit_shows :
    (e : CommandError) (cmd : CommandRef)
    → speaker e ≡ some cmd
    → bind (emit e) shown
      ≡ some (
          if ltb (count (error_text e)) 1000
          then record { content = error_text e <> "\n"; index = 0 }
          else first_page)
unfolding emit
emit_shows e cmd said = rw (emit, bind, said) (shown-error_output cmd (error_text e))
