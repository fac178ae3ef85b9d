-- ===== src/Commands/Embed/Tests.antt =====
-- A pager of two pages.
use avorioncontrol.Prelude.{
  ℕ, zero, suc, ◌≡◌, refl, String, ◌<>◌, true, some, List, [], ◌∷◌, pos, All,
}
use avorioncontrol.Prelude.Decimal.{show}
use avorioncontrol.Commands.Output.{
  index, CommandOutput, new_command_output, construct, this_page, build_pages, line_prefix, add_all,
  add_to_pages, open_page, close_page, fits,
}
use avorioncontrol.Commands.Embed.{
  Act, Reaction, forward, back, begin, create_paged_embed, is_pressed, generate_output_embed,
  is_set, heading_of,
}
use avorioncontrol.Commands.Embed.Turns.{IsShown}
use avorioncontrol.Commands.Embed.Laws.{IsHonest, pager_shows_pages}

unfoldable repeated : ℕ → String
repeated zero = ""
repeated (suc n) = "0123456789" <> repeated n

abbrev long : CommandOutput
unfolding repeated new_command_output
long = record (new_command_output "" "" (pos 1) "Pages") { lines = repeated 60 ∷ repeated 60 ∷ [] }

abbrev pressed : Reaction
pressed = record { emoji = forward; number = 2; me = true }

abbrev waiting : Reaction
waiting = record { emoji = back; number = 1; me = true }

-- The first page, of two.
titled : heading_of (construct long) ≡ "Output (1 of 2)"
unfolding heading_of long construct build_pages line_prefix add_all add_to_pages open_page
    close_page fits show index
titled = refl

one_press : IsHonest ((waiting ∷ pressed ∷ []) ∷ []) (begin (construct long))
unfolding is_pressed begin generate_output_embed is_set this_page long construct build_pages
    line_prefix add_all add_to_pages open_page close_page fits
one_press = (refl, λ p' e. tt)

pager_shows_pages_example :
    (acts : List Act) × (create_paged_embed true
        ((waiting ∷ pressed ∷ []) ∷ [])
        true
        (construct long)
      ≡ some acts)
    × All (IsShown (construct long).pages) acts
pager_shows_pages_example = pager_shows_pages long ((waiting ∷ pressed ∷ []) ∷ []) true one_press
