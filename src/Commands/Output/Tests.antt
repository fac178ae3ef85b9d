-- ===== src/Commands/Output/Tests.antt =====
-- Runs of the output methods, and the theorems at them.
use avorioncontrol.Prelude.{
  ℕ, String, ◌<>◌, ◌≡◌, refl, true, none, some, [], ◌∷◌, pos, arith, All, map, zero, suc,
}
use avorioncontrol.Commands.Output.{
  Page, CommandOutput, new_command_output, construct, line_prefix, next_page,
}
use avorioncontrol.Commands.Output.Bounds.{Filled, construct_bounded}
use avorioncontrol.Commands.Output.Content.{joined, printed, construct_keeps_lines}
use avorioncontrol.Commands.Output.Navigation.{Pressed, next, start, press}

repeat : ℕ → String → String
repeat zero s = ""
repeat (suc n) s = s <> repeat n s

-- A line of 600 code points.
long_line : String
unfolding repeat
long_line = repeat 60 "0123456789"

abbrev plain : CommandOutput
plain = record (new_command_output "d" "u" (pos 1) "t") {
  quoted = true;
  lines = long_line ∷ "second" ∷ long_line ∷ long_line ∷ [];
}

three_pages : map (λ (p : Page). p.index) (construct plain).pages ≡ 0 ∷ 1 ∷ 2 ∷ []
unfolding construct new_command_output long_line
three_pages = refl

construct_keeps_lines_example :
    joined (construct plain).pages ≡ printed (line_prefix plain) plain.lines
unfolding new_command_output
construct_keeps_lines_example = construct_keeps_lines plain refl

construct_bounded_example : All (Filled 999) (construct plain).pages
unfolding new_command_output long_line
construct_bounded_example = construct_bounded 999 plain (omega arith) (omega arith)

abbrev fenced : CommandOutput
fenced = record (new_command_output "d" "u" (pos 1) "t") {
  monospace = true;
  lines = long_line ∷ long_line ∷ [];
}

-- The output after two presses of the next button.
abbrev first_output : CommandOutput
first_output = construct plain

abbrev second_output : CommandOutput
second_output = record first_output { current = 1; curr = some 1; next = some 2; last = some 0 }

abbrev third_output : CommandOutput
third_output = record first_output { current = 2; curr = some 2; next = none; last = some 1 }

to_second : Pressed (construct plain) second_output
unfolding construct new_command_output long_line next_page
to_second = press start (next {p = 1} refl)

to_third : Pressed (construct plain) third_output
unfolding construct new_command_output long_line next_page
to_third = press to_second (next {p = 2} refl)
