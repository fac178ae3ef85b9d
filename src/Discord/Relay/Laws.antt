-- ===== src/Discord/Relay/Laws.antt =====
-- A message of a member stays inside its argument of the command to the game.
use Prim.Native.Char.{code}
use text.Mathlib.TextLemmas.{nil-append, cons-append}
use avorioncontrol.Prelude.{
  ℕ, ◌+◌, String, ◌<>◌, ◌≡◌, refl, ◌∙◌, ap, eqb, arith, if◌then◌else◌, Bool-cases, inl, inr,
}
use avorioncontrol.Discord.Relay.{replace_quotes, discordsay}

-- The double quotes of a text.
unfoldable pub quotes : String → ℕ
quotes String.[] = 0
quotes (String.◌∷◌ c s) = (if eqb (code c) 34 then 1 else 0) + quotes s

quotes-append : (s t : String) → quotes (s <> t) ≡ quotes s + quotes t
unfolding quotes
quotes-append String.[] t = rw (nil-append t) (omega arith)
quotes-append (String.◌∷◌ c s) t = rw (cons-append c s t) (omega (arith, quotes-append s t))

quotes-replace_quotes : (s : String) → quotes (replace_quotes s) ≡ 0
unfolding replace_quotes quotes
quotes-replace_quotes String.[] = refl
quotes-replace_quotes (String.◌∷◌ c s) = elim (Bool-cases (eqb (code c) 34)) [
  | inl quote ↦
      let curly : quotes "“" ≡ 0 = refl in
      rw quote
        (quotes-append "“" (replace_quotes s) ∙ omega (arith, curly, quotes-replace_quotes s))
  | inr other ↦ rw (other, quotes, other) (omega (arith, quotes-replace_quotes s))
]

-- Whatever the author's name and the text, the command to the game has the six double quotes that stand
-- around its arguments, and those of the color: neither can end its argument.
pub quotes-discordsay :
    (color author content : String) → quotes (discordsay color author content) ≡ 6 + quotes color
unfolding discordsay quotes
quotes-discordsay color author content =
    let ends : quotes "\"" ≡ 1 = refl in
    let between : quotes "\" \"" ≡ 2 = refl in
    let begins : quotes "discordsay \"" ≡ 1 = refl in
    let three =
      quotes-append (replace_quotes content) "\""
      ∙ ap (λ n. n + quotes "\"") (quotes-replace_quotes content) in
    let two =
      quotes-append (replace_quotes author) ("\" \"" <> (replace_quotes content <> "\""))
      ∙ ap (λ n. n + quotes ("\" \"" <> (replace_quotes content <> "\"")))
          (quotes-replace_quotes author) in
    omega (
      arith,
      ends,
      between,
      begins,
      three,
      two,
      quotes-append "\" \"" (replace_quotes content <> "\""),
      quotes-append "\" \""
          (replace_quotes author <> ("\" \"" <> (replace_quotes content <> "\""))),
      quotes-append color
          ("\" \"" <> (replace_quotes author <> ("\" \"" <> (replace_quotes content <> "\"")))),
      quotes-append "discordsay \"" (
          color
          <> ("\" \"" <> (replace_quotes author <> ("\" \"" <> (replace_quotes content <> "\""))))),
    )
