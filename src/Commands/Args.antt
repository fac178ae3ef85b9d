-- ===== src/Commands/Args.antt =====
-- discord/commands/functions.go, and how ProcessCommand (discord/commands/registrar.go) reads a
-- message: `strings.TrimPrefix`, `strings.TrimSpace` and the matches of the regexp `[^\s]+`.
pub mod Laws
pub mod Tests
use Prim.Native.Char.{Char, code}
use text.Mathlib.Text.{starts_with}
use Prim.Native.String.{slice}
use avorioncontrol.Prelude.{
  ℕ, zero, suc, negsuc, get_elem?, ◌+◌, ◌-◌, String, len, ◌<>◌, ◌==◌, Bool, true, false, ◌&&◌, ◌||◌,
  Option, none, some, List, [], ◌∷◌, ◌++◌, ℤ, pos, ltb_ℤ, eqb_ℤ, ltb, leb, eqb, if◌then◌else◌,
  length,
}

-- `HasNumArgs`; `none` is the `log.Fatal` on an empty argument list. -1 switches a bound off.
unfoldable pub has_num_args : List String → ℤ → ℤ → Option Bool
has_num_args [] min max = none
has_num_args (name ∷ args) min max =
    if name == ""
    then none
    else (let given = pos (length args) in
        let least = if eqb_ℤ min (negsuc 0) then pos 0 else min in
        let most = if eqb_ℤ max (negsuc 0) then pos (length args + 1) else max in
        if ltb_ℤ most given || ltb_ℤ given least then some false else some true)

-- The loop of `reverseJumps`, `n` positions from the end.
unfoldable pub reverse_from {ℓ} : {A : Type ℓ} → List A → ℕ → List A
reverse_from j zero = []
reverse_from j (suc i) = elim (get_elem? j i) [ none ↦ [] | some x ↦ x ∷ reverse_from j i ]

-- `reverseJumps`
unfoldable pub reverse_jumps {ℓ} : {A : Type ℓ} → List A → List A
unfolding reverse_from
reverse_jumps j = reverse_from j (length j)

-- Go's `\s`.
unfoldable pub is_regexp_space : Char → Bool
is_regexp_space c = let n = code c in eqb n 9 || eqb n 10 || eqb n 12 || eqb n 13 || eqb n 32

-- `unicode.IsSpace`
unfoldable pub is_space : Char → Bool
is_space c =
    let n = code c in
    (leb 9 n && leb n 13)
    || eqb n 32
    || eqb n 133
    || eqb n 160
    || eqb n 5760
    || (leb 8192 n && leb n 8202)
    || eqb n 8232
    || eqb n 8233
    || eqb n 8239
    || eqb n 8287
    || eqb n 12288

-- `strings.TrimPrefix`
unfoldable pub trim_prefix : String → String → String
trim_prefix s prefix = if starts_with s prefix then slice s (len prefix) (len s) else s

unfoldable pub trim_left : String → String
unfolding is_space
trim_left String.[] = ""
trim_left (String.◌∷◌ c s) = elim (is_space c) [ true ↦ trim_left s | false ↦ String.◌∷◌ c s ]

unfoldable pub trim_right : String → String
unfolding is_space
trim_right String.[] = ""
trim_right (String.◌∷◌ c s) =
    let rest = trim_right s in if (rest == "") && is_space c then "" else String.◌∷◌ c rest

-- `strings.TrimSpace`
unfoldable pub trim_space : String → String
unfolding trim_left trim_right
trim_space s = trim_right (trim_left s)

-- A word that is not empty, in front of the others.
abbrev pub add_word : String → List String → List String
add_word word words = if word == "" then words else word ∷ words

-- The matches of `[^\s]+`, the first of which begins with what is read of it.
unfoldable pub words_after : String → String → List String
unfolding is_regexp_space
words_after word String.[] = add_word word []
words_after word (String.◌∷◌ c s) = elim (is_regexp_space c) [
  | true ↦ add_word word (words_after "" s)
  | false ↦ words_after (word <> String.◌∷◌ c String.[]) s
]

-- The arguments of a message.
unfoldable pub read_args : String → String → List String
unfolding trim_prefix trim_space words_after
read_args prefix content = words_after "" (trim_space (trim_prefix content prefix))
