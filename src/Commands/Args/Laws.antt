-- ===== src/Commands/Args/Laws.antt =====
-- What the arguments of a message look like, and when `HasNumArgs` accepts them.
use Prim.Native.Char.{Char}
use text.Mathlib.TextLemmas.{nil-append, cons-append}
use avorioncontrol.Prelude.{
  String, ◌<>◌, ◌==◌, ◌≡◌, ◌≢◌, refl, sym, subst, eqb_ℤ_iff, ◌↔◌, ◌⊎◌, Bool, true, false, not, ◌&&◌,
  some, List, [], ◌∷◌, ℤ, pos, negsuc, ◌≤ℤ◌, All, arith, eq_iff, length, Bool-cases, inl, inr,
}
use avorioncontrol.Commands.Args.{
  add_word, has_num_args, is_regexp_space, read_args, trim_prefix, trim_space, words_after,
}

-- No character of the text is a space of the regexp.
unfoldable pub is_solid : String → Bool
is_solid String.[] = true
is_solid (String.◌∷◌ c s) = not (is_regexp_space c) && is_solid s

-- A word of a message: not empty, with no space in it.
abbrev pub IsWord : String → Type 0
IsWord w = (w ≢ "") × (is_solid w ≡ true)

is_solid-append :
    (s : String) (c : Char)
    → is_solid s ≡ true
    → is_regexp_space c ≡ false
    → is_solid (s <> String.◌∷◌ c String.[]) ≡ true
unfolding is_solid
is_solid-append String.[] c solid solid_c = rw (nil-append (String.◌∷◌ c String.[])) (ground arith)
is_solid-append (String.◌∷◌ d s) c solid solid_c =
    let rest : (is_solid s ≡ true) × (is_regexp_space d ≡ false) = ground arith in
    let first : is_solid (String.◌∷◌ d (s <> String.◌∷◌ c String.[])) ≡ true =
      ground (arith, is_solid-append s c rest.0 solid_c, rest.1) in
    rw (cons-append d s (String.◌∷◌ c String.[])) first

add_word-AreWords :
    (word : String) (words : List String)
    → is_solid word ≡ true
    → All IsWord words
    → All IsWord (add_word word words)
add_word-AreWords word words solid ok = elim (Bool-cases (word == "")) [
  | inl e ↦ rw e ok
  | inr e ↦ rw e ((λ empty. ground (arith, eq_iff word ""), solid), ok)
]

words_after-space :
    (word : String) (c : Char) (s : String)
    → is_regexp_space c ≡ true
    → words_after word (String.◌∷◌ c s) ≡ add_word word (words_after "" s)
unfolding words_after
words_after-space word c s e = rw (words_after, e) refl

words_after-char :
    (word : String) (c : Char) (s : String)
    → is_regexp_space c ≡ false
    → words_after word (String.◌∷◌ c s) ≡ words_after (word <> String.◌∷◌ c String.[]) s
unfolding words_after
words_after-char word c s e = rw (words_after, e) refl

words_after-AreWords : (word s : String) → is_solid word ≡ true → All IsWord (words_after word s)
unfolding words_after is_solid
words_after-AreWords word String.[] solid = add_word-AreWords word [] solid tt
words_after-AreWords word (String.◌∷◌ c s) solid = elim (Bool-cases (is_regexp_space c)) [
  | inl e ↦
      subst (All IsWord) (sym (words_after-space word c s e))
        (add_word-AreWords word (words_after "" s) solid (words_after-AreWords "" s refl))
  | inr e ↦
      subst (All IsWord) (sym (words_after-char word c s e))
        (words_after-AreWords (word <> String.◌∷◌ c String.[]) s (is_solid-append word c solid e))
]

-- Every argument of a message is not empty and has no space in it, whatever the prefix.
pub read_args-AreWords : (prefix content : String) → All IsWord (read_args prefix content)
unfolding read_args is_solid
read_args-AreWords prefix content =
    words_after-AreWords "" (trim_space (trim_prefix content prefix)) refl

-- For arguments of which the first is not empty, `HasNumArgs` accepts exactly those in which the
-- arguments behind the first number at least `min` and at most `max`, where -1 stands for no
-- bound.
pub has_num_args_exact :
    (name : String) (args : List String) (min max : ℤ)
    → name ≢ ""
    → (has_num_args (name ∷ args) min max ≡ some true) ↔ (
        ((min ≡ negsuc 0) ⊎ (min ≤ℤ pos (length args)))
        × ((max ≡ negsuc 0) ⊎ (pos (length args) ≤ℤ max)))
unfolding has_num_args
has_num_args_exact name args min max named =
    ground (arith, eq_iff name "", eqb_ℤ_iff min (negsuc 0), eqb_ℤ_iff max (negsuc 0))
