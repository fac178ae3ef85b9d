-- ===== src/Prelude/Decimal.antt =====
-- `strconv.Itoa` and the `%d` of `fmt.Sprintf`: decimal print. `strconv.Atoi` and `strconv.ParseInt`:
-- decimal read, of 64 and of 32 bits.
use Prim.Native.Char.{Char, code}
use Prim.Native.Nat.{ℕ, zero, suc, ◌+◌, ◌-◌, ◌*◌, ◌^◌, ◌/◌, ◌%◌}
use Prim.Native.String.{String, ◌++◌}
use mathlib.Core.Path.{◌≡◌, refl, subst}
use mathlib.Core.Bool.{Bool, true, false, ◌&&◌}
use mathlib.Core.Option.{Option, none, some}
use mathlib.Core.Logic.{inl, inr}
use avorioncontrol.Prelude.Tests.{
  ltb, leb, eqb, bind, if◌then◌else◌, bind-some, Bool-cases, some_injective,
}
use avorioncontrol.Prelude.Int.{ℤ, pos, negsuc}

digit : ℕ → String
digit d =
    if eqb d 0
    then "0"
    else if eqb d 1
    then "1"
    else if eqb d 2
    then "2"
    else if eqb d 3
    then "3"
    else if eqb d 4
    then "4"
    else if eqb d 5
    then "5"
    else if eqb d 6
    then "6"
    else if eqb d 7
    then "7"
    else if eqb d 8
    then "8"
    else "9"

-- The fuel is one more than the number, which is more than its digits.
digits : ℕ → ℕ → String → String
unfolding digit
digits zero n out = out
digits (suc f) n out =
    let out' = digit (n % 10) ++ out in
    let rest = digits f (n / 10) out' in if ltb n 10 then out' else rest

unfoldable pub show : ℕ → String
unfolding digits
show n = digits (suc n) n ""

unfoldable pub show_ℤ : ℤ → String
unfolding show
show_ℤ (pos n) = show n
show_ℤ (negsuc n) = "-" ++ show (suc n)

-- The `%x` of `fmt.Sprintf`, with lower case letters.
unfoldable pub hex_digit : ℕ → String
unfolding digit
hex_digit d =
    if ltb d 10
    then digit d
    else if eqb d 10
    then "a"
    else if eqb d 11
    then "b"
    else if eqb d 12
    then "c"
    else if eqb d 13
    then "d"
    else if eqb d 14
    then "e"
    else "f"

unfoldable pub hex_digits : ℕ → ℕ → String → String
unfolding hex_digit
hex_digits zero n out = out
hex_digits (suc f) n out =
    let out' = hex_digit (n % 16) ++ out in
    let rest = hex_digits f (n / 16) out' in if ltb n 16 then out' else rest

unfoldable pub hex : ℕ → String
unfolding hex_digits
hex n = hex_digits (suc n) n ""

-- `[0-9]`
unfoldable pub is_digit : Char → Bool
is_digit c = leb 48 (code c) && leb (code c) 57

-- The digits up to the end, behind the value `n`.
unfoldable pub read_digits : ℕ → String → Option ℕ
unfolding is_digit
read_digits n String.[] = some n
read_digits n (String.◌∷◌ c s) =
    let rest = read_digits (n * 10 + (code c - 48)) s in if is_digit c then rest else none

-- At least one digit.
unfoldable pub read_natural : String → Option ℕ
read_natural String.[] = none
read_natural (String.◌∷◌ c s) = read_digits 0 (String.◌∷◌ c s)

abbrev pub negate : ℕ → ℤ
negate zero = pos 0
negate (suc n) = negsuc n

-- A number of any size: a sign or none, and digits.
unfoldable pub read_number : String → Option ℤ
read_number String.[] = none
read_number (String.◌∷◌ c s) =
    if eqb (code c) 45
    then bind (read_natural s) (λ n. some (negate n))
    else if eqb (code c) 43
    then bind (read_natural s) (λ n. some (pos n))
    else bind (read_natural (String.◌∷◌ c s)) (λ n. some (pos n))

-- Signed numbers of a width, by the bound of their size.
abbrev in_range : ℕ → ℤ → Bool
in_range bound (pos n) = ltb n bound
in_range bound (negsuc n) = ltb n bound

-- `strconv.Atoi`, and `strconv.ParseInt` of 64 bits; none is an error.
unfoldable pub atoi : String → Option ℤ
atoi s = bind (read_number s) (λ n. if in_range (2 ^ 63) n then some n else none)

-- `strconv.Atoi` has no error.
unfoldable pub is_int : String → Bool
is_int s = elim (atoi s) [ none ↦ false | some n ↦ true ]

-- The value of `strconv.ParseInt` of 32 bits, whose error is not read: 0, or the nearest number.
unfoldable pub parse_int_32 : String → ℤ
parse_int_32 s = elim (read_number s) [
  | none ↦ pos 0
  | some n ↦
      if in_range (2 ^ 31) n
      then n
      else elim n [ pos k ↦ pos (2 ^ 31 - 1) | negsuc k ↦ negsuc (2 ^ 31 - 1) ]
]

-- The value of `strconv.Atoi`, whose error is not read: 0, or the nearest number.
unfoldable pub parse_int : String → ℤ
parse_int s = elim (read_number s) [
  | none ↦ pos 0
  | some n ↦
      if in_range (2 ^ 63) n
      then n
      else elim n [ pos k ↦ pos (2 ^ 63 - 1) | negsuc k ↦ negsuc (2 ^ 63 - 1) ]
]

-- Where `strconv.ParseInt` has no error, its value is the number.
pub parse_int-atoi : (s : String) (n : ℤ) → atoi s ≡ some n → parse_int s ≡ n
unfolding atoi parse_int
parse_int-atoi s n h =
    let (m, found, made) = bind-some (read_number s) _ n h in
    elim (Bool-cases (in_range (2 ^ 63) m)) [
      | inl e ↦
          rw (parse_int, found, e)
            (some_injective (subst (λ b. (if b then some m else none) ≡ some n) e made))
      | inr e ↦ cc (subst (λ b. (if b then some m else none) ≡ some n) e made)
    ]

show_some : show 9223372036854775807 ≡ "9223372036854775807"
unfolding show
show_some = refl

show_negative : show_ℤ (negsuc 41) ≡ "-42"
unfolding show_ℤ
show_negative = refl

atoi-negative : atoi "-42" ≡ some (negsuc 41)
unfolding atoi read_number read_natural read_digits
atoi-negative = refl

atoi-too_large : atoi "9223372036854775808" ≡ none
unfolding atoi read_number read_natural read_digits
atoi-too_large = refl

parse_int_32-nearest : parse_int_32 "4294967296" ≡ pos 2147483647
unfolding parse_int_32 read_number read_natural read_digits
parse_int_32-nearest = refl
