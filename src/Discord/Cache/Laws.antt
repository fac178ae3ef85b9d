-- ===== src/Discord/Cache/Laws.antt =====
-- Which names and colors the cache has after an update, and which colors end the program.
use text.Mathlib.TextLemmas.{length-append as count-append}
use avorioncontrol.Prelude.{
  ℕ, zero, suc, ◌+◌, ◌*◌, ◌/◌, ◌%◌, ◌≤◌, ◌<◌, ◌≡◌, ◌≢◌, refl, String, count, ◌<>◌, ◌==◌, eq_iff,
  Bool, true, false, ◌↔◌, Option, none, some, List, [], ◌∷◌, lookup, lookup-insert, ltb, eqb, arith,
  if◌then◌else◌, Bool-cases, Option-cases, inl, inr, ◌⊎◌, length, lt→ltb, ltb→lt, not, ltb→le,
  not_ltb,
}
use avorioncontrol.Prelude.Decimal.{hex, hex_digits, hex_digit}
use avorioncontrol.Discord.Roles.{rolesort}
use avorioncontrol.Discord.Cache.{
  Role, Member, Caches, short_of, cached_color, color_of, user_roles, own_name, name_of,
  cache_member, cache_members, Session, cached, panics, add_linked, cache_guild, update_guild,
}
use avorioncontrol.Discord.Cache.Fetch.{Serves, fetch_all}
use avorioncontrol.Avorion.Server.{Player}

one_of : (b : Bool) (s t : String) → count s ≡ 1 → count t ≡ 1 → count (if b then s else t) ≡ 1
one_of true s t one other = one
one_of false s t one other = other

hex_digit_one : (d : ℕ) → count (hex_digit d) ≡ 1
unfolding hex_digit
hex_digit_one d = search (one_of) depth 20

-- 16 to the power `k`.
abbrev pow16 : ℕ → ℕ
pow16 zero = 1
pow16 (suc k) = 16 * pow16 k

pow16_pos : (k : ℕ) → 0 < pow16 k
pow16_pos zero = omega arith
pow16_pos (suc k) = omega (arith, pow16_pos k)

-- A number of at most `k + 1` digits to the base 16 is written with no more.
hex_short :
    (k f n : ℕ) (out : String)
    → n < f
    → n < 16 * pow16 k
    → count (hex_digits f n out) ≤ k + 1 + count out
unfolding hex_digits
hex_short k zero n out enough small = elim enough [ ]
hex_short zero (suc f) n out enough small =
    rw ((lt→ltb n 16 (omega arith)), count-append, hex_digit_one) (omega arith)
hex_short (suc k) (suc f) n out enough small = elim (Bool-cases (ltb n 16)) [
  | inl last ↦ rw (last, count-append, hex_digit_one) (omega arith)
  | inr more ↦
      let here = hex_digit (n % 16) <> out in
      rw more (
        omega (
          arith,
          ltb→le n 16 more,
          hex_short k f (n / 16) here (omega (arith, ltb→le n 16 more)) (omega arith),
          count-append (hex_digit (n % 16)) out,
          hex_digit_one (n % 16),
        ))
]

-- A number with a digit at place `k`, and none behind it, is written with `k + 1` digits.
hex_long :
    (k f n : ℕ) (out : String)
    → n < f
    → pow16 k ≤ n
    → n < 16 * pow16 k
    → count (hex_digits f n out) ≡ k + 1 + count out
unfolding hex_digits
hex_long k zero n out enough least small = elim enough [ ]
hex_long zero (suc f) n out enough least small =
    rw (lt→ltb n 16 (omega arith), count-append, hex_digit_one) (omega arith)
hex_long (suc k) (suc f) n out enough least small =
    let here = hex_digit (n % 16) <> out in
    rw (not_ltb n 16 (omega (arith, pow16_pos k))) (
      omega (
        arith,
        hex_long k f (n / 16) here (omega (arith, pow16_pos k)) (omega arith) (omega arith),
        count-append (hex_digit (n % 16)) out,
        hex_digit_one (n % 16),
      ))

count-hex_exact : (n : ℕ) → n < 16777216 → eqb (count (hex n)) 6 ≡ not (ltb n 1048576)
unfolding hex
count-hex_exact n small = elim (Bool-cases (ltb n 1048576)) [
  | inl dark ↦
      let few : count (hex_digits (suc n) n "") ≤ 5 + count "" =
        hex_short 4 (suc n) n "" (omega arith) (ltb→lt n 1048576 dark) in
      ground (arith, few)
  | inr bright ↦
      let six : count (hex_digits (suc n) n "") ≡ 6 + count "" =
        hex_long 5 (suc n) n "" (omega arith) (ltb→le n 1048576 bright) small in
      ground (arith, six)
]

-- `cached_color` fails exactly for a color below 0x100000 that is not 0, in its lower 24 bits: its text
-- has fewer than six digits, so no line matches, and the slice of the submatches panics.
pub cached_color_panics :
    (color : ℕ) → (cached_color color ≡ none) ↔ ((color ≢ 0) × (color % 16777216 < 1048576))
unfolding cached_color short_of
cached_color_panics color =
    let six = count-hex_exact (color % 16777216) (omega arith) in
    (
      λ e. (λ zero. ground (arith, e, zero), ground (arith, e, six)),
      λ h. ground (arith, h, six, short_of),
    )

-- The name of the first member of an id whose roles are all known.
abbrev pub first_name : (String → Option Role) → List Member → (uid : String) → Option String
first_name role [] uid = none
first_name role (m ∷ members) uid = elim (user_roles role m.role_ids) [
  | none ↦ first_name role members uid
  | some roles ↦ if m.user_id == uid then some (own_name m) else first_name role members uid
]

-- The first of two that there is.
abbrev pub or_else : Option String → Option String → Option String
or_else none later = later
or_else (some first) later = some first

cache_member_names :
    (gr ur : List Role) (m : Member) (c after : Caches) (uid : String)
    → cache_member gr ur m c ≡ some after
    → lookup uid after.0 ≡ (if m.user_id == uid then some (name_of c.0 m) else lookup uid c.0)
unfolding cache_member
cache_member_names gr ur m (names, colors) after uid made =
    elim (Option-cases (cached_color (color_of gr (rolesort (λ r. r.position) ur)))) [
      | inl e ↦ ground (arith, made, e)
      | inr (entry, e) ↦
          ground (arith, made, e, lookup-insert m.user_id uid (name_of names m) names)
    ]

-- A member who comes first gives the name, unless there is one already.
cache_members_names :
    (role : String → Option Role) (gr : List Role) (members : List Member) (c after : Caches)
    (uid : String)
    → cache_members role gr members c ≡ some after
    → lookup uid after.0 ≡ or_else (lookup uid c.0) (first_name role members uid)
unfolding cache_members name_of
cache_members_names role gr [] c after uid made = ground (arith, made)
cache_members_names role gr (m ∷ members) c after uid made =
    elim (Option-cases (user_roles role m.role_ids)) [
      | inl e ↦
          let made' = rw (cache_members, e) at made in
          rw (first_name, e) (cache_members_names role gr members c after uid made')
      | inr (roles, e) ↦ elim (Option-cases (cache_member gr roles m c)) [
        | inl e' ↦ ground (arith, made, e, e')
        | inr (c', e') ↦
            let rest =
              cache_members_names role gr members c' after uid (ground (arith, made, e, e')) in
            ground (arith, rest, e, cache_member_names gr roles m c c' uid e', eq_iff m.user_id uid)
      ]
    ]

-- The update of a guild that Discord serves, with fuel for its members, ends: either a color panics, or the
-- names that it leaves are, for every id, that of a player linked to it, before all others, and else the
-- nick, or the user name without one, of the first member of the id whose roles are all known.
pub update_guild_names :
    (fuel k : ℕ) (s : Session) (players : List Player) (gid : String) (gr : List Role)
    (members : List Member)
    → s.guild gid ≡ true
    → s.guild_roles gid ≡ some gr
    → Serves (s.guild_members gid) k members
    → length members < fuel
    → (update_guild fuel s (some players) gid ≡ panics)
      ⊎ ((c : Caches) × (update_guild fuel s (some players) gid ≡ cached c)
          × ((uid : String)
              → lookup uid c.0
                ≡ or_else
                    (lookup uid (add_linked players []))
                    (first_name (s.role gid) members uid)))
unfolding update_guild cache_guild
update_guild_names fuel k s players gid gr members known roles serves enough =
    let sorted = rolesort (λ r. r.position) gr in
    let names = add_linked players [] in
    let all = fetch_all (s.guild_members gid) k members serves fuel enough in
    elim (Option-cases (cache_members (s.role gid) sorted members (names, []))) [
      | inl e ↦ inl (rw (update_guild, known, roles, cache_guild, all, e) refl)
      | inr (c, e) ↦ inr (
        c,
        rw (update_guild, known, roles, cache_guild, all, e) refl,
        λ uid. cache_members_names (s.role gid) sorted members (names, []) c uid e,
      )
    ]
