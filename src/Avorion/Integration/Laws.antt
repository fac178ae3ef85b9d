-- ===== src/Avorion/Integration/Laws.antt =====
-- A pin that was requested is accepted, again and again, and links the player it was requested for.
use Prim.Native.Char.{Char}
use text.Mathlib.TextLemmas.{nil-append, cons-append, append-nil, append_assoc}
use avorioncontrol.Prelude.{
  String, ◌==◌, ◌<>◌, ◌≡◌, refl, ◌∙◌, subst, ap, Bool, true, false, Option, none, some, lookup,
  lookup-insert, eq_iff, eq_refl, arith, if◌then◌else◌, Bool-cases, Option-cases, ◌⊎◌, inl, inr,
}
use avorioncontrol.Prelude.Decimal.{is_digit}
use avorioncontrol.Avorion.Server.{Player, Server}
use avorioncontrol.Avorion.Players.{player}
use avorioncontrol.Avorion.Players.Outcome.{goes_on, panics}
use avorioncontrol.Avorion.Integration.{
  all_digits, read_index, is_pin, find_pin, add_integration_request, add_integration, check_pin,
  validate_integration_pin,
}
use avorioncontrol.Avorion.Integration.Validated.{refused, linked}

read_index-digits :
    (seen digits rest : String)
    → all_digits digits ≡ true
    → read_index seen (digits <> rest) ≡ read_index (seen <> digits) rest
unfolding all_digits read_index
read_index-digits seen String.[] rest ok = rw (nil-append rest, append-nil seen) refl
read_index-digits seen (String.◌∷◌ c s) rest ok =
    let first : is_digit c ≡ true = ground (arith, ok) in
    let more : all_digits s ≡ true = ground (arith, ok) in
    rw (cons-append c s rest, read_index, first)
      (read_index-digits (seen <> String.◌∷◌ c String.[]) s rest more
        ∙ ap (λ t. read_index t rest) (joined seen c s))
  where
    joined :
        (seen : String) (c : Char) (s : String)
        → (seen <> String.◌∷◌ c String.[]) <> s ≡ seen <> String.◌∷◌ c s
    joined seen c s =
        append_assoc seen (String.◌∷◌ c String.[]) s
        ∙ ap (λ t. seen <> t) (cons-append c String.[] s ∙ ap (λ t. String.◌∷◌ c t) (nil-append s))

read_index-colon :
    (index pin : String) → (index == "") ≡ false → read_index index (":" <> pin) ≡ some (index, pin)
unfolding read_index is_digit
read_index-colon index pin named = rw (cons-append ":" String.[] pin, nil-append pin, named) refl

-- A text of digits, a colon and a pin is found as the two.
find_pin-of :
    (index pin : String)
    → all_digits index ≡ true
    → (index == "") ≡ false
    → is_pin pin ≡ true
    → find_pin (index <> (":" <> pin)) ≡ some (index, pin)
unfolding find_pin
find_pin-of index pin digits named ok =
    rw
      (
        read_index-digits "" index (":" <> pin) digits,
        nil-append index,
        read_index-colon index pin named,
        ok,
      )
      refl

-- A request is kept by the server under its index.
lookup-request :
    (index pin : String) (s : Server)
    → lookup index (add_integration_request index pin s).requests ≡ some pin
unfolding add_integration_request
lookup-request index pin s = rw (lookup-insert, eq_refl index) refl

player-request :
    (index pin : String) (s : Server)
    → player index (add_integration_request index pin s) ≡ player index s
unfolding add_integration_request player
player-request index pin s = refl

-- After a request for a known player, the text of its index, a colon and its pin links that player to
-- whoever sends it: the index is of digits, and the pin of ten digits.
pub requested_pin_links :
    (opened : Bool) (index pin discord_id : String) (s : Server) {p : Player}
    → all_digits index ≡ true
    → (index == "") ≡ false
    → is_pin pin ≡ true
    → player index s ≡ some p
    → validate_integration_pin opened
        (index <> (":" <> pin))
        discord_id
        (add_integration_request index pin s)
      ≡ goes_on (linked index discord_id)
unfolding validate_integration_pin check_pin add_integration
requested_pin_links opened index pin discord_id s digits named ok known =
    rw
      (
        validate_integration_pin,
        find_pin-of index pin digits named ok,
        check_pin,
        lookup-request index pin s,
        eq_refl pin,
        player-request index pin s,
        known,
        add_integration,
      )
      refl

-- After a request for a player who is not known, the same text lets the program panic, once the database
-- is open.
pub pin_of_unknown_panics :
    (index pin discord_id : String) (s : Server)
    → all_digits index ≡ true
    → (index == "") ≡ false
    → is_pin pin ≡ true
    → player index s ≡ none
    → validate_integration_pin true
        (index <> (":" <> pin))
        discord_id
        (add_integration_request index pin s)
      ≡ panics
unfolding validate_integration_pin check_pin add_integration
pin_of_unknown_panics index pin discord_id s digits named ok unknown =
    rw
      (
        validate_integration_pin,
        find_pin-of index pin digits named ok,
        check_pin,
        lookup-request index pin s,
        eq_refl pin,
        player-request index pin s,
        unknown,
        add_integration,
      )
      refl

-- The player is there, or the database could not be opened.
abbrev pub IsAsked : Bool → Option Player → Type 0
IsAsked opened q = (opened ≡ false) ⊎ ((p : Player) × (q ≡ some p))

add_integration-linked :
    (opened : Bool) (q : Option Player) (i d index user : String)
    → add_integration opened q i d ≡ goes_on (linked index user)
    → (i ≡ index) × (user ≡ d) × IsAsked opened q
unfolding add_integration
add_integration-linked true none i d index user e = ground (arith, e)
add_integration-linked false none i d index user e =
    (ground (arith, e), ground (arith, e), inl refl)
add_integration-linked opened (some p) i d index user e =
    (ground (arith, e), ground (arith, e), inr (p, refl))

check_pin-linked :
    (opened : Bool) (i pin d index user : String) (s : Server)
    → check_pin opened d (i, pin) s ≡ goes_on (linked index user)
    → (i ≡ index) × (lookup i s.requests ≡ some pin) × (user ≡ d) × IsAsked opened (player i s)
unfolding check_pin
check_pin-linked opened i pin d index user s e = elim (Option-cases (lookup i s.requests)) [
  | inl missing ↦ ground (arith, e, missing)
  | inr (val, kept) ↦ elim (Bool-cases (val == pin)) [
    | inl same ↦
        let added =
          subst
            (λ b.
              (if b then add_integration opened (player i s) i d else goes_on refused)
              ≡ goes_on (linked index user))
            same
            (subst
              (λ o.
                elim o [
                  | none ↦ goes_on refused
                  | some v ↦
                      if v == pin then add_integration opened (player i s) i d else goes_on refused
                ]
                ≡ goes_on (linked index user))
              kept e) in
        let (at, sender, asked) = add_integration-linked opened (player i s) i d index user added in
        (at, kept ∙ ap some ((eq_iff val pin).0 same), sender, asked)
    | inr differs ↦ ground (arith, e, kept, differs)
  ]
]

-- Whoever is linked has sent a pin that is the one requested last for the index, and the player is
-- known, or the database could not be opened.
pub link_needs_request :
    (opened : Bool) (text discord_id index user : String) (s : Server)
    → validate_integration_pin opened text discord_id s ≡ goes_on (linked index user)
    → (pin : String) × (find_pin text ≡ some (index, pin))
      × (lookup index s.requests ≡ some pin)
      × (user ≡ discord_id)
      × IsAsked opened (player index s)
unfolding validate_integration_pin
link_needs_request opened text discord_id index user s linked_so =
    elim (Option-cases (find_pin text)) [
      | inl e ↦ ground (arith, linked_so, e)
      | inr ((i, pin), e) ↦
          let checked =
            subst
              (λ o.
                elim o [ none ↦ goes_on refused | some m ↦ check_pin opened discord_id m s ]
                ≡ goes_on (linked index user))
              e linked_so in
          let (same, kept, sender, asked) =
            check_pin-linked opened i pin discord_id index user s checked in
          (
            pin,
            e ∙ ap (λ k. some (k, pin)) same,
            subst (λ k. lookup k s.requests ≡ some pin) same kept,
            sender,
            subst (λ k. IsAsked opened (player k s)) same asked,
          )
    ]
