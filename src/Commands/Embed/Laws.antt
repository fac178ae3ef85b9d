-- ===== src/Commands/Embed/Laws.antt =====
-- A pager shows pages of its output and nothing else.
use avorioncontrol.Prelude.{
  ◌≡◌, refl, sym, subst, ap, ◌∙◌, Bool, true, false, Option, none, some, List, [], ◌∷◌, ◌++◌, All,
  All-append, bind, length, if◌then◌else◌, Bool-cases, Option-cases, inl, inr,
}
use avorioncontrol.Commands.Output.{Page, CommandOutput, construct, this_page}
use avorioncontrol.Commands.Output.Navigation.{IsPaging, construct-IsPaging}
use avorioncontrol.Commands.Embed.{
  Embed, generate_output_embed, Emoji, forward, back, other, Reaction, Act, edits, clears, offers,
  Pager, is_pressed, press, react_to, serve, expire, begin, create_paged_embed,
}
use avorioncontrol.Commands.Embed.Turns.{
  ShowsPage, IsShown, IsWithin, IsServing, generated, shown_in, pressed_forward, pressed_back,
}

-- The arrows that were pressed.
abbrev pub pressed_of : List Reaction → List Emoji
pressed_of [] = []
pressed_of (r ∷ rs) = if is_pressed r then r.emoji ∷ pressed_of rs else pressed_of rs

-- Each arrow once at most, and only if it was offered.
abbrev pub AreOffered : (do_p do_n : Bool) → List Emoji → Type 0
AreOffered do_p do_n [] = Unit
AreOffered do_p do_n (forward ∷ []) = do_n ≡ true
AreOffered do_p do_n (back ∷ []) = do_p ≡ true
AreOffered do_p do_n (forward ∷ back ∷ []) = (do_n ≡ true) × (do_p ≡ true)
AreOffered do_p do_n (back ∷ forward ∷ []) = (do_n ≡ true) × (do_p ≡ true)
AreOffered do_p do_n more = ⊥

-- The presses one after the other.
abbrev press_all : List Emoji → Pager → Option Pager
press_all [] p = some p
press_all (e ∷ es) p = bind (press e p) (λ p'. press_all es p')

react_to_lem : (rs : List Reaction) (p : Pager) → react_to rs p ≡ press_all (pressed_of rs) p
unfolding react_to
react_to_lem [] p = refl
react_to_lem (r ∷ rs) p = elim (Bool-cases (is_pressed r)) [
  | inl e ↦ elim (Option-cases (press r.emoji p)) [
    | inl gone ↦ rw (e, gone) refl
    | inr (p', made) ↦ rw (e, made) (react_to_lem rs p')
  ]
  | inr e ↦ rw e (react_to_lem rs p)
]

pressed_all :
    (pages : List Page) (es : List Emoji) (p : Pager)
    → IsServing pages p
    → AreOffered p.do_p p.do_n es
    → (p' : Pager) × (press_all es p ≡ some p') × IsServing pages p'
pressed_all pages [] p h ok = (p, refl, h)
pressed_all pages (forward ∷ []) p h ok =
    let (p', made, serving, more) = pressed_forward pages p h ok in (p', rw made refl, serving)
pressed_all pages (back ∷ []) p h ok =
    let (p', made, serving, more) = pressed_back pages p h ok in (p', rw made refl, serving)
pressed_all pages (forward ∷ back ∷ []) p h ok =
    let (p', made, serving, more) = pressed_forward pages p h ok.0 in
    let (p'', made', serving', more') = pressed_back pages p' serving more in
    (p'', rw (made, made') refl, serving')
pressed_all pages (back ∷ forward ∷ []) p h ok =
    let (p', made, serving, more) = pressed_back pages p h ok.1 in
    let (p'', made', serving', more') = pressed_forward pages p' serving more in
    (p'', rw (made, made') refl, serving')
pressed_all pages (other ∷ []) p h ok = elim ok [ ]
pressed_all pages (other ∷ e ∷ es) p h ok = elim ok [ ]
pressed_all pages (forward ∷ forward ∷ es) p h ok = elim ok [ ]
pressed_all pages (forward ∷ other ∷ es) p h ok = elim ok [ ]
pressed_all pages (forward ∷ back ∷ e ∷ es) p h ok = elim ok [ ]
pressed_all pages (back ∷ back ∷ es) p h ok = elim ok [ ]
pressed_all pages (back ∷ other ∷ es) p h ok = elim ok [ ]
pressed_all pages (back ∷ forward ∷ e ∷ es) p h ok = elim ok [ ]

-- In every round the bot's own reactions are those that it offered, and each arrow is there once.
abbrev pub IsHonest : List (List Reaction) → Pager → Type 0
IsHonest [] p = Unit
IsHonest (rs ∷ rounds) p =
    AreOffered p.do_p p.do_n (pressed_of rs)
    × ((p' : Pager) → react_to rs p ≡ some p' → IsHonest rounds p')

served :
    (pages : List Page) (rounds : List (List Reaction)) (p : Pager)
    → IsServing pages p
    → IsHonest rounds p
    → (p' : Pager) × (serve rounds p ≡ some p') × IsServing pages p'
unfolding serve
served pages [] p h honest = (p, refl, h)
served pages (rs ∷ rounds) p h (offered, later) =
    let (p', made, serving) = pressed_all pages (pressed_of rs) p h offered in
    let reacted : react_to rs p ≡ some p' = react_to_lem rs p ∙ made in
    let (p'', made', serving') = served pages rounds p' serving (later p' reacted) in
    (p'', rw (reacted, made') refl, serving')

ahead-All :
    (pages : List Page) (n : Bool) → All (IsShown pages) (if n then offers forward ∷ [] else [])
ahead-All pages true = (tt, tt)
ahead-All pages false = tt

begin-IsServing :
    (pages : List Page) (o : CommandOutput)
    → IsPaging pages o
    → o.last ≡ none
    → IsServing pages (begin o)
unfolding begin this_page
begin-IsServing pages o paging first =
    let (curr, inside) = shown_in pages o paging in
    let (e, made, shows) = generated pages o o.current paging.same_pages inside in
    let shown_first = ap (generate_output_embed o) curr ∙ made in
    let shows_first = subst (ShowsPage pages) (sym (ap (λ g. g.0) shown_first)) shows in
    record {
      paging = paging;
      behind_in = subst (IsWithin (length pages)) (sym first) tt;
      back_offered = ap (λ g. g.1) shown_first;
      ahead_offered = ap (λ g. g.2) shown_first;
      embedded = shows_first;
      shown = (shows_first, ahead-All pages (begin o).do_n);
    }

there :
    (pages : List Page) (e : Option Embed)
    → ShowsPage pages e
    → (shown : Embed) × (e ≡ some shown)
      × ShowsPage pages (some (record shown { footer = some "(expired)" }))
there pages none shows = elim shows [ ]
there pages (some e) shows = (e, refl, shows)

expired :
    (pages : List Page) (found : Bool) (p : Pager)
    → IsServing pages p
    → (acts : List Act) × (expire found p ≡ some acts) × All (IsShown pages) acts
unfolding expire
expired pages false p h = (p.acts, refl, h.shown)
expired pages true p h =
    let (e, same, shows) = there pages p.embed h.embedded in
    (
      p.acts ++ edits (some (record e { footer = some "(expired)" })) ∷ clears ∷ [],
      rw same refl,
      All-append (IsShown pages) p.acts _ h.shown (shows, (tt, tt)),
    )

-- The pager of a constructed output never panics, and every embed that it sends, up to the one that it marks
-- as expired, shows a page of the output, whatever arrows are pressed in whatever order: the bot's own
-- reactions are those that it offered, and an arrow is one reaction.
pub pager_shows_pages :
    (c : CommandOutput) (rounds : List (List Reaction)) (found : Bool)
    → IsHonest rounds (begin (construct c))
    → (acts : List Act) × (create_paged_embed true rounds found (construct c) ≡ some acts)
      × All (IsShown (construct c).pages) acts
unfolding create_paged_embed
pager_shows_pages c rounds found honest =
    let pages = (construct c).pages in
    let first : (construct c).last ≡ none = unfold construct in refl in
    let begun = begin-IsServing pages (construct c) (construct-IsPaging c) first in
    let (p, made, serving) = served pages rounds (begin (construct c)) begun honest in
    let (acts, ended, shown) = expired pages found p serving in (acts, rw (made, ended) refl, shown)
