-- ===== src/Commands/Embed/Turns.antt =====
-- A page that is turned to is one of the pages.
use avorioncontrol.Prelude.{
  ℕ, ◌-◌, ◌<◌, ◌≡◌, refl, sym, subst, ap, ◌∙◌, Bool, true, false, Option, none, some, List, ◌∷◌,
  ◌++◌, All, All-append, eqb, length, get_elem?, get_elem?-some, Bool-cases, inl, inr,
}
use avorioncontrol.Commands.Output.{Page, CommandOutput}
use avorioncontrol.Commands.Output.Navigation.{
  IsPaging, after_next, after_previous, next_page_lem, previous_page_lem, after_next-IsPaging,
  after_previous-IsPaging,
}
use avorioncontrol.Commands.Embed.{
  Embed, embed_of, is_set, generate_output_embed, forward, back, Act, sends, edits, clears, offers,
  Pager, arrows, turn_page, press,
}

-- The embed shows one of the pages, under the title of the output.
abbrev pub ShowsPage : List Page → Option Embed → Type 0
ShowsPage pages none = ⊥
ShowsPage pages (some e) =
    (i : ℕ) × (page : Page) × (get_elem? pages i ≡ some page) × (e.content ≡ page.content)

abbrev pub IsShown : List Page → Act → Type 0
IsShown pages (sends e) = ShowsPage pages e
IsShown pages (edits e) = ShowsPage pages e
IsShown pages clears = Unit
IsShown pages (offers e) = Unit

-- A page pointer that is not nil points to a page.
abbrev pub IsWithin : ℕ → Option ℕ → Type 0
IsWithin n none = Unit
IsWithin n (some i) = i < n

-- What holds between two rounds.
pub record IsServing (pages : List Page) (p : Pager) : Type 0 where
  pub paging : IsPaging pages p.out
  pub behind_in : IsWithin (length pages) p.out.last
  pub back_offered : p.do_p ≡ is_set p.out.last
  pub ahead_offered : p.do_n ≡ is_set p.out.next
  pub embedded : ShowsPage pages p.embed
  pub shown : All (IsShown pages) p.acts

arrows-All : (pages : List Page) (p n : Bool) → All (IsShown pages) (arrows p n)
unfolding arrows
arrows-All pages false false = tt
arrows-All pages false true = (tt, tt)
arrows-All pages true false = (tt, tt)
arrows-All pages true true = (tt, (tt, tt))

-- The embed of a page that is there.
pub generated :
    (pages : List Page) (o : CommandOutput) (i : ℕ)
    → o.pages ≡ pages
    → i < length pages
    → (e : Embed) × (generate_output_embed o (some i) ≡ (some e, is_set o.last, is_set o.next))
      × ShowsPage pages (some e)
unfolding generate_output_embed embed_of
generated pages o i same inside =
    let (page, found) = get_elem?-some pages i inside in
    let found' = subst (λ ps. get_elem? ps i ≡ some page) (sym same) found in
    (embed_of o page, rw (generate_output_embed, found') refl, (i, page, found, refl))

-- A turn to a page that is there.
turned :
    (pages : List Page) (p : Pager) (o : CommandOutput) (i : ℕ)
    → IsPaging pages o
    → IsWithin (length pages) o.last
    → i < length pages
    → All (IsShown pages) p.acts
    → (p' : Pager) × (turn_page p (some (o, some i)) ≡ some p') × IsServing pages p' × (p'.out ≡ o)
unfolding turn_page
turned pages p o i paging behind inside shown =
    let (e, made, shows) = generated pages o i paging.same_pages inside in
    (
      record {
        out = o;
        embed = some e;
        do_p = is_set o.last;
        do_n = is_set o.next;
        acts = p.acts ++ edits (some e) ∷ clears ∷ arrows (is_set o.last) (is_set o.next);
      },
      rw (turn_page, made) refl,
      record {
        paging = paging;
        behind_in = behind;
        back_offered = refl;
        ahead_offered = refl;
        embedded = shows;
        shown =
            All-append (IsShown pages) p.acts _ shown
              (shows, (tt, arrows-All pages (is_set o.last) (is_set o.next)));
      },
      refl,
    )

-- The page that is shown is one of the pages.
pub shown_in :
    (pages : List Page) (o : CommandOutput)
    → IsPaging pages o
    → (o.curr ≡ some o.current) × (o.current < length pages)
shown_in pages o h =
    (h.open_at.shown, subst (λ ps. o.current < length ps) h.same_pages h.open_at.within)

set_of : (o : Option ℕ) (b : Bool) → b ≡ is_set o → b ≡ true → (k : ℕ) × (o ≡ some k)
unfolding is_set
set_of none b same set = cc (same, set)
set_of (some k) b same set = (k, refl)

-- A press of an arrow that is offered shows a page, and offers the way back.
pub pressed_forward :
    (pages : List Page) (p : Pager)
    → IsServing pages p
    → p.do_n ≡ true
    → (p' : Pager) × (press forward p ≡ some p') × IsServing pages p' × (p'.do_p ≡ true)
unfolding press
pressed_forward pages p h offered =
    let (k, e) = set_of p.out.next p.do_n h.ahead_offered offered in
    let (paging, here) = after_next-IsPaging pages p.out k h.paging e in
    let (curr, inside) = shown_in pages p.out h.paging in
    let behind : IsWithin (length pages) (after_next p.out).last =
      subst (IsWithin (length pages)) (sym curr) inside in
    let inside' : k < length pages =
      subst (λ i. i < length pages) (sym here) (shown_in pages (after_next p.out) paging).1 in
    let (p', made, serving, out) =
      turned pages p (after_next p.out) k paging behind inside' h.shown in
    (
      p',
      ap (turn_page p)
            (next_page_lem p.out h.paging.open_at ∙ ap (λ n. some (after_next p.out, n)) e)
          ∙ made,
      serving,
      serving.back_offered ∙ ap (λ o. is_set o.last) out ∙ ap is_set curr ∙ unfold is_set in refl,
    )

pub pressed_back :
    (pages : List Page) (p : Pager)
    → IsServing pages p
    → p.do_p ≡ true
    → (p' : Pager) × (press back p ≡ some p') × IsServing pages p' × (p'.do_n ≡ true)
unfolding press
pressed_back pages p h offered =
    let (k, e) = set_of p.out.last p.do_p h.back_offered offered in
    let paging = after_previous-IsPaging pages p.out k h.paging e in
    let (curr, inside) = shown_in pages p.out h.paging in
    let (curr', inside') = shown_in pages (after_previous p.out) paging in
    let behind : IsWithin (length pages) (after_previous p.out).last =
      elim (Bool-cases (eqb (p.out.current - 1) 0)) [
        | inl zero ↦ rw zero tt
        | inr more ↦ rw more inside'
      ] in
    let known : k < length pages = subst (IsWithin (length pages)) e h.behind_in in
    let (p', made, serving, out) =
      turned pages p (after_previous p.out) k paging behind known h.shown in
    (
      p',
      ap (turn_page p)
            (previous_page_lem p.out h.paging.open_at ∙ ap (λ n. some (after_previous p.out, n)) e)
          ∙ made,
      serving,
      serving.ahead_offered ∙ ap (λ o. is_set o.next) out ∙ ap is_set curr ∙ unfold is_set in refl,
    )
