-- ===== src/Commands/Output/Navigation.antt =====
-- Paging through a constructed output.
use avorioncontrol.Prelude.{
  ℕ, suc, ◌+◌, ◌-◌, ◌<◌, min, ◌≡◌, refl, Bool, true, false, Option, none, some, subst, ◌∙◌, List,
  [], ◌∷◌, arith, ltb, eqb, if◌then◌else◌, length, length-append, String,
}
use avorioncontrol.Commands.Output.{
  Page, CommandOutput, construct, build_pages, add_all, next_page, previous_page, Building,
  close_page, first_page, line_prefix, this_page,
}

-- What holds of an output between two presses of a button.
pub record IsOpen (o : CommandOutput) : Type 0 where
  pub within : o.current < length o.pages
  pub shown : o.curr ≡ some o.current
  pub ahead : o.next ≡ (if ltb (o.current + 1) (length o.pages) then some (o.current + 1) else none)

build_pages-nonempty :
    (m : Bool) (p : String) (lines : List String) → 0 < length (build_pages m p lines)
unfolding build_pages
build_pages-nonempty m p lines =
    let b : Building = add_all m p ([], first_page) lines in
    omega (arith, length-append {0} b.0 (close_page m p b.1 ∷ []))

construct-IsOpen : (o : CommandOutput) → IsOpen (construct o)
unfolding construct
construct-IsOpen o = ground (arith, build_pages-nonempty o.monospace (line_prefix o) o.lines)

-- The output that `NextPage` leaves, and the one that `PreviousPage` leaves.
abbrev pub after_next : CommandOutput → CommandOutput
after_next o =
    let c = min (o.current + 1) (length o.pages - 1) in
    record o {
      last = o.curr;
      current = c;
      curr = some c;
      next = if ltb (c + 1) (length o.pages) then some (c + 1) else none;
    }

abbrev pub after_previous : CommandOutput → CommandOutput
after_previous o =
    let c = o.current - 1 in
    record o { next = o.curr; current = c; curr = some c; last = if eqb c 0 then none else some c }

pub next_page_lem : (o : CommandOutput) → IsOpen o → next_page o ≡ some (after_next o, o.next)
unfolding next_page
next_page_lem o h = ground arith

pub previous_page_lem :
    (o : CommandOutput) → IsOpen o → previous_page o ≡ some (after_previous o, o.last)
unfolding previous_page
previous_page_lem o h = ground arith

after_next-IsOpen : (o : CommandOutput) → IsOpen o → IsOpen (after_next o)
after_next-IsOpen o h = ground arith

after_previous-IsOpen : (o : CommandOutput) → 0 < o.current → IsOpen o → IsOpen (after_previous o)
after_previous-IsOpen o pos h = ground arith

-- A button is offered while its pointer is not nil (`doN` and `doP` of `CreatePagedEmbed`), and a
-- press of it runs the method.
pub data Press : CommandOutput → CommandOutput → Type 0 where
  next : {o o' : CommandOutput} {p : ℕ} → next_page o ≡ some (o', some p) → Press o o'
  previous : {o o' : CommandOutput} {p : ℕ} → previous_page o ≡ some (o', some p) → Press o o'

pub data Pressed (s : CommandOutput) : CommandOutput → Type 0 where
  start : Pressed s s
  press : {o o' : CommandOutput} → Pressed s o → Press o o' → Pressed s o'

abbrev pub is_some : Option ℕ → Bool
is_some none = false
is_some (some n) = true

-- What holds of an output while its buttons are pressed.
pub record IsPaging (pages : List Page) (o : CommandOutput) : Type 0 where
  pub open_at : IsOpen o
  pub same_pages : o.pages ≡ pages
  pub behind : is_some o.last ≡ ltb 0 o.current

pub construct-IsPaging : (o : CommandOutput) → IsPaging (construct o).pages (construct o)
construct-IsPaging o = record {
  open_at = construct-IsOpen o;
  same_pages = refl;
  behind = unfold construct in refl;
}

pub after_next-IsPaging :
    (pages : List Page) (o : CommandOutput) (p : ℕ)
    → IsPaging pages o
    → o.next ≡ some p
    → IsPaging pages (after_next o) × (p ≡ (after_next o).current)
after_next-IsPaging pages o p h e = ground arith

pub after_previous-IsPaging :
    (pages : List Page) (o : CommandOutput) (p : ℕ)
    → IsPaging pages o
    → o.last ≡ some p
    → IsPaging pages (after_previous o)
after_previous-IsPaging pages o p h e = ground arith

Press-IsPaging :
    {pages : List Page} {o o' : CommandOutput} → IsPaging pages o → Press o o' → IsPaging pages o'
Press-IsPaging {pages} {o} {o'} h (next {p = p} e) =
    let q = next_page_lem o h.open_at in
    subst (IsPaging pages) (cc (q, e)) (after_next-IsPaging pages o p h (cc (q, e))).0
Press-IsPaging {pages} {o} {o'} h (previous {p = p} e) =
    let q = previous_page_lem o h.open_at in
    subst (IsPaging pages) (cc (q, e)) (after_previous-IsPaging pages o p h (cc (q, e)))

Pressed-IsPaging :
    {pages : List Page} {s o : CommandOutput} → IsPaging pages s → Pressed s o → IsPaging pages o
Pressed-IsPaging h start = h
Pressed-IsPaging h (press r p) = Press-IsPaging (Pressed-IsPaging h r) p

-- After any presses of the buttons that are offered, on the output that `Construct` leaves: the
-- pages are those of `Construct`, the current page is one of them and is the page that `ThisPage`
-- returns, the next button is offered exactly before the last page, and the previous button
-- exactly behind the first one.
pub buttons_exact :
    (c o : CommandOutput)
    → Pressed (construct c) o
    → (o.pages ≡ (construct c).pages)
      × (o.current < length o.pages)
      × (this_page o ≡ some o.current)
      × (is_some o.next ≡ ltb (o.current + 1) (length o.pages))
      × (is_some o.last ≡ ltb 0 o.current)
unfolding this_page
buttons_exact c o r = ground (arith, Pressed-IsPaging (construct-IsPaging c) r)

-- After any presses of the buttons that are offered, on the output that `Construct` leaves: a
-- press of the next button, if it is offered, does not panic, moves one page on and returns the
-- page that it moves to.
pub next_moves_on :
    (c o : CommandOutput) (p : ℕ)
    → Pressed (construct c) o
    → o.next ≡ some p
    → (o' : CommandOutput) × (next_page o ≡ some (o', some (o.current + 1)))
      × (o'.current ≡ o.current + 1)
      × (this_page o' ≡ some (o.current + 1))
unfolding this_page
next_moves_on c o p r e =
    let h = Pressed-IsPaging (construct-IsPaging c) r in
    (after_next o, rw (next_page_lem o h.open_at) (ground arith), ground arith, ground arith)

-- After any presses of the buttons that are offered, on the output that `Construct` leaves, from
-- page 2 or later: two presses in a row of the previous button do not panic and move one page back
-- each, but the second returns the page that the first moved to, and not the one to which it
-- moves.
pub previous_repeats :
    (c o : CommandOutput) (n : ℕ)
    → Pressed (construct c) o
    → o.current ≡ suc (suc n)
    → (o' o'' : CommandOutput) × (previous_page o ≡ some (o', o.last))
      × (o'.current ≡ suc n)
      × (previous_page o' ≡ some (o'', some (suc n)))
      × (o''.current ≡ n)
previous_repeats c o n r e =
    let h = Pressed-IsPaging (construct-IsPaging c) r in
    (
      after_previous o,
      after_previous (after_previous o),
      previous_page_lem o h.open_at,
      ground arith,
      previous_page_lem (after_previous o) (after_previous-IsOpen o (ground arith) h.open_at)
          ∙ ground arith,
      ground arith,
    )
