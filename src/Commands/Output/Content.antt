-- ===== src/Commands/Output/Content.antt =====
-- What the pages hold: every line once, in order, behind its quote mark.
use text.Mathlib.TextLemmas.{
  nil-append, append_assoc as assoc, append-nil as append_nil, length-append as count-append,
}
use avorioncontrol.Prelude.{
  ◌+◌, ◌≤◌, ◌<◌, String, count, ◌<>◌, ◌≡◌, ◌∙◌, ap, Bool, true, false, List, [], ◌∷◌, ◌++◌, arith,
  Bool-cases, lt→ltb, eq_iff, not_ltb, ◌==◌, inl, inr, get_elem?, some,
}
use avorioncontrol.Commands.Output.Bounds.{line_prefix-short}
use avorioncontrol.Commands.Output.{
  Page, CommandOutput, Building, first_page, open_fence, close_fence, add_to_pages, add_all,
  build_pages, construct, line_prefix, open_page, close_page, fits,
}

-- The contents of the pages, one after the other.
abbrev pub joined : List Page → String
joined [] = ""
joined (p ∷ ps) = p.content <> joined ps

-- The lines, each behind the prefix and before a line feed.
abbrev pub printed : String → List String → String
printed prefix [] = ""
printed prefix (line ∷ lines) = (prefix <> (line <> "\n")) <> printed prefix lines

ruleset text_laws = (nil-append, assoc, append_nil)

joined-append : (ps qs : List Page) → joined (ps ++ qs) ≡ joined ps <> joined qs
joined-append [] qs = rw nil-append
joined-append (p ∷ ps) qs = simp (joined-append ps qs, assoc)

abbrev written : Building → String
written b = joined b.0 <> b.1.content

module _ (prefix : String) where
  open_page-plain : (page : Page) → open_page false prefix page ≡ page
  unfolding open_page
  open_page-plain page = ground arith

  written-add_to_pages :
      (b : Building) (line : String)
      → written (add_to_pages false prefix b line) ≡ written b <> (prefix <> (line <> "\n"))
  unfolding add_to_pages
  written-add_to_pages (done, page) line = elim (Bool-cases (fits page line)) [
    | inl e ↦ rw (open_page-plain page, e) (simp text_laws)
    | inr e ↦ rw (open_page-plain page, e) (simp (joined-append, text_laws))
  ]

  written-add_all :
      (b : Building) (lines : List String)
      → written (add_all false prefix b lines) ≡ written b <> printed prefix lines
  unfolding add_all
  written-add_all b [] = simp text_laws
  written-add_all b (line ∷ lines) =
      written-add_all (add_to_pages false prefix b line) lines
      ∙ ap (λ t. t <> printed prefix lines) (written-add_to_pages b line)
      ∙ assoc (written b) (prefix <> (line <> "\n")) (printed prefix lines)

  joined-build_pages :
      (lines : List String) → joined (build_pages false prefix lines) ≡ printed prefix lines
  unfolding build_pages
  joined-build_pages lines =
      let b : Building = add_all false prefix ([], first_page) lines in
      joined-append b.0 (b.1 ∷ [])
      ∙ ap (λ t. joined b.0 <> t) (append_nil b.1.content)
      ∙ written-add_all ([], first_page) lines
      ∙ nil-append (printed prefix lines)

-- Without `Monospace` the pages, read one after the other, are the lines in order, each behind its
-- quote mark (if `Quoted`) and before a line feed: nothing is lost, doubled or moved.
pub construct_keeps_lines :
    (o : CommandOutput)
    → o.monospace ≡ false
    → joined (construct o).pages ≡ printed (line_prefix o) o.lines
unfolding construct
construct_keeps_lines o plain = rw plain (joined-build_pages (line_prefix o) o.lines)

open_page-full :
    (monospace : Bool) (prefix : String) (page : Page)
    → 0 < count page.content
    → open_page monospace prefix page ≡ page
unfolding open_page
open_page-full monospace prefix page h = elim (Bool-cases (page.content == "")) [
  | inl e ↦ absurd (omega (arith, ap count ((eq_iff page.content "").0 e)))
  | inr e ↦ rw e
]

module _ (prefix first second : String) where
  -- The first page of a monospace output, with its first line.
  abbrev opening : Page
  opening = record { content = (prefix <> open_fence) <> (prefix <> (first <> "\n")); index = 0 }

  count-opening : count opening.content ≡ count prefix + count prefix + count first + 5
  count-opening = omega (
    arith,
    count-append (prefix <> open_fence) (prefix <> (first <> "\n")),
    count-append prefix open_fence,
    count-append prefix (first <> "\n"),
    count-append first "\n",
  )

  opening_fits :
      count prefix ≤ 2
      → count first ≤ 900
      → add_to_pages true prefix ([], first_page) first ≡ ([], opening)
  unfolding add_to_pages
  opening_fits h k = rw (
      lt→ltb (count ((prefix <> open_fence) <> first)) 1000
        (omega (arith, count-append (prefix <> open_fence) first, count-append prefix open_fence)))

  second_overflows :
      1000 ≤ count first + count second
      → add_to_pages true prefix ([], opening) second ≡ (
        close_page true prefix opening ∷ [],
        record { content = prefix <> (second <> "\n"); index = 1 },
      )
  unfolding add_to_pages
  second_overflows h = rw (open_page-full true prefix opening (omega (arith, count-opening))) (
      rw (
        not_ltb (count (opening.content <> second)) 1000
          (omega (arith, count-append opening.content second, count-opening))))

-- With `Monospace`, a line that does not fit behind the first one starts a page that closes a
-- fence which it never opened: the second page is the line and the closing fence.
pub second_page_unfenced :
    (o : CommandOutput) (first second : String)
    → o.monospace ≡ true
    → o.lines ≡ first ∷ second ∷ []
    → count first ≤ 900
    → 1000 ≤ count first + count second
    → get_elem? (construct o).pages 1
      ≡ some (record {
        content = (line_prefix o <> (second <> "\n")) <> (line_prefix o <> close_fence);
        index = 1;
      })
unfolding construct
second_page_unfenced o first second mono two small large =
    let p : String = line_prefix o in
    rw (mono, two)
      (rw (
        opening_fits p first second (line_prefix-short o) small,
        second_overflows p first second large,
        add_all,
        build_pages,
      ))
