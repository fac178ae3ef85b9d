-- ===== src/Commands/Output/Bounds.antt =====
-- How long the pages get.
use text.Mathlib.TextLemmas.{length-append as count-append}
use avorioncontrol.Prelude.{
  ℕ, ◌+◌, ◌≤◌, String, count, ◌<>◌, ◌≡◌, Bool, List, [], ◌∷◌, arith, All, All-append, ltb→lt,
  Bool-cases, inl, inr, true, false, if◌then◌else◌,
}
use avorioncontrol.Commands.Output.{
  Page, CommandOutput, Building, first_page, open_fence, close_fence, add_to_pages, add_all,
  build_pages, construct, line_prefix, open_page, close_page, fits,
}

-- A page that is being filled, and one that is done: `limit` is at least 999 and at least the
-- length of every line.
abbrev Filling : ℕ → Page → Type 0
Filling limit page = count page.content ≤ limit + 3

abbrev pub Filled : ℕ → Page → Type 0
Filled limit page = count page.content ≤ limit + 8

abbrev pub LineFits : ℕ → String → Type 0
LineFits limit line = count line ≤ limit

abbrev InBounds : ℕ → Building → Type 0
InBounds limit b = All (Filled limit) b.0 × Filling limit b.1

-- A line that is appended, and a line that opens a page.
appended :
    (limit : ℕ) (prefix line : String) (page : Page)
    → 999 ≤ limit
    → count prefix ≤ 2
    → fits page line ≡ true
    → count (page.content <> (prefix <> (line <> "\n"))) ≤ limit + 3
unfolding fits
appended limit prefix line page wide short e = omega (
  arith,
  count-append page.content (prefix <> (line <> "\n")),
  count-append prefix (line <> "\n"),
  count-append line "\n",
  count-append page.content line,
  ltb→lt (count (page.content <> line)) 1000 e,
)

fresh :
    (limit : ℕ) (prefix line : String)
    → count prefix ≤ 2
    → count line ≤ limit
    → count (prefix <> (line <> "\n")) ≤ limit + 3
fresh limit prefix line short fit =
    omega (arith, count-append prefix (line <> "\n"), count-append line "\n")

module _ (limit : ℕ) (wide : 999 ≤ limit) (monospace : Bool) (prefix : String)
    (short : count prefix ≤ 2) where
  open_page-Filling :
      (page : Page) → Filling limit page → Filling limit (open_page monospace prefix page)
  unfolding open_page
  open_page-Filling page h = ground (arith, count-append prefix open_fence)

  close_page-Filled :
      (page : Page) → Filling limit page → Filled limit (close_page monospace prefix page)
  unfolding close_page
  close_page-Filled page h =
      ground
        (arith, count-append page.content (prefix <> close_fence), count-append prefix close_fence)

  add_to_pages-InBounds :
      (b : Building) (line : String)
      → LineFits limit line
      → InBounds limit b
      → InBounds limit (add_to_pages monospace prefix b line)
  unfolding add_to_pages
  add_to_pages-InBounds (done, page) line l h =
      let opened : Page = open_page monospace prefix page in
      let ready : Filling limit opened = open_page-Filling page h.1 in
      elim (Bool-cases (fits opened line)) [
        | inl e ↦ rw e (h.0, appended limit prefix line opened wide short e)
        | inr e ↦ rw e (
          All-append (Filled limit) done (close_page monospace prefix opened ∷ []) h.0
              (close_page-Filled opened ready, tt),
          fresh limit prefix line short l,
        )
      ]

  add_all-InBounds :
      (b : Building) (lines : List String)
      → All (LineFits limit) lines
      → InBounds limit b
      → InBounds limit (add_all monospace prefix b lines)
  unfolding add_all
  add_all-InBounds b [] hs h = h
  add_all-InBounds b (line ∷ lines) hs h =
      add_all-InBounds (add_to_pages monospace prefix b line) lines hs.1
        (add_to_pages-InBounds b line hs.0 h)

  build_pages-Filled :
      (lines : List String)
      → All (LineFits limit) lines
      → All (Filled limit) (build_pages monospace prefix lines)
  unfolding build_pages
  build_pages-Filled lines hs =
      let b : Building = add_all monospace prefix ([], first_page) lines in
      let h : InBounds limit b = add_all-InBounds ([], first_page) lines hs (tt, omega arith) in
      All-append (Filled limit) b.0 (close_page monospace prefix b.1 ∷ []) h.0
        (close_page-Filled b.1 h.1, tt)

quote-short : (quoted : Bool) → count (if quoted then "> " else "") ≤ 2
quote-short true = omega arith
quote-short false = omega arith

pub line_prefix-short : (o : CommandOutput) → count (line_prefix o) ≤ 2
unfolding line_prefix
line_prefix-short o = quote-short o.quoted

-- If no line has more than `limit` code points, and `limit` is 999 or more, no page that
-- `Construct` makes has more than `limit` + 8, whatever the quotes and fences that it adds.
pub construct_bounded :
    (limit : ℕ) (o : CommandOutput)
    → 999 ≤ limit
    → All (LineFits limit) o.lines
    → All (Filled limit) (construct o).pages
unfolding construct
construct_bounded limit o wide hs =
    build_pages-Filled limit wide o.monospace (line_prefix o) (line_prefix-short o) o.lines hs
