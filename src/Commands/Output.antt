-- ===== src/Commands/Output.antt =====
-- discord/commands/commandOutput.go: the output of a command, cut into pages that an embed shows.
-- A page pointer (`curr`, `next`, `last`) is the page's position in `pages`; `none` is nil. A read
-- past the end of `pages`, which panics in Go, is `none`. A text is a list of code points, so
-- `utf8.RuneCountInString` is `count`. The log lines of the methods are left out.
pub mod Pages
pub mod Bounds
pub mod Content
pub mod Navigation
pub mod Tests
use avorioncontrol.Prelude.{
  ℕ, ◌+◌, ◌-◌, ◌<◌, String, count, ◌<>◌, Bool, true, false, ◌&&◌, Option, none, some, List, [], ◌∷◌,
  ◌++◌, ℤ, ltb, eqb, bind, ◌==◌, if◌then◌else◌, length, get_elem?, drop,
}

pub record Page : Type 0 where
  pub content : String
  pub index : ℕ

pub record CommandOutput : Type 0 where
  pub title : String
  pub description : String
  pub header : String
  pub quoted : Bool
  pub monospace : Bool
  pub status : ℕ
  pub color : ℕ
  pub current : ℕ
  pub pages : List Page
  pub curr : Option ℕ
  pub next : Option ℕ
  pub last : Option ℕ
  pub mutable : Bool
  pub lines : List String
  pub uuid : String
  pub loglevel : ℤ

-- `newCommandOutput`, over the command's description, UUID and loglevel.
unfoldable pub new_command_output : String → String → ℤ → String → CommandOutput
new_command_output description uuid loglevel title = record {
  title = title;
  description = description;
  header = "";
  quoted = false;
  monospace = false;
  status = 0;
  color = 0;
  current = 0;
  pages = [];
  curr = none;
  next = none;
  last = none;
  mutable = true;
  lines = [];
  uuid = uuid;
  loglevel = loglevel;
}

unfoldable pub add_line : String → CommandOutput → CommandOutput
add_line line o = if o.mutable then record o { lines = o.lines ++ line ∷ [] } else o

-- `o.pages[:len(o.pages)]` keeps every page.
unfoldable pub remove_line : CommandOutput → CommandOutput
remove_line o = o

unfoldable pub this_page : CommandOutput → Option ℕ
this_page o = o.curr

-- The second number is `len(o.pages) - 1`, which is -1 before `Construct`; `none` stands for that.
unfoldable pub index : CommandOutput → ℕ × Option ℕ
index o = (o.current, if eqb (length o.pages) 0 then none else some (length o.pages - 1))

-- A position in `pages`, or the panic of an index out of range.
unfoldable pub page_at : CommandOutput → ℕ → Option ℕ
page_at o i = if ltb i (length o.pages) then some i else none

-- With no page at all `max` is -1 in Go, and `o.pages[o.current]` panics; here `max` is then 0 and
-- the read fails the same way.
unfoldable pub next_page : CommandOutput → Option (CommandOutput × Option ℕ)
unfolding page_at
next_page o =
    let max = length o.pages - 1 in
    let current = if ltb o.current max then o.current + 1 else o.current in
    bind (page_at o current) λ c.
      if eqb current max
      then some (record o { last = o.curr; current = current; curr = some c; next = none }, o.next)
      else bind (page_at o (current + 1)) λ n.
        some (record o { last = o.curr; current = current; curr = some c; next = some n }, o.next)

unfoldable pub previous_page : CommandOutput → Option (CommandOutput × Option ℕ)
unfolding page_at
previous_page o =
    let current = if ltb 0 o.current then o.current - 1 else o.current in
    bind (page_at o current) λ c.
      if eqb current 0
      then some (record o { next = o.curr; current = current; curr = some c; last = none }, o.last)
      else some
          (record o { next = o.curr; current = current; curr = some c; last = some c }, o.last)

-- The fence that opens a monospace page, and the one that closes it.
abbrev pub open_fence : String
open_fence = "```\n"

abbrev pub close_fence : String
close_fence = "```"

unfoldable pub line_prefix : CommandOutput → String
line_prefix o = if o.quoted then "> " else ""

abbrev pub Building : Type 0
Building = List Page × Page

-- An empty page of a monospace output opens with a fence.
unfoldable pub open_page : Bool → String → Page → Page
open_page monospace prefix page =
    if (page.content == "") && monospace
    then record page { content = prefix <> open_fence }
    else page

-- A finished page of a monospace output ends with a fence.
unfoldable pub close_page : Bool → String → Page → Page
close_page monospace prefix page =
    if monospace then record page { content = page.content <> (prefix <> close_fence) } else page

unfoldable pub fits : Page → String → Bool
fits page line = ltb (count (page.content <> line)) 1000

-- One round of the loop of `Construct`: `o.pages` is the pages of the first part followed by the
-- page of the second, which is `o.pages[i]`.
unfoldable pub add_to_pages : Bool → String → Building → String → Building
unfolding open_page close_page fits
add_to_pages monospace prefix (done, page) line =
    let opened = open_page monospace prefix page in
    if fits opened line
    then (done, record opened { content = opened.content <> (prefix <> (line <> "\n")) })
    else (
      done ++ close_page monospace prefix opened ∷ [],
      record { content = prefix <> (line <> "\n"); index = page.index + 1 },
    )

unfoldable pub add_all : Bool → String → Building → List String → Building
unfolding add_to_pages
add_all monospace prefix b [] = b
add_all monospace prefix b (line ∷ lines) =
    add_all monospace prefix (add_to_pages monospace prefix b line) lines

abbrev pub first_page : Page
first_page = record { content = ""; index = 0 }

-- The pages that `Construct` makes of the lines.
unfoldable pub build_pages : Bool → String → List String → List Page
unfolding add_all close_page
build_pages monospace prefix lines =
    let (done, page) = add_all monospace prefix ([], first_page) lines in
    done ++ close_page monospace prefix page ∷ []

-- `Construct`. There is always a page at 0, so its read does not panic.
unfoldable pub construct : CommandOutput → CommandOutput
unfolding build_pages line_prefix
construct o =
    let pages = build_pages o.monospace (line_prefix o) o.lines in
    record o {
      pages = pages;
      mutable = false;
      current = 0;
      last = none;
      next = if ltb 1 (length pages) then some 1 else none;
      curr = some 0;
    }
