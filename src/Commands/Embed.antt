-- ===== src/Commands/Embed.antt =====
-- discord/commands/outputEmbed.go: the embed of a page, and the loop that serves the buttons of an output
-- of several pages. What Discord answers is a list of rounds of the loop. The time of an embed is
-- left out, and so are the errors of discordgo that only the logger reads.
pub mod Turns
pub mod Laws
pub mod Tests
use avorioncontrol.Prelude.{
  ℕ, ◌+◌, String, ◌<>◌, ◌==◌, Bool, true, false, ◌&&◌, Option, none, some, List, [], ◌∷◌, ◌++◌, eqb,
  ltb, bind, get_elem?, if◌then◌else◌,
}
use avorioncontrol.Prelude.Decimal.{show}
use avorioncontrol.Commands.Output.{Page, CommandOutput, this_page, index, next_page, previous_page}

-- What is set of a `discordgo.MessageEmbed`: the two fields have a name and a value each.
pub record Embed : Type 0 where
  pub color : ℕ
  pub title : String
  pub description : String
  pub heading : String
  pub content : String
  pub footer : Option String

-- `embedStatusColors`
unfoldable pub status_color : ℕ → ℕ
status_color status =
    if eqb status 0
    then 6749952
    else if eqb status 1
    then 16711680
    else if eqb status 2
    then 16776960
    else 0

-- The name of the second field.
unfoldable pub heading_of : CommandOutput → String
heading_of out =
    let output = if out.header == "" then "Output" else out.header in
    let (i, m) = index out in
    elim m [
      | none ↦ output
      | some max ↦
          if ltb 0 max
          then output <> (" (" <> (show (i + 1) <> (" of " <> (show (max + 1) <> ")"))))
          else output
    ]

unfoldable pub is_set : Option ℕ → Bool
is_set none = false
is_set (some n) = true

-- The embed of a page.
unfoldable pub embed_of : CommandOutput → Page → Embed
embed_of out page = record {
  color = status_color out.status;
  title = out.title;
  description = out.description;
  heading = heading_of out;
  content = page.content;
  footer = none;
}

-- `GenerateOutputEmbed`, over the position of the page: the embed, and whether there is a previous and a
-- next page.
unfoldable pub generate_output_embed :
    CommandOutput → (page : Option ℕ) → Option Embed × Bool × Bool
generate_output_embed out page = elim (bind page (get_elem? out.pages)) [
  | none ↦ (none, false, false)
  | some shown ↦ (some (embed_of out shown), is_set out.last, is_set out.next)
]

-- The two arrows, and any other emoji.
pub data Emoji : Type 0 where
  forward back other : Emoji

pub record Reaction : Type 0 where
  pub emoji : Emoji
  pub number : ℕ
  pub me : Bool

-- What is sent to Discord.
pub data Act : Type 0 where
  sends edits : Option Embed → Act
  clears : Act
  offers : Emoji → Act

-- The variables of the loop, with `doP` and `doN`, and what was sent.
pub record Pager : Type 0 where
  pub out : CommandOutput
  pub embed : Option Embed
  pub do_p : Bool
  pub do_n : Bool
  pub acts : List Act

-- The arrows that are added to the message.
unfoldable pub arrows : (do_p do_n : Bool) → List Act
arrows do_p do_n =
    (if do_p then offers back ∷ [] else []) ++ (if do_n then offers forward ∷ [] else [])

-- A page turned; `none` is a panic of `NextPage` or `PreviousPage`.
unfoldable pub turn_page : Pager → Option (CommandOutput × Option ℕ) → Option Pager
turn_page p none = none
turn_page p (some (out, page)) =
    let (embed, do_p, do_n) = generate_output_embed out page in
    some (record {
      out = out;
      embed = embed;
      do_p = do_p;
      do_n = do_n;
      acts = p.acts ++ edits embed ∷ clears ∷ arrows do_p do_n;
    })

unfoldable pub is_pressed : Reaction → Bool
is_pressed r = ltb 1 r.number && r.me

-- The page of an arrow.
unfoldable pub press : Emoji → Pager → Option Pager
press forward p = turn_page p (next_page p.out)
press back p = turn_page p (previous_page p.out)
press other p = some p

-- The loop over the reactions of a message.
unfoldable pub react_to : List Reaction → Pager → Option Pager
react_to [] p = some p
react_to (r ∷ rs) p =
    if is_pressed r then bind (press r.emoji p) (λ p'. react_to rs p') else react_to rs p

-- The loop, over the reactions that each round finds, up to the round that returns: on a timer, on a
-- channel, or without the message.
unfoldable pub serve : List (List Reaction) → Pager → Option Pager
serve [] p = some p
serve (rs ∷ rounds) p = bind (react_to rs p) (λ p'. serve rounds p')

-- The deferred function; the footer of a nil embed is a panic.
unfoldable pub expire : (found : Bool) → Pager → Option (List Act)
expire found p =
    if found
    then bind p.embed
        (λ e. some (p.acts ++ edits (some (record e { footer = some "(expired)" })) ∷ clears ∷ []))
    else some p.acts

-- The pager behind the first embed.
unfoldable pub begin : CommandOutput → Pager
begin out =
    let (embed, do_p, do_n) = generate_output_embed out (this_page out) in
    record {
      out = out;
      embed = embed;
      do_p = do_p;
      do_n = do_n;
      acts = sends embed ∷ (if do_n then offers forward ∷ [] else []);
    }

-- `CreatePagedEmbed`, over whether the embed could be sent, the rounds, and whether the message is there at
-- the end.
unfoldable pub create_paged_embed :
    (sent : Bool) → List (List Reaction) → (found : Bool) → CommandOutput → Option (List Act)
create_paged_embed sent rounds found out =
    if sent
    then bind (serve rounds (begin out)) (expire found)
    else some (sends (generate_output_embed out (this_page out)).0 ∷ [])
