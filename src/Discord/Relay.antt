-- ===== src/Discord/Relay.antt =====
-- The messages between Discord and the game: the handler of guild messages of discord/bot.go, up to the
-- error that it shows, and the two relays of `onGuildJoin` in that file. The guild's registry is there. Lengths and cuts are in bytes; a cut inside a code point is
-- not told apart. The expression for mentions is a parameter, which answers its submatches.
pub mod Laws
pub mod Tests
use Prim.Native.Char.{Char, code}
use Prim.Native.String.{slice}
use text.Mathlib.Text.{starts_with}
use avorioncontrol.Prelude.{
  ℕ, zero, suc, ◌-◌, String, ◌<>◌, ◌==◌, Bool, true, false, not, ◌&&◌, ◌||◌, Option, none, some,
  List, [], ◌∷◌, ltb, eqb, len, count, bind, if◌then◌else◌,
}
use avorioncontrol.Configuration.Data.{Settings, ChatData}
use avorioncontrol.Commands.Errors.{CommandError}
use avorioncontrol.Commands.Process.{Message, Bot, Answer}

-- `strings.ReplaceAll` of an old text that is not empty, `skip` characters into a match.
unfoldable pub replace_from : (skip : ℕ) → (old new s : String) → String
replace_from skip old new String.[] = ""
replace_from skip old new (String.◌∷◌ c s) =
    let passed = replace_from (skip - 1) old new s in
    let replaced = new <> replace_from (count old - 1) old new s in
    let kept = String.◌∷◌ c (replace_from 0 old new s) in
    if ltb 0 skip then passed else if starts_with (String.◌∷◌ c s) old then replaced else kept

unfoldable pub replace_all : (old new s : String) → String
replace_all old new s = replace_from 0 old new s

-- `strings.ReplaceAll` of a double quote by a typographic one.
unfoldable pub replace_quotes : String → String
replace_quotes String.[] = ""
replace_quotes (String.◌∷◌ c s) =
    let rest = replace_quotes s in if eqb (code c) 34 then "“" <> rest else String.◌∷◌ c rest

-- The cut of the two relays.
unfoldable pub cut : String → String
cut msg = if ltb 1900 (len msg) then slice msg 0 1900 <> "...(truncated)" else msg

-- What both relays do with the text.
unfoldable pub clean : String → String
clean msg = replace_all "@here" "here" (replace_all "@everyone" "everyone" (cut msg))

-- A relay passes a text on if there is a chat channel, which both of them ask for, and the text is not
-- empty.
unfoldable pub is_relayed : Settings → ChatData → Bool
is_relayed c m = not (c.chatchannel == "") && ltb 0 (len m.msg)

-- The log relay: the channel, and the description of the embed.
unfoldable pub relay_log : Settings → ChatData → Option (String × String)
relay_log c lm = if is_relayed c lm then some (c.logchannel, clean lm.msg) else none

-- The loop over the mentions that are caught.
unfoldable pub block_all : List String → String → String
block_all [] msg = msg
block_all (caught ∷ rest) msg = block_all rest (replace_all caught "`(mention blocked)`" msg)

-- The name or the user in front of the text.
unfoldable pub signed : ChatData → String → String
signed cm msg =
    if cm.uid == ""
    then "▫\u{fe0f} **" <> ((if cm.name == "" then "Avorion" else cm.name) <> ("**: " <> msg))
    else "<@" <> (cm.uid <> (">: " <> msg))

-- The chat relay: the channel, and the message.
unfoldable pub relay_chat :
    (mentions : String → List String) → Settings → ChatData → Option (String × String)
relay_chat mentions c cm =
    if is_relayed c cm
    then some (c.chatchannel, signed cm (block_all (mentions (clean cm.msg)) (clean cm.msg)))
    else none

-- The command to the game for a message of a member.
unfoldable pub discordsay : (color author content : String) → String
discordsay color author content =
    "discordsay \""
    <> (color
        <> ("\" \"" <> (replace_quotes author <> ("\" \"" <> (replace_quotes content <> "\"")))))

-- A message of a guild, with what the handler reads of its author: whether it is this bot, whether the
-- token is a bot's, the color, 0 or a short name, and the name in the cache or the user name.
pub record GuildMessage : Type 0 where
  pub message : Message
  pub is_self : Bool
  pub is_bot : Bool
  pub color : Option String
  pub cached_name : Option String
  pub username : String

-- What the handler does: the answer of a command with the reaction to it, or a command to the game.
pub data Done : Type 0 where
  nothing : Done
  confirmed : Answer → Done
  denied : Answer → CommandError → Done
  said : String → Done

unfoldable pub react : Answer → Done
react a = elim (a.failure) [ none ↦ confirmed a | some e ↦ denied a e ]

-- The part of the handler that passes a message to the game.
unfoldable pub pass_on : (up : Bool) → Settings → GuildMessage → Done
pass_on up c m =
    if up && (c.chatchannel == m.message.channel)
    then said (
        discordsay (elim (m.color) [ none ↦ "default" | some short ↦ short ])
          (elim (m.cached_name) [ none ↦ m.username | some known ↦ known ]) m.message.content)
    else nothing

-- The handler of guild messages, over `ProcessCommand`; `none` is its panic.
unfoldable pub on_message :
    (process : Bot → Message → Option Answer) → (up : Bool) → Bot → GuildMessage → Option Done
on_message process up bot m =
    if m.is_self || (m.is_bot && not bot.settings.botsallowed)
    then some nothing
    else if starts_with m.message.content bot.settings.prefix
    then bind (process bot m.message) (λ a. some (react a))
    else some (pass_on up bot.settings m)
