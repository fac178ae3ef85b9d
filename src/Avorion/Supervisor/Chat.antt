-- ===== src/Avorion/Supervisor/Chat.antt =====
-- The way of a line of chat from the game to Discord.
use Prim.Native.String.{slice}
use text.Mathlib.TextPositions.{slice-append_left, len-append}
use avorioncontrol.Prelude.{
  ◌<◌, ◌≡◌, refl, sym, ap, ◌∙◌, String, ◌<>◌, len, ◌==◌, true, false, ◌||◌, some, List, [], ◌∷◌,
  get_elem?, leb, ltb, arith, Bool-cases, ◌⊎◌, inl, inr,
}
use avorioncontrol.Configuration.Data.{Settings, ChatData}
use avorioncontrol.Avorion.Server.{Server}
use avorioncontrol.Avorion.Players.{goes_on}
use avorioncontrol.Avorion.Supervisor.{chat, sub, shorten, handle_player_chat}
use avorioncontrol.Discord.Relay.{cut, clean, relay_chat, is_relayed, signed}

-- The first 1900 bytes end between two code points.
abbrev pub IsCutCleanly : String → Type 0
IsCutCleanly text = 1900 < len text → len (slice text 0 1900) ≡ 1900

abbrev first_part : String → String
first_part text = slice text 0 1900 <> "...(truncated)"

len-first_part : (text : String) → len (slice text 0 1900) ≡ 1900 → len (first_part text) ≡ 1914
len-first_part text whole =
    let marker : len "...(truncated)" ≡ 14 = refl in
    omega (arith, len-append (slice text 0 1900) "...(truncated)", whole, marker)

first_part-first_part :
    (text : String)
    → len (slice text 0 1900) ≡ 1900
    → first_part (first_part text) ≡ first_part text
first_part-first_part text whole =
    ap (λ t. t <> "...(truncated)")
      (ap (λ n. slice (first_part text) 0 n) (sym whole)
        ∙ slice-append_left (slice text 0 1900) "...(truncated)")

-- A text that is short stays, and one that is long is cut.
shorten_lem :
    (text : String) → (shorten text ≡ text) ⊎ ((1900 < len text) × (shorten text ≡ first_part text))
unfolding shorten
shorten_lem text = elim (Bool-cases (leb 2000 (len text))) [
  | inl long ↦ inr (ground (arith, long), rw long refl)
  | inr short ↦ inl (rw short refl)
]

shorten-shorten : (text : String) → IsCutCleanly text → shorten (shorten text) ≡ shorten text
unfolding shorten
shorten-shorten text clean = elim (shorten_lem text) [
  | inl same ↦ ap shorten same
  | inr (long, e) ↦
      let small : leb 2000 (len (first_part text)) ≡ false =
        ground (arith, len-first_part text (clean long)) in
      ap shorten e ∙ rw small refl ∙ sym e
]

cut-shorten : (text : String) → IsCutCleanly text → cut (shorten text) ≡ cut text
unfolding cut
cut-shorten text clean = elim (shorten_lem text) [
  | inl same ↦ ap cut same
  | inr (long, e) ↦
      let over : ltb 1900 (len (first_part text)) ≡ true =
        ground (arith, len-first_part text (clean long)) in
      let over' : ltb 1900 (len text) ≡ true = ground (arith, long) in
      ap cut e ∙ rw (over, over') (first_part-first_part text (clean long))
]

nonempty-shorten :
    (text : String) → IsCutCleanly text → ltb 0 (len (shorten text)) ≡ ltb 0 (len text)
nonempty-shorten text clean = elim (shorten_lem text) [
  | inl same ↦ ap (λ t. ltb 0 (len t)) same
  | inr (long, e) ↦ rw e (ground (arith, len-first_part text (clean long), long))
]

-- A message in the chat, with a text.
abbrev pub message : (name text : String) → ChatData
message name text = record { name = name; uid = ""; msg = text }

relay-shorten :
    (mentions : String → List String) (c : Settings) (name text : String)
    → IsCutCleanly text
    → relay_chat mentions c (message name (shorten text))
      ≡ relay_chat mentions c (message name text)
unfolding relay_chat is_relayed clean signed
relay-shorten mentions c name text cleanly =
    rw (nonempty-shorten text cleanly, cut-shorten text cleanly) refl

-- The chat line of a player reaches Discord as if it had never been cut on its way: the handler and
-- `SendChat` cut a text of 2000 bytes, the relay one of more than 1900, and the message that the relay sends
-- is the one that it would make of the whole text, if the first 1900 bytes end between two code points. The
-- line is not from the server or from Discord.
pub chat_is_cut_once :
    (m : List String) (name text : String) (s : Server) (mentions : String → List String)
    (c : Settings)
    → get_elem? m 1 ≡ some name
    → get_elem? m 2 ≡ some text
    → (name == "Server" || name == "Discord") ≡ false
    → IsCutCleanly text
    → (d : ChatData) × (handle_player_chat false m s ≡ goes_on (s, chat d ∷ []))
      × (relay_chat mentions c (record d { msg = shorten d.msg })
          ≡ relay_chat mentions c (message name text))
unfolding handle_player_chat sub
chat_is_cut_once m name text s mentions c first second stranger cleanly = (
  message name (shorten text),
  rw (handle_player_chat, first, stranger, sub, second) refl,
  ap (λ t. relay_chat mentions c (message name t)) (shorten-shorten text cleanly)
      ∙ relay-shorten mentions c name text cleanly,
)
