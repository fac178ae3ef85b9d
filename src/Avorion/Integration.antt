-- ===== src/Avorion/Integration.antt =====
-- Linking a player with a Discord user: the requests and the pins of avorion/server.go, the direct
-- messages of discord/bot.go that carry them, and what `AddIntegration` of avorion/database/db.go does
-- before it writes. The regular expression is a reader of digits.
use Prim.Native.Char.{Char, code}
use avorioncontrol.Prelude.{
  ℕ, String, ◌==◌, ◌<>◌, Bool, true, false, not, ◌&&◌, Option, none, some, eqb, leb, count, Map,
  lookup, insert, bind, if◌then◌else◌,
}
use avorioncontrol.Prelude.Decimal.{is_digit}
use avorioncontrol.Commands.Args.{trim_space}
use avorioncontrol.Avorion.Server.{Player, Server}
use avorioncontrol.Avorion.Players.{player, Outcome}
pub mod Laws
pub mod Tests

-- `[0-9]*`
unfoldable pub all_digits : String → Bool
all_digits String.[] = true
all_digits (String.◌∷◌ c s) = is_digit c && all_digits s

-- `([0-9]+):`, and the rest of the text.
unfoldable pub read_index : String → String → Option (String × String)
read_index seen String.[] = none
read_index seen (String.◌∷◌ c s) = elim (is_digit c) [
  | true ↦ read_index (seen <> String.◌∷◌ c String.[]) s
  | false ↦ if eqb (code c) 58 && not (seen == "") then some (seen, s) else none
]

-- `([0-9]{10})$`
unfoldable pub is_pin : String → Bool
is_pin s = all_digits s && eqb (count s) 10

-- The submatches of `regexpDiscordPin`
unfoldable pub find_pin : String → Option (String × String)
find_pin text = bind (read_index "" text) (λ found. if is_pin found.1 then some found else none)

-- `AddIntegrationRequest`
unfoldable pub add_integration_request : String → String → Server → Server
add_integration_request index pin s = record s { requests = insert index pin s.requests }

-- Whether a pin is taken, and whom it links: the index, and the Discord user.
pub data Validated : Type 0 where
  refused : Validated
  linked : (index : String) → (discord_id : String) → Validated

-- `AddIntegration` for the player that `Player` answers: past the opening of the database it asks the
-- player for the index, and nobody cannot be asked.
unfoldable pub add_integration :
    (opened : Bool) → Option Player → String → String → Outcome Validated
add_integration opened none index discord_id =
    if opened then Outcome.panics else Outcome.goes_on (Validated.linked index discord_id)
add_integration opened (some p) index discord_id =
    Outcome.goes_on (Validated.linked index discord_id)

-- `ValidateIntegrationPin` past the regular expression.
unfoldable pub check_pin : (opened : Bool) → String → String × String → Server → Outcome Validated
check_pin opened discord_id (index, pin) s = elim (lookup index s.requests) [
  | none ↦ Outcome.goes_on Validated.refused
  | some val ↦
      if val == pin
      then add_integration opened (player index s) index discord_id
      else Outcome.goes_on Validated.refused
]

-- `ValidateIntegrationPin`; the server keeps the request.
unfoldable pub validate_integration_pin :
    (opened : Bool) → String → String → Server → Outcome Validated
validate_integration_pin opened text discord_id s = elim (find_pin text) [
  | none ↦ Outcome.goes_on Validated.refused
  | some m ↦ check_pin opened discord_id m s
]

-- `processDirectMsg`: a text that its own regular expression refuses leads to nothing.
unfoldable pub process_direct_msg :
    (opened : Bool) → (content : String) → (author : String) → Server → Outcome Validated
process_direct_msg opened content author s =
    validate_integration_pin opened (trim_space content) author s
