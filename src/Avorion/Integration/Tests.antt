-- ===== src/Avorion/Integration/Tests.antt =====
-- A request of the player 1.
use avorioncontrol.Prelude.{String, ◌≡◌, refl, true, none, some, [], ◌∷◌, lookup}
use avorioncontrol.Prelude.Decimal.{is_digit}
use avorioncontrol.Avorion.Server.{Player, Server}
use avorioncontrol.Avorion.Lifecycle.Steps.{new_server}
use avorioncontrol.Avorion.Players.{Outcome, player, player_in}
use avorioncontrol.Avorion.Integration.{
  all_digits, is_pin, read_index, find_pin, Validated, add_integration_request,
  validate_integration_pin,
}
use avorioncontrol.Avorion.Integration.Laws.{IsAsked, requested_pin_links, link_needs_request}

abbrev ann : Player
ann = record { index = "1"; player_name = "ann"; online = true; discordid = ""; jumphistory = [] }

abbrev roster : Server
unfolding new_server
roster = record (new_server 0) { players = ann ∷ [] }

requested_pin_links_example :
    validate_integration_pin true "1:0123456789" "77"
      (add_integration_request "1" "0123456789" roster)
    ≡ Outcome.goes_on (Validated.linked "1" "77")
unfolding all_digits is_digit is_pin player player_in roster
requested_pin_links_example =
    requested_pin_links true "1" "0123456789" "77" roster refl refl refl refl

abbrev user : String
user = "77"

link_needs_request_example :
    (pin : String) × (find_pin "1:0123456789" ≡ some ("1", pin))
    × (lookup "1" (add_integration_request "1" "0123456789" roster).requests ≡ some pin)
    × (user ≡ user)
    × IsAsked true (player "1" (add_integration_request "1" "0123456789" roster))
link_needs_request_example =
    link_needs_request true "1:0123456789" "77" "1" "77"
      (add_integration_request "1" "0123456789" roster) requested_pin_links_example

-- A pin of nine digits is none.
short_pin : find_pin "1:012345678" ≡ none
unfolding find_pin read_index is_pin all_digits is_digit
short_pin = refl
