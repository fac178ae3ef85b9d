-- ===== src/Commands/Functions/GameLaws.antt =====
-- When the check (discord/commands/checkHangCmnd.go) restarts the server, and what it says.
use avorioncontrol.Prelude.{ℕ, ◌≡◌, Bool, false, not, ◌&&◌, eqb, if◌then◌else◌}
use avorioncontrol.Ifaces.Enums.{server_crashed_offline, server_online}
use avorioncontrol.Avorion.Server.{Server, crashed}
use avorioncontrol.Commands.Errors.{CommandRef}
use avorioncontrol.Commands.Functions.Game.{HangCheck, says}

-- What a check leaves, over the state and whether the server hangs.
unfoldable IsExact :
    CommandRef → (checking hanging : Bool) → (state : ℕ) → Server → HangCheck → Type 0
IsExact cmd checking hanging state srv c =
    (c.restarting ≡ not checking && (eqb state server_online && hanging))
    × (c.server ≡ (if c.restarting then crashed srv else srv))
    × (checking ≡ false → state ≡ server_crashed_offline → c.shown ≡ says cmd "Server is online")
