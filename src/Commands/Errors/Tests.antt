-- ===== src/Commands/Errors/Tests.antt =====
-- The theorems on `Emit`, at errors with a short and with a long text.
use avorioncontrol.Prelude.{ℕ, String, ◌<>◌, ◌≡◌, refl, some, none, pos, bind, zero, suc}
use avorioncontrol.Commands.Output.{first_page}
use avorioncontrol.Commands.Errors.{CommandRef, CommandError, command, speaker, error_text, emit}
use avorioncontrol.Commands.Errors.Laws.{shown, emit_shows}

abbrev rcon : CommandRef
rcon = record { name = "rcon"; description = "d"; uuid = "rconCmnd:1"; loglevel = pos 1 }

abbrev disabled : CommandError
disabled = CommandError.command_disabled (some rcon) none

repeat : ℕ → String → String
repeat zero s = ""
repeat (suc n) s = s <> repeat n s

-- An error whose text has 1000 code points.
long_error : CommandError
unfolding repeat
long_error = CommandError.command_error (some rcon) none (repeat 100 "0123456789")

-- The page that is shown of it is empty.
long_error-is_blank : bind (emit long_error) shown ≡ some first_page
unfolding long_error error_text speaker command
long_error-is_blank = emit_shows long_error rcon refl
