-- ===== src/Avorion/Server/Laws.antt =====
-- The reported status is a state that the tables of ifaces/enums.go know.
use avorioncontrol.Prelude.{◌≤◌, ◌≡◌, ◌↔◌, true, arith}
use avorioncontrol.Ifaces.Enums.Laws.{IsKnown}
use avorioncontrol.Avorion.Server.{Server, status_int}

pub status_int-IsKnown : (s : Server) → IsKnown (status_int s)
unfolding status_int
status_int-IsKnown s = ground arith

-- The number tells the flag `iscrashed` and the activity apart.
pub status_int_apart : (s : Server) → (s.state.iscrashed ≡ true) ↔ (255 ≤ status_int s)
unfolding status_int
status_int_apart s = ground arith
