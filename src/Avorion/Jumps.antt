-- ===== src/Avorion/Jumps.antt =====
-- The history of jumps of a player and of an alliance (avorion/player.go and alliance.go). A time is
-- a number of nanoseconds. What `AddJump` adds to the sector and to the database is left out.
pub mod Laws
pub mod Tests
use avorioncontrol.Prelude.{
  ◌/◌, ℕ, zero, suc, String, ◌++◌, Option, none, some, List, [], ◌∷◌, ℤ, pos, negsuc, ltb,
  if◌then◌else◌, length, get_elem?, drop,
}

-- `Time.Unix`, the seconds of a time.
unfoldable pub unix : ℕ → ℕ
unix time = time / 1000000000

-- `ifaces.ShipCoordData`
pub record ShipCoordData : Type 0 where
  pub x : ℤ
  pub y : ℤ
  pub name : String
  pub time : ℕ

-- The oldest jump goes when there are more than `max`.
unfoldable pub cap_history : ℕ → List ShipCoordData → List ShipCoordData
cap_history max history = if ltb max (length history) then drop 1 history else history

-- `AddJump`, over the history and the time that `time.Now` answers.
unfoldable pub add_jump : ShipCoordData → ℕ → List ShipCoordData → List ShipCoordData
unfolding cap_history
add_jump sc now history = cap_history 1000 (history ++ record sc { time = now } ∷ [])

-- The loop of `GetLastJumps`: `i` positions are left, and `n` jumps may still be added.
unfoldable pub jumps_from : List ShipCoordData → ℕ → ℕ → List ShipCoordData
jumps_from history zero n = []
jumps_from history (suc i) zero = []
jumps_from history (suc i) (suc n) = elim (get_elem? history i) [
  | none ↦ []
  | some j ↦ j ∷ jumps_from history i n
]

-- `GetLastJumps`; without a jump the loop ends at once.
unfoldable pub get_last_jumps : ℤ → List ShipCoordData → List ShipCoordData
unfolding jumps_from
get_last_jumps (pos limit) history = jumps_from history (length history) limit
get_last_jumps (negsuc n) history = jumps_from history (length history) (length history)
