-- ===== src/Ifaces/Enums.antt =====
-- ifaces/enums.go: the server states, their strings and colors, and the difficulties. The Go maps
-- filled by `init` are functions here; a missing key reads as the zero value, "" or 0.
pub mod Laws
use avorioncontrol.Prelude.{ℕ, String, ◌&&◌, ℤ, pos, negsuc, ltb, ltb_ℤ, eqb, if◌then◌else◌}

abbrev pub server_offline : ℕ
server_offline = 0

abbrev pub server_online : ℕ
server_online = 1

abbrev pub server_starting : ℕ
server_starting = 2

abbrev pub server_stopping : ℕ
server_stopping = 3

abbrev pub server_restarting : ℕ
server_restarting = 4

abbrev pub server_crashed_offline : ℕ
server_crashed_offline = 255

abbrev pub server_crashed_restarting : ℕ
server_crashed_restarting = 259

-- `stateMapString`
unfoldable pub state_map_string : ℕ → String
state_map_string s =
    if eqb s 0
    then "Offline"
    else if eqb s 1
    then "Online"
    else if eqb s 2
    then "Initializing"
    else if eqb s 3
    then "Stopping"
    else if eqb s 4
    then "Re-Initializing"
    else if eqb s 255
    then "Crashed (Dead)"
    else if eqb s 256
    then "Crashed (Recovered)"
    else if eqb s 257
    then "Crashed (Recovering)"
    else if eqb s 258
    then "Crashed (Attempting Graceful Exit)"
    else if eqb s 259
    then "Crashed (Restarting)"
    else ""

-- `stateMapColor`
unfoldable pub state_map_color : ℕ → ℕ
state_map_color s =
    if eqb s 0
    then 16711680
    else if eqb s 1
    then 6749952
    else if eqb s 2
    then 3381759
    else if eqb s 3
    then 16776960
    else if eqb s 4
    then 3381759
    else if eqb s 255
    then 15158332
    else if eqb s 256
    then 15158332
    else if eqb s 257
    then 15158332
    else if eqb s 258
    then 15158332
    else if eqb s 259
    then 15158332
    else 0

-- The number that `State` looks up, after its three range checks.
unfoldable pub clamp_state : ℤ → ℕ
clamp_state (pos s) =
    if ltb server_restarting s && ltb s server_crashed_offline
    then server_restarting
    else if ltb server_crashed_restarting s
    then server_crashed_restarting
    else s
clamp_state (negsuc s) = server_offline

-- `State`
unfoldable pub state : ℤ → String × ℕ
unfolding clamp_state state_map_string state_map_color
state s = (state_map_string (clamp_state s), state_map_color (clamp_state s))

-- `difficultyMap`
unfoldable pub difficulty_map : ℤ → String
difficulty_map (pos d) =
    if eqb d 0
    then "Veteran"
    else if eqb d 1
    then "Expert"
    else if eqb d 2
    then "Hardcore"
    else if eqb d 3
    then "Insane"
    else ""
difficulty_map (negsuc d) =
    if eqb d 0 then "Normal" else if eqb d 1 then "Easy" else if eqb d 2 then "Beginner" else ""

-- The two range checks of `Difficulty`.
unfoldable pub clamp_difficulty : ℤ → ℤ
clamp_difficulty d =
    let d' = if ltb_ℤ (pos 3) d then pos 3 else d in if ltb_ℤ d' (negsuc 2) then negsuc 2 else d'

-- `Difficulty`
unfoldable pub difficulty : ℤ → String
unfolding difficulty_map clamp_difficulty
difficulty d = difficulty_map (clamp_difficulty d)
