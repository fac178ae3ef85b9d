-- ===== src/Ifaces/Enums/Laws.antt =====
-- `State` and `Difficulty` answer for every number, and which numbers they tell apart.
use avorioncontrol.Prelude.{
  ℕ, ◌+◌, ◌≤◌, ◌<◌, ◌≡◌, ◌≢◌, ◌⊎◌, ℤ, pos, negsuc, arith, String, ◌==◌, leb, ltb, eqb, not, Bool,
  true, false, ◌&&◌, ◌||◌, refl, if◌then◌else◌, all_below, all_below_sound, eq_iff, min, ◌-◌,
}
use avorioncontrol.Ifaces.Enums.{
  state, clamp_state, state_map_string, state_map_color, difficulty, difficulty_map,
  clamp_difficulty,
}

-- The numbers that the tables know.
abbrev pub IsKnown : ℕ → Type 0
IsKnown s = (s ≤ 4) ⊎ ((255 ≤ s) × (s ≤ 259))

abbrev is_known : ℕ → Bool
is_known s = leb s 4 || (leb 255 s && leb s 259)

pub clamp_state-IsKnown : (s : ℤ) → IsKnown (clamp_state s)
unfolding clamp_state
clamp_state-IsKnown s = ground arith

pub clamp_state_known : (s : ℕ) → IsKnown s → clamp_state (pos s) ≡ s
unfolding clamp_state
clamp_state_known s h = ground arith

-- The number of a state, read back from its string.
pub state_of_string : String → ℕ
state_of_string t =
    if t == "Offline"
    then 0
    else if t == "Online"
    then 1
    else if t == "Initializing"
    then 2
    else if t == "Stopping"
    then 3
    else if t == "Re-Initializing"
    then 4
    else if t == "Crashed (Dead)"
    then 255
    else if t == "Crashed (Recovered)"
    then 256
    else if t == "Crashed (Recovering)"
    then 257
    else if t == "Crashed (Attempting Graceful Exit)"
    then 258
    else if t == "Crashed (Restarting)"
    then 259
    else 260

-- What is checked of each number.
row_ok : ℕ → Bool
row_ok s =
    not (is_known s)
    || (eqb (state_of_string (state_map_string s)) s
        && not (state_map_string s == "")
        && ltb 0 (state_map_color s))

table_ok : all_below 260 row_ok ≡ true
unfolding all_below row_ok state_of_string state_map_string state_map_color
table_ok = refl

row_facts :
    (s : ℕ)
    → IsKnown s
    → (state_of_string (state_map_string s) ≡ s)
      × ((state_map_string s == "") ≡ false)
      × (0 < state_map_color s)
unfolding row_ok
row_facts s h = ground (arith, all_below_sound 260 row_ok s table_ok)

nonempty_of_test : (t : String) → (t == "") ≡ false → t ≢ ""
nonempty_of_test t h e = cc (h, (eq_iff t "").1 e)

-- Whatever the number, `State` answers with a string that is not blank and a color that is not 0,
-- and the string names the state that the number is clamped to, which is one of the ten states.
pub state_answers :
    (s : ℤ)
    → IsKnown (clamp_state s)
      × (state_of_string (state s).0 ≡ clamp_state s)
      × ((state s).0 ≢ "")
      × (0 < (state s).1)
unfolding state
state_answers s =
    let known = clamp_state-IsKnown s in
    let (named, shown, colored) = row_facts (clamp_state s) known in
    (known, named, nonempty_of_test _ shown, colored)

-- The number of a difficulty above -3, read back from its string.
pub difficulty_of_string : String → ℕ
difficulty_of_string t =
    if t == "Beginner"
    then 0
    else if t == "Easy"
    then 1
    else if t == "Normal"
    then 2
    else if t == "Veteran"
    then 3
    else if t == "Expert"
    then 4
    else if t == "Hardcore"
    then 5
    else if t == "Insane"
    then 6
    else 7

clamp_difficulty_pos : (n : ℕ) → clamp_difficulty (pos n) ≡ pos (min n 3)
unfolding clamp_difficulty
clamp_difficulty_pos n = ground arith

clamp_difficulty_negsuc : (n : ℕ) → clamp_difficulty (negsuc n) ≡ negsuc (min n 2)
unfolding clamp_difficulty
clamp_difficulty_negsuc n = ground arith

above_ok : all_below 4 (λ n. eqb (difficulty_of_string (difficulty_map (pos n))) (n + 3)) ≡ true
unfolding all_below difficulty_of_string difficulty_map
above_ok = refl

below_ok : all_below 3 (λ n. eqb (difficulty_of_string (difficulty_map (negsuc n))) (2 - n)) ≡ true
unfolding all_below difficulty_of_string difficulty_map
below_ok = refl

-- `Difficulty` answers every number with the name of the nearest difficulty from -3 to 3: above
-- the range with that of 3, below it with that of -3, inside it with the number's own.
pub difficulty_answers :
    (n : ℕ)
    → (difficulty_of_string (difficulty (pos n)) ≡ min (n + 3) 6)
      × (difficulty_of_string (difficulty (negsuc n)) ≡ 2 - n)
unfolding difficulty
difficulty_answers n = (
  rw (clamp_difficulty_pos n) (ground (arith, all_below_sound 4 _ (min n 3) above_ok)),
  rw (clamp_difficulty_negsuc n) (ground (arith, all_below_sound 3 _ (min n 2) below_ok)),
)
