-- ===== src/Avorion/Sectors/Tests.antt =====
-- A player and an alliance who jump into one sector.
use avorioncontrol.Prelude.{
  List, All, Bool, false, inl, inr, arith, Bool-cases, if◌then◌else◌, ◌≡◌, true, [], ◌∷◌, ◌++◌, pos,
  negsuc,
}
use mathlib.Core.List.{Perm}
use mathlib.Core.List.Perm
use avorioncontrol.Prelude.Decimal.{show, show_ℤ}
use avorioncontrol.Avorion.Jumps.{ShipCoordData}
use avorioncontrol.Avorion.Server.{JumpInfo, Sector, Player, Server}
use avorioncontrol.Avorion.Lifecycle.Steps.{new_server}
use avorioncontrol.Avorion.Sectors.{record_jump, less, Sort, load_history}
use avorioncontrol.Avorion.Sectors.Laws.{history_at, record_jump_exactly}
use avorioncontrol.Avorion.Sectors.Loading.{IsByTime, IsSort, recorded_jump_is_loaded}

abbrev ann : Player
ann = record { index = "1"; player_name = "ann"; online = true; discordid = ""; jumphistory = [] }

abbrev jump : JumpInfo
jump = record {
  jump_name = "ship";
  kind = "alliance";
  fid = pos 7;
  jump_x = pos 3;
  jump_y = negsuc 0;
  jump_time = 5;
}

abbrev home : Sector
home = record { sector_x = pos 0; sector_y = pos 0; sector_history = jump ∷ [] }

abbrev galaxy : Server
unfolding new_server
galaxy = record (new_server 0) { players = ann ∷ []; sectors = home ∷ []; sectorcount = pos 1 }

abbrev hop : ShipCoordData
hop = record { x = pos 3; y = negsuc 0; name = "ship"; time = 0 }

record_jump_exactly_example :
    history_at (pos 3) (negsuc 0) (record_jump jump galaxy).sectors
    ≡ history_at (pos 3) (negsuc 0) galaxy.sectors ++ jump ∷ []
record_jump_exactly_example = record_jump_exactly jump galaxy (pos 3) (negsuc 0)

-- An insertion sort.
unfoldable put :
    (ShipCoordData → ShipCoordData → Bool) → ShipCoordData → List ShipCoordData → List ShipCoordData
put before j [] = j ∷ []
put before j (first ∷ rest) =
    let later = put before j rest in if before first j then first ∷ later else j ∷ first ∷ rest

unfoldable insertion : Sort
insertion before [] = []
insertion before (j ∷ rest) = put before j (insertion before rest)

put-Perm : (j : ShipCoordData) (js : List ShipCoordData) → Perm (put less j js) (j ∷ js)
unfolding put
put-Perm j [] = Perm.refl (j ∷ [])
put-Perm j (first ∷ rest) = elim (Bool-cases (less first j)) [
  | inl e ↦ rw e (Perm.trans (Perm.cons first (put-Perm j rest)) (Perm.swap j first rest))
  | inr e ↦ rw e (Perm.refl (j ∷ first ∷ rest))
]

insertion-Perm : (js : List ShipCoordData) → Perm (insertion less js) js
unfolding insertion
insertion-Perm [] = Perm.refl []
insertion-Perm (j ∷ rest) =
    Perm.trans (put-Perm j (insertion less rest)) (Perm.cons j (insertion-Perm rest))

put-All :
    (low j : ShipCoordData) (js : List ShipCoordData)
    → less j low ≡ false
    → All (λ k. less k low ≡ false) js
    → All (λ k. less k low ≡ false) (put less j js)
unfolding put
put-All low j [] one others = (one, tt)
put-All low j (first ∷ rest) one (head, others) = elim (Bool-cases (less first j)) [
  | inl e ↦ rw e (head, put-All low j rest one others)
  | inr e ↦ rw e (one, (head, others))
]

All-less_trans :
    (low high : ShipCoordData) (js : List ShipCoordData)
    → less high low ≡ false
    → All (λ k. less k high ≡ false) js
    → All (λ k. less k low ≡ false) js
unfolding less
All-less_trans low high [] h above = tt
All-less_trans low high (j ∷ js) h (head, above) =
    (ground (arith, h, head), All-less_trans low high js h above)

less_asym : (j k : ShipCoordData) → less j k ≡ true → less k j ≡ false
unfolding less
less_asym j k h = ground (arith, h)

put-IsByTime :
    (j : ShipCoordData) (js : List ShipCoordData) → IsByTime js → IsByTime (put less j js)
unfolding put IsByTime
put-IsByTime j [] sorted = (tt, tt)
put-IsByTime j (first ∷ rest) (above, sorted) = elim (Bool-cases (less first j)) [
  | inl e ↦ rw e (put-All first j rest (less_asym first j e) above, put-IsByTime j rest sorted)
  | inr e ↦ rw e ((e, All-less_trans j first rest e above), (above, sorted))
]

insertion-IsByTime : (js : List ShipCoordData) → IsByTime (insertion less js)
unfolding insertion IsByTime
insertion-IsByTime [] = tt
insertion-IsByTime (j ∷ rest) = put-IsByTime j (insertion less rest) (insertion-IsByTime rest)

insertion-IsSort : IsSort insertion
insertion-IsSort = record { permutes = insertion-Perm; orders = insertion-IsByTime }

recorded_jump_is_loaded_example :
    Perm (load_history insertion (record_jump jump galaxy).sectors "7" []) (
      record { x = pos 3; y = negsuc 0; name = "ship"; time = 5 }
      ∷ load_history insertion galaxy.sectors "7" [])
    × IsByTime (load_history insertion (record_jump jump galaxy).sectors "7" [])
unfolding show_ℤ show
recorded_jump_is_loaded_example =
    recorded_jump_is_loaded insertion jump galaxy "7" [] insertion-IsSort
