-- ===== src/Avorion/Database/Taking.antt =====
-- What the goroutines of `Init` leave while none is interrupted between its scan and its append.
use avorioncontrol.Prelude.{
  ℕ, ◌≡◌, refl, sym, subst, ◌∙◌, some, List, [], ◌∷◌, ◌++◌, inl, inr, get_elem?, Option-cases,
  append-nil, append_assoc, arith, ◌*◌, bind,
}
use avorioncontrol.Avorion.Server.{JumpInfo}
use avorioncontrol.Avorion.Database.{number, SectorRow, JumpRow, Engine}
use avorioncontrol.Avorion.Database.Init.{
  faction_kind, loaded_jump, Worker, start_workers, Loading, Turns, load_alone, jumps_of_sector,
}
use avorioncontrol.Avorion.Database.Loading.{set-related, IsStarted, start_workers-IsStarted}

-- A goroutine later on: its loop, run on from there, comes to the same history.
unfoldable pub ComesTo : Worker → Worker → Type 0
ComesTo w v = load_alone v.place v.rows v.history ≡ load_alone w.place w.rows w.history

Turns-ComesTo :
    (s t : Loading)
    → Turns s t
    → (i : ℕ) (v : Worker) → get_elem? t.workers i ≡ some v
    → (w : Worker) × (get_elem? s.workers i ≡ some w) × ComesTo w v
unfolding ComesTo load_alone
Turns-ComesTo s t Turns.none_yet i v g = (v, g, refl)
Turns-ComesTo s u (Turns.turn {t = t} at w row rest jump before here more idle made) i v g =
    let (w', there, last) =
      set-related ComesTo (λ w. refl) t.workers at w
        (record w { rows = rest; history = w.history ++ jump ∷ [] }) here (rw (more, made) refl) i v
        g in
    let (w₀, first, earlier) = Turns-ComesTo s t before i w' there in (w₀, first, last ∙ earlier)

-- A jump with what its row has: the ship, the faction, the kind, and the time in seconds; the place is that of
-- the sector.
abbrev IsOf : SectorRow → JumpRow → JumpInfo → Type 0
IsOf sec row j =
    (j.jump_name ≡ row.ship_name)
    × (j.fid ≡ row.faction_id)
    × (faction_kind row.kind_code ≡ some j.kind)
    × (j.jump_time ≡ row.seconds * 1000000000)
    × (j.jump_x ≡ sec.row_x)
    × (j.jump_y ≡ sec.row_y)

-- The jumps of some rows, in their order.
unfoldable pub AreOf : SectorRow → List JumpRow → List JumpInfo → Type 0
AreOf sec [] [] = Unit
AreOf sec [] (j ∷ js) = ⊥
AreOf sec (row ∷ rows) [] = ⊥
AreOf sec (row ∷ rows) (j ∷ js) = IsOf sec row j × AreOf sec rows js

loaded_jump-IsOf :
    (sec : SectorRow) (row : JumpRow) (j : JumpInfo) → loaded_jump sec row ≡ some j → IsOf sec row j
unfolding loaded_jump
loaded_jump-IsOf sec row j made = elim (Option-cases (faction_kind row.kind_code)) [
  | inl e ↦ ground (arith, e)
  | inr (kind, e) ↦ ground (arith, e)
]

load_alone-AreOf :
    (sec : SectorRow) (rows : List JumpRow) (h : List JumpInfo) {k : List JumpInfo}
    → load_alone sec rows h ≡ some k
    → (js : List JumpInfo) × (k ≡ h ++ js) × AreOf sec rows js
unfolding load_alone AreOf
load_alone-AreOf sec [] h done = ([], ground (arith, append-nil h), tt)
load_alone-AreOf sec (row ∷ rows) h {k} done = elim (Option-cases (loaded_jump sec row)) [
  | inl e ↦ ground (arith, e)
  | inr (j, e) ↦
      let later : load_alone sec rows (h ++ j ∷ []) ≡ some k =
        subst (λ o. bind o (λ j. load_alone sec rows (h ++ j ∷ [])) ≡ some k) e done in
      let (js, same, are) = load_alone-AreOf sec rows (h ++ j ∷ []) later in
      (j ∷ js, same ∙ append_assoc h (j ∷ []) js, (loaded_jump-IsOf sec row j e, are))
]

-- While no goroutine scans between the scan and the append of another, the goroutines of `Init` may take
-- turns in any order: a sector whose rows are all read has in its history the jumps of the rows of its
-- own query, in their order, and no others: each has the ship, the faction, the kind and the time of its row,
-- and the place of the sector.
pub turns_load_exactly :
    {Db : Type 0} (e : Engine Db) (secs : List SectorRow) (db : Db) (workers : List Worker)
    (shared : JumpRow) (t : Loading)
    → start_workers e secs db ≡ inr workers
    → Turns (record { shared = shared; workers = workers }) t
    → (i : ℕ) (w : Worker) → get_elem? t.workers i ≡ some w
    → w.rows ≡ []
    → (sec : SectorRow) × (rows : List JumpRow) × (get_elem? secs i ≡ some sec)
      × (e.select_jumps jumps_of_sector (number sec.row_index ∷ []) db ≡ inr rows)
      × AreOf sec rows w.history
unfolding IsStarted ComesTo load_alone
turns_load_exactly e secs db workers shared t made run i w g done =
    let (w₀, there, same) =
      Turns-ComesTo (record { shared = shared; workers = workers }) t run i w g in
    let (at, found, idle, empty) = start_workers-IsStarted e secs db workers made i w₀ there in
    let (js, all, are) = load_alone-AreOf w₀.place w₀.rows [] (
      subst (λ h. load_alone w₀.place w₀.rows h ≡ some w.history) empty
        (sym same
          ∙ subst (λ r. load_alone w.place r w.history ≡ some w.history) (sym done) refl)) in
    (w₀.place, w₀.rows, at, found, subst (AreOf w₀.place w₀.rows) (sym all) are)
