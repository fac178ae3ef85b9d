-- ===== src/Avorion/Database/Loading.antt =====
-- What the goroutines of `Init` leave, in whatever order they run.
use avorioncontrol.Prelude.{
  ℕ, zero, suc, ◌+◌, ◌≡◌, refl, sym, subst, ◌∙◌, true, false, some, List, [], ◌∷◌, inl, inr,
  some_injective, get_elem?, set, length, All, if◌then◌else◌, Sum-cases, inr_injective,
}
use avorioncontrol.Avorion.Server.{JumpInfo}
use avorioncontrol.Avorion.Database.{number, SectorRow, JumpRow, Engine}
use avorioncontrol.Avorion.Database.Init.{
  Worker, start_workers, loaded_jump, Loading, jumps_of_sector,
}

-- The rows of a goroutine that are not in the history yet.
unfoldable pub waiting : Worker → ℕ
waiting w = (if w.pending then 1 else 0) + length w.rows

-- A jump has the coordinates of the sector.
unfoldable pub IsAt : SectorRow → JumpInfo → Type 0
IsAt sec j = (j.jump_x ≡ sec.row_x) × (j.jump_y ≡ sec.row_y)

-- A goroutine later on: no row is lost, and the history keeps to the sector.
unfoldable pub Follows : Worker → Worker → Type 0
Follows w v =
    (v.place ≡ w.place)
    × (length v.history + waiting v ≡ length w.history + waiting w)
    × (All (IsAt w.place) w.history → All (IsAt w.place) v.history)

-- A write to one goroutine: every goroutine afterwards is related to the one that was there.
pub set-related :
    (R : Worker → Worker → Type 0)
    → ((w : Worker) → R w w)
    → (ws : List Worker) (at : ℕ) (w v : Worker) → get_elem? ws at ≡ some w
    → R w v
    → (i : ℕ) (v' : Worker) → get_elem? (set ws at v) i ≡ some v'
    → (w' : Worker) × (get_elem? ws i ≡ some w') × R w' v'
set-related R same [] at w v h f i v' g = cc
set-related R same (x ∷ ws) zero w v h f zero v' g =
    (x, refl, subst (R x) (some_injective g) (subst (λ y. R y v) (sym (some_injective h)) f))
set-related R same (x ∷ ws) zero w v h f (suc i) v' g = (v', g, same v')
set-related R same (x ∷ ws) (suc at) w v h f zero v' g =
    (x, refl, subst (R x) (some_injective g) (same x))
set-related R same (x ∷ ws) (suc at) w v h f (suc i) v' g = set-related R same ws at w v h f i v' g

-- A row that some goroutine of a list has not scanned.
unfoldable pub IsRowOf : List Worker → JumpRow → Type 0
IsRowOf ws row =
    (k : ℕ) × (m : ℕ) × (w : Worker) × (get_elem? ws k ≡ some w) × (get_elem? w.rows m ≡ some row)

-- A jump at the sector is that of a row of the list.
unfoldable pub IsFrom : List Worker → SectorRow → JumpInfo → Type 0
IsFrom ws sec j = (row : JumpRow) × IsRowOf ws row × (loaded_jump sec row ≡ some j)

-- Where the rows of a goroutine come from, and those behind the jumps that it has appended.
unfoldable pub IsKnown : List Worker → JumpRow → Worker → Type 0
IsKnown ws shared w =
    ((m : ℕ) (row : JumpRow) → get_elem? w.rows m ≡ some row → IsRowOf ws row)
    × (w.pending ≡ true → IsRowOf ws shared)
    × All (IsFrom ws w.place) w.history

AreKnown : List Worker → Loading → Type 0
AreKnown ws t = (i : ℕ) (w : Worker) → get_elem? t.workers i ≡ some w → IsKnown ws t.shared w

-- What a goroutine of the start has: the sector at its position, and all rows of the query for it.
unfoldable pub IsStarted : {Db : Type 0} → Engine Db → List SectorRow → Db → ℕ → Worker → Type 0
IsStarted e secs db i w =
    (get_elem? secs i ≡ some w.place)
    × (e.select_jumps jumps_of_sector (number w.place.row_index ∷ []) db ≡ inr w.rows)
    × (w.pending ≡ false)
    × (w.history ≡ [])

-- A goroutine that starts before others.
IsStarted-cons :
    {Db : Type 0} (e : Engine Db) (sec : SectorRow) (rest : List SectorRow) (db : Db)
    (rows : List JumpRow) (others : List Worker)
    → e.select_jumps jumps_of_sector (number sec.row_index ∷ []) db ≡ inr rows
    → ((i : ℕ) (w : Worker) → get_elem? others i ≡ some w → IsStarted e rest db i w)
    → (i : ℕ) (w : Worker)
    → get_elem? (record { place = sec; rows = rows; pending = false; history = [] } ∷ others) i
      ≡ some w
    → IsStarted e (sec ∷ rest) db i w
unfolding IsStarted
IsStarted-cons e sec rest db rows others found later zero w g =
    subst (IsStarted e (sec ∷ rest) db 0) (some_injective g) (refl, found, refl, refl)
IsStarted-cons e sec rest db rows others found later (suc i) w g = later i w g

pub start_workers-IsStarted :
    {Db : Type 0} (e : Engine Db) (secs : List SectorRow) (db : Db) (workers : List Worker)
    → start_workers e secs db ≡ inr workers
    → (i : ℕ) (w : Worker) → get_elem? workers i ≡ some w
    → IsStarted e secs db i w
unfolding start_workers IsStarted
start_workers-IsStarted e [] db workers made i w g =
    cc (subst (λ ws. get_elem? ws i ≡ some w) (sym (inr_injective made)) g)
start_workers-IsStarted e (sec ∷ rest) db workers made i w g =
    elim (Sum-cases (e.select_jumps jumps_of_sector (number sec.row_index ∷ []) db)) [
      | inl (_, failed) ↦ cc (made, failed)
      | inr (rows, found) ↦ elim (Sum-cases (start_workers e rest db)) [
        | inl (_, failed) ↦ cc (made, found, failed)
        | inr (others, started) ↦
            let first : Worker = record {
              place = sec;
              rows = rows;
              pending = false;
              history = [];
            } in
            let all : start_workers e (sec ∷ rest) db ≡ inr (first ∷ others) =
              rw (start_workers, found, started) refl in
            IsStarted-cons e sec rest db rows others found
              (start_workers-IsStarted e rest db others started) i w
              (subst (λ ws. get_elem? ws i ≡ some w) (sym (inr_injective (sym all ∙ made))) g)
      ]
    ]
