-- ===== src/Avorion/Database/Init.antt =====
-- `Init` of avorion/database/db.go, and the goroutines that it starts, one for each sector. They scan
-- their rows into the same variables, so that a goroutine may find there what another has scanned. A
-- scan of a row is one step here, and what follows up to the next scan is another.
use avorioncontrol.Prelude.{
  ◌*◌, ℕ, String, ◌≡◌, Bool, true, false, Option, none, some, List, [], ◌∷◌, ◌++◌, ◌⊎◌, inl, inr, ℤ,
  pos, eqb_ℤ, get_elem?, set, bind, if◌then◌else◌,
}
use avorioncontrol.Avorion.Server.{JumpInfo}
use avorioncontrol.Avorion.Database.{
  number, SectorRow, JumpRow, Engine, TrackingDb, Failure, sql_error,
}

abbrev pub create_factions : String
create_factions =
    "CREATE TABLE IF NOT EXISTS \"factions\" (\n\t\t\"ID\"     INTEGER PRIMARY KEY AUTOINCREMENT,\n\t\t\"NAME\"   TEXT,\n\t\t\"KIND\"\t INTEGER,\n\t\t\"GAMEID\" INTEGER);"

abbrev pub create_jumps : String
create_jumps =
    "CREATE TABLE IF NOT EXISTS \"jumps\" (\n\t\t\"ID\"        INTEGER PRIMARY KEY AUTOINCREMENT,\n\t\t\"SECTOR\"    INTEGER,\n\t\t\"FACTION\"   INTEGER,\n\t\t\"SHIP NAME\"\tTEXT,\n\t\t\"TIME\"\t    REAL,\n\t\t\"KIND\"\t\t  INTEGER);"

abbrev pub create_sectors : String
create_sectors =
    "CREATE TABLE IF NOT EXISTS \"sectors\" (\n\t\t\"ID\" INTEGER PRIMARY KEY AUTOINCREMENT,\n\t\t\"X\"  INTEGER,\n\t\t\"Y\"  INTEGER);"

abbrev pub create_integrations : String
create_integrations =
    "CREATE TABLE IF NOT EXISTS \"integrations\" (\n\t\t\"ID\" INTEGER PRIMARY KEY AUTOINCREMENT,\n\t\t\"FACTION\"\t\tINTEGER,\n\t\t\"DISCORD\"\t\tTEXT);"

abbrev pub jumps_of_sector : String
jumps_of_sector = "SELECT * FROM jumps WHERE SECTOR=?\n\t\t\tORDER BY rowid ASC LIMIT 100;"

-- The statements that create the tables, up to the first error.
unfoldable pub create_all : {Db : Type 0} → Engine Db → List String → Db → Failure ⊎ Db
create_all e [] db = inr db
create_all e (sql ∷ rest) db = elim (e.execute sql [] db) [
  | inl error ↦ inl (sql_error error)
  | inr after ↦ create_all e rest after
]

-- A goroutine: its sector, the rows that it has not scanned, whether it has scanned one that it has
-- not appended yet, and the history of the sector.
pub record Worker : Type 0 where
  pub place : SectorRow
  pub rows : List JumpRow
  pub pending : Bool
  pub history : List JumpInfo

-- The loop over the sectors, which starts the goroutines; an error ends it.
unfoldable pub start_workers :
    {Db : Type 0} → Engine Db → List SectorRow → Db → Failure ⊎ List Worker
start_workers e [] db = inr []
start_workers e (sec ∷ rest) db =
    elim (e.select_jumps jumps_of_sector (number sec.row_index ∷ []) db) [
      | inl error ↦ inl (sql_error error)
      | inr rows ↦ elim (start_workers e rest db) [
        | inl failure ↦ inl failure
        | inr workers ↦
            inr (record { place = sec; rows = rows; pending = false; history = [] } ∷ workers)
      ]
    ]

-- The two queries and the loop.
unfoldable pub read_tables : {Db : Type 0} → Engine Db → Db → Failure ⊎ List Worker
unfolding start_workers
read_tables e db = elim (e.select_sectors "select * from sectors;" db) [
  | inl error ↦ inl (sql_error error)
  | inr secs ↦ elim (e.query "select * from factions;" db) [
    | some error ↦ inl (sql_error error)
    | none ↦ start_workers e secs db
  ]
]

-- `Init` up to the wait for the goroutines: those that run then, and the database.
unfoldable pub init_db : {Db : Type 0} → Engine Db → TrackingDb → Db → Failure ⊎ List Worker × Db
unfolding create_all read_tables
init_db e t db = elim (e.open_db t.dbpath db) [
  | some error ↦ inl (sql_error error)
  | none ↦
      elim (create_all e
        (create_factions ∷ create_jumps ∷ create_sectors ∷ create_integrations ∷ []) db) [
          | inl failure ↦ inl failure
          | inr created ↦ elim (read_tables e created) [
            | inl failure ↦ inl failure
            | inr workers ↦ inr (workers, created)
          ]
        ]
]

-- `factionKind`; any other number is out of range, 3 included, and the index panics.
unfoldable pub faction_kind : ℤ → Option String
faction_kind kind =
    if eqb_ℤ kind (pos 0)
    then some "player"
    else if eqb_ℤ kind (pos 1)
    then some "alliance"
    else if eqb_ℤ kind (pos 2)
    then some "npc"
    else none

-- The jump that is appended, of a row and a sector; `none` is a panic.
unfoldable pub loaded_jump : SectorRow → JumpRow → Option JumpInfo
unfolding faction_kind
loaded_jump sec row = bind (faction_kind row.kind_code) (λ kind. some (record {
  jump_name = row.ship_name;
  kind = kind;
  fid = row.faction_id;
  jump_x = sec.row_x;
  jump_y = sec.row_y;
  jump_time = row.seconds * 1000000000;
}))

-- The variables that the goroutines share, and the goroutines.
pub record Loading : Type 0 where
  pub shared : JumpRow
  pub workers : List Worker

-- A step of the goroutine at a position: it scans its next row, or appends what the variables hold.
pub data LoadStep : Loading → Loading → Type 0 where
  scan :
      (s : Loading) (at : ℕ) (w : Worker) (row : JumpRow) (rest : List JumpRow)
      → get_elem? s.workers at ≡ some w
      → w.rows ≡ row ∷ rest
      → w.pending ≡ false
      → LoadStep s (record {
        shared = row;
        workers = set s.workers at (record w { rows = rest; pending = true });
      })
  append :
      (s : Loading) (at : ℕ) (w : Worker) (jump : JumpInfo)
      → get_elem? s.workers at ≡ some w
      → w.pending ≡ true
      → loaded_jump w.place s.shared ≡ some jump
      → LoadStep s (record s {
        workers = set s.workers at (record w { pending = false; history = w.history ++ jump ∷ [] });
      })

-- Any number of steps.
pub data Loads : Loading → Loading → Type 0 where
  rests : (s : Loading) → Loads s s
  loads : {s t u : Loading} → Loads s t → LoadStep t u → Loads s u

-- Any number of turns: a goroutine scans a row and appends its jump, and no other scans in between.
pub data Turns (s : Loading) : Loading → Type 0 where
  none_yet : Turns s s
  turn :
      {t : Loading} (at : ℕ) (w : Worker) (row : JumpRow) (rest : List JumpRow) (jump : JumpInfo)
      → Turns s t
      → get_elem? t.workers at ≡ some w
      → w.rows ≡ row ∷ rest
      → w.pending ≡ false
      → loaded_jump w.place row ≡ some jump
      → Turns s (record {
        shared = row;
        workers = set t.workers at (record w { rows = rest; history = w.history ++ jump ∷ [] });
      })

-- The loop of a goroutine that no other interrupts, over its rows and its history.
unfoldable pub load_alone : SectorRow → List JumpRow → List JumpInfo → Option (List JumpInfo)
load_alone sec [] history = some history
load_alone sec (row ∷ rest) history =
    bind (loaded_jump sec row) (λ jump. load_alone sec rest (history ++ jump ∷ []))
