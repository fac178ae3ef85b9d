-- ===== src/Avorion/Database.antt =====
-- The tracking database of avorion/database/db.go. SQLite and `database/sql` are the record `Engine`:
-- what a statement answers to its text and its arguments, and the database that it leaves. Lines of the
-- log and the closing of handles are left out; a failure of `strconv.ParseInt` carries the text.
pub mod Init
pub mod Factions
pub mod Links
pub mod Loading
pub mod Taking
pub mod InMemory
pub mod Tests
use avorioncontrol.Prelude.{
  ℕ, String, Option, none, some, List, [], ◌∷◌, ℤ, pos, ltb_ℤ, eqb_ℤ, ◌⊎◌, inl, inr, if◌then◌else◌,
}
use avorioncontrol.Prelude.Decimal.{atoi, parse_int}
use avorioncontrol.Avorion.Jumps.{unix}
use avorioncontrol.Avorion.Server.{Player, Alliance, JumpInfo}

-- An argument of a statement.
pub data Value : Type 0 where
  number : ℤ → Value
  text : String → Value

-- The rows of the two tables that `Init` keeps, as `Scan` stores them.
pub record SectorRow : Type 0 where
  pub row_index : ℤ
  pub row_x : ℤ
  pub row_y : ℤ

pub record JumpRow : Type 0 where
  pub faction_id : ℤ
  pub ship_name : String
  pub seconds : ℕ
  pub kind_code : ℤ

-- `sql.Open`, `DB.Exec`, `DB.Prepare`, `DB.QueryRow` with `Scan` into a number and into a text, and
-- the three `DB.Query`, one of them without its rows. A text on the left is an error, as is that of an
-- `Option`; `none` of a row is no row.
pub record Engine (Db : Type 0) : Type 0 where
  pub open_db : (path : String) → Db → Option String
  pub execute : (sql : String) → List Value → Db → String ⊎ Db
  pub prepare : (sql : String) → Db → Option String
  pub select_number : (sql : String) → List Value → Db → String ⊎ Option ℤ
  pub select_text : (sql : String) → List Value → Db → String ⊎ Option String
  pub query : (sql : String) → Db → Option String
  pub select_sectors : (sql : String) → Db → String ⊎ List SectorRow
  pub select_jumps : (sql : String) → List Value → Db → String ⊎ List JumpRow

-- `TrackingDB`
pub record TrackingDb : Type 0 where
  pub dbpath : String
  pub tracking_loglevel : ℤ

-- The error that a method returns.
pub data Failure : Type 0 where
  sql_error : String → Failure
  not_a_number : String → Failure

-- What a method leaves: the error, if any, and the database.
abbrev pub Ran : Type 0 → Type 0
Ran Db = Option Failure × Db

-- The end of a method whose last statement is an `Exec`.
unfoldable pub ran : {Db : Type 0} → Db → String ⊎ Db → Ran Db
ran db (inl error) = (some (sql_error error), db)
ran db (inr after) = (none, after)

-- `sql.Open`, and the rest of a method.
unfoldable pub with_open : {Db : Type 0} → Engine Db → (path : String) → (Db → Ran Db) → Db → Ran Db
with_open e path rest db = elim (e.open_db path db) [
  | some error ↦ (some (sql_error error), db)
  | none ↦ rest db
]

-- `Prepare`, and `Exec` of the statement.
unfoldable pub exec_prepared : {Db : Type 0} → Engine Db → (sql : String) → List Value → Db → Ran Db
exec_prepared e sql values db = elim (e.prepare sql db) [
  | some error ↦ (some (sql_error error), db)
  | none ↦ ran db (e.execute sql values db)
]

abbrev pub select_faction : String
select_faction = "SELECT ID FROM factions WHERE GAMEID=? LIMIT 1;"

abbrev pub insert_faction : String
insert_faction = "INSERT INTO factions (\"NAME\",\"KIND\",\"GAMEID\") VALUES (?,?,?);"

abbrev pub insert_integration : String
insert_integration = "INSERT INTO integrations (\"FACTION\", \"DISCORD\") VALUES (?,?);"

abbrev pub delete_integration : String
delete_integration = "DELETE FROM integrations WHERE DISCORD=? AND FACTION=?;"

abbrev pub select_integration : String
select_integration = "SELECT DISCORD FROM integrations WHERE FACTION=? LIMIT 1;"

abbrev pub insert_jump_row : String
insert_jump_row =
    "INSERT INTO jumps (\"SECTOR\",\"FACTION\",\"SHIP NAME\",\"TIME\",\"KIND\")\n\t\tVALUES(?,?,?,?,?);"

abbrev pub select_sector : String
select_sector = "SELECT ID FROM sectors WHERE\t\"X\" = \"?\" AND \"Y\" = \"?\"\n\t\tLIMIT\t1"

abbrev pub insert_sector : String
insert_sector = "INSERT INTO sectors (\"X\", \"Y\") VALUES(?,?)"

abbrev pub last_sector : String
last_sector = "SELECT MAX(ID) FROM sectors;"

-- `New`; the level of the log starts at 0.
unfoldable pub new_db : {Db : Type 0} → Engine Db → (file : String) → Db → Failure ⊎ TrackingDb
new_db e file db = elim (e.open_db file db) [
  | some error ↦ inl (sql_error error)
  | none ↦ inr (record { dbpath = file; tracking_loglevel = pos 0 })
]

-- `AddJump`, over the index of the sector, the faction, and the number of the kind.
unfoldable pub add_jump_row :
    {Db : Type 0} → Engine Db → TrackingDb → (si fi k : ℤ) → JumpInfo → Db → Ran Db
unfolding with_open exec_prepared
add_jump_row e t si fi k j db =
    with_open e t.dbpath
      (exec_prepared e insert_jump_row (
        number si ∷ number fi ∷ text j.jump_name ∷ number (pos (unix j.jump_time)) ∷ number k ∷ []))
      db

-- The number that `Scan` stores; without a row, and on an error, the variable stays 0.
unfoldable pub scanned : String ⊎ Option ℤ → ℤ
scanned (inl error) = pos 0
scanned (inr none) = pos 0
scanned (inr (some n)) = n

-- The end of `TrackSector`: the index of the sector is the greatest one.
unfoldable pub read_index_back : {Db : Type 0} → Engine Db → (index : ℤ) → Ran Db → ℤ × Ran Db
read_index_back e index (some error, db) = (index, (some error, db))
read_index_back e index (none, db) = (scanned (e.select_number last_sector [] db), (none, db))

-- `TrackSector`, over the coordinates and the index of the sector; it answers the index then.
unfoldable pub track_sector_row :
    {Db : Type 0} → Engine Db → TrackingDb → (x y index : ℤ) → Db → ℤ × Ran Db
unfolding exec_prepared read_index_back scanned
track_sector_row e t x y index db =
    let values = number x ∷ number y ∷ [] in
    elim (e.open_db t.dbpath db) [
      | some error ↦ (index, (some (sql_error error), db))
      | none ↦
          let id = scanned (e.select_number select_sector values db) in
          if eqb_ℤ id (pos 0)
          then read_index_back e index (exec_prepared e insert_sector values db)
          else (id, (none, db))
    ]

-- What follows the search for a faction.
unfoldable pub add_faction :
    {Db : Type 0}
    → Engine Db
    → (kind : ℤ) → (name : String) → (fid : ℤ) → String ⊎ Option ℤ
    → Db
    → Ran Db
unfolding ran scanned
add_faction e kind name fid (inl error) db = (some (sql_error error), db)
add_faction e kind name fid (inr found) db =
    if ltb_ℤ (pos 0) (scanned (inr found))
    then (none, db)
    else ran db (e.execute insert_faction (text name ∷ number kind ∷ number fid ∷ []) db)

-- The body that `TrackPlayer` and `TrackAlliance` share, over the number of the kind.
unfoldable pub track_faction :
    {Db : Type 0} → Engine Db → TrackingDb → (kind : ℤ) → (index name : String) → Db → Ran Db
unfolding with_open add_faction
track_faction e t kind index name db =
    with_open e t.dbpath
      (λ db'. elim (atoi index) [
        | none ↦ (some (not_a_number index), db')
        | some fid ↦
            add_faction e kind name fid (e.select_number select_faction (number fid ∷ []) db') db'
      ])
      db

-- `TrackPlayer`
unfoldable pub track_player : {Db : Type 0} → Engine Db → TrackingDb → Player → Db → Ran Db
unfolding track_faction
track_player e t p db = track_faction e t (pos 0) p.index p.player_name db

-- `TrackAlliance`
unfoldable pub track_alliance : {Db : Type 0} → Engine Db → TrackingDb → Alliance → Db → Ran Db
unfolding track_faction
track_alliance e t a db = track_faction e t (pos 1) a.alliance_index a.alliance_name db

-- `AddIntegration`
unfoldable pub add_integration_row :
    {Db : Type 0} → Engine Db → TrackingDb → (discordid : String) → Player → Db → Ran Db
unfolding with_open ran
add_integration_row e t discordid p db =
    with_open e t.dbpath
      (λ db'. elim (atoi p.index) [
        | none ↦ (some (not_a_number p.index), db')
        | some fid ↦ ran db' (e.execute insert_integration (number fid ∷ text discordid ∷ []) db')
      ])
      db

-- `RemoveIntegration`; the error of `strconv.ParseInt` is overwritten.
unfoldable pub remove_integration : {Db : Type 0} → Engine Db → TrackingDb → Player → Db → Ran Db
unfolding with_open ran
remove_integration e t p db =
    with_open e t.dbpath
      (λ db'.
        ran db'
          (e.execute delete_integration (number (parse_int p.index) ∷ text p.discordid ∷ []) db'))
      db

-- The text that `Scan` stores in an empty one.
unfoldable pub scanned_text : Option String → String
scanned_text none = ""
scanned_text (some did) = did

-- `SetDiscordToPlayer`, up to the command to the game: the player with the Discord user that is found.
unfoldable pub set_discord_to_player :
    {Db : Type 0} → Engine Db → TrackingDb → Player → Db → Failure ⊎ Player
unfolding scanned_text
set_discord_to_player e t p db = elim (e.open_db t.dbpath db) [
  | some error ↦ inl (sql_error error)
  | none ↦ elim (e.select_text select_integration (number (parse_int p.index) ∷ []) db) [
    | inl error ↦ inl (sql_error error)
    | inr did ↦ inr (record p { discordid = scanned_text did })
  ]
]
