-- ===== src/Avorion/Database/Factions.antt =====
-- The factions that `TrackPlayer` and `TrackAlliance` of avorion/database/db.go leave.
use avorioncontrol.Prelude.{
  String, ◌≡◌, refl, Bool, true, false, none, some, List, [], ◌∷◌, ◌++◌, inl, inr, ℤ, pos, ltb_ℤ,
  eqb_ℤ, eqb_ℤ_iff, any, arith, ◌∙◌, Option-cases, Sum-cases,
}
use avorioncontrol.Prelude.Decimal.{atoi}
use avorioncontrol.Avorion.Database.{
  Ran, Failure, number, text, Engine, TrackingDb, select_faction, insert_faction, ran, with_open,
  scanned, add_faction, track_faction,
}

-- A row of the table of factions.
pub record Faction : Type 0 where
  pub faction_name : String
  pub kind_number : ℤ
  pub game_id : ℤ

unfoldable pub has : ℤ → List Faction → Bool
has fid rows = any (λ f. eqb_ℤ f.game_id fid) rows

-- What SQLite documents of the two statements, over the rows of the table: a row that is found is
-- there and has a positive id, none is found only if there is none, and an insertion adds its row.
pub record IsFactionTable {Db : Type 0} (e : Engine Db) (factions : Db → List Faction)
    : Type 0 where
  pub found_rows :
      (fid n : ℤ) (db : Db)
      → e.select_number select_faction (number fid ∷ []) db ≡ inr (some n)
      → (ltb_ℤ (pos 0) n ≡ true) × (has fid (factions db) ≡ true)
  pub missing_rows :
      (fid : ℤ) (db : Db)
      → e.select_number select_faction (number fid ∷ []) db ≡ inr none
      → has fid (factions db) ≡ false
  pub added_rows :
      (name : String) (kind fid : ℤ) (db after : Db)
      → e.execute insert_faction (text name ∷ number kind ∷ number fid ∷ []) db ≡ inr after
      → factions after
        ≡ factions db ++ record { faction_name = name; kind_number = kind; game_id = fid } ∷ []

-- No two factions have one game id.
unfoldable pub AreDistinct : List Faction → Type 0
AreDistinct [] = Unit
AreDistinct (f ∷ fs) = (has f.game_id fs ≡ false) × AreDistinct fs

-- A row behind rows of other factions is found there only.
has-append :
    (fid : ℤ) (fs : List Faction) (f : Faction)
    → has fid fs ≡ false
    → has fid (fs ++ f ∷ []) ≡ eqb_ℤ f.game_id fid
unfolding has
has-append fid [] f none_there = ground arith
has-append fid (g ∷ fs) f none_there = ground (arith, has-append fid fs f)

AreDistinct-append :
    (fs : List Faction) (f : Faction)
    → AreDistinct fs
    → has f.game_id fs ≡ false
    → AreDistinct (fs ++ f ∷ [])
unfolding AreDistinct has
AreDistinct-append [] f apart new = (refl, tt)
AreDistinct-append (g ∷ fs) f (first, apart) new = (
  has-append g.game_id fs f first ∙ ground (arith, new),
  AreDistinct-append fs f apart (ground (arith, new)),
)

module _ {Db : Type 0} (e : Engine Db) (t : TrackingDb) (factions : Db → List Faction)
    (table : IsFactionTable e factions) where
  -- A faction that is there is not added again.
  tracked_stays :
      (kind fid : ℤ) (index name : String) (db : Db)
      → atoi index ≡ some fid
      → has fid (factions db) ≡ true
      → (track_faction e t kind index name db).1 ≡ db
  unfolding track_faction with_open add_faction scanned
  tracked_stays kind fid index name db read there = elim (Option-cases (e.open_db t.dbpath db)) [
    | inr (_, failed) ↦ rw (track_faction, with_open, failed) refl
    | inl opened ↦ elim (Sum-cases (e.select_number select_faction (number fid ∷ []) db)) [
      | inl (_, failed) ↦ rw (track_faction, with_open, opened, read, failed) refl
      | inr (none, missing) ↦ cc (table.missing_rows fid db missing, there)
      | inr (some n, found) ↦
          rw (track_faction, with_open, opened, read, found, (table.found_rows fid n db found).0)
            refl
    ]
  ]

  -- What one call leaves: distinct factions, and without an error the faction among them.
  unfoldable HasTracked : (index : String) → Ran Db → Type 0
  HasTracked index (error, db) =
      AreDistinct (factions db)
      × (error ≡ none → (fid : ℤ) × (atoi index ≡ some fid) × (has fid (factions db) ≡ true))

  add_faction-HasTracked :
      (kind fid : ℤ) (index name : String) (db : Db)
      → atoi index ≡ some fid
      → AreDistinct (factions db)
      → HasTracked index
          (add_faction e kind name fid (e.select_number select_faction (number fid ∷ []) db) db)
  unfolding HasTracked add_faction scanned ran
  add_faction-HasTracked kind fid index name db read apart =
      elim (Sum-cases (e.select_number select_faction (number fid ∷ []) db)) [
        | inl (error, failed) ↦ rw failed (apart, λ ok. cc ok)
        | inr (some n, found) ↦
            let (positive, there) = table.found_rows fid n db found in
            rw (found, positive) (apart, λ ok. (fid, read, there))
        | inr (none, missing) ↦
            let new = table.missing_rows fid db missing in
            elim (Sum-cases
              (e.execute insert_faction (text name ∷ number kind ∷ number fid ∷ []) db)) [
                | inl (error, failed) ↦ rw (missing, failed) (apart, λ ok. cc ok)
                | inr (after, added) ↦
                    rw (missing, added, table.added_rows name kind fid db after added)
                      (
                        AreDistinct-append (factions db)
                            (record { faction_name = name; kind_number = kind; game_id = fid })
                            apart new,
                        λ ok. (
                          fid,
                          read,
                          has-append fid (factions db) _ new ∙ ground (arith, eqb_ℤ_iff fid fid),
                        ),
                      )
              ]
      ]

  error-HasTracked :
      (index : String) (failure : Failure) (db : Db)
      → AreDistinct (factions db)
      → HasTracked index (some failure, db)
  unfolding HasTracked
  error-HasTracked index failure db apart = (apart, λ ok. cc ok)

  track_faction-HasTracked :
      (kind : ℤ) (index name : String) (db : Db)
      → AreDistinct (factions db)
      → HasTracked index (track_faction e t kind index name db)
  unfolding track_faction with_open
  track_faction-HasTracked kind index name db apart = elim (Option-cases (e.open_db t.dbpath db)) [
    | inr (_, failed) ↦ rw (track_faction, with_open, failed) (error-HasTracked index _ db apart)
    | inl opened ↦ elim (Option-cases (atoi index)) [
      | inl bad ↦ rw (track_faction, with_open, opened, bad) (error-HasTracked index _ db apart)
      | inr (fid, read) ↦
          rw (track_faction, with_open, opened, read)
            (add_faction-HasTracked kind fid index name db read apart)
    ]
  ]

  -- Over a table that finds what it holds: if no two factions have one game id, none have after
  -- `TrackPlayer` or `TrackAlliance`, whether it returns an error or not. If it returns none, the index
  -- is a number, a faction has it, and a further call for the index, as a player or as an alliance and
  -- under whatever name, leaves the database as it is.
  pub track_faction_once :
      (kind : ℤ) (index name : String) (db : Db)
      → AreDistinct (factions db)
      → AreDistinct (factions (track_faction e t kind index name db).1)
        × ((track_faction e t kind index name db).0 ≡ none
            → (fid : ℤ) × (atoi index ≡ some fid)
              × (has fid (factions (track_faction e t kind index name db).1) ≡ true)
              × ((kind' : ℤ) (name' : String)
                  → (track_faction e t kind' index name' (track_faction e t kind index name db).1).1
                    ≡ (track_faction e t kind index name db).1))
  unfolding HasTracked
  track_faction_once kind index name db apart =
      let (apart', tracked) = track_faction-HasTracked kind index name db apart in
      (
        apart',
        λ ok.
            let (fid, read, there) = tracked ok in
            (
              fid,
              read,
              there,
              λ kind' name'.
                  tracked_stays kind' fid index name' (track_faction e t kind index name db).1 read
                    there,
            ),
      )
