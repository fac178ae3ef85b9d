-- ===== src/Avorion/Database/InMemory.antt =====
-- An engine for the tests, which keeps the rows of the tracking database in lists, and what the theorems
-- rely on of it.
use avorioncontrol.Prelude.{
  ℕ, suc, String, ◌≡◌, ◌≢◌, refl, ap, sym, subst, ◌==◌, eq_iff, eq_refl, true, false, ◌&&◌, Option,
  none, some, List, [], ◌∷◌, ◌++◌, ◌⊎◌, inl, inr, ℤ, pos, ltb_ℤ, eqb_ℤ, any, if◌then◌else◌, arith,
  Bool-cases, some_injective, inr_injective,
}
use avorioncontrol.Prelude.Decimal.{show_ℤ}
use avorioncontrol.Avorion.Database.{
  Value, number, text, JumpRow, Engine, TrackingDb, insert_integration,
}
use avorioncontrol.Avorion.Database.Factions.{Faction, has, IsFactionTable}
use avorioncontrol.Avorion.Database.Links.{Link, links, of_faction, IsLinkTable}

pub record Rows : Type 0 where
  pub faction_rows : List Faction
  pub link_rows : List Link

unfoldable pub find_id : ℕ → ℤ → List Faction → Option ℤ
find_id i fid [] = none
find_id i fid (f ∷ fs) =
    let later = find_id (suc i) fid fs in if eqb_ℤ f.game_id fid then some (pos (suc i)) else later

unfoldable pub find_user : ℤ → List Link → Option String
find_user fid [] = none
find_user fid (row ∷ rows) =
    let later = find_user fid rows in if eqb_ℤ row.faction fid then some row.discord else later

unfoldable pub delete_rows : ℤ → String → List Link → List Link
delete_rows a b [] = []
delete_rows a b (row ∷ rows) =
    let rest = delete_rows a b rows in
    if row.discord == show_ℤ a && show_ℤ row.faction == b then rest else row ∷ rest

unfoldable pub run : String → List Value → Rows → String ⊎ Rows
run sql (text name ∷ number kind ∷ number fid ∷ []) rows = inr (record rows {
  faction_rows =
      rows.faction_rows ++ record { faction_name = name; kind_number = kind; game_id = fid } ∷ [];
})
run sql (number fid ∷ text did ∷ []) rows =
    if sql == insert_integration
    then inr
        (record rows { link_rows = rows.link_rows ++ record { faction = fid; discord = did } ∷ [] })
    else inr (record rows { link_rows = delete_rows fid did rows.link_rows })
run sql _ rows = inl "no such statement"

unfoldable pub ask_number : List Value → Rows → String ⊎ Option ℤ
ask_number (number fid ∷ []) rows = inr (find_id 0 fid rows.faction_rows)
ask_number _ rows = inr none

unfoldable pub ask_text : List Value → Rows → String ⊎ Option String
ask_text (number fid ∷ []) rows = inr (find_user fid rows.link_rows)
ask_text _ rows = inr none

abbrev pub row_of : String → JumpRow
row_of ship = record { faction_id = pos 7; ship_name = ship; seconds = 1; kind_code = pos 0 }

-- A jump of the ship "one" into the first sector, and of the ship "two" into any other.
unfoldable pub ask_jumps : List Value → String ⊎ List JumpRow
ask_jumps (number n ∷ []) = inr (row_of (if eqb_ℤ n (pos 1) then "one" else "two") ∷ [])
ask_jumps _ = inr []

abbrev pub engine : Engine Rows
engine = record {
  open_db = λ path rows. none;
  execute = run;
  prepare = λ sql rows. none;
  select_number = λ sql values rows. ask_number values rows;
  select_text = λ sql values rows. ask_text values rows;
  query = λ sql rows. none;
  select_sectors = λ sql rows. inr [];
  select_jumps = λ sql values rows. ask_jumps values;
}

abbrev pub tracking : TrackingDb
tracking = record { dbpath = "data.db"; tracking_loglevel = pos 1 }

find_id-found :
    (i : ℕ) (fid n : ℤ) (fs : List Faction)
    → find_id i fid fs ≡ some n
    → (ltb_ℤ (pos 0) n ≡ true) × (has fid fs ≡ true)
unfolding find_id has
find_id-found i fid n [] h = cc
find_id-found i fid n (f ∷ fs) h = elim (Bool-cases (eqb_ℤ f.game_id fid)) [
  | inl e ↦
      let at : some (pos (suc i)) ≡ some n =
        subst (λ b. (if b then some (pos (suc i)) else find_id (suc i) fid fs) ≡ some n) e h in
      (subst (λ m. ltb_ℤ (pos 0) m ≡ true) (some_injective at) (ground arith), rw e refl)
  | inr e ↦ rw e (
      find_id-found (suc i) fid n fs
        (subst (λ b. (if b then some (pos (suc i)) else find_id (suc i) fid fs) ≡ some n) e h))
]

find_id-missing :
    (i : ℕ) (fid : ℤ) (fs : List Faction) → find_id i fid fs ≡ none → has fid fs ≡ false
unfolding find_id has
find_id-missing i fid [] h = refl
find_id-missing i fid (f ∷ fs) h = elim (Bool-cases (eqb_ℤ f.game_id fid)) [
  | inl e ↦ cc (subst (λ b. (if b then some (pos (suc i)) else find_id (suc i) fid fs) ≡ none) e h)
  | inr e ↦ rw e (
      find_id-missing (suc i) fid fs
        (subst (λ b. (if b then some (pos (suc i)) else find_id (suc i) fid fs) ≡ none) e h))
]

pub engine-IsFactionTable : IsFactionTable engine (λ rows. rows.faction_rows)
unfolding run ask_number
engine-IsFactionTable = record {
  found_rows = λ fid n db h. find_id-found 0 fid n db.faction_rows (inr_injective h);
  missing_rows = λ fid db h. find_id-missing 0 fid db.faction_rows (inr_injective h);
  added_rows = λ name kind fid db after h. ap (λ rows. rows.faction_rows) (inr_injective (sym h));
}

find_user-found :
    (fid : ℤ) (did : String) (rows : List Link)
    → find_user fid rows ≡ some did
    → any (links fid did) rows ≡ true
unfolding find_user links
find_user-found fid did [] h = cc
find_user-found fid did (row ∷ rows) h = elim (Bool-cases (eqb_ℤ row.faction fid)) [
  | inl e ↦
      let same = subst (λ b. (if b then some row.discord else find_user fid rows) ≡ some did) e h in
      rw (e, some_injective same, eq_refl did) refl
  | inr e ↦ rw e (
      find_user-found fid did rows
        (subst (λ b. (if b then some row.discord else find_user fid rows) ≡ some did) e h))
]

find_user-missing :
    (fid : ℤ) (rows : List Link) → find_user fid rows ≡ none → any (of_faction fid) rows ≡ false
unfolding find_user of_faction
find_user-missing fid [] h = refl
find_user-missing fid (row ∷ rows) h = elim (Bool-cases (eqb_ℤ row.faction fid)) [
  | inl e ↦ cc (subst (λ b. (if b then some row.discord else find_user fid rows) ≡ none) e h)
  | inr e ↦ rw e (
      find_user-missing fid rows
        (subst (λ b. (if b then some row.discord else find_user fid rows) ≡ none) e h))
]

delete_rows-keeps :
    (a : ℤ) (b : String) (fid : ℤ) (did : String) (rows : List Link)
    → did ≢ show_ℤ a
    → any (links fid did) rows ≡ true
    → any (links fid did) (delete_rows a b rows) ≡ true
unfolding delete_rows links
delete_rows-keeps a b fid did [] other h = h
delete_rows-keeps a b fid did (row ∷ rows) other h = ground (
  arith,
  delete_rows-keeps a b fid did rows other,
  eq_iff row.discord did,
  eq_iff row.discord (show_ℤ a),
  other,
)

delete_rows-adds_none :
    (a : ℤ) (b : String) (fid : ℤ) (did : String) (rows : List Link)
    → any (links fid did) (delete_rows a b rows) ≡ true
    → any (links fid did) rows ≡ true
unfolding delete_rows links
delete_rows-adds_none a b fid did [] h = h
delete_rows-adds_none a b fid did (row ∷ rows) h =
    ground (arith, delete_rows-adds_none a b fid did rows)

pub engine-IsLinkTable : IsLinkTable engine (λ rows. rows.link_rows)
unfolding run ask_text
engine-IsLinkTable = record {
  added_links = λ fid did db after h. ap (λ rows. rows.link_rows) (inr_injective (sym h));
  kept_links = λ a b fid did db after h other there.
      subst (λ rows. any (links fid did) rows.link_rows ≡ true) (inr_injective h)
        (delete_rows-keeps a b fid did db.link_rows other there);
  no_new_links = λ a b fid did db after h there.
      delete_rows-adds_none a b fid did db.link_rows
        (subst (λ rows. any (links fid did) rows.link_rows ≡ true) (sym (inr_injective h)) there);
  found_links = λ fid did db h. find_user-found fid did db.link_rows (inr_injective h);
  missing_links = λ fid db h. find_user-missing fid db.link_rows (inr_injective h);
}
