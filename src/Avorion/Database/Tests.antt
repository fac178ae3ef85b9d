-- ===== src/Avorion/Database/Tests.antt =====
-- The theorems on the tracking database, over the engine that keeps its rows in lists.
use avorioncontrol.Prelude.{
  String, ◌≡◌, ◌≢◌, refl, Bool, true, false, none, some, List, [], ◌∷◌, inr, ℤ, pos, any,
}
use avorioncontrol.Prelude.Decimal.{
  show_ℤ, atoi, show, read_number, read_natural, read_digits, is_digit,
}
use avorioncontrol.Avorion.Server.{Player, JumpInfo}
use avorioncontrol.Avorion.Database.{
  number, SectorRow, JumpRow, track_faction, add_integration_row, remove_integration,
  set_discord_to_player, with_open, ran,
}
use avorioncontrol.Avorion.Database.Factions.{has, AreDistinct, track_faction_once}
use avorioncontrol.Avorion.Database.Links.{of_faction, link_comes_back}
use avorioncontrol.Avorion.Database.Init.{
  Worker, start_workers, Loading, Turns, jumps_of_sector, loaded_jump, faction_kind,
}
use avorioncontrol.Avorion.Database.Taking.{AreOf, turns_load_exactly}
use avorioncontrol.Avorion.Database.InMemory.{
  Rows, run, ask_jumps, row_of, engine, tracking, engine-IsFactionTable, engine-IsLinkTable,
}

abbrev empty : Rows
empty = record { faction_rows = []; link_rows = [] }

abbrev bob : Player
bob = record {
  index = "7";
  player_name = "Bob";
  online = true;
  discordid = "123456789";
  jumphistory = [];
}

nothing-AreDistinct : AreDistinct []
unfolding AreDistinct
nothing-AreDistinct = tt

track_faction_once_example :
    AreDistinct (track_faction engine tracking (pos 0) "7" "Bob" empty).1.faction_rows
    × ((track_faction engine tracking (pos 0) "7" "Bob" empty).0 ≡ none
        → (fid : ℤ) × (atoi "7" ≡ some fid)
          × (has fid (track_faction engine tracking (pos 0) "7" "Bob" empty).1.faction_rows ≡ true)
          × ((kind' : ℤ) (name' : String)
              → (track_faction engine tracking kind' "7" name'
                  (track_faction engine tracking (pos 0) "7" "Bob" empty).1).1
                ≡ (track_faction engine tracking (pos 0) "7" "Bob" empty).1))
track_faction_once_example =
    track_faction_once engine tracking (λ rows. rows.faction_rows) engine-IsFactionTable (pos 0) "7"
      "Bob" empty nothing-AreDistinct

abbrev linked : Rows
linked = record empty { link_rows = record { faction = pos 7; discord = "123456789" } ∷ [] }

add-linked : add_integration_row engine tracking "123456789" bob empty ≡ (none, linked)
unfolding add_integration_row with_open ran run atoi read_number read_natural read_digits is_digit
add-linked = refl

not_seven : "123456789" ≢ show_ℤ (pos 7)
unfolding show_ℤ show
not_seven e = cc e

reads_seven : atoi "7" ≡ some (pos 7)
unfolding atoi read_number read_natural read_digits is_digit
reads_seven = refl

no_links : any (of_faction (pos 7)) [] ≡ false
no_links = refl

-- Bob is linked again although the link was removed.
link_comes_back_example :
    ((set_discord_to_player engine tracking bob linked ≡ inr bob)
      → (bob ≡ record bob { discordid = "123456789" }))
    × ((set_discord_to_player engine tracking bob (remove_integration engine tracking bob linked).1
          ≡ inr bob)
        → (bob ≡ record bob { discordid = "123456789" }))
link_comes_back_example =
    link_comes_back engine tracking (λ rows. rows.link_rows) engine-IsLinkTable (pos 7) "123456789"
      bob bob bob empty linked reads_seven refl refl not_seven no_links add-linked bob

abbrev near : SectorRow
near = record { row_index = pos 1; row_x = pos 0; row_y = pos 0 }

abbrev far : SectorRow
far = record { row_index = pos 2; row_x = pos 5; row_y = pos 5 }

abbrev jump_at : ℤ → String → JumpInfo
jump_at n ship = record {
  jump_name = ship;
  kind = "player";
  fid = pos 7;
  jump_x = n;
  jump_y = n;
  jump_time = 1000000000;
}

abbrev worker : SectorRow → List JumpRow → Bool → List JumpInfo → Worker
worker sec rows pending history = record {
  place = sec;
  rows = rows;
  pending = pending;
  history = history;
}

abbrev at_start : List Worker
at_start = worker near (row_of "one" ∷ []) false [] ∷ worker far (row_of "two" ∷ []) false [] ∷ []

two_start : start_workers engine (near ∷ far ∷ []) empty ≡ inr at_start
unfolding start_workers ask_jumps
two_start = refl

abbrev swapped : Loading
swapped = record {
  shared = row_of "two";
  workers =
      worker near [] false (jump_at (pos 0) "two" ∷ [])
      ∷ worker far [] false (jump_at (pos 5) "two" ∷ [])
      ∷ [];
}

abbrev loading : JumpRow → Worker → Worker → Loading
loading shared first second = record { shared = shared; workers = first ∷ second ∷ [] }

abbrev taken : Loading
taken = record {
  shared = row_of "two";
  workers =
      worker near (row_of "one" ∷ []) false []
      ∷ worker far [] false (jump_at (pos 5) "two" ∷ [])
      ∷ [];
}

one_turn : Turns (record { shared = row_of ""; workers = at_start }) taken
unfolding loaded_jump faction_kind
one_turn =
    Turns.turn 1 (worker far (row_of "two" ∷ []) false []) (row_of "two") [] (jump_at (pos 5) "two")
      Turns.none_yet refl refl refl refl

turns_load_exactly_example :
    (sec : SectorRow) × (rows : List JumpRow) × (some far ≡ some sec)
    × (engine.select_jumps jumps_of_sector (number sec.row_index ∷ []) empty ≡ inr rows)
    × AreOf sec rows (jump_at (pos 5) "two" ∷ [])
turns_load_exactly_example =
    turns_load_exactly engine (near ∷ far ∷ []) empty at_start (row_of "") taken two_start one_turn
      1 (worker far [] false (jump_at (pos 5) "two" ∷ [])) refl refl
