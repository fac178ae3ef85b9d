-- ===== src/Commands/Functions/Mods.antt =====
-- discord/commands/modConfigCmnd.go: mods added, removed, allowed and disallowed by their workshop ids,
-- and listed. The four functions differ in the method of the configuration that they call and in their
-- texts.
use avorioncontrol.Prelude.{
  ℕ, suc, ◌+◌, String, ◌<>◌, Bool, true, Option, none, some, List, [], ◌∷◌, ◌++◌, ℤ, pos, negsuc,
  leb, length, drop, if◌then◌else◌,
}
use avorioncontrol.Prelude.Decimal.{show, show_ℤ, atoi, is_digit}
use avorioncontrol.Configuration.Storage.{Env, World}
use avorioncontrol.Configuration.Mods.{
  add_server_mod, add_client_mod, remove_server_mod, remove_client_mod, list_server_mods,
  list_client_mods,
}
use avorioncontrol.Commands.Output.{CommandOutput, add_line, construct}
use avorioncontrol.Commands.Errors.{CommandRef}
use avorioncontrol.Commands.Functions.{
  Reply, fails, shows, output_of, invalid_argument, command_error, wrong_number, with_args,
}

abbrev pub mod_url_base : String
mod_url_base = "https://steamcommunity.com/sharedfiles/filedetails/?id="

-- `[0-9]{10}`, which is not anchored: ten digits in a row somewhere, behind `run` of them.
unfoldable pub has_ten_digits : (run : ℕ) → String → Bool
has_ten_digits run String.[] = leb 10 run
has_ten_digits run (String.◌∷◌ c s) =
    let longer = has_ten_digits (suc run) s in
    let anew = has_ten_digits 0 s in
    if leb 10 run then true else if is_digit c then longer else anew

-- The first argument that the regular expression refuses.
unfoldable pub first_invalid : List String → Option String
first_invalid [] = none
first_invalid (arg ∷ rest) =
    let later = first_invalid rest in if has_ten_digits 0 arg then later else some arg

-- What the loop over the arguments has gathered.
pub record Tally : Type 0 where
  pub success : List ℤ
  pub failed : List (String × String)
  pub world : World

-- A method of the configuration on mods.
abbrev pub Method : Type 0
Method = ℤ → World → Option String × World

-- One argument.
unfoldable pub change_mod : Method → String → Tally → Tally
change_mod method given t = elim (atoi given) [
  | none ↦ record t { failed = t.failed ++ (given, "Not a valid workshop id") ∷ [] }
  | some id ↦
      let (err, w) = method id t.world in
      elim err [
        | some reason ↦ record t { failed = t.failed ++ (given, reason) ∷ []; world = w }
        | none ↦ record t { success = t.success ++ id ∷ []; world = w }
      ]
]

-- The loop.
unfoldable pub change_mods : Method → List String → Tally → Tally
change_mods method [] t = t
change_mods method (given ∷ rest) t = change_mods method rest (change_mod method given t)

-- The numbered lines, from the number `i` on.
unfoldable pub id_lines : ℕ → List ℤ → CommandOutput → CommandOutput
id_lines i [] out = out
id_lines i (id ∷ rest) out =
    id_lines (i + 1) rest (add_line ("> " <> (show i <> (". " <> (mod_url_base <> show_ℤ id)))) out)

unfoldable pub failed_lines : List (String × String) → CommandOutput → CommandOutput
failed_lines [] out = out
failed_lines ((id, reason) ∷ rest) out =
    failed_lines rest (add_line ("> " <> (id <> (": " <> reason))) out)

-- The part on what failed; `CommandWarning` is 2.
unfoldable pub warn_failed : String → List (String × String) → CommandOutput → CommandOutput
warn_failed heading [] out = out
warn_failed heading (f ∷ failed) out =
    failed_lines (f ∷ failed) (add_line heading (record out { status = 2 }))

-- The texts of a function: its title, the header, the heading of the failures and its verb.
pub record Texts : Type 0 where
  pub title : String
  pub done : String
  pub not_done : String
  pub verb : String

-- The end of the functions.
unfoldable pub report : CommandRef → Texts → Tally → Reply
report cmd texts t =
    if leb 1 (length t.success)
    then shows
        (construct (
          warn_failed texts.not_done t.failed
            (id_lines 1 t.success (record (output_of cmd texts.title) { header = texts.done }))))
        t.world
    else fails
        (command_error cmd
          ("Failed to " <> (texts.verb <> (" " <> (show (length t.failed) <> " mod[s]")))))
        t.world

-- The functions between their first guard and their end.
unfoldable pub run_method : CommandRef → Texts → Method → List String → World → Reply
run_method cmd texts method mods w = elim (first_invalid mods) [
  | some arg ↦ fails (invalid_argument cmd ("`" <> (arg <> "` is not a valid workshop id"))) w
  | none ↦
      report cmd texts (change_mods method mods (record { success = []; failed = []; world = w }))
]

unfoldable pub mods_cmnd : CommandRef → Texts → Method → List String → World → Option Reply
mods_cmnd cmd texts method a w =
    with_args cmd (wrong_number cmd) (drop 1 a) (pos 1) (negsuc 0) w
      (some (run_method cmd texts method (drop 2 a) w))

abbrev pub adding : String → Texts
adding title = record {
  title = title;
  done = "Mods Added";
  not_done = "**Failed to Add**";
  verb = "add";
}

abbrev pub removing : String → Texts
removing title = record {
  title = title;
  done = "Mods Removed";
  not_done = "**Failed to Remove**";
  verb = "remove";
}

-- `modAddSubCmnd`
unfoldable pub mod_add : CommandRef → List String → World → Option Reply
mod_add cmd = mods_cmnd cmd (adding "Add Server Mods") add_server_mod

-- `modRemoveSubCmnd`
unfoldable pub mod_remove : Env → CommandRef → List String → World → Option Reply
mod_remove env cmd = mods_cmnd cmd (removing "Remove Server Mods") (remove_server_mod env)

-- `modAllowSubCmnd`
unfoldable pub mod_allow : CommandRef → List String → World → Option Reply
mod_allow cmd = mods_cmnd cmd (adding "Allow Clientside Mods") add_client_mod

-- `modDisallowSubCmnd`
unfoldable pub mod_disallow : Env → CommandRef → List String → World → Option Reply
mod_disallow env cmd = mods_cmnd cmd (removing "Remove Clientside Mods") (remove_client_mod env)

-- The mods installed, or the line that there are none.
unfoldable pub installed_lines : List ℤ → CommandOutput → CommandOutput
installed_lines [] out = add_line "No mods currently configured" out
installed_lines (id ∷ rest) out = id_lines 1 (id ∷ rest) out

unfoldable pub allowed_lines : List ℤ → CommandOutput → CommandOutput
allowed_lines [] out = out
allowed_lines (id ∷ rest) out = id_lines 1 (id ∷ rest) (add_line "**Mods Allowed**" out)

-- `listModsSubCmnd`
unfoldable pub list_mods : Env → CommandRef → World → Reply
list_mods env cmd w =
    let (servermods, w1) = list_server_mods env w in
    let (clientmods, w2) = list_client_mods env w1 in
    let out = record (output_of cmd "Mod List") { header = "Current Mod Configuration" } in
    shows
      (construct
        (allowed_lines clientmods (installed_lines servermods (add_line "**Mods Installed**" out))))
      w2
