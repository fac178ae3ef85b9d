-- ===== src/Commands/Functions/Tests.antt =====
-- The commands of an admin, over the default configuration and no files.
use avorioncontrol.Prelude.{
  lookup, arith, lookup, String, ◌≡◌, refl, true, false, none, some, List, [], ◌∷◌, pos, inl, inr,
  ℤ, negsuc,
}
use avorioncontrol.Prelude.Decimal.{show_ℤ, atoi, read_number, read_natural, read_digits, is_digit}
use avorioncontrol.Configuration.Data.{new}
use avorioncontrol.Configuration.Storage.{Env, World}
use avorioncontrol.Commands.Errors.{CommandRef}
use avorioncontrol.Commands.Registrar.{Registrar, Registrant, empty_registrar, command}
use avorioncontrol.Commands.Process.{is_authorized}
use avorioncontrol.Commands.Process.Laws.{has_level}
use avorioncontrol.Avorion.Server.{Player, Server}
use avorioncontrol.Avorion.Lifecycle.Steps.{new_server}
use avorioncontrol.Commands.Functions.{Reply, output_of}
use avorioncontrol.Commands.Functions.Admin.{Guild, highest, add_admin_cmnd}
use avorioncontrol.Commands.Functions.AdminLaws.{added_level_is_enforced}
use avorioncontrol.Commands.Functions.Listing.{list_lines}
use avorioncontrol.Commands.Functions.ListingLaws.{usable_lines, AreRegistered, list_lines_exact}
use avorioncontrol.Avorion.Sectors.Laws.{history_at}
use avorioncontrol.Commands.Functions.Coords.{
  up_to_three, ordinate, at_colon, match_coord, is_out_of_range, read_coord, read_coords, collect,
}
use avorioncontrol.Commands.Functions.CoordsLaws.{histories, collect_exactly}
use avorioncontrol.Commands.Functions.Loglevel.{
  LevelReply, loglevel_cmnd, set_levels, turn, is_level, set_guild_level,
}
use avorioncontrol.Commands.Functions.LoglevelLaws.{AreLevels, loglevel_cmnd-AreLevels}

abbrev env : Env
env = record {
  marshal = λ y. "";
  unmarshal = λ s. none;
  compiles = λ s. true;
  visit = λ m. m;
  stat_fails = λ s. false;
  readable = λ s. true;
  writable = λ s. true;
  is_port_available = λ n. true;
}

abbrev world : World
world = record { conf = new ""; files = [] }

abbrev admin : CommandRef
admin = record { name = "addcommand"; description = ""; uuid = ""; loglevel = pos 1 }

abbrev guild : Guild
guild = inr (record { id = "1"; role_name = "admins"; mention = "<@&1>" } ∷ [])

abbrev words : List String
words = "admin" ∷ "addcommand" ∷ "5" ∷ "rcon" ∷ []

added_level_is_enforced_example :
    (r : Reply) × (add_admin_cmnd env admin words world ≡ some r)
    × (r.failure ≡ none)
    × (is_authorized r.world.conf.settings "rcon" ("1" ∷ [])
        ≡ has_level r.world.conf.settings (pos 5) ("1" ∷ []))
unfolding atoi read_number read_natural read_digits is_digit
added_level_is_enforced_example =
    added_level_is_enforced env admin "admin" "addcommand" "5" "rcon" (pos 5) world ("1" ∷ []) refl
      refl refl

abbrev mods : List String
mods = "1234567890" ∷ "x1234567890" ∷ "1234567890" ∷ []

abbrev ann : Player
ann = record { index = "1"; player_name = "ann"; online = true; discordid = ""; jumphistory = [] }

abbrev roster : Server
unfolding new_server
roster = record (new_server 0) { players = ann ∷ [] }

abbrev help_cmdlet : Registrant
help_cmdlet = record {
  self = record {
    name = "help";
    description = "help";
    exec = none;
    args = [];
    usage = "help";
    loglevel = pos 1;
  };
  cmdlets = [];
}

abbrev registry : Registrar
registry = record {
  guild_id = "1";
  commands = ("help", help_cmdlet) ∷ [];
  commandnames = "help" ∷ [];
  reg_loglevel = pos 1;
  embeds = [];
}

names-AreRegistered : AreRegistered registry ("help" ∷ [])
unfolding command lookup
names-AreRegistered = ((help_cmdlet, refl), tt)

list_lines_exact_example :
    list_lines world.conf.settings registry
      (highest world.conf.settings (pos 0) ("1" ∷ []))
      ("help" ∷ [])
    ≡ some (usable_lines world.conf.settings registry ("1" ∷ []) ("help" ∷ []))
list_lines_exact_example =
    list_lines_exact world.conf.settings registry ("1" ∷ []) ("help" ∷ []) names-AreRegistered

abbrev coords : List (ℤ × ℤ)
coords = (pos 3, negsuc 499) ∷ (pos 0, pos 7) ∷ []

-- A coordinate past -500 is refused, and a sign is none of three digits.
coords_read :
    (read_coords ("3:-500" ∷ "0:7" ∷ []) ≡ inr coords)
    × (read_coords ("0:7" ∷ "0:-501" ∷ []) ≡ inl "Coordinate **y** is out of range: `-501`")
    × (read_coords ("+1:2" ∷ []) ≡ inl "Invalid coordinate given: `+1:2`")
unfolding read_coords read_coord match_coord at_colon ordinate up_to_three is_out_of_range
    read_natural read_digits is_digit show_ℤ
coords_read = (refl, refl, refl)

abbrev visited : Server
unfolding new_server
visited = record (new_server 0) {
  sectors =
      record {
        sector_x = pos 0;
        sector_y = pos 7;
        sector_history =
            record {
              jump_name = "ship";
              kind = "player";
              fid = pos 1;
              jump_x = pos 0;
              jump_y = pos 7;
              jump_time = 5;
            }
            ∷ [];
      }
      ∷ [];
}

collect_exactly_example :
    ((collect coords visited).0 ≡ histories coords visited)
    × ((a b : ℤ)
        → history_at a b (collect coords visited).1.sectors ≡ history_at a b visited.sectors)
collect_exactly_example = collect_exactly coords visited

guild_starts_at_one : AreLevels (empty_registrar "1")
unfolding empty_registrar is_level lookup
guild_starts_at_one =
    ((omega arith, omega arith), λ n r found. (ground (arith, found), ground (arith, found)))

loglevel_cmnd-AreLevels_example :
    (reply : LevelReply) × (loglevel_cmnd env admin
        (empty_registrar "1")
        ("loglevel" ∷ "3" ∷ "guild" ∷ [])
        world
      ≡ some reply)
    × AreLevels reply.registrar
loglevel_cmnd-AreLevels_example =
    loglevel_cmnd-AreLevels env admin (empty_registrar "1") "loglevel" ("3" ∷ "guild" ∷ []) world
      refl guild_starts_at_one

-- The level of the guild stays set although the next object is refused.
set_before_error :
    (set_levels env admin
      (pos 3)
      ("guild" ∷ "user" ∷ [])
      (output_of admin "")
      (empty_registrar "1")
      world).registrar.reg_loglevel
    ≡ pos 3
unfolding set_levels turn set_guild_level
set_before_error = refl
