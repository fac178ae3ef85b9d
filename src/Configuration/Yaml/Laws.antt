-- ===== src/Configuration/Yaml/Laws.antt =====
-- A reload of what was saved gives the settings back.
use text.Mathlib.Text.{starts_with}
use mathlib.Core.List.{Perm, filter_map}
use mathlib.Core.List.Perm
use avorioncontrol.Prelude.{
  String, ◌==◌, eq_iff, ◌≡◌, refl, ap, Bool, true, false, Option, none, some, subst, Bool-cases,
  inl, inr, List, [], ◌∷◌, ℤ, Map, insert, arith, if◌then◌else◌, All, map, ◌++◌, ◌∙◌, sym,
  All-append, append-nil, append_assoc,
}
use avorioncontrol.Configuration.Data.{Settings, LoggedServerEvent}
use avorioncontrol.Configuration.Yaml.{
  Visit, to_yaml, apply_yaml, events_map, read_events, saved_prefix, text_or, number_or, period_or,
  list_or,
}

-- An event that the reader keeps.
abbrev pub IsReadable : (String → Bool) → LoggedServerEvent → Type 0
IsReadable compiles e = ((e.fstring == "") ≡ false) × (compiles e.regex ≡ true)

-- No event of the list has the name.
abbrev pub Lacks : String → List LoggedServerEvent → Type 0
Lacks n = All (λ e. (e.name == n) ≡ false)

-- The events have different names.
abbrev pub AreNamed : List LoggedServerEvent → Type 0
AreNamed [] = Unit
AreNamed (e ∷ es) = Lacks e.name es × AreNamed es

unsaved : (p : String) → starts_with p "<@!" ≡ false → saved_prefix p ≡ p
unfolding saved_prefix
unsaved p h = rw h

not_eq_sym : (s t : String) → (s == t) ≡ false → (t == s) ≡ false
not_eq_sym s t h = ground (arith, eq_iff s t, eq_iff t s)

text_or_self : (t : String) → text_or t t ≡ t
text_or_self t = ground arith

number_or_self : (n : ℤ) → number_or n n ≡ n
number_or_self n = ground arith

period_or_self : (n : ℤ) → period_or n n ≡ n
period_or_self n = ground arith

list_or_self : {A : Type 0} (xs : List A) → list_or (some xs) xs ≡ xs
list_or_self [] = refl
list_or_self (x ∷ xs) = refl

true_or_self : (b : Bool) → (if b then true else b) ≡ b
true_or_self true = refl
true_or_self false = refl

false_or_self : (b : Bool) → (if b then b else false) ≡ b
false_or_self true = refl
false_or_self false = refl

token_self : (t : String) → (if t == "" then text_or t t else t) ≡ t
token_self t = ground arith

prefix_self : (p : String) → saved_prefix p ≡ p → text_or (saved_prefix p) p ≡ p
prefix_self p h = rw h (text_or_self p)

-- An insertion at a name that the map lacks goes to the end.
abbrev LacksKey : String → Map (String × String) → Type 0
LacksKey n = All (λ e. (e.0 == n) ≡ false)

insert_last :
    (n : String) (v : String × String) (m : Map (String × String))
    → LacksKey n m
    → insert n v m ≡ m ++ (n, v) ∷ []
unfolding insert
insert_last n v [] h = refl
insert_last n v ((k, w) ∷ m) (h, hs) = rw (h, insert_last n v m hs)

abbrev row : LoggedServerEvent → String × (String × String)
row e = (e.name, (e.fstring, e.regex))

-- No name of the list is a key of the map.
abbrev Apart : List LoggedServerEvent → Map (String × String) → Type 0
Apart [] m = Unit
Apart (e ∷ es) m = LacksKey e.name m × Apart es m

Apart-append :
    (es : List LoggedServerEvent) (m : Map (String × String)) (e : LoggedServerEvent)
    → Lacks e.name es
    → Apart es m
    → Apart es (m ++ row e ∷ [])
Apart-append [] m e l h = tt
Apart-append (d ∷ es) m e (l, ls) (h, hs) = (
  All-append (λ r. (r.0 == d.name) ≡ false) m (row e ∷ []) h (not_eq_sym d.name e.name l, tt),
  Apart-append es m e ls hs,
)

events_map-append :
    (es : List LoggedServerEvent) (m : Map (String × String))
    → AreNamed es
    → Apart es m
    → events_map es m ≡ m ++ map row es
unfolding events_map
events_map-append [] m n h = sym (append-nil m)
events_map-append (e ∷ es) m (n, ns) (h, hs) = rw (insert_last e.name (e.fstring, e.regex) m h) (
    events_map-append es (m ++ row e ∷ []) ns (Apart-append es m e n hs)
    ∙ append_assoc m (row e ∷ []) (map row es))

read_events-rows :
    (compiles : String → Bool) (es : List LoggedServerEvent)
    → All (IsReadable compiles) es
    → read_events compiles (map row es) ≡ es
unfolding read_events
read_events-rows compiles [] h = refl
read_events-rows compiles (e ∷ es) ((f, r), hs) = rw (f, r, read_events-rows compiles es hs)

Apart-nil : (es : List LoggedServerEvent) → Apart es []
Apart-nil [] = tt
Apart-nil (e ∷ es) = (tt, Apart-nil es)

-- What Go promises of a `range`: every entry is visited once, in some order.
abbrev pub IsVisit : Visit → Type 0
IsVisit visit = (m : Map (String × String)) → Perm (visit m) m

-- The event of an entry, if it is kept.
event_of : (String → Bool) → String × (String × String) → Option LoggedServerEvent
event_of compiles (name, (fstring, regex)) =
    if fstring == ""
    then none
    else if compiles regex
    then some (record { name = name; fstring = fstring; regex = regex })
    else none

read_events-filter_map :
    (compiles : String → Bool) (m : List (String × (String × String)))
    → read_events compiles m ≡ filter_map (event_of compiles) m
unfolding read_events event_of filter_map
read_events-filter_map compiles [] = refl
read_events-filter_map compiles ((name, (fstring, regex)) ∷ m) =
    let later = read_events-filter_map compiles m in
    elim (Bool-cases (fstring == "")) [
      | inl blank ↦ rw (blank, later) refl
      | inr written ↦ elim (Bool-cases (compiles regex)) [
        | inl good ↦ rw (written, good, later) refl
        | inr bad ↦ rw (written, bad, later) refl
      ]
    ]

-- The events that are read back: those that were saved, in the order of the visits.
abbrev pub events_read : (String → Bool) → Visit → List LoggedServerEvent → List LoggedServerEvent
events_read compiles visit es = read_events compiles (visit (events_map es []))

pub events_back :
    (compiles : String → Bool) (visit : Visit) (es : List LoggedServerEvent)
    → IsVisit visit
    → AreNamed es
    → All (IsReadable compiles) es
    → Perm (events_read compiles visit es) es
events_back compiles visit es order n h =
    let m = events_map es [] in
    let kept : read_events compiles m ≡ es =
      ap (read_events compiles) (events_map-append es [] n (Apart-nil es))
      ∙ read_events-rows compiles es h in
    subst (λ l. Perm l es) (sym (read_events-filter_map compiles (visit m)))
      (subst (Perm (filter_map (event_of compiles) (visit m)))
        (sym (read_events-filter_map compiles m) ∙ kept)
        (Perm.filter_map (event_of compiles) (order m)))

-- If the prefix is no mention, the settings read back from their own YAML form, over themselves, are
-- unchanged but for the events, which are those that were read.
pub reload_settings :
    (compiles : String → Bool) (visit : Visit) (c : Settings)
    → starts_with c.prefix "<@!" ≡ false
    → apply_yaml compiles visit (to_yaml c) c
      ≡ record c { loggedevents = events_read compiles visit c.loggedevents }
unfolding apply_yaml to_yaml
reload_settings compiles visit c p = λ i. record c {
  logtime = false_or_self c.logtime i;
  loglevel = number_or_self c.loglevel i;
  timezone = text_or_self c.timezone i;
  dbname = text_or_self c.dbname i;
  galaxyname = text_or_self c.galaxyname i;
  installdir = text_or_self c.installdir i;
  datadir = text_or_self c.datadir i;
  logfile = text_or_self c.logfile i;
  hangtimeseconds = period_or_self c.hangtimeseconds i;
  dbupdatetimeseconds = period_or_self c.dbupdatetimeseconds i;
  rconbin = text_or_self c.rconbin i;
  rconaddr = text_or_self c.rconaddr i;
  rconport = number_or_self c.rconport i;
  gameport = number_or_self c.gameport i;
  pingport = number_or_self c.pingport i;
  token = token_self c.token i;
  prefix = prefix_self c.prefix (unsaved c.prefix p) i;
  statuschannel = text_or_self c.statuschannel i;
  discord_link = text_or_self c.discord_link i;
  statuschannelclear = true_or_self c.statuschannelclear i;
  aliased_commands = list_or_self c.aliased_commands i;
  disabled_commands = list_or_self c.disabled_commands i;
  steam_id = text_or_self c.steam_id i;
  loggedevents = events_read compiles visit c.loggedevents;
}

-- If the events have different names, outputs that are not blank and regular expressions that
-- compile, then the YAML form, read over any settings, carries the events in some order, the levels of roles and
-- commands and the mods, empty or not.
pub reads_lists :
    (compiles : String → Bool) (visit : Visit) (c old : Settings)
    → IsVisit visit
    → AreNamed c.loggedevents
    → All (IsReadable compiles) c.loggedevents
    → let r = apply_yaml compiles visit (to_yaml c) old in
      Perm r.loggedevents c.loggedevents
      × (r.role_auth_levels ≡ c.role_auth_levels)
      × (r.cmnd_auth_levels ≡ c.cmnd_auth_levels)
      × (r.enabled_mods ≡ c.enabled_mods)
      × (r.allowed_mods ≡ c.allowed_mods)
      × (r.enabled_mod_paths ≡ c.enabled_mod_paths)
unfolding apply_yaml to_yaml
reads_lists compiles visit c old order n h =
    (events_back compiles visit c.loggedevents order n h, refl, refl, refl, refl, refl)

-- What a reload does not carry: settings with a mention as the prefix, no disabled command and no
-- alias, read over other settings, give the word "mention" for the prefix, and leave the disabled
-- commands, the aliases and the permission of bots as they were.
pub reload_loses :
    (compiles : String → Bool) (visit : Visit) (c old : Settings)
    → starts_with c.prefix "<@!" ≡ true
    → c.disabled_commands ≡ []
    → c.aliased_commands ≡ []
    → let r = apply_yaml compiles visit (to_yaml c) old in
      (r.prefix ≡ "mention")
      × (r.disabled_commands ≡ old.disabled_commands)
      × (r.aliased_commands ≡ old.aliased_commands)
      × (r.botsallowed ≡ old.botsallowed)
unfolding apply_yaml to_yaml saved_prefix
reload_loses compiles visit c old p d a = (rw p, rw d, rw a, refl)
