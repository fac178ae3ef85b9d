-- ===== src/Avorion/Sectors/Loading.antt =====
-- What `loadSectors` makes of the jumps that were recorded.
use avorioncontrol.Prelude.{
  String, ◌==◌, ◌≡◌, refl, sym, subst, ap, ◌∙◌, false, some, List, [], ◌∷◌, ◌++◌, append-nil,
  append_assoc, All, Bool-cases, Option-cases, inl, inr, ℤ, if◌then◌else◌,
}
use mathlib.Core.List.{Perm, perm_append_comm}
use mathlib.Core.List.Perm
use avorioncontrol.Prelude.Decimal.{show_ℤ}
use avorioncontrol.Avorion.Jumps.{ShipCoordData}
use avorioncontrol.Avorion.Server.{JumpInfo, Sector, Server}
use avorioncontrol.Avorion.Sectors.Laws.{tracked}
use avorioncontrol.Avorion.Sectors.{
  is_at, sector_in, track_sector, append_jump, record_jump, ship_jump, jumps_of, all_jumps_of, less,
  Sort, load_history,
}

-- No jump is less than one before it.
unfoldable pub IsByTime : List ShipCoordData → Type 0
IsByTime [] = Unit
IsByTime (j ∷ rest) = All (λ k. less k j ≡ false) rest × IsByTime rest

-- What the package sort promises of `sort.Sort` with `Less` of `jumpsByTime`.
pub record IsSort (sort : Sort) : Type 0 where
  pub permutes : (js : List ShipCoordData) → Perm (sort less js) js
  pub orders : (js : List ShipCoordData) → IsByTime (sort less js)

-- The coordinates, the ship and the time of a jump, if it is of the index.
abbrev pub entry : String → JumpInfo → List ShipCoordData
entry index j =
    if index == show_ℤ j.fid
    then record { x = j.jump_x; y = j.jump_y; name = j.jump_name; time = j.jump_time } ∷ []
    else []

jumps_of-append :
    (index : String) (js ks : List JumpInfo)
    → jumps_of index (js ++ ks) ≡ jumps_of index js ++ jumps_of index ks
unfolding jumps_of
jumps_of-append index [] ks = refl
jumps_of-append index (j ∷ js) ks = elim (Bool-cases (index == show_ℤ j.fid)) [
  | inl e ↦ rw (e, jumps_of-append index js ks) refl
  | inr e ↦ rw (e, jumps_of-append index js ks) refl
]

jumps_of-one : (index : String) (j : JumpInfo) → jumps_of index (j ∷ []) ≡ entry index j
unfolding jumps_of ship_jump
jumps_of-one index j = refl

all_jumps_of-append :
    (index : String) (secs more : List Sector)
    → all_jumps_of index (secs ++ more) ≡ all_jumps_of index secs ++ all_jumps_of index more
unfolding all_jumps_of
all_jumps_of-append index [] more = refl
all_jumps_of-append index (sec ∷ secs) more =
    ap (λ js. jumps_of index sec.sector_history ++ js) (all_jumps_of-append index secs more)
    ∙ sym (
        append_assoc (jumps_of index sec.sector_history) (all_jumps_of index secs)
          (all_jumps_of index more))

to_front :
    (front added back : List ShipCoordData)
    → Perm (front ++ (added ++ back)) (added ++ (front ++ back))
to_front front added back =
    subst (λ js. Perm js (added ++ (front ++ back))) (append_assoc front added back)
      (subst (Perm ((front ++ added) ++ back)) (append_assoc added front back)
        (Perm.append_right back (perm_append_comm front added)))

all_jumps_of-append_jump :
    (index : String) (x y : ℤ) (jump : JumpInfo) (secs : List Sector) {found : Sector}
    → sector_in x y secs ≡ some found
    → Perm
        (all_jumps_of index (append_jump x y jump secs))
        (entry index jump ++ all_jumps_of index secs)
unfolding all_jumps_of append_jump sector_in
all_jumps_of-append_jump index x y jump [] known = cc known
all_jumps_of-append_jump index x y jump (sec ∷ rest) {found} known =
    elim (Bool-cases (is_at x y sec)) [
      | inl e ↦
          rw (e, jumps_of-append index sec.sector_history (jump ∷ []), jumps_of-one index jump)
            (subst
              (λ js. Perm js (
                entry index jump ++ (jumps_of index sec.sector_history ++ all_jumps_of index rest)))
              (sym (
                append_assoc (jumps_of index sec.sector_history) (entry index jump)
                  (all_jumps_of index rest)))
              (to_front (jumps_of index sec.sector_history) (entry index jump)
                (all_jumps_of index rest)))
      | inr e ↦
          let known' : sector_in x y rest ≡ some found =
            subst (λ b. (if b then some sec else sector_in x y rest) ≡ some found) e known in
          rw e (
            Perm.trans
              (Perm.append_left (jumps_of index sec.sector_history)
                (all_jumps_of-append_jump index x y jump rest known'))
              (to_front (jumps_of index sec.sector_history) (entry index jump)
                (all_jumps_of index rest)))
    ]

all_jumps_of-track_sector :
    (index : String) (x y : ℤ) (s : Server)
    → all_jumps_of index (track_sector x y s).sectors ≡ all_jumps_of index s.sectors
unfolding track_sector all_jumps_of jumps_of
all_jumps_of-track_sector index x y s = elim (Option-cases (sector_in x y s.sectors)) [
  | inl e ↦
      rw (track_sector, e)
        (all_jumps_of-append index s.sectors _ ∙ append-nil (all_jumps_of index s.sectors))
  | inr (sec, e) ↦ rw (track_sector, e) refl
]

-- A recorded jump is loaded, and nothing else by it: into the history of an index, `loadSectors` brings
-- the jump's coordinates, ship and time if the jump was of that index, tracked its sector or not, besides
-- all that it brought before; and the history is in the order of the seconds. The package sort permutes
-- a list into the order of `Less`.
pub recorded_jump_is_loaded :
    (sort : Sort) (jump : JumpInfo) (s : Server) (index : String) (history : List ShipCoordData)
    → IsSort sort
    → Perm
        (load_history sort (record_jump jump s).sectors index history)
        (entry index jump ++ load_history sort s.sectors index history)
      × IsByTime (load_history sort (record_jump jump s).sectors index history)
unfolding load_history record_jump
recorded_jump_is_loaded sort jump s index history sorts =
    let tracked_server = track_sector jump.jump_x jump.jump_y s in
    let new = entry index jump in
    let before = all_jumps_of index s.sectors in
    let appended : Perm (all_jumps_of index (record_jump jump s).sectors) (new ++ before) =
      subst (λ js. Perm (all_jumps_of index (record_jump jump s).sectors) (new ++ js))
        (all_jumps_of-track_sector index jump.jump_x jump.jump_y s)
        (all_jumps_of-append_jump index jump.jump_x jump.jump_y jump tracked_server.sectors
          (tracked jump.jump_x jump.jump_y s).1) in
    (
      Perm.trans (sorts.permutes (history ++ all_jumps_of index (record_jump jump s).sectors)) (
          Perm.trans (Perm.append_left history appended) (
            Perm.trans (to_front history new before)
              (Perm.append_left new (Perm.symm (sorts.permutes (history ++ before)))))),
      sorts.orders (history ++ all_jumps_of index (record_jump jump s).sectors),
    )
