-- ===== src/Avorion/Sectors/Laws.antt =====
-- A sector is tracked once and counted, and a jump is found where it was made and by whom.
use avorioncontrol.Prelude.{
  ℕ, ◌≡◌, ◌≢◌, refl, inl, inr, ap, subst, sym, ◌∙◌, String, Bool, true, false, ◌&&◌, none, some,
  List, [], ◌∷◌, ◌++◌, ℤ, pos, eqb_ℤ, eqb_ℤ_iff, append-nil, length, length-append, arith,
  if◌then◌else◌, Bool-cases, Option-cases,
}
use avorioncontrol.Prelude.Decimal.{parse_int_32}
use avorioncontrol.Avorion.Jumps.{ShipCoordData, add_jump}
use avorioncontrol.Avorion.Server.{JumpInfo, Sector, Player, Server}
use avorioncontrol.Avorion.Players.{player, update_player}
use avorioncontrol.Avorion.Players.Laws.{player_in-update}
use avorioncontrol.Avorion.Sectors.{
  is_at, sector_in, track_sector, append_jump, record_jump, jump_of, player_add_jump,
  handle_ship_jump,
}

is_at_self :
    (x y : ℤ) (js : List JumpInfo)
    → is_at x y (record { sector_x = x; sector_y = y; sector_history = js }) ≡ true
unfolding is_at
is_at_self x y js = rw ((eqb_ℤ_iff x x).1 refl, (eqb_ℤ_iff y y).1 refl) refl

sector_in-append :
    (x y : ℤ) (secs : List Sector) (sec : Sector)
    → sector_in x y (secs ++ sec ∷ []) ≡ (elim (sector_in x y secs) [
      | some found ↦ some found
      | none ↦ if is_at x y sec then some sec else none
    ])
unfolding sector_in
sector_in-append x y [] sec = refl
sector_in-append x y (first ∷ rest) sec = ground (arith, sector_in-append x y rest sec)

-- The jumps recorded at a place, none for a sector that is not tracked.
abbrev pub history_at : ℤ → ℤ → List Sector → List JumpInfo
history_at x y secs = elim (sector_in x y secs) [ none ↦ [] | some sec ↦ sec.sector_history ]

-- A sector at one place is at another exactly when the places are the same.
is_at_other :
    (x y a b : ℤ) (sec : Sector) → is_at x y sec ≡ true → is_at a b sec ≡ (eqb_ℤ x a && eqb_ℤ y b)
unfolding is_at
is_at_other x y a b sec here =
    let on_x = (eqb_ℤ_iff sec.sector_x x).0 (ground (arith, here)) in
    let on_y = (eqb_ℤ_iff sec.sector_y y).0 (ground (arith, here)) in rw (on_x, on_y) refl

not_same :
    (x y a b : ℤ) (sec : Sector)
    → is_at x y sec ≡ false
    → is_at a b sec ≡ true
    → (eqb_ℤ x a && eqb_ℤ y b) ≡ false
unfolding is_at
not_same x y a b sec away here = elim (Bool-cases (eqb_ℤ x a && eqb_ℤ y b)) [
  | inl same ↦
      let on_x = (eqb_ℤ_iff x a).0 (ground (arith, same)) in
      let on_y = (eqb_ℤ_iff y b).0 (ground (arith, same)) in
      let here' = subst (λ u. is_at u b sec ≡ true) (sym on_x) here in
      let here'' = subst (λ u. is_at x u sec ≡ true) (sym on_y) here' in
      ground (arith, here'', away)
  | inr differ ↦ differ
]

is_at-record :
    (a b : ℤ) (js : List JumpInfo) (sec : Sector)
    → is_at a b (record sec { sector_history = js }) ≡ is_at a b sec
unfolding is_at
is_at-record a b js sec = refl

-- What one jump adds to the history at a place.
abbrev pub added : (same : Bool) → JumpInfo → List JumpInfo
added same jump = if same then jump ∷ [] else []

added-here :
    (same : Bool) (js ks : List JumpInfo) (jump : JumpInfo)
    → (if same then js ++ jump ∷ [] else ks) ≡ (if same then js else ks) ++ added same jump
added-here true js ks jump = refl
added-here false js ks jump = rw append-nil refl

history_at-cons :
    (a b : ℤ) (first : Sector) (rest : List Sector)
    → history_at a b (first ∷ rest)
      ≡ (if is_at a b first then first.sector_history else history_at a b rest)
unfolding sector_in
history_at-cons a b first rest = ground arith

sector_in-nil : (x y : ℤ) {sec : Sector} → sector_in x y [] ≢ some sec
unfolding sector_in
sector_in-nil x y found = ground (arith, found)

history_at-append_jump :
    (x y a b : ℤ) (jump : JumpInfo) (secs : List Sector) {sec : Sector}
    → sector_in x y secs ≡ some sec
    → history_at a b (append_jump x y jump secs)
      ≡ history_at a b secs ++ added (eqb_ℤ x a && eqb_ℤ y b) jump
unfolding append_jump sector_in
history_at-append_jump x y a b jump [] found = absurd (sector_in-nil x y found)
history_at-append_jump x y a b jump (first ∷ rest) {sec} found =
    elim (Bool-cases (is_at x y first)) [
      | inl same ↦
          rw
            (
              same,
              history_at-cons a b
                  (record first { sector_history = first.sector_history ++ jump ∷ [] }) rest,
              history_at-cons a b first rest,
              is_at-record a b (first.sector_history ++ jump ∷ []) first,
              is_at_other x y a b first same,
            )
            (added-here (eqb_ℤ x a && eqb_ℤ y b) first.sector_history (history_at a b rest) jump)
      | inr other ↦ elim (Bool-cases (is_at a b first)) [
        | inl there ↦
            rw
              (
                other,
                history_at-cons a b first (append_jump x y jump rest),
                history_at-cons a b first rest,
                there,
                not_same x y a b first other there,
                append-nil,
              )
              refl
        | inr away ↦
            rw
              (
                other,
                history_at-cons a b first (append_jump x y jump rest),
                history_at-cons a b first rest,
                away,
              )
              (history_at-append_jump x y a b jump rest (
                subst (λ c. (if c then some first else sector_in x y rest) ≡ some sec) other found))
      ]
    ]

history_at-untouched :
    (a b : ℤ) (secs : List Sector) (sec : Sector)
    → sec.sector_history ≡ []
    → history_at a b (secs ++ sec ∷ []) ≡ history_at a b secs
unfolding sector_in
history_at-untouched a b [] sec empty_history =
    rw (history_at-cons a b sec [], empty_history) (ground arith)
history_at-untouched a b (first ∷ rest) sec empty_history =
    rw
      (
        history_at-cons a b first (rest ++ sec ∷ []),
        history_at-cons a b first rest,
        history_at-untouched a b rest sec empty_history,
      )
      refl

-- After `Sector` there is one, and no history has changed.
pub tracked :
    (x y : ℤ) (s : Server)
    → (sec : Sector) × (sector_in x y (track_sector x y s).sectors ≡ some sec)
unfolding track_sector
tracked x y s = elim (Option-cases (sector_in x y s.sectors)) [
  | inl e ↦ (
    record { sector_x = x; sector_y = y; sector_history = [] },
    rw (track_sector, e, sector_in-append, e, is_at_self) refl,
  )
  | inr (sec, e) ↦ (sec, rw (track_sector, e) e)
]

pub history_at-track_sector :
    (x y a b : ℤ) (s : Server)
    → history_at a b (track_sector x y s).sectors ≡ history_at a b s.sectors
unfolding track_sector
history_at-track_sector x y a b s = elim (Option-cases (sector_in x y s.sectors)) [
  | inl e ↦
      rw (track_sector, e)
        (history_at-untouched a b s.sectors
          (record { sector_x = x; sector_y = y; sector_history = [] }) refl)
  | inr (sec, e) ↦ rw (track_sector, e) refl
]

-- A recorded jump stands at the end of the history of its place, tracked before or not, and no other
-- place's history changes.
pub record_jump_exactly :
    (jump : JumpInfo) (s : Server) (a b : ℤ)
    → history_at a b (record_jump jump s).sectors
      ≡ history_at a b s.sectors
        ++ (if eqb_ℤ jump.jump_x a && eqb_ℤ jump.jump_y b then jump ∷ [] else [])
unfolding record_jump
record_jump_exactly jump s a b =
    history_at-append_jump jump.jump_x jump.jump_y a b jump
      (track_sector jump.jump_x jump.jump_y s).sectors (tracked jump.jump_x jump.jump_y s).1
    ∙ ap (λ js. js ++ added (eqb_ℤ jump.jump_x a && eqb_ℤ jump.jump_y b) jump)
        (history_at-track_sector jump.jump_x jump.jump_y a b s)

length-append_jump :
    (x y : ℤ) (jump : JumpInfo) (secs : List Sector)
    → length (append_jump x y jump secs) ≡ length secs
unfolding append_jump
length-append_jump x y jump [] = refl
length-append_jump x y jump (first ∷ rest) = ground (arith, length-append_jump x y jump rest)

-- The count of the sectors stays the number of the sectors that are tracked.
pub record_jump_counts :
    (jump : JumpInfo) (s : Server)
    → s.sectorcount ≡ pos (length s.sectors)
    → (record_jump jump s).sectorcount ≡ pos (length (record_jump jump s).sectors)
unfolding record_jump track_sector
record_jump_counts jump s counted =
    elim (Option-cases (sector_in jump.jump_x jump.jump_y s.sectors)) [
      | inl e ↦
          rw (length-append_jump, track_sector, e, length-append, counted) (ap pos (omega arith))
      | inr (sec, e) ↦ rw (length-append_jump, track_sector, e) counted
    ]

pub players-record_jump : (jump : JumpInfo) (s : Server) → (record_jump jump s).players ≡ s.players
unfolding record_jump track_sector
players-record_jump jump s = ground (arith, sector_in)

pub alliances-record_jump :
    (jump : JumpInfo) (s : Server) → (record_jump jump s).alliances ≡ s.alliances
unfolding record_jump track_sector
alliances-record_jump jump s = ground (arith, sector_in)

-- A jump of a known player goes through `AddJump` into the player's history, and to the end of the
-- history of its sector; a known player comes before an alliance of the same index.
pub ship_jump_recorded :
    (i : String) (sc : ShipCoordData) (now : ℕ) (s : Server) {p : Player}
    → player i s ≡ some p
    → (player i (handle_ship_jump i sc now s)
        ≡ some (record p { jumphistory = add_jump sc now p.jumphistory }))
      × (history_at sc.x sc.y (handle_ship_jump i sc now s).sectors
          ≡ history_at sc.x sc.y s.sectors ++ jump_of "player" (parse_int_32 i) now sc ∷ [])
unfolding handle_ship_jump player player_add_jump jump_of
ship_jump_recorded i sc now s {p} found =
    let jumped = record s {
      players =
          update_player i (λ q. record q { jumphistory = add_jump sc now q.jumphistory }) s.players;
    } in
    let jump = jump_of "player" (parse_int_32 i) now sc in
    (
      rw (handle_ship_jump, found, players-record_jump)
          (player_in-update i (λ q. record q { jumphistory = add_jump sc now q.jumphistory })
            (λ q. refl) s.players found),
      rw
          (
            handle_ship_jump,
            found,
            record_jump_exactly jump jumped sc.x sc.y,
            (eqb_ℤ_iff sc.x sc.x).1 refl,
            (eqb_ℤ_iff sc.y sc.y).1 refl,
          )
          refl,
    )
