-- ===== src/Avorion/Supervisor/Tracked.antt =====
-- What the handlers of players and jumps keep true of a server.
use avorioncontrol.Prelude.{
  ℕ, suc, ◌+◌, ◌≤◌, ◌≡◌, String, ◌==◌, Bool, true, false, Option, none, some, List, [], ◌∷◌, ◌++◌,
  pos, All, All-append, length, get_elem?, drop, arith, if◌then◌else◌, Bool-cases, Option-cases,
  inl, inr, length-append,
}
use avorioncontrol.Prelude.Decimal.{is_int}
use avorioncontrol.Avorion.Jumps.{ShipCoordData, add_jump, cap_history}
use avorioncontrol.Avorion.Server.{JumpInfo, Player, Alliance, Server, crashed}
use avorioncontrol.Avorion.Players.{
  Answer, Outcome, goes_on, exits, panics, player, alliance, update_player, update_alliance,
  set_online, add_player_online, sub_player_online, update_online_string, set_last_online, join_new,
  new_player, register_player, player_data, handle_player_join, handle_player_left,
}
use avorioncontrol.Avorion.Sectors.{
  handle_ship_jump, player_add_jump, alliance_add_jump, record_jump,
}
use avorioncontrol.Avorion.Sectors.Laws.{
  record_jump_counts, players-record_jump, alliances-record_jump,
}
use avorioncontrol.Avorion.Supervisor.{Watch}

abbrev pub IsCapped : List ShipCoordData → Type 0
IsCapped history = length history ≤ 1000

-- What is counted and capped: the count of the sectors is their number, and no player and no alliance has
-- more than 1000 jumps.
pub record IsTracked (s : Server) : Type 0 where
  pub counted : s.sectorcount ≡ pos (length s.sectors)
  pub players_capped : All (λ p. IsCapped p.jumphistory) s.players
  pub alliances_capped : All (λ a. IsCapped a.alliance_history) s.alliances

length-drop_one {ℓ} :
    {A : Type ℓ} (xs : List A) (n : ℕ) → length xs ≤ suc n → length (drop 1 xs) ≤ n
length-drop_one [] n h = omega arith
length-drop_one (x ∷ xs) n h = omega (arith, h)

add_jump-IsCapped :
    (sc : ShipCoordData) (now : ℕ) (h : List ShipCoordData)
    → IsCapped h
    → IsCapped (add_jump sc now h)
unfolding add_jump cap_history
add_jump-IsCapped sc now h capped =
    let longer = h ++ record sc { time = now } ∷ [] in
    let one : length longer ≡ length h + 1 = length-append h (record sc { time = now } ∷ []) in
    ground (arith, one, length-drop_one longer 1000)

update_player-All :
    (P : Player → Type 0) (i : String) (f : Player → Player) (ps : List Player)
    → ((p : Player) → P p → P (f p))
    → All P ps
    → All P (update_player i f ps)
unfolding update_player
update_player-All P i f [] keeps all = all
update_player-All P i f (p ∷ ps) keeps (here, there) = elim (Bool-cases (p.index == i)) [
  | inl e ↦ rw e (keeps p here, there)
  | inr e ↦ rw e (here, update_player-All P i f ps keeps there)
]

update_alliance-All :
    (P : Alliance → Type 0) (i : String) (f : Alliance → Alliance) (known : List Alliance)
    → ((a : Alliance) → P a → P (f a))
    → All P known
    → All P (update_alliance i f known)
unfolding update_alliance
update_alliance-All P i f [] keeps all = all
update_alliance-All P i f (a ∷ rest) keeps (here, there) =
    elim (Bool-cases (a.alliance_index == i)) [
      | inl e ↦ rw e (keeps a here, there)
      | inr e ↦ rw e (here, update_alliance-All P i f rest keeps there)
    ]

set_last_online-All :
    (ps : List Player)
    → All (λ p. IsCapped p.jumphistory) ps
    → All (λ p. IsCapped p.jumphistory) (set_last_online ps)
unfolding set_last_online set_online
set_last_online-All [] all = all
set_last_online-All (p ∷ []) all = all
set_last_online-All (p ∷ q ∷ ps) (here, there) = (here, set_last_online-All (q ∷ ps) there)

record_jump-IsTracked :
    (jump : JumpInfo) (s : Server) → IsTracked s → IsTracked (record_jump jump s)
record_jump-IsTracked jump s t = record {
  counted = record_jump_counts jump s t.counted;
  players_capped = rw (players-record_jump jump s) t.players_capped;
  alliances_capped = rw (alliances-record_jump jump s) t.alliances_capped;
}

pub handle_ship_jump-IsTracked :
    (i : String) (sc : ShipCoordData) (now : ℕ) (s : Server)
    → IsTracked s
    → IsTracked (handle_ship_jump i sc now s)
unfolding handle_ship_jump player_add_jump alliance_add_jump
handle_ship_jump-IsTracked i sc now s t = elim (Option-cases (player i s)) [
  | inr (p, e) ↦
      rw (handle_ship_jump, e)
        (record_jump-IsTracked _ _ (record {
          counted = t.counted;
          players_capped =
              update_player-All (λ p. IsCapped p.jumphistory) i _ s.players
                (λ p capped. add_jump-IsCapped sc now p.jumphistory capped) t.players_capped;
          alliances_capped = t.alliances_capped;
        }))
  | inl e ↦ elim (Option-cases (alliance i s)) [
    | inr (a, e') ↦
        rw (handle_ship_jump, e, e')
          (record_jump-IsTracked _ _ (record {
            counted = t.counted;
            players_capped = t.players_capped;
            alliances_capped =
                update_alliance-All (λ a. IsCapped a.alliance_history) i _ s.alliances
                  (λ a capped. add_jump-IsCapped sc now a.alliance_history capped)
                  t.alliances_capped;
          }))
    | inl e' ↦ rw (handle_ship_jump, e, e') t
  ]
]

-- What an outcome leaves, if the program goes on.
abbrev pub Leaves {ℓ} : {A : Type ℓ} → (A → Type 0) → Outcome A → Type 0
Leaves P (goes_on a) = P a
Leaves P exits = Unit
Leaves P panics = Unit

-- The players of a server replaced by others that are capped, with the counts of those online.
with_players-IsTracked :
    (s : Server) (ps : List Player)
    → IsTracked s
    → All (λ p. IsCapped p.jumphistory) ps
    → IsTracked (add_player_online (record s { players = ps }))
      × IsTracked (sub_player_online (record s { players = ps }))
unfolding add_player_online sub_player_online update_online_string
with_players-IsTracked s ps t capped = (
  record { counted = t.counted; players_capped = capped; alliances_capped = t.alliances_capped },
  record { counted = t.counted; players_capped = capped; alliances_capped = t.alliances_capped },
)

set_online-All :
    (i : String) (o : Bool) (ps : List Player)
    → All (λ p. IsCapped p.jumphistory) ps
    → All (λ p. IsCapped p.jumphistory) (update_player i (set_online o) ps)
unfolding set_online
set_online-All i o ps capped =
    update_player-All (λ p. IsCapped p.jumphistory) i (set_online o) ps (λ p h. h) capped

pub handle_player_left-IsTracked :
    (i : String) (s : Server) → IsTracked s → IsTracked (handle_player_left i s)
unfolding handle_player_left
handle_player_left-IsTracked i s t = elim (Option-cases (player i s)) [
  | inl e ↦ rw (handle_player_left, e) t
  | inr (p, e) ↦
      rw (handle_player_left, e)
        (with_players-IsTracked s _ t (set_online-All i false s.players t.players_capped)).1
]

register_player-IsTracked :
    (i : String) (d : Option (List String)) (s : Server)
    → IsTracked s
    → Leaves IsTracked (register_player i d s)
unfolding register_player
register_player-IsTracked i none s t = tt
register_player-IsTracked i (some d) s t = elim (Option-cases (get_elem? d 14)) [
  | inl e ↦ rw (register_player, e) tt
  | inr (called, e) ↦
      rw (register_player, e)
        (record {
          counted = t.counted;
          players_capped =
              All-append (λ p. IsCapped p.jumphistory) s.players _ t.players_capped
                (omega arith, tt);
          alliances_capped = t.alliances_capped;
        })
]

new_player-IsTracked :
    (answer : Answer) (i : String) (d : List String) (s : Server)
    → IsTracked s
    → Leaves IsTracked (new_player answer i d s)
unfolding new_player
new_player-IsTracked answer i d s t = elim (Bool-cases (is_int i)) [
  | inl e ↦ rw e (register_player-IsTracked i (player_data answer d) s t)
  | inr e ↦ rw e tt
]

join_new-IsTracked :
    (added : Outcome Server) → Leaves IsTracked added → Leaves IsTracked (join_new added)
unfolding join_new
join_new-IsTracked exits t = tt
join_new-IsTracked panics t = tt
join_new-IsTracked (goes_on s) t =
    (with_players-IsTracked s _ t (set_last_online-All s.players t.players_capped)).0

pub handle_player_join-IsTracked :
    (answer : Answer) (i : String) (m : List String) (s : Server)
    → IsTracked s
    → Leaves IsTracked (handle_player_join answer i m s)
unfolding handle_player_join
handle_player_join-IsTracked answer i m s t = elim (Option-cases (player i s)) [
  | inl e ↦
      rw (handle_player_join, e)
        (join_new-IsTracked (new_player answer i m s) (new_player-IsTracked answer i m s t))
  | inr (p, e) ↦
      rw (handle_player_join, e)
        (with_players-IsTracked s _ t (set_online-All i true s.players t.players_capped)).0
]

pub if-Leaves :
    (b : Bool) (x y : Outcome Watch)
    → Leaves (λ w. IsTracked w.server) x
    → Leaves (λ w. IsTracked w.server) y
    → Leaves (λ w. IsTracked w.server) (if b then x else y)
if-Leaves true x y kept kept' = kept
if-Leaves false x y kept kept' = kept'

pub crashed-IsTracked : (s : Server) → IsTracked s → IsTracked (crashed s)
unfolding crashed
crashed-IsTracked s t = record {
  counted = t.counted;
  players_capped = t.players_capped;
  alliances_capped = t.alliances_capped;
}
