-- ===== src/Avorion/Players/Laws.antt =====
-- The count of the players online, the text that lists them, and the indexes of the players, over joins
-- and leaves.
use avorioncontrol.Prelude.{
  some_injective, ℕ, zero, suc, ◌+◌, ◌≤◌, ◌≡◌, ◌≢◌, refl, ◌⊎◌, inl, inr, ap, subst, sym, String,
  ◌==◌, eq_iff, Bool, true, false, none, some, List, [], ◌∷◌, pos, length, get_elem?, arith,
  if◌then◌else◌, Bool-cases,
}
use avorioncontrol.Prelude.Decimal.{is_int}
use avorioncontrol.Avorion.Server.{Player, Server}
use avorioncontrol.Avorion.Players.{
  player_in, player, update_player, set_online, inc, dec, update_online_string, add_player_online,
  sub_player_online, Answer, player_data, register_player, new_player, join_new, handle_player_join,
  handle_player_left,
}
use avorioncontrol.Avorion.Players.Outcome.{goes_on, panics}
use avorioncontrol.Avorion.Players.Answer.{failed, bad_data}

abbrev pub bit : Bool → ℕ
bit b = if b then 1 else 0

-- How many players are online.
unfoldable pub count_online : List Player → ℕ
count_online [] = 0
count_online (p ∷ rest) = bit p.online + count_online rest

-- Where `Player` finds a player.
player_in-cons :
    (i : String) (q : Player) (rest : List Player) {p : Player}
    → player_in i (q ∷ rest) ≡ some p
    → (((q.index == i) ≡ true) × (q ≡ p)) ⊎ (((q.index == i) ≡ false) × (player_in i rest ≡ some p))
unfolding player_in
player_in-cons i q rest {p} found = elim (Bool-cases (q.index == i)) [
  | inl same ↦ inl (
    same,
    some_injective (subst (λ b. (if b then some q else player_in i rest) ≡ some p) same found),
  )
  | inr other ↦
      inr (other, subst (λ b. (if b then some q else player_in i rest) ≡ some p) other found)
]

player_in-nil : (i : String) {p : Player} → player_in i [] ≢ some p
unfolding player_in
player_in-nil i found = ground (arith, found)

pub player_in-index :
    (i : String) (ps : List Player) {p : Player} → player_in i ps ≡ some p → p.index ≡ i
player_in-index i [] found = absurd (player_in-nil i found)
player_in-index i (q ∷ rest) found = elim (player_in-cons i q rest found) [
  | inl (same, e) ↦ subst (λ r. r.index ≡ i) e ((eq_iff q.index i).0 same)
  | inr (other, later) ↦ player_in-index i rest later
]

pub player_in-update :
    (i : String) (f : Player → Player)
    → ((q : Player) → (f q).index ≡ q.index)
    → (ps : List Player) {p : Player} → player_in i ps ≡ some p
    → player_in i (update_player i f ps) ≡ some (f p)
unfolding update_player player_in
player_in-update i f keeps [] found = absurd (player_in-nil i found)
player_in-update i f keeps (q ∷ rest) found = elim (player_in-cons i q rest found) [
  | inl (same, e) ↦
      let same' = subst (λ u. (u == i) ≡ true) (sym (keeps q)) same in
      rw (same, same') (ap (λ r. some (f r)) e)
  | inr (other, later) ↦ rw (other, player_in, other) (player_in-update i f keeps rest later)
]

count_online-update :
    (i : String) (o : Bool) (ps : List Player) {p : Player}
    → player_in i ps ≡ some p
    → count_online (update_player i (set_online o) ps) + bit p.online ≡ count_online ps + bit o
unfolding update_player count_online set_online
count_online-update i o [] found = absurd (player_in-nil i found)
count_online-update i o (q ∷ rest) {p} found = elim (player_in-cons i q rest found) [
  | inl (same, e) ↦ let alike = ap (λ r. bit r.online) e in rw same (omega (arith, alike))
  | inr (other, later) ↦
      let smaller = count_online-update i o rest later in rw other (omega (arith, smaller))
]

inc-dec : (n : ℕ) → inc (dec (pos n)) ≡ pos n
inc-dec zero = refl
inc-dec (suc n) = refl

-- The server after a known player has joined, and has left.
abbrev joined : String → Server → Server
joined i s = add_player_online (record s { players = update_player i (set_online true) s.players })

abbrev parted : String → Server → Server
parted i s = sub_player_online (record s { players = update_player i (set_online false) s.players })

count-joined :
    (i : String) (s : Server) {p : Player}
    → player i s ≡ some p
    → s.onlineplayercount ≡ pos (count_online s.players)
    → (joined i s).onlineplayercount ≡ pos (count_online (joined i s).players + bit p.online)
unfolding player add_player_online update_online_string
count-joined i s found counted =
    rw counted (ap pos (omega (arith, count_online-update i true s.players found)))

count-parted :
    (i : String) (s : Server) {p : Player}
    → player i s ≡ some p
    → s.onlineplayercount ≡ pos (count_online s.players)
    → inc (parted i s).onlineplayercount ≡ pos (count_online (parted i s).players + bit p.online)
unfolding player sub_player_online update_online_string
count-parted i s {p} found counted =
    rw (counted, inc-dec) (ap pos (omega (arith, count_online-update i false s.players found)))

-- With the count of the players online right before: when a known player joins, the handler goes on and
-- the count is that of the players online, plus one if the player was online already; when a known
-- player leaves, the count is that of the players online, less one if the player was offline already.
pub roster_counts :
    (answer : Answer) (i : String) (m : List String) (s : Server) {p : Player}
    → player i s ≡ some p
    → s.onlineplayercount ≡ pos (count_online s.players)
    → ((t : Server) × (handle_player_join answer i m s ≡ goes_on t)
        × (t.onlineplayercount ≡ pos (count_online t.players + bit p.online)))
      × (inc (handle_player_left i s).onlineplayercount
          ≡ pos (count_online (handle_player_left i s).players + bit p.online))
unfolding handle_player_join handle_player_left
roster_counts answer i m s found counted = (
  (joined i s, rw (handle_player_join, found) refl, count-joined i s found counted),
  rw (handle_player_left, found) (count-parted i s found counted),
)

get_elem?-beyond : (xs : List String) (n : ℕ) → length xs ≤ n → get_elem? xs n ≡ none
get_elem?-beyond [] n h = refl
get_elem?-beyond (x ∷ xs) zero h = ground (arith, h)
get_elem?-beyond (x ∷ xs) (suc n) h = get_elem?-beyond xs n (omega (arith, h))

-- The submatches of a join event are three, so a player who is not known yet hangs on the game's
-- answer: when that is an error or is refused, the program panics.
pub join_hangs_on_answer :
    (answer : Answer) (i : String) (m : List String) (s : Server)
    → player i s ≡ none
    → is_int i ≡ true
    → length m ≡ 3
    → (answer ≡ failed) ⊎ (answer ≡ bad_data)
    → handle_player_join answer i m s ≡ panics
unfolding handle_player_join new_player player_data register_player join_new
join_hangs_on_answer answer i m s unknown number three (inl e) =
    rw
      (
        handle_player_join,
        unknown,
        new_player,
        number,
        e,
        player_data,
        three,
        register_player,
        get_elem?-beyond m 14 (omega (arith, three)),
      )
      refl
join_hangs_on_answer answer i m s unknown number three (inr e) =
    rw (handle_player_join, unknown, new_player, number, e, player_data, three) refl
