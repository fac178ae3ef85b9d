-- ===== src/Commands/Functions/CoordsLaws.antt =====
-- What a query for sectors shows, and which sectors it can name.
use avorioncontrol.Prelude.{
  ℕ, zero, suc, ◌≡◌, refl, ◌∙◌, ap, subst, String, false, List, [], ◌∷◌, ◌++◌, ℤ, pos, negsuc, ◌≤ℤ◌,
  length, get_elem?-some, All, arith, ◌≤◌, ◌⊎◌, inl, inr, Option-cases,
}
use avorioncontrol.Avorion.Server.{JumpInfo, Sector, Server}
use avorioncontrol.Avorion.Sectors.{track_sector}
use avorioncontrol.Avorion.Sectors.Laws.{history_at, history_at-track_sector}
use avorioncontrol.Commands.Args.{reverse_from, reverse_jumps}
use avorioncontrol.Commands.Functions.Coords.{
  is_out_of_range, match_coord, read_coord, read_coords, jumphistory_at, collect,
}

-- The list backwards.
abbrev pub newest_first {ℓ} : {A : Type ℓ} → List A → List A
newest_first [] = []
newest_first (x ∷ xs) = newest_first xs ++ x ∷ []

newest_first-append {ℓ} :
    {A : Type ℓ} (xs : List A) (x : A) → newest_first (xs ++ x ∷ []) ≡ x ∷ newest_first xs
newest_first-append [] x = refl
newest_first-append (y ∷ xs) x = rw (newest_first-append xs x) refl

reverse_from-suc {ℓ} :
    {A : Type ℓ} (x : A) (xs : List A) (i : ℕ)
    → i ≤ length xs
    → reverse_from (x ∷ xs) (suc i) ≡ reverse_from xs i ++ x ∷ []
unfolding reverse_from
reverse_from-suc x xs zero inside = refl
reverse_from-suc x xs (suc i) inside =
    let (y, found) = get_elem?-some xs i (omega (arith, inside)) in
    rw (reverse_from, found, reverse_from-suc x xs i (omega (arith, inside))) refl

reverse_jumps_exact {ℓ} : {A : Type ℓ} (xs : List A) → reverse_jumps xs ≡ newest_first xs
unfolding reverse_jumps reverse_from
reverse_jumps_exact [] = refl
reverse_jumps_exact (x ∷ xs) =
    reverse_from-suc x xs (length xs) (omega arith)
    ∙ ap (λ ys. ys ++ x ∷ []) (reverse_jumps_exact xs)

jumphistory_at_lem : (x y : ℤ) (secs : List Sector) → jumphistory_at x y secs ≡ history_at x y secs
unfolding jumphistory_at
jumphistory_at_lem x y secs = refl

-- The histories of the sectors in their order, each backwards.
abbrev pub histories : List (ℤ × ℤ) → Server → List JumpInfo
histories [] s = []
histories ((x, y) ∷ coords) s = newest_first (history_at x y s.sectors) ++ histories coords s

histories-track_sector :
    (x y : ℤ) (coords : List (ℤ × ℤ)) (s : Server)
    → histories coords (track_sector x y s) ≡ histories coords s
histories-track_sector x y [] s = refl
histories-track_sector x y ((a, b) ∷ coords) s =
    rw (history_at-track_sector x y a b s, histories-track_sector x y coords s) refl

-- A query collects the whole histories of its sectors, each with the newest jump first, and whatever it
-- begins to track leaves every history as it was.
pub collect_exactly :
    (coords : List (ℤ × ℤ)) (s : Server)
    → ((collect coords s).0 ≡ histories coords s)
      × ((a b : ℤ) → history_at a b (collect coords s).1.sectors ≡ history_at a b s.sectors)
unfolding collect
collect_exactly [] s = (refl, λ a b. refl)
collect_exactly ((x, y) ∷ coords) s =
    let rest = collect_exactly coords (track_sector x y s) in
    (
      rw
          (
            jumphistory_at_lem,
            reverse_jumps_exact,
            history_at-track_sector x y x y s,
            rest.0,
            histories-track_sector x y coords s,
          )
          refl,
      λ a b. rest.1 a b ∙ history_at-track_sector x y a b s,
    )

-- The coordinate is between -500 and 500.
abbrev pub IsInGalaxy : ℤ × ℤ → Type 0
IsInGalaxy (x, y) = (negsuc 499 ≤ℤ x) × (x ≤ℤ pos 500) × (negsuc 499 ≤ℤ y) × (y ≤ℤ pos 500)

in_range : (n : ℤ) → is_out_of_range n ≡ false → (negsuc 499 ≤ℤ n) × (n ≤ℤ pos 500)
unfolding is_out_of_range
in_range (pos n) e = (ground (arith, e), ground (arith, e))
in_range (negsuc n) e = (ground (arith, e), ground (arith, e))

-- A coordinate that is accepted passed both tests.
accepted :
    (c : String) (at : ℤ × ℤ)
    → read_coord c ≡ inr at
    → (is_out_of_range at.0 ≡ false) × (is_out_of_range at.1 ≡ false)
unfolding read_coord
accepted c at read = elim (Option-cases (match_coord c)) [
  | inl e ↦ ground (arith, read, e)
  | inr ((x, y), e) ↦ (ground (arith, read, e), ground (arith, read, e))
]

read_coord-IsInGalaxy : (c : String) (at : ℤ × ℤ) → read_coord c ≡ inr at → IsInGalaxy at
read_coord-IsInGalaxy c at read =
    let (x, y) = accepted c at read in
    let on_x = in_range at.0 x in let on_y = in_range at.1 y in (on_x.0, on_x.1, on_y.0, on_y.1)

-- What is known of the answer to `n` arguments.
abbrev IsReading : ℕ → String ⊎ List (ℤ × ℤ) → Type 0
IsReading n (inl message) = Unit
IsReading n (inr coords) = (length coords ≡ n) × All IsInGalaxy coords

cons-IsReading :
    (n : ℕ) (first : String ⊎ (ℤ × ℤ)) (rest : String ⊎ List (ℤ × ℤ))
    → ((at : ℤ × ℤ) → first ≡ inr at → IsInGalaxy at)
    → IsReading n rest
    → IsReading (suc n) (elim first [
      | inl message ↦ inl message
      | inr at ↦ elim rest [ inl message ↦ inl message | inr coords ↦ inr (at ∷ coords) ]
    ])
cons-IsReading n (inl message) rest ok known = tt
cons-IsReading n (inr at) (inl message) ok known = tt
cons-IsReading n (inr at) (inr coords) ok known = (ap suc known.0, (ok at refl, known.1))

read_coords-IsReading : (a : List String) → IsReading (length a) (read_coords a)
unfolding read_coords
read_coords-IsReading [] = (refl, tt)
read_coords-IsReading (c ∷ a) =
    cons-IsReading (length a) (read_coord c) (read_coords a) (read_coord-IsInGalaxy c)
      (read_coords-IsReading a)

-- A query that is accepted names one sector by each argument, and all of them are in the galaxy, from
-- -500 to 500 both ways.
pub read_coords-AreInGalaxy :
    (a : List String) (coords : List (ℤ × ℤ))
    → read_coords a ≡ inr coords
    → (length coords ≡ length a) × All IsInGalaxy coords
read_coords-AreInGalaxy a coords read = subst (IsReading (length a)) read (read_coords-IsReading a)
