-- ===== src/Avorion/Jumps/Laws.antt =====
-- What the history of jumps holds, and what `GetLastJumps` answers.
use avorioncontrol.Prelude.{
  ℕ, zero, suc, ◌≤◌, ◌≡◌, refl, sym, ap, ◌∙◌, ◌++◌, some, List, [], ◌∷◌, pos, negsuc, ltb, length,
  length-append, get_elem?, get_elem?-some, drop, take, arith, Bool-cases, inl, inr, ltb→lt, ltb→le,
}
use avorioncontrol.Avorion.Jumps.{ShipCoordData, cap_history, add_jump, jumps_from, get_last_jumps}

module _ {ℓ} {A : Type ℓ} where
  -- A list backwards.
  abbrev rev : List A → List A
  rev [] = []
  rev (x ∷ xs) = rev xs ++ x ∷ []

  rev-append : (xs : List A) (x : A) → rev (xs ++ x ∷ []) ≡ x ∷ rev xs
  rev-append [] x = refl
  rev-append (y ∷ xs) x = ap (λ l. l ++ y ∷ []) (rev-append xs x)

  length-rev : (xs : List A) → length (rev xs) ≡ length xs
  length-rev [] = refl
  length-rev (x ∷ xs) = omega (arith, length-append (rev xs) (x ∷ []), length-rev xs)

  take-all : (n : ℕ) (xs : List A) → length xs ≤ n → take n xs ≡ xs
  take-all zero [] le = refl
  take-all (suc n) [] le = refl
  take-all zero (x ∷ xs) le = ground arith
  take-all (suc n) (x ∷ xs) le = ap (λ l. x ∷ l) (take-all n xs (omega arith))

  take-take : (m n : ℕ) (xs : List A) → m ≤ n → take m (take n xs) ≡ take m xs
  take-take zero n xs le = refl
  take-take (suc m) zero xs le = ground arith
  take-take (suc m) (suc n) [] le = refl
  take-take (suc m) (suc n) (x ∷ xs) le = ap (λ l. x ∷ l) (take-take m n xs (omega arith))

  take-append : (xs ys : List A) → take (length xs) (xs ++ ys) ≡ xs
  take-append [] ys = refl
  take-append (x ∷ xs) ys = ap (λ l. x ∷ l) (take-append xs ys)

  take-get :
      (xs : List A) (i : ℕ) (x : A)
      → get_elem? xs i ≡ some x
      → take (suc i) xs ≡ take i xs ++ x ∷ []
  take-get [] i x h = ground arith
  take-get (y ∷ xs) zero x h = ground arith
  take-get (y ∷ xs) (suc i) x h = ap (λ l. y ∷ l) (take-get xs i x h)

next_jump :
    (history : List ShipCoordData) (i n : ℕ) (j : ShipCoordData)
    → get_elem? history i ≡ some j
    → jumps_from history (suc i) (suc n) ≡ j ∷ jumps_from history i n
unfolding jumps_from
next_jump history i n j at = rw (jumps_from, at) refl

-- The loop answers with the latest jumps, the last one first.
jumps_from-rev :
    (history : List ShipCoordData) (i n : ℕ)
    → i ≤ length history
    → jumps_from history i n ≡ take n (rev (take i history))
unfolding jumps_from
jumps_from-rev history zero zero le = refl
jumps_from-rev history zero (suc n) le = refl
jumps_from-rev history (suc i) zero le = refl
jumps_from-rev history (suc i) (suc n) le =
    let (j, at) = get_elem?-some history i (omega arith) in
    next_jump history i n j at
    ∙ ap (λ l. j ∷ l) (jumps_from-rev history i n (omega arith))
    ∙ sym (ap (take (suc n)) (ap rev (take-get history i j at) ∙ rev-append (take i history) j))

drop-rev :
    (max : ℕ) (history : List ShipCoordData)
    → length history ≡ suc max
    → rev (drop 1 history) ≡ take max (rev history)
drop-rev max [] full = ground arith
drop-rev max (j ∷ history) full =
    let same : max ≡ length (rev history) = omega (arith, length-rev history) in
    sym (ap (λ n. take n (rev history ++ j ∷ [])) same ∙ take-append (rev history) (j ∷ []))

cap_history-rev :
    (max : ℕ) (history : List ShipCoordData)
    → length history ≤ suc max
    → rev (cap_history max history) ≡ take max (rev history)
unfolding cap_history
cap_history-rev max history few = elim (Bool-cases (ltb max (length history))) [
  | inr e ↦ rw e (
      sym (
        take-all max (rev history)
          (omega (arith, ltb→le max (length history) e, length-rev history))))
  | inl e ↦ rw e (drop-rev max history (omega (arith, ltb→lt max (length history) e)))
]

cap_history-length :
    (max : ℕ) (history : List ShipCoordData)
    → length history ≤ suc max
    → length (cap_history max history) ≤ max
unfolding cap_history
cap_history-length max [] few = ground arith
cap_history-length max (j ∷ history) few = ground arith

-- The jumps with their times, the latest one first, and the history after `AddJump` of each.
abbrev pub stamped : List (ShipCoordData × ℕ) → List ShipCoordData
stamped [] = []
stamped ((sc, now) ∷ js) = record sc { time = now } ∷ stamped js

unfoldable pub history_of : List (ShipCoordData × ℕ) → List ShipCoordData
history_of [] = []
history_of ((sc, now) ∷ js) = add_jump sc now (history_of js)

history_of-length : (js : List (ShipCoordData × ℕ)) → length (history_of js) ≤ 1000
unfolding history_of add_jump
history_of-length [] = ground arith
history_of-length ((sc, now) ∷ js) =
    let j : ShipCoordData = record sc { time = now } in
    cap_history-length 1000 (history_of js ++ j ∷ [])
      (omega (arith, length-append (history_of js) (j ∷ []), history_of-length js))

history_of-rev : (js : List (ShipCoordData × ℕ)) → rev (history_of js) ≡ take 1000 (stamped js)
unfolding history_of add_jump
history_of-rev [] = refl
history_of-rev ((sc, now) ∷ js) =
    let j : ShipCoordData = record sc { time = now } in
    cap_history-rev 1000 (history_of js ++ j ∷ [])
      (omega (arith, length-append (history_of js) (j ∷ []), history_of-length js))
    ∙ ap (take 1000) (rev-append (history_of js) j ∙ ap (λ l. j ∷ l) (history_of-rev js))
    ∙ ap (λ l. j ∷ l) (take-take 999 1000 (stamped js) (omega arith))

-- After any jumps, with their times, `GetLastJumps` answers with the latest of them, the last one
-- first: with `limit` of the latest thousand, or with all of that thousand for a limit below 0.
pub get_last_jumps_exact :
    (js : List (ShipCoordData × ℕ)) (limit : ℕ)
    → (get_last_jumps (pos limit) (history_of js) ≡ take limit (take 1000 (stamped js)))
      × (get_last_jumps (negsuc limit) (history_of js) ≡ take 1000 (stamped js))
unfolding get_last_jumps
get_last_jumps_exact js limit =
    let h : List ShipCoordData = history_of js in
    let whole : rev (take (length h) h) ≡ take 1000 (stamped js) =
      ap rev (take-all (length h) h (omega arith)) ∙ history_of-rev js in
    (
      jumps_from-rev h (length h) limit (omega arith) ∙ ap (take limit) whole,
      jumps_from-rev h (length h) (length h) (omega arith)
          ∙ ap (take (length h)) (ap rev (take-all (length h) h (omega arith)))
          ∙ take-all (length h) (rev h) (omega (arith, length-rev h))
          ∙ history_of-rev js,
    )
