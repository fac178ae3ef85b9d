-- ===== src/Discord/Cache/Fetch.antt =====
-- The loop over the pages of members ends with all of them.
use avorioncontrol.Prelude.{
  ℕ, zero, suc, ◌<◌, ◌≡◌, refl, sym, ap, ◌∙◌, String, Option, some, List, [], ◌∷◌, ◌++◌, append-nil,
  append_assoc, length, take, drop, arith,
}
use avorioncontrol.Discord.Cache.{Member, fetch, last_id}

-- Discord answers the members behind the one named, in their order and `suc k` at most, and the first
-- ones for no name.
pub record Serves (pages : String → Option (List Member)) (k : ℕ) (members : List Member)
    : Type 0 where
  pub first : pages "" ≡ some (take (suc k) members)
  pub behind :
      (front : List Member) (m : Member) (back : List Member)
      → members ≡ front ++ m ∷ back
      → pages m.user_id ≡ some (take (suc k) back)

take-append-drop {ℓ} : {A : Type ℓ} (k : ℕ) (xs : List A) → take k xs ++ drop k xs ≡ xs
take-append-drop zero xs = refl
take-append-drop (suc k) [] = refl
take-append-drop (suc k) (x ∷ xs) = ap (λ ys. x ∷ ys) (take-append-drop k xs)

length-drop {ℓ} : {A : Type ℓ} (k : ℕ) (xs : List A) → length (drop k xs) < suc (length xs)
length-drop zero xs = omega arith
length-drop (suc k) [] = omega arith
length-drop (suc k) (x ∷ xs) = omega (arith, length-drop k xs)

-- The last of some members.
last_split :
    (m : Member) (page : List Member)
    → (front : List Member) × (back : Member) × (m ∷ page ≡ front ++ back ∷ [])
      × ((last : String) → last_id last (m ∷ page) ≡ back.user_id)
unfolding last_id
last_split m [] = ([], m, refl, λ last. refl)
last_split m (next ∷ page) =
    let (front, back, split, named) = last_split next page in
    (m ∷ front, back, ap (λ ms. m ∷ ms) split, λ last. named m.user_id)

module _ (pages : String → Option (List Member)) (k : ℕ) (all : List Member)
    (serves : Serves pages k all) where
  -- The page behind one that was got.
  next_page :
      (got : List Member) (m : Member) (r : List Member) (last : String)
      → all ≡ got ++ m ∷ r
      → pages (last_id last (m ∷ take k r)) ≡ some (take (suc k) (drop k r))
  next_page got m r last split =
      let (front, back, parts, named) = last_split m (take k r) in
      rw (named last) (
        serves.behind (got ++ front) back (drop k r) (
          split
          ∙ ap (λ ms. got ++ m ∷ ms) (sym (take-append-drop k r))
          ∙ ap (λ ms. got ++ (ms ++ drop k r)) parts
          ∙ simp append_assoc))

  fetch_from :
      (fuel : ℕ) (last : String) (got rest : List Member)
      → all ≡ got ++ rest
      → pages last ≡ some (take (suc k) rest)
      → length rest < fuel
      → fetch pages fuel last got ≡ some (some all)
  unfolding fetch
  fetch_from zero last got rest split page enough = elim enough [ ]
  fetch_from (suc fuel) last got [] split page enough =
      rw (fetch, page) (ap (λ ms. some (some ms)) (sym (split ∙ append-nil got)))
  fetch_from (suc fuel) last got (m ∷ r) split page enough =
      rw (fetch, page)
        (fetch_from fuel (last_id last (m ∷ take k r)) (got ++ m ∷ take k r) (drop k r)
          (split
            ∙ ap (λ ms. got ++ m ∷ ms) (sym (take-append-drop k r))
            ∙ sym (append_assoc got (m ∷ take k r) (drop k r)))
          (next_page got m r last split) (omega (arith, length-drop {0} k r)))

  -- With more fuel than there are members the loop ends, and it has fetched all members of the guild in
  -- their order, whatever the size of a page: Discord serves them page by page, behind the last one named.
  pub fetch_all : (fuel : ℕ) → length all < fuel → fetch pages fuel "" [] ≡ some (some all)
  fetch_all fuel enough = fetch_from fuel "" [] all refl serves.first enough
