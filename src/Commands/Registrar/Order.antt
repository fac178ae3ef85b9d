-- ===== src/Commands/Registrar/Order.antt =====
-- The order of Go's strings, and what `sort.Strings` does to the names of a registry.
use Prim.Native.Char.{code}
use Prim.Native.Nat.{Ordering, compare as compare_ℕ}
use Prim.Native.String.{compare, then}
use Prim.Native.String.compare.{nil-cons, cons-nil, cons-cons}
use avorioncontrol.Prelude.{
  ℕ, String, subst, ◌⊎◌, inl, inr, ◌≡◌, ◌≢◌, refl, sym, ap, ◌∙◌, List, [], ◌∷◌, arith,
}
use avorioncontrol.Commands.Registrar.{insert_sorted, sort_strings}

-- The order read backwards.
abbrev flip : Ordering → Ordering
flip Ordering.lt = Ordering.gt
flip Ordering.eq = Ordering.eq
flip Ordering.gt = Ordering.lt

flip-then : (a b : Ordering) → flip (then a b) ≡ then (flip a) (flip b)
flip-then Ordering.lt b = refl
flip-then Ordering.eq b = refl
flip-then Ordering.gt b = refl

compare_backwards : (a b : ℕ) → compare_ℕ a b ≡ flip (compare_ℕ b a)
compare_backwards a b = ground arith

compare-flip : (s t : String) → compare s t ≡ flip (compare t s)
compare-flip String.[] String.[] = refl
compare-flip String.[] (String.◌∷◌ d t) =
    (λ i. nil-cons d t i) ∙ sym (ap flip (λ i. cons-nil d t i))
compare-flip (String.◌∷◌ c s) String.[] =
    (λ i. cons-nil c s i) ∙ sym (ap flip (λ i. nil-cons c s i))
compare-flip (String.◌∷◌ c s) (String.◌∷◌ d t) =
    (λ i. cons-cons c d s t i)
    ∙ ap (λ o. then o (compare s t)) (compare_backwards (code c) (code d))
    ∙ ap (then (flip (compare_ℕ (code d) (code c)))) (compare-flip s t)
    ∙ sym (flip-then (compare_ℕ (code d) (code c)) (compare t s))
    ∙ sym (ap flip (λ i. cons-cons d c t s i))

flipped : (s t : String) → compare s t ≡ Ordering.gt → compare t s ≢ Ordering.gt
flipped s t after = ground (arith, compare-flip s t)

-- The texts follow each other in the order, none before the first.
abbrev pub Ascends : String → List String → Type 0
Ascends t [] = Unit
Ascends t (x ∷ l) = (compare t x ≢ Ordering.gt) × Ascends x l

-- The list is in alphabetical order, that of the code points.
abbrev pub IsAlphabetical : List String → Type 0
IsAlphabetical [] = Unit
IsAlphabetical (x ∷ l) = Ascends x l

-- What `insert_sorted` answers in front of a text.
insert_cases :
    (s x : String) (l : List String)
    → ((compare s x ≡ Ordering.gt) × (insert_sorted s (x ∷ l) ≡ x ∷ insert_sorted s l))
      ⊎ ((compare s x ≢ Ordering.gt) × (insert_sorted s (x ∷ l) ≡ s ∷ x ∷ l))
unfolding insert_sorted
insert_cases s x l = ground arith

insert_sorted-Ascends :
    (s t : String) (l : List String)
    → Ascends t l
    → compare t s ≢ Ordering.gt
    → Ascends t (insert_sorted s l)
unfolding insert_sorted
insert_sorted-Ascends s t [] ok before = (before, tt)
insert_sorted-Ascends s t (x ∷ l) (first, ok) before = elim (insert_cases s x l) [
  | inl (after, e) ↦
      subst (Ascends t) (sym e) (first, insert_sorted-Ascends s x l ok (flipped s x after))
  | inr (not_after, e) ↦ subst (Ascends t) (sym e) (before, (not_after, ok))
]

insert_sorted-IsAlphabetical :
    (s : String) (l : List String) → IsAlphabetical l → IsAlphabetical (insert_sorted s l)
unfolding insert_sorted
insert_sorted-IsAlphabetical s [] ok = tt
insert_sorted-IsAlphabetical s (x ∷ l) ok = elim (insert_cases s x l) [
  | inl (after, e) ↦
      subst IsAlphabetical (sym e) (insert_sorted-Ascends s x l ok (flipped s x after))
  | inr (not_after, e) ↦ subst IsAlphabetical (sym e) (not_after, ok)
]

pub sort_strings-IsAlphabetical : (l : List String) → IsAlphabetical (sort_strings l)
unfolding sort_strings
sort_strings-IsAlphabetical [] = tt
sort_strings-IsAlphabetical (s ∷ l) =
    insert_sorted-IsAlphabetical s (sort_strings l) (sort_strings-IsAlphabetical l)
