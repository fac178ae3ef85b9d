-- ===== src/Commands/Output/Pages.antt =====
-- The shape of the pages that `Construct` makes: how many, numbered how, how long.
use avorioncontrol.Prelude.{
  ℕ, suc, ◌+◌, String, ◌≡◌, refl, Bool, List, [], ◌∷◌, ◌++◌, arith, length, length-append, inl, inr,
  ◌∙◌, Bool-cases,
}
use avorioncontrol.Commands.Output.{
  Page, Building, first_page, add_to_pages, add_all, open_page, close_page, fits, build_pages,
}

-- The pages are numbered in order, from `n`.
abbrev pub NumberedFrom : ℕ → List Page → Type 0
NumberedFrom n [] = Unit
NumberedFrom n (p ∷ ps) = (p.index ≡ n) × NumberedFrom (suc n) ps

NumberedFrom-append :
    (n : ℕ) (ps : List Page) (p : Page)
    → NumberedFrom n ps
    → p.index ≡ n + length ps
    → NumberedFrom n (ps ++ p ∷ [])
NumberedFrom-append n [] p h e = (omega arith, tt)
NumberedFrom-append n (q ∷ ps) p h e = (h.0, NumberedFrom-append (suc n) ps p h.1 (omega arith))

abbrev IsNumbered : Building → Type 0
IsNumbered b = NumberedFrom 0 b.0 × (b.1.index ≡ length b.0)

module _ (monospace : Bool) (prefix : String) where
  index-open_page : (page : Page) → (open_page monospace prefix page).index ≡ page.index
  unfolding open_page
  index-open_page page = ground arith

  index-close_page : (page : Page) → (close_page monospace prefix page).index ≡ page.index
  unfolding close_page
  index-close_page page = ground arith

  closed-IsNumbered :
      (done : List Page) (page : Page)
      → IsNumbered (done, page)
      → NumberedFrom 0 (done ++ close_page monospace prefix page ∷ [])
  closed-IsNumbered done page h =
      NumberedFrom-append 0 done (close_page monospace prefix page) h.0
        (omega (arith, index-close_page page, h.1))

  add_to_pages-IsNumbered :
      (b : Building) (line : String)
      → IsNumbered b
      → IsNumbered (add_to_pages monospace prefix b line)
  unfolding add_to_pages
  add_to_pages-IsNumbered (done, page) line h =
      let opened : Page = open_page monospace prefix page in
      let same : opened.index ≡ length done = index-open_page page ∙ h.1 in
      elim (Bool-cases (fits opened line)) [
        | inl e ↦ rw e (h.0, same)
        | inr e ↦ rw e (
          closed-IsNumbered done opened (h.0, same),
          omega (arith, h.1, length-append {0} done (close_page monospace prefix opened ∷ [])),
        )
      ]

  add_all-IsNumbered :
      (b : Building) (lines : List String)
      → IsNumbered b
      → IsNumbered (add_all monospace prefix b lines)
  unfolding add_all
  add_all-IsNumbered b [] h = h
  add_all-IsNumbered b (line ∷ lines) h =
      add_all-IsNumbered (add_to_pages monospace prefix b line) lines
        (add_to_pages-IsNumbered b line h)

  build_pages-NumberedFrom :
      (lines : List String) → NumberedFrom 0 (build_pages monospace prefix lines)
  unfolding build_pages
  build_pages-NumberedFrom lines =
      let b : Building = add_all monospace prefix ([], first_page) lines in
      closed-IsNumbered b.0 b.1 (add_all-IsNumbered ([], first_page) lines (tt, refl))
