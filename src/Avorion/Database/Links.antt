-- ===== src/Avorion/Database/Links.antt =====
-- The links between players and Discord users that avorion/database/db.go keeps.
use avorioncontrol.Prelude.{
  String, ◌≡◌, ◌≢◌, refl, ap, eq_refl, subst, sym, ◌==◌, eq_iff, Bool, true, false, ◌&&◌, none,
  some, List, [], ◌∷◌, ◌++◌, inl, inr, ℤ, eqb_ℤ, eqb_ℤ_iff, any, arith, ◌∙◌, Option-cases,
  Sum-cases, inr_injective,
}
use avorioncontrol.Prelude.Decimal.{atoi, parse_int, parse_int-atoi, show_ℤ}
use avorioncontrol.Avorion.Server.{Player}
use avorioncontrol.Avorion.Database.{
  sql_error, number, text, Engine, TrackingDb, ran, with_open, insert_integration,
  delete_integration, select_integration, scanned_text, add_integration_row, remove_integration,
  set_discord_to_player,
}

-- A row of the table of integrations.
pub record Link : Type 0 where
  pub faction : ℤ
  pub discord : String

-- A row links the faction with the user.
unfoldable pub links : (fid : ℤ) → (did : String) → Link → Bool
links fid did row = eqb_ℤ row.faction fid && row.discord == did

-- A row links the faction.
unfoldable pub of_faction : (fid : ℤ) → Link → Bool
of_faction fid row = eqb_ℤ row.faction fid

-- What SQLite documents of the three statements, over the rows of the table: an insertion adds its
-- row; a deletion adds none, and takes no row whose `DISCORD` is another text than the first argument;
-- a row that is found is there, and none is found only if there is none.
pub record IsLinkTable {Db : Type 0} (e : Engine Db) (integrations : Db → List Link) : Type 0 where
  pub added_links :
      (fid : ℤ) (did : String) (db after : Db)
      → e.execute insert_integration (number fid ∷ text did ∷ []) db ≡ inr after
      → integrations after ≡ integrations db ++ record { faction = fid; discord = did } ∷ []
  pub kept_links :
      (a : ℤ) (b : String) (fid : ℤ) (did : String) (db after : Db)
      → e.execute delete_integration (number a ∷ text b ∷ []) db ≡ inr after
      → did ≢ show_ℤ a
      → any (links fid did) (integrations db) ≡ true
      → any (links fid did) (integrations after) ≡ true
  pub no_new_links :
      (a : ℤ) (b : String) (fid : ℤ) (did : String) (db after : Db)
      → e.execute delete_integration (number a ∷ text b ∷ []) db ≡ inr after
      → any (links fid did) (integrations after) ≡ true
      → any (links fid did) (integrations db) ≡ true
  pub found_links :
      (fid : ℤ) (did : String) (db : Db)
      → e.select_text select_integration (number fid ∷ []) db ≡ inr (some did)
      → any (links fid did) (integrations db) ≡ true
  pub missing_links :
      (fid : ℤ) (db : Db)
      → e.select_text select_integration (number fid ∷ []) db ≡ inr none
      → any (of_faction fid) (integrations db) ≡ false

links-of_faction :
    (fid : ℤ) (did : String) (rows : List Link)
    → any (links fid did) rows ≡ true
    → any (of_faction fid) rows ≡ true
unfolding links of_faction
links-of_faction fid did [] h = h
links-of_faction fid did (row ∷ rows) h = ground (arith, h, links-of_faction fid did rows)

-- Behind rows of other factions a row is the only one of its faction.
only_link :
    (fid : ℤ) (did d : String) (rows : List Link)
    → any (of_faction fid) rows ≡ false
    → any (links fid d) (rows ++ record { faction = fid; discord = did } ∷ []) ≡ did == d
unfolding links of_faction
only_link fid did d [] new = ground (arith, eqb_ℤ_iff fid fid, eq_iff did d)
only_link fid did d (row ∷ rows) new = ground (arith, only_link fid did d rows)

-- The rows of a faction are of one user.
unfoldable pub IsLinked : (fid : ℤ) → (did : String) → List Link → Type 0
IsLinked fid did rows =
    (any (links fid did) rows ≡ true) × ((d : String) → any (links fid d) rows ≡ true → d ≡ did)

module _ {Db : Type 0} (e : Engine Db) (t : TrackingDb) (integrations : Db → List Link)
    (table : IsLinkTable e integrations) where
  linked_is_read :
      (fid : ℤ) (did : String) (q q' : Player) (db : Db)
      → parse_int q.index ≡ fid
      → IsLinked fid did (integrations db)
      → set_discord_to_player e t q db ≡ inr q'
      → q' ≡ record q { discordid = did }
  unfolding set_discord_to_player scanned_text IsLinked
  linked_is_read fid did q q' db read (there, only) made =
      elim (Option-cases (e.open_db t.dbpath db)) [
        | inr (_, failed) ↦ cc (made, failed)
        | inl opened ↦ elim (Sum-cases (e.select_text select_integration (number fid ∷ []) db)) [
          | inl (error, failed) ↦
              let run : set_discord_to_player e t q db ≡ inl (sql_error error) =
                rw (set_discord_to_player, opened, read, failed) refl in
              cc (run, made)
          | inr (none, missing) ↦
              cc (
                table.missing_links fid db missing,
                links-of_faction fid did (integrations db) there,
              )
          | inr (some d, found) ↦
              let run : set_discord_to_player e t q db ≡ inr (record q { discordid = d }) =
                rw (set_discord_to_player, opened, read, found) refl in
              sym (inr_injective (sym run ∙ made))
              ∙ ap (λ u. record q { discordid = u }) (only d (table.found_links fid d db found))
        ]
      ]

  remove_keeps :
      (fid : ℤ) (did : String) (p : Player) (db : Db)
      → parse_int p.index ≡ fid
      → did ≢ show_ℤ fid
      → IsLinked fid did (integrations db)
      → IsLinked fid did (integrations (remove_integration e t p db).1)
  unfolding remove_integration with_open ran IsLinked
  remove_keeps fid did p db read other (there, only) = elim (Option-cases (e.open_db t.dbpath db)) [
    | inr (_, failed) ↦ rw (remove_integration, with_open, failed) (there, only)
    | inl opened ↦
        elim (Sum-cases (e.execute delete_integration (number fid ∷ text p.discordid ∷ []) db)) [
          | inl (_, failed) ↦ rw (remove_integration, with_open, opened, read, failed) (there, only)
          | inr (after, gone) ↦
              rw (remove_integration, with_open, opened, read, gone)
                (
                  table.kept_links fid p.discordid fid did db after gone other there,
                  λ d still. only d (table.no_new_links fid p.discordid fid d db after gone still),
                )
        ]
  ]

  add_links :
      (fid : ℤ) (did : String) (p : Player) (db after : Db)
      → atoi p.index ≡ some fid
      → any (of_faction fid) (integrations db) ≡ false
      → add_integration_row e t did p db ≡ (none, after)
      → IsLinked fid did (integrations after)
  unfolding add_integration_row with_open ran IsLinked
  add_links fid did p db after read new made = elim (Option-cases (e.open_db t.dbpath db)) [
    | inr (error, failed) ↦
        let run : add_integration_row e t did p db ≡ (some (sql_error error), db) =
          rw (add_integration_row, with_open, failed) refl in
        cc (ap (λ r. r.0) (sym run ∙ made))
    | inl opened ↦ elim (Sum-cases (e.execute insert_integration (number fid ∷ text did ∷ []) db)) [
      | inl (error, failed) ↦
          let run : add_integration_row e t did p db ≡ (some (sql_error error), db) =
            rw (add_integration_row, with_open, opened, read, failed) refl in
          cc (ap (λ r. r.0) (sym run ∙ made))
      | inr (after', added) ↦
          let run : add_integration_row e t did p db ≡ (none, after') =
            rw (add_integration_row, with_open, opened, read, added) refl in
          let rows = table.added_links fid did db after' added in
          let linked : IsLinked fid did (integrations after') = rw rows (
            only_link fid did did (integrations db) new ∙ eq_refl did,
            λ d h. sym ((eq_iff did d).0 (sym (only_link fid did d (integrations db) new) ∙ h)),
          ) in
          subst (λ b. IsLinked fid did (integrations b)) (ap (λ r. r.1) (sym run ∙ made)) linked
    ]
  ]

  -- Over a table that keeps what it is given: after `AddIntegration` without an error, for a player
  -- whose index is a number and who had no link, `SetDiscordToPlayer` gives a player of that index that
  -- very Discord user, or returns an error. It does so too after a `RemoveIntegration` for a player of
  -- that index, with an error or without one, unless the user is written like the index: the link comes
  -- back.
  pub link_comes_back :
      (fid : ℤ) (did : String) (p q r : Player) (db after : Db)
      → atoi p.index ≡ some fid
      → q.index ≡ p.index
      → r.index ≡ p.index
      → did ≢ show_ℤ fid
      → any (of_faction fid) (integrations db) ≡ false
      → add_integration_row e t did p db ≡ (none, after)
      → (q' : Player)
      → ((set_discord_to_player e t q after ≡ inr q') → (q' ≡ record q { discordid = did }))
        × ((set_discord_to_player e t q (remove_integration e t r after).1 ≡ inr q')
            → (q' ≡ record q { discordid = did }))
  link_comes_back fid did p q r db after read same_q same_r other new made q' =
      let linked = add_links fid did p db after read new made in
      let number_p = parse_int-atoi p.index fid read in
      let number_q = ap parse_int same_q ∙ number_p in
      (
        linked_is_read fid did q q' after number_q linked,
        linked_is_read fid did q q' (remove_integration e t r after).1 number_q
            (remove_keeps fid did r after (ap parse_int same_r ∙ number_p) other linked),
      )
