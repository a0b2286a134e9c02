-- ===== src/Content/Company/Singleton.antt =====
-- How many rows the company profile has.
use ch_tech_landing_page_bac.Base.{
  ◌≤◌, Bool, true, false, Option, none, some, List, [], ◌∷◌, ◌≡◌, refl, all-perm, length,
  Bool-cases, inl, inr, arith,
}
use ch_tech_landing_page_bac.Base.Keys.{update_where}
use ch_tech_landing_page_bac.Models.{CompanyModel, Db}
use ch_tech_landing_page_bac.Errors.{Result}
use ch_tech_landing_page_bac.App.{commit, lift, ◌>>◌, World, run_app}
use ch_tech_landing_page_bac.App.Outside.{Env, SqlLaws}
use ch_tech_landing_page_bac.App.Rows.{updated_time}
use ch_tech_landing_page_bac.Content.Company.{
  assigned, CompanyInput, first_company, put_company, save_company, update_company,
}

length-update_where :
    {A : Type 0} (p : A → Bool) (f : A → A) (xs : List A) → length (update_where p f xs) ≡ length xs
length-update_where p f [] = refl
length-update_where p f (x ∷ xs) = omega (arith, length-update_where p f xs)

module _ (env : Env) (laws : SqlLaws env) where
  -- The server finds no row only in an empty table.
  pub first_company-none : (rows : List CompanyModel) → first_company env rows ≡ none → rows ≡ []
  unfolding first_company
  first_company-none [] e = refl
  first_company-none (m ∷ rows) e = picked (env.select (λ _. true) (m ∷ rows)) refl e
    where
      picked :
          (found : List CompanyModel)
          → env.select (λ _. true) (m ∷ rows) ≡ found
          → (elim found [ [] ↦ none | x ∷ _ ↦ some x ]) ≡ none
          → m ∷ rows ≡ []
      picked (x ∷ found) f h = absurd (cc)
      picked [] f h = absurd (
          let same = all-perm (λ _. false) (laws.select_perm (λ _. true) (m ∷ rows)) in
          let bad : true ≡ false = rw f at same in cc)

  after_commit :
      {A : Type 0} (P : World → Type 0) (db : Db) (r : Result A) (w : World)
      → P w
      → P (record w { db = db })
      → P ((commit env db >> lift r) w).1
  unfolding run_app
  after_commit P db r w old new = elim (Bool-cases (env.accepts db)) [
    | inl e ↦ rw e new
    | inr e ↦ rw e old
  ]

  put_company-length :
      (o : Option CompanyModel) (input : CompanyInput) (w : World)
      → first_company env w.db.companies ≡ o
      → length w.db.companies ≤ 1
      → length (put_company env o input w).1.db.companies ≤ 1
  unfolding put_company updated_time run_app
  put_company-length none input w f one =
      let empty = first_company-none w.db.companies f in
      after_commit (λ w'. length w'.db.companies ≤ 1) _ _ _ one (rw empty (omega arith))
  put_company-length (some m) input w f one =
      elim (Bool-cases (env.is_modified m (assigned input m))) [
        | inl e ↦ rw e (
            after_commit (λ w'. length w'.db.companies ≤ 1) _ _ _ one
              (omega (arith, one, length-update_where _ _ w.db.companies)))
        | inr e ↦ rw e (
            after_commit (λ w'. length w'.db.companies ≤ 1) _ _ _ one
              (omega (arith, one, length-update_where _ _ w.db.companies)))
      ]

  -- Updating the profile keeps it the only one, whatever the update answers: a table of at most one
  -- row has at most one row afterwards.
  pub update_company-length :
      (input : CompanyInput) (w : World)
      → length w.db.companies ≤ 1
      → length (update_company env input w).1.db.companies ≤ 1
  unfolding update_company save_company run_app
  update_company-length input w one =
      put_company-length (first_company env w.db.companies) input w refl one
