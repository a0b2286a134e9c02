-- ===== src/Seed/Steps.antt =====
-- The steps of the seed, one after the other: which rows each of them finds or adds.
use ch_tech_landing_page_bac.Base.{true, false, Option, none, some, List, [], ◌∷◌, ◌≡◌, refl, All}
use ch_tech_landing_page_bac.Errors.{Result, ok, err}
use ch_tech_landing_page_bac.Text.{Str}
use ch_tech_landing_page_bac.Models.{Db, UserModel, TechnologyModel, CompanyModel, TeamMemberModel}
use ch_tech_landing_page_bac.App.{World, lift, now, uuid4, flush}
use ch_tech_landing_page_bac.App.Keeps.{
  Yields, Anything, bind-Yields, then-Yields, pure-Yields, or_raise-Yields, if-Yields, anything,
}
use ch_tech_landing_page_bac.App.Outside.{Env, SqlLaws}
use ch_tech_landing_page_bac.Auth.Security.{hash_password}
use ch_tech_landing_page_bac.Auth.Users.{email_is}
use ch_tech_landing_page_bac.Content.Company.{first_company}
use ch_tech_landing_page_bac.Seed.{
  Session, sent, admin_email, name_is, is_founder, founder, send_pending, add_admin_user,
  seed_admin_user, add_technology, seed_technologies, add_company, seed_company, add_founder,
  seed_team,
}
use ch_tech_landing_page_bac.Seed.Rows.{
  Has, Has-cons, Has-new, Has-selected, first_company-new, selected,
}

module _ (env : Env) (laws : SqlLaws env) (start : Db) where
  -- The database is as it was when the session began.
  abbrev pub Untouched : World → Type 0
  Untouched w = w.db ≡ start

  -- A session with nothing to commit holds those tables.
  abbrev pub IsTracked : Session → Type 0
  IsTracked s = s.changed ≡ false → s.tables ≡ start

  abbrev pub HasAdmin : Db → Type 0
  HasAdmin db = Has (email_is env (admin_email env)) db.users

  abbrev pub HasNames : List (Str × Str) → Db → Type 0
  HasNames names db = All (λ t. Has (name_is env t.0) db.technologies) names

  abbrev pub HasCompany : Db → Type 0
  HasCompany db = (c : CompanyModel) × (first_company env db.companies ≡ some c)

  abbrev pub HasFounder : Db → Type 0
  HasFounder db =
      (m : TeamMemberModel) × (env.select_one (is_founder env) db.team_members ≡ ok (some m))

  found-Yields : {A : Type 0} (r : Result A) → Yields Untouched (lift r) (λ a. r ≡ ok a)
  unfolding lift
  found-Yields (ok a) = record { run = λ w i. (i, refl) }
  found-Yields (err e) = record { run = λ w i. (i, tt) }

  now-Yields : Yields Untouched (now env) Anything
  unfolding now
  now-Yields = record { run = λ w i. (i, tt) }

  uuid4-Yields : Yields Untouched (uuid4 env) Anything
  unfolding uuid4
  uuid4-Yields = record { run = λ w i. (i, tt) }

  hash_password-Yields : (s : Str) → Yields Untouched (hash_password env s) Anything
  unfolding hash_password
  hash_password-Yields s = record { run = λ w i. (i, anything (env.hashpw w.secrets s)) }

  flush-Yields : (db : Db) → Yields Untouched (flush env db) Anything
  unfolding flush
  flush-Yields db = record { run = λ w i. (i, anything (flush env db w).0) }

  send_pending-Yields : (s : Session) → Yields Untouched (send_pending env s) Anything
  unfolding send_pending
  send_pending-Yields s = if-Yields s.pending (flush-Yields s.tables) (pure-Yields tt tt)

  add_admin_user-Yields :
      (o : Option UserModel) (s : Session)
      → IsTracked s
      → env.select_one (email_is env (admin_email env)) s.tables.users ≡ ok o
      → Yields Untouched (add_admin_user env o (sent s)) (λ s'. IsTracked s' × HasAdmin s'.tables)
  unfolding add_admin_user
  add_admin_user-Yields (some user) s kept e =
      pure-Yields (sent s) (kept, Has-selected env laws _ s.tables.users user e)
  add_admin_user-Yields none s kept e = bind-Yields (hash_password-Yields _) λ h _.
      (bind-Yields uuid4-Yields λ k _.
        (bind-Yields now-Yields λ created _.
          (bind-Yields now-Yields λ updated _.
            (pure-Yields _ (
              (λ c. absurd (cc)),
              Has-new (email_is env (admin_email env)) _ s.tables.users
                  (laws.same_refl (admin_email env)),
            )))))

  pub seed_admin_user-Yields :
      (s : Session)
      → IsTracked s
      → Yields Untouched (seed_admin_user env s) (λ s'. IsTracked s' × HasAdmin s'.tables)
  unfolding seed_admin_user
  seed_admin_user-Yields s kept =
      then-Yields (send_pending-Yields s)
        (bind-Yields (found-Yields _) λ o e. (add_admin_user-Yields o s kept e))

  -- A technology that is there stays there.
  HasNames-cons :
      (names : List (Str × Str)) (m : TechnologyModel) (db : Db)
      → HasNames names db
      → HasNames names (record db { technologies = m ∷ db.technologies })
  HasNames-cons [] m db h = tt
  HasNames-cons (t ∷ names) m db (h, hs) =
      (Has-cons (name_is env t.0) m db.technologies h, HasNames-cons names m db hs)

  add_technology-Yields :
      (o : Option TechnologyModel) (name category : Str) (names : List (Str × Str)) (s : Session)
      → IsTracked s
      → HasAdmin s.tables
      → HasNames names s.tables
      → env.select_one (name_is env name) s.tables.technologies ≡ ok o
      → Yields Untouched (add_technology env o name category (sent s)) (λ s'.
        IsTracked s' × (HasAdmin s'.tables × HasNames ((name, category) ∷ names) s'.tables))
  unfolding add_technology
  add_technology-Yields (some m) name category names s kept admin h e =
      pure-Yields (sent s) (kept, (admin, (Has-selected env laws _ s.tables.technologies m e, h)))
  add_technology-Yields none name category names s kept admin h e = bind-Yields uuid4-Yields λ k _.
      (bind-Yields now-Yields λ created _.
        (bind-Yields now-Yields λ updated _.
          (pure-Yields _ (
            (λ c. absurd (cc)),
            (
              admin,
              (
                Has-new (name_is env name) _ s.tables.technologies (laws.same_refl name),
                HasNames-cons names _ s.tables h,
              ),
            ),
          ))))

  -- A founder that is added where there was none is the only one.
  only_founder :
      (m : TeamMemberModel) (rows : List TeamMemberModel)
      → is_founder env m ≡ true
      → env.select_one (is_founder env) rows ≡ ok none
      → (m' : TeamMemberModel) × (env.select_one (is_founder env) (m ∷ rows) ≡ ok (some m'))
  only_founder m rows good e =
      let others = selected env laws (is_founder env) rows none e in
      (m, laws.one_found (is_founder env) (m ∷ rows) (some m) (rw (good, others) refl))

  -- The names in the order in which the catalogue is done.
  abbrev pub done : List (Str × Str) → List (Str × Str) → List (Str × Str)
  done [] names = names
  done (t ∷ catalog) names = done catalog (t ∷ names)

  pub seed_technologies-Yields :
      (catalog names : List (Str × Str)) (s : Session)
      → IsTracked s
      → HasAdmin s.tables
      → HasNames names s.tables
      → Yields Untouched
          (seed_technologies env catalog s)
          (λ s'. IsTracked s' × (HasAdmin s'.tables × HasNames (done catalog names) s'.tables))
  unfolding seed_technologies
  seed_technologies-Yields [] names s kept admin h = pure-Yields s (kept, (admin, h))
  seed_technologies-Yields ((name, category) ∷ catalog) names s kept admin h =
      then-Yields (send_pending-Yields s) (
        bind-Yields (found-Yields _) λ o e.
          (bind-Yields (add_technology-Yields o name category names s kept admin h e)
            λ s' (kept', (admin', h')).
              (seed_technologies-Yields catalog ((name, category) ∷ names) s' kept' admin' h')))

  module _ (names : List (Str × Str)) where
    -- The rows of the steps before the company.
    abbrev pub HasCatalog : Session → Type 0
    HasCatalog s = IsTracked s × (HasAdmin s.tables × HasNames names s.tables)

    add_company-Yields :
        (o : Option CompanyModel) (s : Session)
        → HasCatalog s
        → first_company env s.tables.companies ≡ o
        → Yields Untouched (add_company env o (sent s)) (λ s'. HasCatalog s' × HasCompany s'.tables)
    unfolding add_company
    add_company-Yields (some m) s (kept, h) e = pure-Yields (sent s) ((kept, h), (m, e))
    add_company-Yields none s (kept, h) e = bind-Yields uuid4-Yields λ k _.
        (bind-Yields now-Yields λ created _.
          (bind-Yields now-Yields λ updated _.
            (pure-Yields _
              (((λ c. absurd (cc)), h), first_company-new env laws _ s.tables.companies))))

    pub seed_company-Yields :
        (s : Session)
        → HasCatalog s
        → Yields Untouched (seed_company env s) (λ s'. HasCatalog s' × HasCompany s'.tables)
    unfolding seed_company
    seed_company-Yields s h = then-Yields (send_pending-Yields s) (add_company-Yields _ s h refl)

    add_founder-Yields :
        (o : Option TeamMemberModel) (s : Session)
        → HasCatalog s
        → HasCompany s.tables
        → env.select_one (is_founder env) s.tables.team_members ≡ ok o
        → Yields Untouched
            (add_founder env o (sent s))
            (λ s'. HasCatalog s' × (HasCompany s'.tables × HasFounder s'.tables))
    unfolding add_founder
    add_founder-Yields (some m) s (kept, h) company e =
        pure-Yields (sent s) ((kept, h), (company, (m, e)))
    add_founder-Yields none s (kept, h) company e = bind-Yields (found-Yields _) λ found _.
        (bind-Yields (or_raise-Yields found _) λ user _.
          (bind-Yields uuid4-Yields λ k _.
            (bind-Yields now-Yields λ created _.
              (bind-Yields now-Yields λ updated _.
                (pure-Yields _ (
                  ((λ c. absurd (cc)), h),
                  (company, only_founder _ s.tables.team_members (laws.same_refl (founder env)) e),
                ))))))

    pub seed_team-Yields :
        (s : Session)
        → HasCatalog s
        → HasCompany s.tables
        → Yields Untouched
            (seed_team env s)
            (λ s'. HasCatalog s' × (HasCompany s'.tables × HasFounder s'.tables))
    unfolding seed_team
    seed_team-Yields s h company =
        then-Yields (send_pending-Yields s)
          (bind-Yields (found-Yields _) λ o e. (add_founder-Yields o s h company e))
